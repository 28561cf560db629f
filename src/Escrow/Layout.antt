-- ===== src/Escrow/Layout.antt =====
-- What `build_escrow` puts into the note, and what the note's script then does with it.
use bartok.Base.{
  ◌+◌, ◌≤◌, ◌<◌, ◌≡◌, ◌≢◌, refl, sym, ◌∙◌, some, List, [], ◌∷◌, ◌++◌, map, ok, Bool-cases,
  Option-cases, Result-cases, inl, inr, length,
}
use mathlib.Core.Path.{subst}
use bartok.Miden.{Word, private, fungible, Note}
use bartok.Contract.{BartokSettlement, Kernel, OutputNote, run, vm_asset}
use bartok.Contract.Split.{payment, payments_of, run-IsSettlement}
use bartok.Contract.Storage.{settlement_storage_ok, storage_items, stored, from_items}
use bartok.Host.{Host}
use bartok.Escrow.{
  Inputs, Parameters, EscrowBuilt, assemble, load_script, parameters, build_escrow, escrow_parts,
}

module _ (h : Host) where
  open h use {
    miden, Felt, AccountId, Tag, Script, Recipient, Fungible, Bytes, Request, fungible_new,
    new_fields, recipient_new, recipient_new_fields, request_build, assets_new_one, p2id_recipient,
    digest, with_account_target, tag_of_u32, faucet_id, amount, recipient_storage, id_eq, id_eq_iff,
    as_canonical_u64, account_new_parts, asset_value, value_amount,
  }

  -- The settlement that a session's parameters and serials stand for.
  abbrev pub agreed : Parameters AccountId → Word Felt → Word Felt → BartokSettlement Felt
  agreed p seller_serial buyer_serial =
      stored miden (digest (p2id_recipient p.seller seller_serial)) (with_account_target p.seller)
        (digest (p2id_recipient p.buyer buyer_serial)) (with_account_target p.buyer) private
        p.operator

  pub record IsEscrow (p : Parameters AccountId) (b : EscrowBuilt h) : Type 0 where
    pub parties_differ : p.seller ≢ p.buyer
    pub holds :
        (a : Fungible) × (b.escrow_note.assets ≡ fungible a ∷ [])
        × (faucet_id a ≡ p.faucet)
        × (amount a ≡ p.budget)
        × (fungible_new p.faucet p.budget ≡ some a)
    pub metadata :
        b.escrow_note.metadata
        ≡ record { sender = p.buyer; note_type = private; tag = tag_of_u32 p.operator_tag }
    pub seller_paid : b.seller_recipient ≡ p2id_recipient p.seller b.seller_serial
    pub buyer_paid : b.buyer_recipient ≡ p2id_recipient p.buyer b.buyer_serial
    pub reads_back :
        from_items (recipient_storage b.escrow_note.recipient)
        ≡ some (agreed p b.seller_serial b.buyer_serial)

  -- The note that `assemble` makes.
  abbrev note_of : Inputs Bytes (Word Felt) → Parameters AccountId → Script → Fungible → Note miden
  note_of env p script a = record {
    assets = fungible a ∷ [];
    metadata = record { sender = p.buyer; note_type = private; tag = tag_of_u32 p.operator_tag };
    recipient = recipient_new (env.words 2) script (
        storage_items miden (digest (p2id_recipient p.seller (env.words 0)))
          (with_account_target p.seller) (digest (p2id_recipient p.buyer (env.words 1)))
          (with_account_target p.buyer) private p.operator);
  }

  abbrev built_of :
      Inputs Bytes (Word Felt) → Parameters AccountId → Script → Fungible → Request → EscrowBuilt h
  built_of env p script a request = record {
    escrow_note = note_of env p script a;
    request = request;
    seller_recipient = p2id_recipient p.seller (env.words 0);
    buyer_recipient = p2id_recipient p.buyer (env.words 1);
    seller_serial = env.words 0;
    buyer_serial = env.words 1;
    seller = p.seller;
    buyer = p.buyer;
  }

  built_of-IsEscrow :
      (env : Inputs Bytes (Word Felt)) (p : Parameters AccountId) (script : Script) (a : Fungible)
      (request : Request)
      → p.seller ≢ p.buyer
      → fungible_new p.faucet p.budget ≡ some a
      → IsEscrow p (built_of env p script a request)
  unfolding from_items
  built_of-IsEscrow env p script a request differ made =
      let (faucet, budget) = new_fields p.faucet p.budget a made in
      record {
        parties_differ = differ;
        holds = (a, refl, faucet, budget, made);
        metadata = refl;
        seller_paid = refl;
        buyer_paid = refl;
        reads_back = rw ((recipient_new_fields (env.words 2) script _).0);
      }

  assemble-built_of :
      (env : Inputs Bytes (Word Felt)) (p : Parameters AccountId) {b : EscrowBuilt h}
      → assemble h env p ≡ ok b
      → (script : Script) × (a : Fungible) × (request : Request) × (p.seller ≢ p.buyer)
        × (fungible_new p.faucet p.budget ≡ some a)
        × (b ≡ built_of env p script a request)
  unfolding assemble
  assemble-built_of env p {b} e = elim (Bool-cases (id_eq p.seller p.buyer)) [
    | inl same ↦ cc (rw same at e)
    | inr differ ↦ elim (Result-cases (load_script h env)) [
      | inr (message, failed) ↦ cc (rw (differ, settlement_storage_ok miden, failed) at e)
      | inl (script, loaded) ↦ elim (Option-cases (fungible_new p.faucet p.budget)) [
        | inl refused ↦ cc (rw (differ, settlement_storage_ok miden, loaded, refused) at e)
        | inr (a, made) ↦
            elim (Option-cases
              (request_build (escrow_parts h (note_of env p script a) (env.words 3)))) [
                | inl refused ↦ cc (
                    rw (differ, settlement_storage_ok miden, loaded, made, assets_new_one, refused)
                      at e)
                | inr (request, sent) ↦
                    let done : ok (built_of env p script a request) ≡ ok b =
                      rw (differ, settlement_storage_ok miden, loaded, made, assets_new_one, sent)
                        at e in
                    (script, a, request, λ x. cc ((id_eq_iff p.seller p.buyer).1 x), made, cc)
              ]
      ]
    ]
  ]

  parameters-assemble :
      (env : Inputs Bytes (Word Felt)) {b : EscrowBuilt h}
      → build_escrow h env ≡ ok b
      → (p : Parameters AccountId) × (parameters h env ≡ ok p) × (assemble h env p ≡ ok b)
  unfolding build_escrow
  parameters-assemble env e = elim (Result-cases (parameters h env)) [
    | inl (p, read) ↦ (p, read, rw read at e)
    | inr (message, failed) ↦ cc (rw failed at e)
  ]

  -- An escrow that `build_escrow` prints holds the budget of its arguments, as one asset of the faucet
  -- of `accounts.json`; it is private, sent by the buyer and tagged for the operator; the two parties
  -- differ; and its script reads from its storage the P2ID recipients and tags of seller and buyer
  -- under the printed serials, the private note type, and the operator multisig as the consumer.
  pub build_escrow-IsEscrow :
      (env : Inputs Bytes (Word Felt)) (b : EscrowBuilt h)
      → build_escrow h env ≡ ok b
      → (p : Parameters AccountId) × (parameters h env ≡ ok p) × IsEscrow p b
  build_escrow-IsEscrow env b e =
      let (p, read, made) = parameters-assemble env e in
      let (script, a, request, differ, asset, same) = assemble-built_of env p made in
      (p, read, rw same (built_of-IsEscrow env p script a request differ asset))

  module _ (k : Kernel miden) where
    open k use {Tx, active_account, note_assets, outputs, output_limit}

    IsEscrow-run :
        (p : Parameters AccountId) (b : EscrowBuilt h) (arg : Word Felt) (t : Tx)
        → IsEscrow p b
        → active_account t ≡ p.operator
        → note_assets t ≡ map (vm_asset miden) b.escrow_note.assets
        → as_canonical_u64 arg.w0 ≤ p.budget
        → length (outputs t) + 1 < output_limit
        → (self : BartokSettlement Felt) × (t' : Tx) × (notes : List (OutputNote Felt))
          × (from_items (recipient_storage b.escrow_note.recipient) ≡ some self)
          × (run miden k self arg t ≡ ok t')
          × (outputs t' ≡ outputs t ++ notes)
          × (map (payment miden k) notes
              ≡ payments_of
                  (digest b.seller_recipient)
                  (digest b.buyer_recipient)
                  (as_canonical_u64 arg.w0)
                  p.budget)
    IsEscrow-run p b arg t i operator holds covered room =
        let (a, one, _, budget, _) = i.holds in
        let value : as_canonical_u64 (asset_value a).w0 ≡ p.budget = value_amount a ∙ budget in
        let self : BartokSettlement Felt = agreed p b.seller_serial b.buyer_serial in
        let (t', notes, done, out, settled) =
          run-IsSettlement miden k self arg t (vm_asset miden (fungible a))
            ((id_eq_iff (active_account t) _).1 (operator ∙ sym (account_new_parts p.operator)))
            (rw (holds, one) refl) (rw value covered) room in
        (
          self,
          t',
          notes,
          i.reads_back,
          done,
          out,
          rw (i.seller_paid, i.buyer_paid, ← value) settled.paid,
        )

    -- From the program to the chain: where the note of a built escrow is consumed by the operator
    -- multisig of `accounts.json`, with a charge within the budget and room for two notes, its script
    -- succeeds and pays the charge to the seller's printed recipient and the rest to the buyer's.
    pub build_escrow-run :
        (env : Inputs Bytes (Word Felt)) (b : EscrowBuilt h) (p : Parameters AccountId)
        (arg : Word Felt) (t : Tx)
        → build_escrow h env ≡ ok b
        → parameters h env ≡ ok p
        → active_account t ≡ p.operator
        → note_assets t ≡ map (vm_asset miden) b.escrow_note.assets
        → as_canonical_u64 arg.w0 ≤ p.budget
        → length (outputs t) + 1 < output_limit
        → (self : BartokSettlement Felt) × (t' : Tx) × (notes : List (OutputNote Felt))
          × (from_items (recipient_storage b.escrow_note.recipient) ≡ some self)
          × (run miden k self arg t ≡ ok t')
          × (outputs t' ≡ outputs t ++ notes)
          × (map (payment miden k) notes
              ≡ payments_of
                  (digest b.seller_recipient)
                  (digest b.buyer_recipient)
                  (as_canonical_u64 arg.w0)
                  p.budget)
    build_escrow-run env b p arg t e read operator holds covered room =
        let (p', read', i) = build_escrow-IsEscrow env b e in
        let same : p' ≡ p = cc in
        IsEscrow-run p b arg t (subst (λ q. IsEscrow q b) same i) operator holds covered room
