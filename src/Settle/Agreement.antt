-- ===== src/Settle/Agreement.antt =====
-- Off the chain and on it: the notes that settle_session.rs hands to the seller and the buyer against
-- the notes that the escrow's script creates.
use bartok.Base.{◌+◌, ◌<◌, ◌≡◌, refl, sym, ap, ◌∙◌, some, [], ◌∷◌, ◌++◌, map, ok, length, arith}
use mathlib.Core.Path.{subst}
use bartok.Miden.{Word, private, fungible}
use bartok.Contract.{BartokSettlement, Kernel, run, vm_asset, vm_note}
use bartok.Contract.Split.{run-split_notes}
use bartok.Contract.Storage.{from_items}
use bartok.Host.{Host, budget_of}
use bartok.Escrow.{Inputs, Parameters, EscrowBuilt, build_escrow, parameters}
use bartok.Escrow.Layout.{IsEscrow, agreed, build_escrow-IsEscrow}
use bartok.Settle.{Arguments, Accounts, SettleSession, Settled, open_with, announce}
use bartok.Settle.Budget.{open_with-IsSession}
use bartok.Settle.Announced.{announced, budget_of-one, announce-split_notes}

module _ (h : Host) (k : Kernel h.miden) where
  open h use {
    miden, Felt, AccountId, Fungible, Recipient, as_canonical_u64, felt_new, felt_sub,
    new_canonical, canonical_new, fungible_new, new_fields, new_smaller, faucet_id, amount,
    asset_key, asset_value, value_amount, value_layout, key_of_faucet, digest, felt_of_tag,
    felt_of_note_type, with_account_target, assets_new_one, id_eq, id_eq_iff, account_new_parts,
    p2id_recipient, recipient_storage,
  }
  open k use {Tx, active_account, note_assets, outputs, output_limit}

  agreement :
      {Key : Type 0} (b : EscrowBuilt h) (p : Parameters AccountId)
      (a : Arguments (Word Felt) AccountId) (c : Accounts AccountId) (salt : Word Felt)
      (s : SettleSession h) (id : Key) (t : Tx)
      → IsEscrow h p b
      → open_with h a c salt ≡ ok s
      → s.escrow_note ≡ b.escrow_note
      → c.seller ≡ p.seller
      → c.faucet ≡ p.faucet
      → a.buyer ≡ p.buyer
      → a.seller_serial ≡ b.seller_serial
      → a.buyer_serial ≡ b.buyer_serial
      → active_account t ≡ p.operator
      → note_assets t ≡ map (vm_asset miden) s.escrow_note.assets
      → length (outputs t) + 1 < output_limit
      → (self : BartokSettlement Felt) × (t' : Tx) × (r : Settled h Key) × (from_items
            (recipient_storage s.escrow_note.recipient)
          ≡ some self)
        × (run miden k self s.args_word t ≡ ok t')
        × (announce h s id ≡ ok r)
        × (outputs t' ≡ outputs t ++ map (vm_note miden) (announced h k r))
  agreement b p a c salt s id t i opened note seller faucet buyer ss bs operator holds room =
      let (x, one, of_faucet, value, made) = i.holds in
      let self : BartokSettlement Felt = agreed h p b.seller_serial b.buyer_serial in
      let o = open_with-IsSession h a c salt s opened in
      let assets : s.escrow_note.assets ≡ fungible x ∷ [] = ap (λ n. n.assets) note ∙ one in
      let budget : o.budget ≡ p.budget =
        let found = budget_of-one h c.faucet x (of_faucet ∙ sym faucet) in
        let held : some o.budget ≡ some (amount x) =
          sym o.holds ∙ ap (budget_of miden c.faucet) assets ∙ found in
        cc in
      let fa : s.faucet ≡ p.faucet = o.faucet ∙ faucet in
      let made' : fungible_new s.faucet o.budget ≡ some x = rw (fa, budget) made in
      let charge : as_canonical_u64 s.args_word.w0 ≡ s.charge =
        canonical_new s.charge s.args_word.w0 o.argument in
      let visibility : s.out_note_type ≡ private =
        o.note_type ∙ ap (λ n. n.metadata.note_type) note ∙ ap (λ q. q.note_type) i.metadata in
      let (r, told, notes) =
        announce-split_notes h k s id self o.budget x made' charge o.shared
          (ap (λ q. felt_of_tag (with_account_target q)) (sym (o.seller ∙ seller)))
          (ap (λ q. felt_of_tag (with_account_target q)) (sym (o.buyer ∙ buyer)))
          (ap felt_of_note_type (sym visibility)) (rw (o.seller_paid, seller, ss))
          (rw (o.buyer_paid, buyer, bs)) in
      let (t', done, out) =
        run-split_notes miden k self s.args_word t (vm_asset miden (fungible x))
          ((id_eq_iff (active_account t) _).1 (operator ∙ sym (account_new_parts p.operator)))
          (rw (holds, assets) refl)
          (omega (arith, charge, value_amount x, value, o.covered, budget)) room in
      (
        self,
        t',
        r,
        ap (λ n. from_items (recipient_storage n.recipient)) note ∙ i.reads_back,
        done,
        told,
        out ∙ ap (λ ns. outputs t ++ ns) (sym notes),
      )

  -- The settlement of an escrow that `build_escrow` built, opened with the same accounts and serials:
  -- when the operator consumes the note with the session's argument, and there is room for two notes,
  -- the report never fails and its notes are, felt for felt, the notes that the script creates:
  -- recipients, tags, note types and assets.
  pub announce-run :
      {Key : Type 0} (env : Inputs h.Bytes (Word Felt)) (b : EscrowBuilt h)
      (p : Parameters AccountId) (a : Arguments (Word Felt) AccountId) (c : Accounts AccountId)
      (salt : Word Felt) (s : SettleSession h) (id : Key) (t : Tx)
      → build_escrow h env ≡ ok b
      → parameters h env ≡ ok p
      → open_with h a c salt ≡ ok s
      → s.escrow_note ≡ b.escrow_note
      → c.seller ≡ p.seller
      → c.faucet ≡ p.faucet
      → a.buyer ≡ p.buyer
      → a.seller_serial ≡ b.seller_serial
      → a.buyer_serial ≡ b.buyer_serial
      → active_account t ≡ p.operator
      → note_assets t ≡ map (vm_asset miden) s.escrow_note.assets
      → length (outputs t) + 1 < output_limit
      → (self : BartokSettlement Felt) × (t' : Tx) × (r : Settled h Key) × (from_items
            (recipient_storage s.escrow_note.recipient)
          ≡ some self)
        × (run miden k self s.args_word t ≡ ok t')
        × (announce h s id ≡ ok r)
        × (outputs t' ≡ outputs t ++ map (vm_note miden) (announced h k r))
  announce-run env b p a c salt s id t built read opened note seller faucet buyer ss bs operator
        holds room =
      let (p', read', i) = build_escrow-IsEscrow h env b built in
      let same : p' ≡ p = cc in
      agreement b p a c salt s id t (subst (λ q. IsEscrow h q b) same i) opened note seller faucet
        buyer ss bs operator holds room
