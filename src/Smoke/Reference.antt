-- ===== src/Smoke/Reference.antt =====
-- The note of smoke_escrow.rs and the one of build_escrow.rs.
use bartok.Base.{
  ◌≡◌, refl, ap, ◌∙◌, false, some, List, [], ◌∷◌, Result, ok, context-eq-ok, >>=-eq-ok, ok_inj,
}
use bartok.Miden.{Word, Note, private, fungible, Asset}
use bartok.Contract.Storage.{settlement_storage}
use bartok.Host.{Host}
use bartok.Escrow.{Inputs, EscrowBuilt, load_script, escrow_parts, assemble}
use bartok.Smoke.{Session, parameters_of, smoke_note}

module _ (h : Host) where
  open h use {
    miden, Felt, AccountId, Bytes, Request, id_eq, p2id_recipient, digest, Script, Fungible, Other,
    with_account_target, fungible_new, assets_new, request_build, tag_of_u32, recipient_new,
  }

  abbrev note_with :
      Inputs Bytes (Word Felt)
      → Session AccountId
      → AccountId
      → Script
      → List Felt
      → List (Asset Fungible Other)
      → Note miden
  note_with env s buyer script storage assets = record {
    assets = assets;
    metadata = record { sender = buyer; note_type = private; tag = tag_of_u32 s.operator_tag };
    recipient = recipient_new (env.words 2) script storage;
  }

  abbrev stored_for : Inputs Bytes (Word Felt) → Session AccountId → AccountId → Result (List Felt)
  stored_for env s buyer =
      settlement_storage miden (digest (p2id_recipient s.seller (env.words 0)))
        (with_account_target s.seller) (digest (p2id_recipient buyer (env.words 1)))
        (with_account_target buyer) private s.operator

  assemble-note_with :
      (env : Inputs Bytes (Word Felt)) (s : Session AccountId) (buyer : AccountId) (script : Script)
      (storage : List Felt) (asset : Fungible) (assets : List (Asset Fungible Other))
      (request : Request)
      → load_script h env ≡ ok script
      → stored_for env s buyer ≡ ok storage
      → fungible_new s.faucet s.budget ≡ some asset
      → assets_new (fungible asset ∷ []) ≡ some assets
      → id_eq s.seller buyer ≡ false
      → request_build (escrow_parts h (note_with env s buyer script storage assets) (env.words 3))
        ≡ some request
      → assemble h env (parameters_of h s buyer)
        ≡ ok (record {
          escrow_note = note_with env s buyer script storage assets;
          request = request;
          seller_recipient = p2id_recipient s.seller (env.words 0);
          buyer_recipient = p2id_recipient buyer (env.words 1);
          seller_serial = env.words 0;
          buyer_serial = env.words 1;
          seller = s.seller;
          buyer = buyer;
        })
  unfolding assemble
  assemble-note_with env s buyer script storage asset assets request loaded stores made held differ
        sends =
      rw (differ, stores, loaded, made, held, sends)

  -- smoke_escrow.rs builds the note that build_escrow.rs builds: with the same random words, for a
  -- seller who is not the buyer, and where the transaction builder takes the request of
  -- build_escrow.rs, that program succeeds with exactly this note.
  pub smoke_note-assemble :
      (env : Inputs Bytes (Word Felt)) (s : Session AccountId) (buyer : AccountId) (n : Note miden)
      (request : Request)
      → smoke_note h env s buyer ≡ ok n
      → id_eq s.seller buyer ≡ false
      → request_build (escrow_parts h n (env.words 3)) ≡ some request
      → (b : EscrowBuilt h) × (assemble h env (parameters_of h s buyer) ≡ ok b)
        × (b.escrow_note ≡ n)
        × (b.request ≡ request)
        × (b.seller_serial ≡ env.words 0)
        × (b.buyer_serial ≡ env.words 1)
  unfolding smoke_note
  smoke_note-assemble env s buyer n request e differ builds =
      let (script, loaded, e1) = >>=-eq-ok (load_script h env) _ e in
      let (storage, stores, e2) = >>=-eq-ok (stored_for env s buyer) _ e1 in
      let (asset, made, e3) = context-eq-ok (fungible_new s.faucet s.budget) _ _ e2 in
      let (assets, held, e4) = context-eq-ok (assets_new (fungible asset ∷ [])) _ _ e3 in
      let same : note_with env s buyer script storage assets ≡ n = ok_inj e4 in
      (
        record {
          escrow_note = note_with env s buyer script storage assets;
          request = request;
          seller_recipient = p2id_recipient s.seller (env.words 0);
          buyer_recipient = p2id_recipient buyer (env.words 1);
          seller_serial = env.words 0;
          buyer_serial = env.words 1;
          seller = s.seller;
          buyer = buyer;
        },
        assemble-note_with env s buyer script storage asset assets request loaded stores made held
            differ (ap (λ x. request_build (escrow_parts h x (env.words 3))) same ∙ builds),
        same,
        refl,
        refl,
        refl,
      )
