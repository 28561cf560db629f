-- ===== src/Sweep/Handover.antt =====
-- The note file that settle_session.rs prints for the seller, and what joao_sweep.rs makes of it.
use bartok.Base.{
  ℕ, ◌≡◌, sym, ap, ◌∙◌, Bool-cases, inl, inr, some, [], ◌∷◌, ok, context-eq-ok, >>=-eq-ok, ok_inj,
  ltb,
}
use bartok.Text.{Text, trim}
use bartok.Miden.{Note, private, fungible}
use bartok.Host.{Host}
use bartok.Settle.{SettleSession, Settled, make_note, make_note_if, announce}
use bartok.Sweep.{NoteFiles, note_of_file}

module _ (h : Host) (nf : NoteFiles h) where
  open h use {
    miden, AccountId, Recipient, Bytes, Tag, Fungible, Other, with_account_target,
    note_file_to_bytes, b64_encode, b64_decode, assets_new, fungible_new,
  }
  open nf use {from_bytes, from_to_bytes}

  -- Every note of the session is from the operator, of the session's type, tagged for its target.
  make_note-metadata :
      (s : SettleSession h) (amount : ℕ) (recipient : Recipient) (target : AccountId)
      {n : Note miden}
      → make_note h s amount recipient target ≡ ok n
      → (n.metadata ≡ record {
        sender = s.operator_multisig;
        note_type = s.out_note_type;
        tag = with_account_target target;
      })
        × (n.recipient ≡ recipient)
  unfolding make_note
  make_note-metadata s amount recipient target e =
      let (asset, _, e1) = context-eq-ok (fungible_new s.faucet amount) _ _ e in
      let (assets, _, e2) = context-eq-ok (assets_new (fungible asset ∷ [])) _ _ e1 in
      (ap (λ x. x.metadata) (sym (ok_inj e2)), ap (λ x. x.recipient) (sym (ok_inj e2)))

  make_note_if-made :
      (s : SettleSession h) (amount : ℕ) (recipient : Recipient) (target : AccountId)
      {n : Note miden}
      → make_note_if h s amount recipient target ≡ ok (some n)
      → make_note h s amount recipient target ≡ ok n
  unfolding make_note_if
  make_note_if-made s amount recipient target e = elim (Bool-cases (ltb 0 amount)) [
    | inr zero_amount ↦ cc (rw zero_amount at e)
    | inl more ↦
        let (made, done, same) =
          >>=-eq-ok (make_note h s amount recipient target) _ (rw more at e) in
        done ∙ cc
  ]

  -- The seller's note of a report and the text of its file.
  announced_seller :
      {P : Type 0} (s : SettleSession h) (id : P) (r : Settled h P) (n : Note miden)
      → announce h s id ≡ ok r
      → r.seller_note ≡ some n
      → (make_note h s s.charge s.seller_recipient s.seller ≡ ok n)
        × (r.seller_note_file_b64
            ≡ some (
                b64_encode (
                  note_file_to_bytes n.assets n.recipient 0 (some (with_account_target s.seller)))))
  unfolding announce
  announced_seller s id r n e is =
      let (seller_note, made, e1) =
        >>=-eq-ok (make_note_if h s s.charge s.seller_recipient s.seller) _ e in
      let (buyer_note, _, e2) =
        >>=-eq-ok (make_note_if h s s.refund s.buyer_recipient s.buyer) _ e1 in
      let same = ok_inj e2 in
      let first : seller_note ≡ some n = ap (λ q. q.seller_note) same ∙ is in
      (
        make_note_if-made s s.charge s.seller_recipient s.seller (made ∙ ap ok first),
        ap (λ q. q.seller_note_file_b64) (sym same) ∙ rw first,
      )

  file_of_note :
      (operator : AccountId) (n : Note miden) (tag : Tag) (text : Text)
      → b64_decode (trim text) ≡ some (note_file_to_bytes n.assets n.recipient 0 (some tag))
      → n.metadata ≡ record { sender = operator; note_type = private; tag = tag }
      → note_of_file h nf operator text ≡ ok (n, tag)
  unfolding note_of_file
  file_of_note operator n tag text decodes metadata =
      rw (decodes, from_to_bytes n.assets n.recipient 0 (some tag))
        (ap (λ x. ok (record { assets = n.assets; metadata = x; recipient = n.recipient }, tag))
          (sym metadata))

  -- Where the session's notes are private, as the escrows of build_escrow.rs make them, the file
  -- that settle_session.rs prints for the seller stands, once joao_sweep.rs has decoded it, for
  -- exactly the note that settle_session.rs reported for the seller, under the same tag.
  pub announce-note_of_file :
      {P : Type 0} (s : SettleSession h) (id : P) (r : Settled h P) (n : Note miden)
      → announce h s id ≡ ok r
      → r.seller_note ≡ some n
      → s.out_note_type ≡ private
      → b64_decode (
          trim (
            b64_encode
              (note_file_to_bytes n.assets n.recipient 0 (some (with_account_target s.seller)))))
        ≡ some (note_file_to_bytes n.assets n.recipient 0 (some (with_account_target s.seller)))
      → (text : Text) × (r.seller_note_file_b64 ≡ some text)
        × (note_of_file h nf s.operator_multisig text ≡ ok (n, with_account_target s.seller))
  announce-note_of_file s id r n e is hidden decodes =
      let (made, file) = announced_seller s id r n e is in
      let (metadata, _) = make_note-metadata s s.charge s.seller_recipient s.seller made in
      (
        b64_encode
            (note_file_to_bytes n.assets n.recipient 0 (some (with_account_target s.seller))),
        file,
        file_of_note s.operator_multisig n (with_account_target s.seller) _ decodes (
            metadata
            ∙ ap
                (λ x. record {
                  sender = s.operator_multisig;
                  note_type = x;
                  tag = with_account_target s.seller;
                })
                hidden),
      )
