-- ===== src/Settle/Budget.antt =====
-- The guard of settle_session.rs on the charge.
use bartok.Base.{
  ℕ, ◌+◌, ◌-◌, ◌≤◌, ◌≡◌, refl, some, ok, leb→le, context-eq-ok, ensure-eq-ok, ok_inj, sym, leb,
  arith,
}
use bartok.Text.{trim}
use bartok.Miden.{Word, Note}
use bartok.Host.{Host, budget_of}
use bartok.Settle.{Arguments, Accounts, SettleSession, open_with}

module _ (h : Host) where
  open h use {
    miden, Felt, AccountId, Bytes, felt_zero, b64_decode, note_from_bytes, felt_new, p2id_recipient,
  }

  -- The session that `open_with` makes of an escrow note, its budget and the charge's felt.
  abbrev pub session_of :
      Arguments (Word Felt) AccountId
      → Accounts AccountId
      → Word Felt
      → Note miden
      → ℕ
      → Felt
      → SettleSession h
  session_of a c salt note budget charge_felt = record {
    charge = a.charge;
    refund = budget - a.charge;
    buyer = a.buyer;
    seller = c.seller;
    operator_multisig = c.operator_multisig;
    faucet = c.faucet;
    guardian_grpc = c.guardian_grpc;
    escrow_note = note;
    out_note_type = note.metadata.note_type;
    seller_recipient = p2id_recipient c.seller a.seller_serial;
    buyer_recipient = p2id_recipient a.buyer a.buyer_serial;
    args_word = record { w0 = charge_felt; w1 = felt_zero; w2 = felt_zero; w3 = felt_zero };
    salt = salt;
  }

  pub open_with-session_of :
      (a : Arguments (Word Felt) AccountId) (c : Accounts AccountId) (salt : Word Felt)
      {s : SettleSession h}
      → open_with h a c salt ≡ ok s
      → (bytes : Bytes) × (note : Note miden) × (budget : ℕ) × (charge_felt : Felt) × (b64_decode
            (trim a.escrow_b64)
          ≡ some bytes)
        × (note_from_bytes bytes ≡ some note)
        × (budget_of miden c.faucet note.assets ≡ some budget)
        × (a.charge ≤ budget)
        × (felt_new a.charge ≡ some charge_felt)
        × (s ≡ session_of a c salt note budget charge_felt)
  unfolding open_with
  open_with-session_of a c salt e =
      let (bytes, decoded, e1) = context-eq-ok (b64_decode (trim a.escrow_b64)) _ _ e in
      let (note, noted, e2) = context-eq-ok (note_from_bytes bytes) _ _ e1 in
      let (budget, holds, e3) = context-eq-ok (budget_of miden c.faucet note.assets) _ _ e2 in
      let (covered, e4) = ensure-eq-ok (leb a.charge budget) _ _ e3 in
      let (f, fits, e5) = context-eq-ok (felt_new a.charge) _ _ e4 in
      (bytes, note, budget, f, decoded, noted, holds, leb→le _ _ covered, fits, sym (ok_inj e5))

  -- What a session that opens knows.
  pub record IsSession (a : Arguments (Word Felt) AccountId) (c : Accounts AccountId)
      (s : SettleSession h) : Type 0 where
    pub budget : ℕ
    pub holds : budget_of miden c.faucet s.escrow_note.assets ≡ some budget
    pub covered : s.charge ≤ budget
    pub shared : s.charge + s.refund ≡ budget
    pub charges : s.charge ≡ a.charge
    pub argument : felt_new s.charge ≡ some s.args_word.w0
    pub seller : s.seller ≡ c.seller
    pub buyer : s.buyer ≡ a.buyer
    pub operator : s.operator_multisig ≡ c.operator_multisig
    pub faucet : s.faucet ≡ c.faucet
    pub note_type : s.out_note_type ≡ s.escrow_note.metadata.note_type
    pub seller_paid : s.seller_recipient ≡ p2id_recipient c.seller a.seller_serial
    pub buyer_paid : s.buyer_recipient ≡ p2id_recipient a.buyer a.buyer_serial

  -- A session opens only if the escrow note of the arguments holds an asset of the faucet that covers
  -- the charge: charge and refund then share its amount exactly, the note argument is the charge, the
  -- notes inherit the escrow's visibility, and the recipients are those of the serials.
  pub open_with-IsSession :
      (a : Arguments (Word Felt) AccountId) (c : Accounts AccountId) (salt : Word Felt)
      (s : SettleSession h)
      → open_with h a c salt ≡ ok s
      → IsSession a c s
  open_with-IsSession a c salt s e =
      let (_, note, budget, f, _, _, holds, covered, fits, same) =
        open_with-session_of a c salt e in
      rw same (record {
        budget = budget;
        holds = holds;
        covered = covered;
        shared = omega arith;
        charges = refl;
        argument = fits;
        seller = refl;
        buyer = refl;
        operator = refl;
        faucet = refl;
        note_type = refl;
        seller_paid = refl;
        buyer_paid = refl;
      })
