-- ===== src/Contract/Split.antt =====
-- `run` on the branches that succeed: what the script puts out, against a description of the split
-- in plain numbers.
use bartok.Base.{
  ℕ, ◌+◌, ◌-◌, ◌%◌, ◌≤◌, ◌<◌, ◌≡◌, refl, sym, ◌∙◌, ◌⊎◌, inl, inr, true, some, List, [], ◌∷◌, ◌++◌,
  map, append_assoc, append-nil, ok, ltb, if◌then◌else◌, length, length-append, last?, Bool-cases,
  All, arith, le→leb,
}
use bartok.Miden.{Miden, Word}
use bartok.Contract.{
  BartokSettlement, VmAsset, OutputNote, Kernel, created, seller_recipient, buyer_recipient, emit,
  with_amount, run,
}

-- The split in numbers: the payee words with what each is paid, a payment of zero left out.
abbrev pub payments_of : {W : Type 0} → W → W → ℕ → ℕ → List (W × ℕ)
payments_of seller buyer charge budget =
    (if ltb 0 charge then (seller, charge) ∷ [] else [])
    ++ (if ltb 0 (budget - charge) then (buyer, budget - charge) ∷ [] else [])

abbrev pub sum_of : {W : Type 0} → List (W × ℕ) → ℕ
sum_of [] = 0
sum_of ((_, v) ∷ rest) = v + sum_of rest

-- A split within the budget neither makes nor loses money.
pub sum_of-payments_of :
    {W : Type 0} (seller buyer : W) (charge budget : ℕ)
    → charge ≤ budget
    → sum_of (payments_of seller buyer charge budget) ≡ budget
sum_of-payments_of seller buyer charge budget h = ground arith

-- An output note with one asset.
abbrev pub paying : {F : Type 0} → F → F → Word F → VmAsset F → OutputNote F
paying tag note_type recipient a = record (created tag note_type recipient) { assets = a ∷ [] }

wrap : (b c n : ℕ) → c ≤ b → b < n → (b + n - c) % n ≡ b - c
wrap b c n h l = let e : b + n - c ≡ b - c + n = omega arith in rw e (grind arith)

module _ (m : Miden) (k : Kernel m) where
  open m use {
    Felt, modulus, as_canonical_u64, felt_sub, id_eq, account_new, canonical_lt, canonical_sub,
  }
  open k use {Tx, active_account, note_assets, outputs, output_limit, create_fits, add_asset_last}

  abbrev pub optional : Felt → Felt → Word Felt → VmAsset Felt → Felt → List (OutputNote Felt)
  optional tag note_type recipient escrow v =
      if ltb 0 (as_canonical_u64 v)
      then paying tag note_type recipient (with_amount escrow v) ∷ []
      else []

  -- The notes of a settlement, felt by felt.
  abbrev pub split_notes : BartokSettlement Felt → VmAsset Felt → Felt → List (OutputNote Felt)
  split_notes self escrow charge =
      optional self.seller_tag self.note_type (seller_recipient self) escrow charge
      ++ optional self.buyer_tag self.note_type (buyer_recipient self) escrow
          (felt_sub escrow.value.w0 charge)

  emit_lem :
      (tag note_type : Felt) (recipient : Word Felt) (a : VmAsset Felt) (t : Tx)
      → length (outputs t) < output_limit
      → 0 < as_canonical_u64 a.value.w0
      → (t' : Tx) × (emit m k tag note_type recipient a t ≡ ok t')
        × (outputs t' ≡ outputs t ++ paying tag note_type recipient a ∷ [])
  unfolding emit
  emit_lem tag note_type recipient a t room pos =
      let (t1, made, has) = create_fits tag note_type recipient t room in
      let (t2, added, out) = add_asset_last a (outputs t) tag note_type recipient t1 has pos in
      (t2, rw made added, out)

  emit_if :
      (tag note_type : Felt) (recipient : Word Felt) (escrow : VmAsset Felt) (v : Felt) (t : Tx)
      → length (outputs t) < output_limit
      → (t' : Tx) × ((if ltb 0 (as_canonical_u64 v)
            then emit m k tag note_type recipient (with_amount escrow v) t
            else ok t)
          ≡ ok t')
        × (outputs t' ≡ outputs t ++ optional tag note_type recipient escrow v)
  emit_if tag note_type recipient escrow v t room = elim (Bool-cases (ltb 0 (as_canonical_u64 v))) [
    | inl more ↦
        let (t', made, out) =
          emit_lem tag note_type recipient (with_amount escrow v) t room (ground arith) in
        (t', rw more made, rw more out)
    | inr zero_amount ↦ (t, rw zero_amount refl, rw zero_amount (sym (append-nil (outputs t))))
  ]

  length-optional :
      (tag note_type : Felt) (recipient : Word Felt) (escrow : VmAsset Felt) (v : Felt)
      → length (optional tag note_type recipient escrow v) ≤ 1
  length-optional tag note_type recipient escrow v = ground arith

  -- The subtraction of the script, behind its guard, does not wrap.
  pub refund_lem :
      (budget charge : Felt)
      → as_canonical_u64 charge ≤ as_canonical_u64 budget
      → as_canonical_u64 (felt_sub budget charge)
        ≡ as_canonical_u64 budget - as_canonical_u64 charge
  refund_lem budget charge h =
      rw (canonical_sub budget charge)
        (wrap (as_canonical_u64 budget) (as_canonical_u64 charge) modulus h (canonical_lt budget))

  abbrev amount_in : List (VmAsset Felt) → ℕ
  amount_in [] = 0
  amount_in (a ∷ rest) = as_canonical_u64 a.value.w0 + amount_in rest

  -- A note as its payee and what it carries.
  abbrev pub payment : OutputNote Felt → Word Felt × ℕ
  payment n = (n.recipient, amount_in n.assets)

  -- What a settlement of `charge` out of `budget` puts out: each payee once with its share, all in
  -- the escrow's asset, under the tag and the note type of the storage, and the budget in sum.
  pub record IsSettlement (self : BartokSettlement Felt) (escrow : VmAsset Felt) (charge budget : ℕ)
      (notes : List (OutputNote Felt)) : Type 0 where
    pub paid :
        map payment notes ≡ payments_of (seller_recipient self) (buyer_recipient self) charge budget
    pub conserved : sum_of (map payment notes) ≡ budget
    pub formed :
        All
          (λ n.
            (n.note_type ≡ self.note_type)
            × ((n.tag ≡ self.seller_tag) ⊎ (n.tag ≡ self.buyer_tag))
            × All (λ a. a.key ≡ escrow.key) n.assets)
          notes

  split_notes-paid :
      (self : BartokSettlement Felt) (escrow : VmAsset Felt) (charge : Felt)
      → as_canonical_u64 charge ≤ as_canonical_u64 escrow.value.w0
      → map payment (split_notes self escrow charge)
        ≡ payments_of
            (seller_recipient self)
            (buyer_recipient self)
            (as_canonical_u64 charge)
            (as_canonical_u64 escrow.value.w0)
  split_notes-paid self escrow charge h = ground (arith, refund_lem escrow.value.w0 charge h)

  split_notes-IsSettlement :
      (self : BartokSettlement Felt) (escrow : VmAsset Felt) (charge : Felt)
      → as_canonical_u64 charge ≤ as_canonical_u64 escrow.value.w0
      → IsSettlement self escrow
          (as_canonical_u64 charge)
          (as_canonical_u64 escrow.value.w0)
          (split_notes self escrow charge)
  split_notes-IsSettlement self escrow charge h = record {
    paid = split_notes-paid self escrow charge h;
    conserved = rw (split_notes-paid self escrow charge h) (sum_of-payments_of _ _ _ _ h);
    formed = ground arith;
  }

  module _ (self : BartokSettlement Felt) (arg : Word Felt) (t : Tx) (escrow : VmAsset Felt)
      (operator : id_eq (active_account t) (account_new self.operator_prefix self.operator_suffix)
        ≡ true)
      (holds : last? (note_assets t) ≡ some escrow)
      (covered : as_canonical_u64 arg.w0 ≤ as_canonical_u64 escrow.value.w0)
      (room : length (outputs t) + 1 < output_limit) where
    -- The operator's call settles: the script ends well, with exactly the notes of the split.
    pub run-split_notes :
        (t' : Tx) × (run m k self arg t ≡ ok t')
        × (outputs t' ≡ outputs t ++ split_notes self escrow arg.w0)
    unfolding run
    run-split_notes =
        let (t1, first, out1) =
          emit_if self.seller_tag self.note_type (seller_recipient self) escrow arg.w0 t
            (omega arith) in
        let room1 : length (outputs t1) < output_limit = rw out1 (
          omega (
            arith,
            length-append (outputs t)
                (optional self.seller_tag self.note_type (seller_recipient self) escrow arg.w0),
            length-optional self.seller_tag self.note_type (seller_recipient self) escrow arg.w0,
          )) in
        let (t2, second, out2) =
          emit_if self.buyer_tag self.note_type (buyer_recipient self) escrow
            (felt_sub escrow.value.w0 arg.w0) t1 room1 in
        (
          t2,
          rw (operator, holds, le→leb _ _ covered, first) second,
          out2
              ∙ rw out1 (
                  append_assoc (outputs t)
                    (optional self.seller_tag self.note_type (seller_recipient self) escrow arg.w0)
                    (optional self.buyer_tag self.note_type (buyer_recipient self) escrow
                      (felt_sub escrow.value.w0 arg.w0))),
        )

    -- A settlement by the operator account of a charge within the budget succeeds: the script adds
    -- to the transaction's notes the payments of the split in numbers, nothing for a share of zero,
    -- all of the escrow's asset and note type, and they sum to the budget.
    pub run-IsSettlement :
        (t' : Tx) × (notes : List (OutputNote Felt)) × (run m k self arg t ≡ ok t')
        × (outputs t' ≡ outputs t ++ notes)
        × IsSettlement self escrow
            (as_canonical_u64 arg.w0)
            (as_canonical_u64 escrow.value.w0)
            notes
    run-IsSettlement =
        let (t', done, out) = run-split_notes in
        (
          t',
          split_notes self escrow arg.w0,
          done,
          out,
          split_notes-IsSettlement self escrow arg.w0 covered,
        )
