-- ===== src/Settle/Announced.antt =====
-- The notes of a report of settle_session.rs, against the payments of the escrow's script.
use bartok.Base.{
  ℕ, ◌+◌, ◌≤◌, ◌<◌, ◌≡◌, sym, ap, ◌∙◌, inl, inr, Bool-cases, Option, none, some, List, [], ◌∷◌,
  ◌++◌, map, ok, ltb, arith,
}
use mathlib.Core.List.{map-append}
use bartok.Miden.{fungible, Note}
use bartok.Contract.{
  BartokSettlement, OutputNote, Kernel, vm_asset, vm_note, with_amount, seller_recipient,
  buyer_recipient,
}
use bartok.Contract.Split.{optional, paying, split_notes, refund_lem}
use bartok.Host.{Host, budget_of}
use bartok.Settle.{SettleSession, Settled, make_note, make_note_if, announce, settled_of}

-- The notes in an optional note.
abbrev pub some_notes : {A : Type 0} → Option A → List A
some_notes none = []
some_notes (some n) = n ∷ []

module _ (h : Host) where
  open h use {miden, AccountId, Fungible, faucet_id, amount, id_eq_iff}

  -- The budget of a note that holds one asset, of the faucet.
  pub budget_of-one :
      (faucet : AccountId) (a : Fungible)
      → faucet_id a ≡ faucet
      → budget_of miden faucet (fungible a ∷ []) ≡ some (amount a)
  budget_of-one faucet a e = ground (arith, (id_eq_iff (faucet_id a) faucet).1 e)

module _ (h : Host) (k : Kernel h.miden) where
  open h use {
    miden, Felt, AccountId, Fungible, Recipient, as_canonical_u64, felt_new, felt_sub,
    new_canonical, canonical_new, fungible_new, new_fields, new_smaller, faucet_id, amount,
    asset_key, asset_value, value_amount, value_layout, key_of_faucet, digest, felt_of_tag,
    felt_of_note_type, with_account_target, assets_new_one, id_eq, id_eq_iff, account_new_parts,
    p2id_recipient, recipient_storage,
  }
  open k use {Tx, active_account, note_assets, outputs, output_limit}

  felt_eq : (a b : Felt) → as_canonical_u64 a ≡ as_canonical_u64 b → a ≡ b
  felt_eq a b e = cc (new_canonical a, new_canonical b, ap felt_new e)

  -- A smaller asset of the escrow's faucet is, in the virtual machine, the escrow's with that amount.
  vm_asset-with_amount :
      (faucet : AccountId) (budget v : ℕ) (a b : Fungible) (f : Felt)
      → fungible_new faucet budget ≡ some a
      → fungible_new faucet v ≡ some b
      → as_canonical_u64 f ≡ v
      → vm_asset miden (fungible b) ≡ with_amount (vm_asset miden (fungible a)) f
  vm_asset-with_amount faucet budget v a b f ea eb ef =
      let (fa, _) = new_fields faucet budget a ea in
      let (fb, vb) = new_fields faucet v b eb in
      let key : asset_key b ≡ asset_key a = key_of_faucet b a (fb ∙ sym fa) in
      let first : (asset_value b).w0 ≡ f =
        felt_eq (asset_value b).w0 f (value_amount b ∙ vb ∙ sym ef) in
      let (a1, a2, a3) = value_layout a in let (b1, b2, b3) = value_layout b in ground arith

  -- The note that `make_note` makes of an asset.
  abbrev note_made : SettleSession h → Recipient → AccountId → Fungible → Note miden
  note_made s recipient target b = record {
    assets = fungible b ∷ [];
    metadata = record {
      sender = s.operator_multisig;
      note_type = s.out_note_type;
      tag = with_account_target target;
    };
    recipient = recipient;
  }

  paying_same :
      (s : SettleSession h) (budget v : ℕ) (a b : Fungible) (f : Felt) (recipient : Recipient)
      (target : AccountId)
      → fungible_new s.faucet budget ≡ some a
      → fungible_new s.faucet v ≡ some b
      → as_canonical_u64 f ≡ v
      → ◌≡◌ {A = List (OutputNote Felt)} (vm_note miden (note_made s recipient target b) ∷ []) (
          paying
            (felt_of_tag (with_account_target target))
            (felt_of_note_type s.out_note_type)
            (digest recipient)
            (with_amount (vm_asset miden (fungible a)) f)
          ∷ [])
  paying_same s budget v a b f recipient target ea eb ef =
      ap
        (λ x.
          paying (felt_of_tag (with_account_target target)) (felt_of_note_type s.out_note_type)
            (digest recipient) x
          ∷ [])
        (vm_asset-with_amount s.faucet budget v a b f ea eb ef)

  -- The notes of a report, the seller's first.
  abbrev pub announced : {Key : Type 0} → Settled h Key → List (Note miden)
  announced r = some_notes r.seller_note ++ some_notes r.buyer_note

  make_note_if-optional :
      (s : SettleSession h) (budget v : ℕ) (a : Fungible) (f : Felt) (recipient : Recipient)
      (target : AccountId)
      → fungible_new s.faucet budget ≡ some a
      → v ≤ budget
      → as_canonical_u64 f ≡ v
      → (n : Option (Note miden)) × (make_note_if h s v recipient target ≡ ok n)
        × (map (vm_note miden) (some_notes n)
            ≡ optional miden k
                (felt_of_tag (with_account_target target))
                (felt_of_note_type s.out_note_type)
                (digest recipient)
                (vm_asset miden (fungible a))
                f)
  unfolding make_note_if make_note
  make_note_if-optional s budget v a f recipient target ea le ef = elim (Bool-cases (ltb 0 v)) [
    | inr zero_amount ↦ (none, rw zero_amount, rw (ef, zero_amount))
    | inl positive ↦
        let more : 0 < v = ground arith in
        let (b, eb) = new_smaller s.faucet budget v a ea more le in
        (
          some (note_made s recipient target b),
          rw (positive, eb, assets_new_one),
          rw (ef, positive) (paying_same s budget v a b f recipient target ea eb ef),
        )
  ]

  -- A charge that the budget covers can always be announced.
  pub announce-split_notes :
      {Key : Type 0} (s : SettleSession h) (id : Key) (self : BartokSettlement Felt) (budget : ℕ)
      (a : Fungible)
      → fungible_new s.faucet budget ≡ some a
      → as_canonical_u64 s.args_word.w0 ≡ s.charge
      → s.charge + s.refund ≡ budget
      → self.seller_tag ≡ felt_of_tag (with_account_target s.seller)
      → self.buyer_tag ≡ felt_of_tag (with_account_target s.buyer)
      → self.note_type ≡ felt_of_note_type s.out_note_type
      → seller_recipient self ≡ digest s.seller_recipient
      → buyer_recipient self ≡ digest s.buyer_recipient
      → (r : Settled h Key) × (announce h s id ≡ ok r)
        × (map (vm_note miden) (announced r)
            ≡ split_notes miden k self (vm_asset miden (fungible a)) s.args_word.w0)
  unfolding announce
  announce-split_notes s id self budget a ea charge shared st bt nt sr br =
      let (_, value) = new_fields s.faucet budget a ea in
      let refund : as_canonical_u64 (felt_sub (asset_value a).w0 s.args_word.w0) ≡ s.refund =
        omega (
          arith,
          refund_lem miden k (asset_value a).w0 s.args_word.w0,
          value_amount a,
          value,
          charge,
          shared,
        ) in
      let (n, made, paid) =
        make_note_if-optional s budget s.charge a s.args_word.w0 s.seller_recipient s.seller ea
          (omega arith) charge in
      let (n', made', paid') =
        make_note_if-optional s budget s.refund a (felt_sub (asset_value a).w0 s.args_word.w0)
          s.buyer_recipient s.buyer ea (omega arith) refund in
      (
        settled_of h s id n n',
        rw (made, made'),
        map-append (vm_note miden) (some_notes n) (some_notes n')
            ∙ (λ i. paid i ++ paid' i)
            ∙ rw (st, bt, nt, sr, br),
      )
