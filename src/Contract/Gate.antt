-- ===== src/Contract/Gate.antt =====
-- Exactly when `run` succeeds.
use bartok.Base.{
  ◌+◌, ◌≤◌, ◌<◌, ◌≡◌, ◌↔◌, inl, inr, some, ok, leb, leb→le, length, last?, Bool-cases, Option-cases,
}
use bartok.Miden.{Miden, Word}
use bartok.Contract.{BartokSettlement, VmAsset, Kernel, run}
use bartok.Contract.Split.{run-split_notes}

module _ (m : Miden) (k : Kernel m) where
  open m use {Felt, AccountId, as_canonical_u64, id_eq, id_eq_iff, account_new}
  open k use {Tx, active_account, note_assets, outputs, output_limit}

  -- The account that the storage names.
  abbrev pub operator_of : BartokSettlement Felt → AccountId
  operator_of self = account_new self.operator_prefix self.operator_suffix

  abbrev pub Covered : Word Felt → Tx → Type 0
  Covered arg t =
      (escrow : VmAsset Felt) × (last? (note_assets t) ≡ some escrow)
      × (as_canonical_u64 arg.w0 ≤ as_canonical_u64 escrow.value.w0)

  run_ok_inv :
      (self : BartokSettlement Felt) (arg : Word Felt) (t : Tx) {t' : Tx}
      → run m k self arg t ≡ ok t'
      → (active_account t ≡ operator_of self) × Covered arg t
  unfolding run
  run_ok_inv self arg t h = elim (Bool-cases (id_eq (active_account t) (operator_of self))) [
    | inr differs ↦ cc (rw differs at h)
    | inl same ↦ elim (Option-cases (last? (note_assets t))) [
      | inl empty ↦ cc (rw (same, empty) at h)
      | inr (escrow, holds) ↦
          elim (Bool-cases (leb (as_canonical_u64 arg.w0) (as_canonical_u64 escrow.value.w0))) [
            | inr over ↦ cc (rw (same, holds, over) at h)
            | inl covered ↦ ((id_eq_iff _ _).0 same, (escrow, holds, leb→le _ _ covered))
          ]
    ]
  ]

  -- While the transaction has room for two more notes, the script succeeds exactly when the executing
  -- account is the operator of the storage and the last asset of the note covers the charge.
  pub run_ok_iff :
      (self : BartokSettlement Felt) (arg : Word Felt) (t : Tx)
      → length (outputs t) + 1 < output_limit
      → ((t' : Tx) × (run m k self arg t ≡ ok t'))
        ↔ ((active_account t ≡ operator_of self) × Covered arg t)
  run_ok_iff self arg t room = (
    λ h. run_ok_inv self arg t h.1,
    λ h.
        let (t', done, _) =
          run-split_notes m k self arg t h.1.0 ((id_eq_iff _ _).1 h.0) h.1.1 h.1.2 room in
        (t', done),
  )
