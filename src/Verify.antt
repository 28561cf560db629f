-- ===== src/Verify.antt =====
-- miden/integration/src/bin/verify_escrow.rs, what it reads: the escrow note, its budget and the
-- number of tries.
pub mod Poll
pub mod Funded
use bartok.Base.{
  ℕ, ◌^◌, Option, none, some, List, Result, ok, err, ◌>>=◌, context, ltb, if◌then◌else◌,
}
use bartok.Text.{Text, codes, trim}
use bartok.Text.Decimal.{parse_u64}
use bartok.Miden.{Note}
use bartok.Cli.{arg}
use bartok.Host.{Host, read_accounts, account_at, budget_of}

-- `parse` to a `u32`.
abbrev pub parse_u32 : Text → Option ℕ
parse_u32 s = elim (parse_u64 s) [ none ↦ none | some v ↦ if ltb v (2 ^ 32) then some v else none ]

-- `.and_then(|v| v.parse().ok()).unwrap_or(40)`
abbrev pub tries_of : Option Text → ℕ
tries_of none = 40
tries_of (some v) = elim (parse_u32 v) [ none ↦ 40 | some n ↦ n ]

-- What the polling works on.
pub record Escrowed (N : Type 0) : Type 0 where
  pub note : N
  pub budget : ℕ
  pub tries : ℕ

module _ (h : Host) where
  open h use {miden, b64_decode, note_from_bytes}

  -- `main`, up to the client.
  unfoldable pub read_escrow : List Text → Option Text → Result (Escrowed (Note miden))
  read_escrow args accounts_json = do
    b64 ← context (arg args (codes "--escrow-note-b64")) "missing --escrow-note-b64 <value>"
    accounts ← read_accounts h accounts_json
    faucet ← account_at h accounts "faucet" "faucet missing"
    bytes ← context (b64_decode (trim b64)) "escrow b64 decode"
    note ← context (note_from_bytes bytes) "escrow note deserialize"
    budget ← context (budget_of miden faucet note.assets) "escrow note carries no BART asset"
    ok (record { note = note; budget = budget; tries = tries_of (arg args (codes "--tries")) })
