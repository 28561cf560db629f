-- ===== src/Fund.antt =====
-- miden/integration/src/bin/fund_buyer.rs, what it reads: whom to fund, and from which faucet.
pub mod Mint
use bartok.Base.{ℕ, Option, List, Result, ok, err, ◌>>=◌, context}
use bartok.Text.{Text, codes}
use bartok.Text.Decimal.{parse_u64}
use bartok.Cli.{arg_value}
use bartok.Host.{Host, read_accounts, account_at}

pub record Grant (Account : Type 0) : Type 0 where
  pub buyer : Account
  pub amount : ℕ
  pub faucet : Account

module _ (h : Host) where
  open h use {AccountId, account_from_hex}

  -- `main`, up to the client.
  unfoldable pub read_grant : List Text → Option Text → Result (Grant AccountId)
  read_grant args accounts_json = do
    buyer ← context (account_from_hex (← arg_value args (codes "--buyer"))) "bad buyer id"
    amount ← context (parse_u64 (← arg_value args (codes "--amount"))) "bad amount"
    accounts ← read_accounts h accounts_json
    faucet ← account_at h accounts "faucet" "faucet id missing"
    ok (record { buyer = buyer; amount = amount; faucet = faucet })
