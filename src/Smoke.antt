-- ===== src/Smoke.antt =====
-- miden/integration/src/bin/smoke_escrow.rs, what it computes: its parameters, and the escrow note
-- that it builds for a scratch buyer.
pub mod Waiting
pub mod Run
pub mod Reference
use bartok.Base.{
  ℕ, ◌+◌, ◌*◌, ◌%◌, ◌^◌, Option, none, some, List, [], ◌∷◌, map, Result, ok, err, ◌>>=◌, context,
}
use bartok.Text.{Text, codes}
use bartok.Text.Decimal.{parse_u64, u64_mod}
use bartok.Miden.{Word, NoteType, private, Asset, fungible, non_fungible, Note}
use bartok.Contract.Storage.{settlement_storage}
use bartok.Cli.{arg}
use bartok.Host.{Host, Parts, read_accounts, account_at, amount_from}
use bartok.Escrow.{Inputs, Parameters, load_script}

abbrev budget_or : Option Text → Result ℕ
budget_or none = ok 25000
budget_or (some v) = context (parse_u64 v) "invalid budget"

-- What the program knows before there is a buyer.
pub record Session (Account : Type 0) : Type 0 where
  pub budget : ℕ
  pub seller : Account
  pub faucet : Account
  pub operator : Account
  pub operator_tag : ℕ

-- `budget * 2` on a `u64`; release builds wrap.
abbrev pub minted_amount : ℕ → ℕ
minted_amount budget = budget * 2 % u64_mod

module _ (h : Host) where
  open h use {
    miden, Felt, AccountId, Script, Bytes, Fungible, Other, json_index, json_u64, p2id_recipient,
    digest, with_account_target, tag_of_u32, fungible_new, assets_new, recipient_new,
  }

  -- `main`, its first part.
  unfoldable pub read_session : Inputs Bytes (Word Felt) → Result (Session AccountId)
  read_session env = do
    budget ← budget_or (arg env.args (codes "--budget"))
    accounts ← read_accounts h env.accounts_json
    seller ← account_at h accounts "sellerMultisig" "sellerMultisig missing — run setup_multisigs"
    faucet ← account_at h accounts "faucet" "faucet missing"
    operator ←
        account_at h accounts "operatorMultisig" "operatorMultisig missing — run setup_multisigs"
    tag ← context (json_u64 (json_index accounts (codes "operatorTag"))) "operatorTag missing"
    ok (record {
      budget = budget;
      seller = seller;
      faucet = faucet;
      operator = operator;
      operator_tag = tag % 2 ^ 32;
    })

  -- The session with its buyer, as the parameters of build_escrow.rs.
  abbrev pub parameters_of : Session AccountId → AccountId → Parameters AccountId
  parameters_of s buyer = record {
    buyer = buyer;
    budget = s.budget;
    seller = s.seller;
    faucet = s.faucet;
    operator = s.operator;
    operator_tag = s.operator_tag;
  }

  -- Step 4: the escrow note.
  unfoldable pub smoke_note :
      Inputs Bytes (Word Felt) → Session AccountId → AccountId → Result (Note miden)
  smoke_note env s buyer = do
    script ← load_script h env
    let seller_rec = p2id_recipient s.seller (env.words 0)
    let buyer_rec = p2id_recipient buyer (env.words 1)
    storage ←
        settlement_storage miden (digest seller_rec) (with_account_target s.seller)
          (digest buyer_rec) (with_account_target buyer) private s.operator
    asset ← context (fungible_new s.faucet s.budget) "fungible asset"
    assets ← context (assets_new (fungible asset ∷ [])) "note assets"
    ok (record {
      assets = assets;
      metadata = record { sender = buyer; note_type = private; tag = tag_of_u32 s.operator_tag };
      recipient = recipient_new (env.words 2) script storage;
    })

  -- Its request, without an argument for the authentication.
  abbrev pub smoke_parts : Note miden → Parts h
  smoke_parts note = record {
    own_output_notes = note ∷ [];
    input_notes = [];
    expected_output_recipients = [];
    auth_arg = none;
    advice = [];
  }

  abbrev pub amount_or_zero : AccountId → Asset Fungible Other → ℕ
  amount_or_zero faucet a = elim (amount_from miden faucet a) [ none ↦ 0 | some v ↦ v ]

  -- The sum of the amounts of the faucet's assets, on a `u64`.
  abbrev pub balance_of : AccountId → List (Asset Fungible Other) → ℕ
  balance_of faucet [] = 0
  balance_of faucet (a ∷ as') = (amount_or_zero faucet a + balance_of faucet as') % u64_mod
