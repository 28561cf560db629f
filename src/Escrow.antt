-- ===== src/Escrow.antt =====
-- miden/integration/src/bin/build_escrow.rs: a session's escrow note and the request that creates it.
-- The program reads its arguments, `accounts.json` and the compiled contract, and prints its result;
-- `words` are the values that its calls of `random_word` return, in the order of the calls.
pub mod Layout
use bartok.Base.{
  ℕ, ◌%◌, ◌^◌, Bool, Option, none, some, List, [], ◌∷◌, String, Result, ok, err, ◌>>=◌, ◌>>◌,
  ensure, context, not,
}
use bartok.Text.{Text, codes}
use bartok.Text.Decimal.{to_string, parse_u64}
use bartok.Miden.{Miden, Word, NoteType, private, Asset, fungible, Note}
use bartok.Contract.Storage.{settlement_storage}
use bartok.Cli.{arg_value, word_strings}
use bartok.Host.{Host, Parts, read_accounts, account_at}

-- What the program reads.
pub record Inputs (Bytes W : Type 0) : Type 0 where
  pub args : List Text
  pub accounts_json : Option Text
  -- The contract at `MASP` and at `MASP_ALT`.
  pub masp : Option Bytes
  pub masp_alt : Option Bytes
  pub words : ℕ → W

-- `std::fs::read(MASP).or_else(|_| std::fs::read(MASP_ALT))`
abbrev pub or_else : {A : Type 0} → Option A → Option A → Option A
or_else (some a) other = some a
or_else none other = other

-- What its arguments and `accounts.json` say.
pub record Parameters (Account : Type 0) : Type 0 where
  pub buyer : Account
  pub budget : ℕ
  pub seller : Account
  pub faucet : Account
  pub operator : Account
  pub operator_tag : ℕ

-- What the program has built when it comes to print.
pub record Built (N R W Account Request : Type 0) : Type 0 where
  pub escrow_note : N
  pub request : Request
  pub seller_recipient : R
  pub buyer_recipient : R
  pub seller_serial : W
  pub buyer_serial : W
  pub seller : Account
  pub buyer : Account

-- The JSON object of the last line.
pub record Report : Type 0 where
  pub seller_recipient : List Text
  pub seller_tag : ℕ
  pub seller_serial : List Text
  pub buyer_recipient : List Text
  pub buyer_tag : ℕ
  pub buyer_serial : List Text
  pub note_type : Text
  pub request_b64 : Text
  pub note_b64 : Text

module _ (h : Host) where
  open h use {
    miden, Felt, AccountId, Tag, Script, Recipient, Bytes, Request, as_canonical_u64,
    account_from_hex, id_eq, json_index, json_u64, p2id_recipient, digest, with_account_target,
    tag_of_u32, u32_of_tag, felt_of_note_type, fungible_new, assets_new, recipient_new,
    package_read, script_from_package, request_build, request_to_bytes, b64_encode, note_to_bytes,
  }

  abbrev pub EscrowBuilt : Type 0
  EscrowBuilt = Built (Note miden) Recipient (Word Felt) AccountId Request

  -- The escrow request: the buyer's account creates the note as its own output.
  abbrev pub escrow_parts : Note miden → Word Felt → Parts h
  escrow_parts note salt = record {
    own_output_notes = note ∷ [];
    input_notes = [];
    expected_output_recipients = [];
    auth_arg = some salt;
    advice = [];
  }

  -- `main`, its first part: the arguments and `accounts.json`.
  unfoldable pub parameters : Inputs Bytes (Word Felt) → Result (Parameters AccountId)
  parameters env = do
    buyer ← context (account_from_hex (← arg_value env.args (codes "--buyer"))) "bad buyer id"
    budget ← context (parse_u64 (← arg_value env.args (codes "--budget"))) "bad budget"
    accounts ← read_accounts h env.accounts_json
    seller ← account_at h accounts "sellerMultisig" "sellerMultisig missing"
    faucet ← account_at h accounts "faucet" "faucet missing"
    operator ←
        account_at h accounts "operatorMultisig" "operatorMultisig missing — run setup_multisigs"
    tag ← context (json_u64 (json_index accounts (codes "operatorTag"))) "operatorTag missing"
    ok (record {
      buyer = buyer;
      budget = budget;
      seller = seller;
      faucet = faucet;
      operator = operator;
      operator_tag = tag % 2 ^ 32;
    })

  -- The compiled contract's script.
  unfoldable pub load_script : Inputs Bytes (Word Felt) → Result Script
  load_script env = do
    masp_bytes ←
        context (or_else env.masp env.masp_alt)
          "build the contract first (cargo miden build --release)"
    compiled ← context (package_read masp_bytes) "package"
    context (script_from_package compiled) "note script"

  -- `main`, from the guard on the parties up to the printing.
  unfoldable pub assemble : Inputs Bytes (Word Felt) → Parameters AccountId → Result EscrowBuilt
  assemble env p = do
    ensure (not (id_eq p.seller p.buyer)) "seller and buyer must differ"
    let seller_serial = env.words 0
    let buyer_serial = env.words 1
    let seller_recipient = p2id_recipient p.seller seller_serial
    let buyer_recipient = p2id_recipient p.buyer buyer_serial
    storage ←
        settlement_storage miden (digest seller_recipient) (with_account_target p.seller)
          (digest buyer_recipient) (with_account_target p.buyer) private p.operator
    script ← load_script env
    asset ← context (fungible_new p.faucet p.budget) "fungible asset"
    assets ← context (assets_new (fungible asset ∷ [])) "note assets"
    let escrow_note : Note miden = record {
      assets = assets;
      metadata = record { sender = p.buyer; note_type = private; tag = tag_of_u32 p.operator_tag };
      recipient = recipient_new (env.words 2) script storage;
    }
    request ←
        context (request_build (escrow_parts escrow_note (env.words 3))) "build escrow request"
    ok (record {
      escrow_note = escrow_note;
      request = request;
      seller_recipient = seller_recipient;
      buyer_recipient = buyer_recipient;
      seller_serial = seller_serial;
      buyer_serial = buyer_serial;
      seller = p.seller;
      buyer = p.buyer;
    })

  -- `main`
  unfoldable pub build_escrow : Inputs Bytes (Word Felt) → Result EscrowBuilt
  unfolding parameters load_script assemble
  build_escrow env = do assemble env (← parameters env)

  -- The JSON of the last line.
  unfoldable pub report : EscrowBuilt → Report
  report b = record {
    seller_recipient = word_strings miden (digest b.seller_recipient);
    seller_tag = u32_of_tag (with_account_target b.seller);
    seller_serial = word_strings miden b.seller_serial;
    buyer_recipient = word_strings miden (digest b.buyer_recipient);
    buyer_tag = u32_of_tag (with_account_target b.buyer);
    buyer_serial = word_strings miden b.buyer_serial;
    note_type = to_string (as_canonical_u64 (felt_of_note_type private));
    request_b64 = b64_encode (request_to_bytes b.request);
    note_b64 = b64_encode (note_to_bytes b.escrow_note);
  }
