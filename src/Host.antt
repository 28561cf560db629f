-- ===== src/Host.antt =====
-- What the host programs use beside the Miden data: JSON values, Base64 and serialized notes, the
-- compiled contract, transaction requests. All are libraries; a law is stated where a theorem needs
-- one. Here too are the helpers for `accounts.json` that every program writes out in line.
use bartok.Base.{
  ℕ, Option, none, some, List, ◌≡◌, String, Result, ◌>>=◌, context, find_map, if◌then◌else◌,
}
use bartok.Text.{Text, codes}
use bartok.Miden.{Miden, Word, Asset, fungible, non_fungible, Note}

-- `TransactionRequestBuilder`: what a program gives it.
pub record RequestParts (N R W F : Type 0) : Type 0 where
  pub own_output_notes : List N
  pub input_notes : List (N × W)
  pub expected_output_recipients : List R
  pub auth_arg : Option W
  pub advice : List (W × List F)

pub record Host : Type 1 where
  pub miden : Miden
  pub open miden use *
  -- `serde_json::Value`: `value[key]` is null where there is nothing.
  pub Json : Type 0
  pub json_parse : Text → Option Json
  pub json_index : Json → Text → Json
  pub json_str : Json → Option Text
  pub json_u64 : Json → Option ℕ
  pub Bytes : Type 0
  pub b64_decode : Text → Option Bytes
  pub b64_encode : Bytes → Text
  pub note_to_bytes : Note miden → Bytes
  pub note_from_bytes : Bytes → Option (Note miden)
  pub note_from_to_bytes : (n : Note miden) → note_from_bytes (note_to_bytes n) ≡ some n
  -- `note.id().to_hex()`
  pub note_id : Note miden → Text
  -- `NoteFile::NoteDetails { details, after_block_num, tag }.to_bytes()`
  pub note_file_to_bytes :
      List (Asset miden.Fungible miden.Other) → miden.Recipient → ℕ → Option miden.Tag → Bytes
  -- `Package::read_from_bytes`, `NoteScript::from_package`
  pub Package : Type 0
  pub package_read : Bytes → Option Package
  pub script_from_package : Package → Option miden.Script
  pub Request : Type 0
  pub request_build :
      RequestParts (Note miden) miden.Recipient (Word miden.Felt) miden.Felt → Option Request
  pub request_to_bytes : Request → Bytes

abbrev pub Parts : Host → Type 0
Parts h = RequestParts (Note h.miden) h.Recipient (Word h.Felt) h.Felt

-- `note.assets().iter().find_map(..)`: the amount of the first asset of the faucet.
module _ (m : Miden) where
  open m use {AccountId, Fungible, Other, id_eq, faucet_id, amount}

  abbrev pub amount_from : AccountId → Asset Fungible Other → Option ℕ
  amount_from faucet (fungible a) = if id_eq (faucet_id a) faucet then some (amount a) else none
  amount_from faucet (non_fungible a) = none

  abbrev pub budget_of : AccountId → List (Asset Fungible Other) → Option ℕ
  budget_of faucet assets = find_map (amount_from faucet) assets

module _ (h : Host) where
  open h use {Json, AccountId, json_parse, json_index, json_str, account_from_hex}

  -- `serde_json::from_str(&std::fs::read_to_string("../accounts.json")?)`; `none` is a failed read.
  abbrev pub read_accounts : Option Text → Result Json
  read_accounts file = do
    content ← context file "read ../accounts.json"
    context (json_parse content) "../accounts.json is not JSON"

  -- `AccountId::from_hex(accounts[key].as_str().context(missing)?)?`
  abbrev pub account_at : Json → String → String → Result AccountId
  account_at accounts key missing = do
    hex ← context (json_str (json_index accounts (codes key))) missing
    context (account_from_hex hex) "bad account id"
