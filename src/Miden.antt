-- ===== src/Miden.antt =====
-- What the programs use of the Miden libraries, which are not part of the repository: field
-- elements, accounts, assets, notes. The types and functions are parameters; the laws state what
-- those libraries document.
use bartok.Base.{
  ℕ, ◌+◌, ◌-◌, ◌%◌, ◌≤◌, ◌<◌, Bool, true, Option, some, List, [], ◌∷◌, ◌≡◌, ◌↔◌, length,
}
use bartok.Text.{Text}

-- `Word`: four field elements, `word[0]` to `word[3]`.
pub record Word (F : Type 0) : Type 0 where
  pub w0 : F
  pub w1 : F
  pub w2 : F
  pub w3 : F

-- `Felt`: the elements of a prime field, each with one canonical number below the modulus.
pub record Felts : Type 1 where
  pub Felt : Type 0
  pub modulus : ℕ
  pub felt_new : ℕ → Option Felt
  pub as_canonical_u64 : Felt → ℕ
  pub felt_zero : Felt
  pub felt_sub : Felt → Felt → Felt
  pub canonical_lt : (a : Felt) → as_canonical_u64 a < modulus
  pub new_canonical : (a : Felt) → felt_new (as_canonical_u64 a) ≡ some a
  pub canonical_new : (v : ℕ) (a : Felt) → felt_new v ≡ some a → as_canonical_u64 a ≡ v
  pub new_lt : (v : ℕ) → v < modulus → (a : Felt) × (felt_new v ≡ some a)
  -- Subtraction wraps at the modulus.
  pub canonical_sub :
      (a b : Felt)
      → as_canonical_u64 (felt_sub a b)
        ≡ (as_canonical_u64 a + modulus - as_canonical_u64 b) % modulus

-- `NoteType`
pub data NoteType : Type 0 where
  public private : NoteType

-- `Asset`: a fungible asset, or one of the other kind.
pub data Asset (Fungible Other : Type 0) : Type 0 where
  fungible : Fungible → Asset Fungible Other
  non_fungible : Other → Asset Fungible Other

-- `PartialNoteMetadata`
pub record Metadata (Account Tag : Type 0) : Type 0 where
  pub sender : Account
  pub note_type : NoteType
  pub tag : Tag

-- `Note`: what `Note::new` is given.
pub record NoteOf (A M R : Type 0) : Type 0 where
  pub assets : List A
  pub metadata : M
  pub recipient : R

pub record Miden : Type 1 where
  pub felts : Felts
  pub open felts use *
  -- Accounts.
  pub AccountId : Type 0
  pub account_from_hex : Text → Option AccountId
  pub to_hex : AccountId → Text
  pub prefix : AccountId → Felt
  pub suffix : AccountId → Felt
  pub account_new : Felt → Felt → AccountId
  pub id_eq : AccountId → AccountId → Bool
  pub id_eq_iff : (a b : AccountId) → (id_eq a b ≡ true) ↔ (a ≡ b)
  pub account_new_parts : (a : AccountId) → account_new (prefix a) (suffix a) ≡ a
  -- Assets: `FungibleAsset::new` refuses what is no faucet and what is above the largest amount.
  pub Fungible : Type 0
  pub Other : Type 0
  pub fungible_new : AccountId → ℕ → Option Fungible
  pub faucet_id : Fungible → AccountId
  pub amount : Fungible → ℕ
  pub new_fields :
      (f : AccountId) (v : ℕ) (a : Fungible)
      → fungible_new f v ≡ some a
      → (faucet_id a ≡ f) × (amount a ≡ v)
  -- A smaller amount, but not zero, of an asset that exists is an asset too.
  pub new_smaller :
      (f : AccountId) (v w : ℕ) (a : Fungible)
      → fungible_new f v ≡ some a
      → 0 < w
      → w ≤ v
      → (b : Fungible) × (fungible_new f w ≡ some b)
  -- An asset as the virtual machine has it: a key, and the value `[amount, 0, 0, 0]`.
  pub asset_key : Fungible → Word Felt
  pub asset_value : Fungible → Word Felt
  pub other_key : Other → Word Felt
  pub other_value : Other → Word Felt
  pub key_of_faucet : (a b : Fungible) → faucet_id a ≡ faucet_id b → asset_key a ≡ asset_key b
  pub value_layout :
      (a : Fungible)
      → ((asset_value a).w1 ≡ felt_zero)
        × ((asset_value a).w2 ≡ felt_zero)
        × ((asset_value a).w3 ≡ felt_zero)
  pub value_amount : (a : Fungible) → as_canonical_u64 (asset_value a).w0 ≡ amount a
  -- Notes.
  pub Tag : Type 0
  pub with_account_target : AccountId → Tag
  pub tag_of_u32 : ℕ → Tag
  pub u32_of_tag : Tag → ℕ
  pub felt_of_tag : Tag → Felt
  pub felt_of_note_type : NoteType → Felt
  pub Script : Type 0
  pub Recipient : Type 0
  -- `NoteStorage::new` refuses more items than a note can hold.
  pub storage_limit : ℕ
  pub storage_new : List Felt → Option (List Felt)
  pub storage_fits :
      (items : List Felt) → length items ≤ storage_limit → storage_new items ≡ some items
  pub storage_room : 13 ≤ storage_limit
  pub recipient_new : Word Felt → Script → List Felt → Recipient
  pub recipient_storage : Recipient → List Felt
  pub recipient_script : Recipient → Option Script
  pub recipient_new_fields :
      (serial : Word Felt) (script : Script) (items : List Felt)
      → (recipient_storage (recipient_new serial script items) ≡ items)
        × (recipient_script (recipient_new serial script items) ≡ some script)
  -- `P2idNoteStorage::new(target).into_recipient(serial)`
  pub p2id_recipient : AccountId → Word Felt → Recipient
  pub digest : Recipient → Word Felt
  -- `NoteAssets::new` takes a list with one asset.
  pub assets_new : List (Asset Fungible Other) → Option (List (Asset Fungible Other))
  pub assets_new_one : (a : Asset Fungible Other) → assets_new (a ∷ []) ≡ some (a ∷ [])

-- The notes of the host's library.
abbrev pub Note : Miden → Type 0
Note m =
    NoteOf (Asset (Miden.Fungible m) (Miden.Other m)) (Metadata (Miden.AccountId m) (Miden.Tag m))
      (Miden.Recipient m)
