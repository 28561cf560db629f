-- ===== src/Sweep.antt =====
-- miden/integration/src/bin/joao_sweep.rs, what it computes: the accounts, and the note that a note
-- file handed over out of band stands for.
pub mod Drain
pub mod Consume
pub mod Handover
use bartok.Base.{
  ℕ, ◌+◌, ◌≡◌, Option, none, some, List, [], ◌∷◌, Result, ok, err, ◌>>=◌, context, position,
  get_elem?,
}
use bartok.Text.{Text, codes, trim, text_eq}
use bartok.Miden.{Asset, Note, private}
use bartok.Host.{Host, read_accounts, account_at}

-- `NoteFile`; a file of the other two kinds is not told apart.
pub data NoteFile (A R T : Type 0) : Type 0 where
  note_details : A → R → ℕ → Option T → NoteFile A R T
  other_file : NoteFile A R T

-- `NoteFile::read_from_bytes`, which reads back what `to_bytes` of `Host` wrote.
pub record NoteFiles (h : Host) : Type 0 where
  pub from_bytes : h.Bytes → Option (NoteFile (List (Asset h.Fungible h.Other)) h.Recipient h.Tag)
  pub from_to_bytes :
      (assets : List (Asset h.Fungible h.Other)) (recipient : h.Recipient) (after_block_num : ℕ)
      (tag : Option h.Tag)
      → from_bytes (h.note_file_to_bytes assets recipient after_block_num tag)
        ≡ some (note_details assets recipient after_block_num tag)

-- What `accounts.json` says.
pub record Seller (Account : Type 0) : Type 0 where
  pub seller : Account
  pub operator : Account
  pub grpc : Text

module _ (h : Host) where
  open h use {miden, AccountId, json_index, json_str}

  -- `main`, its first part.
  unfoldable pub read_seller : Option Text → Result (Seller AccountId)
  read_seller accounts_json = do
    accounts ← read_accounts h accounts_json
    seller ← account_at h accounts "sellerMultisig" "sellerMultisig"
    operator ← account_at h accounts "operatorMultisig" "operatorMultisig"
    grpc ← context (json_str (json_index accounts (codes "guardianGrpc"))) "guardianGrpc"
    ok (record { seller = seller; operator = operator; grpc = grpc })

  -- The place of the flag `--note-file-b64`.
  unfoldable pub note_file_flag : List Text → Option ℕ
  unfolding text_eq
  note_file_flag args = position (λ a. text_eq a (codes "--note-file-b64")) args

module _ (h : Host) (nf : NoteFiles h) where
  open h use {miden, AccountId, Tag, Fungible, Other, Recipient, b64_decode}
  open nf use {from_bytes}

  abbrev pub details_of :
      NoteFile (List (Asset Fungible Other)) Recipient Tag
      → Result (List (Asset Fungible Other) × Recipient × Option Tag)
  details_of (note_details assets recipient after_block_num tag) = ok (assets, recipient, tag)
  details_of other_file = err "expected NoteDetails note file"

  -- The note of a note file: private, from the operator, under the file's tag.
  unfoldable pub note_of_file : AccountId → Text → Result (Note miden × Tag)
  note_of_file operator b64 = do
    bytes ← context (b64_decode (trim b64)) "invalid base64"
    file ← context (from_bytes bytes) "note file"
    (assets, recipient, file_tag) ← details_of file
    tag ← context file_tag "tag missing"
    ok (
      record {
        assets = assets;
        metadata = record { sender = operator; note_type = private; tag = tag };
        recipient = recipient;
      },
      tag,
    )

  -- `args.get(i + 1).context(..)?` and the file behind it.
  unfoldable pub handed_over : AccountId → List Text → ℕ → Result (Note miden × Tag)
  handed_over operator args i = do
    b64 ← context (get_elem? args (i + 1)) "--note-file-b64 <value>"
    note_of_file operator b64
