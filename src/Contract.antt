-- ===== src/Contract.antt =====
-- The settlement note of miden/contracts/settlement-note/src/lib.rs: its storage and its script.
-- The transaction kernel that runs the script is not part of the repository: `Kernel` is what the
-- script calls of it. `Tag::from`, `NoteType::from` and `Recipient::from` only wrap a field element
-- or a word, and the kernel takes what they wrap.
pub mod Split
pub mod Gate
pub mod Storage
use bartok.Base.{
  ℕ, ◌+◌, ◌<◌, ◌≡◌, Bool, Option, none, some, List, [], ◌∷◌, ◌++◌, map, Result, ok, err, ensure,
  context, ◌>>=◌, ◌>>◌, ltb, leb, if◌then◌else◌, length, last?, String,
}
use bartok.Miden.{Miden, Word, Asset, fungible, non_fungible, Note}

-- `struct BartokSettlement`
pub record BartokSettlement (F : Type 0) : Type 0 where
  pub seller_recipient_0 : F
  pub seller_recipient_1 : F
  pub seller_recipient_2 : F
  pub seller_recipient_3 : F
  pub seller_tag : F
  pub buyer_recipient_0 : F
  pub buyer_recipient_1 : F
  pub buyer_recipient_2 : F
  pub buyer_recipient_3 : F
  pub buyer_tag : F
  pub note_type : F
  pub operator_prefix : F
  pub operator_suffix : F

-- An asset in the virtual machine.
pub record VmAsset (F : Type 0) : Type 0 where
  pub key : Word F
  pub value : Word F

-- A note that the transaction puts out.
pub record OutputNote (F : Type 0) : Type 0 where
  pub tag : F
  pub note_type : F
  pub recipient : Word F
  pub assets : List (VmAsset F)

abbrev pub created : {F : Type 0} → F → F → Word F → OutputNote F
created tag note_type recipient = record {
  tag = tag;
  note_type = note_type;
  recipient = recipient;
  assets = [];
}

-- A transaction in progress, and the kernel procedures. A procedure that fails ends the
-- transaction, which then leaves nothing behind.
pub record Kernel (m : Miden) : Type 1 where
  pub Tx : Type 0
  pub active_account : Tx → m.AccountId
  pub note_assets : Tx → List (VmAsset m.Felt)
  pub outputs : Tx → List (OutputNote m.Felt)
  pub create : m.Felt → m.Felt → Word m.Felt → Tx → Result (ℕ × Tx)
  pub add_asset : VmAsset m.Felt → ℕ → Tx → Result Tx
  pub output_limit : ℕ
  -- While there is room, `create` appends a note with no asset and returns its index.
  pub create_fits :
      (tag note_type : m.Felt) (recipient : Word m.Felt) (t : Tx)
      → length (outputs t) < output_limit
      → (t' : Tx) × (create tag note_type recipient t ≡ ok (length (outputs t), t'))
        × (outputs t' ≡ outputs t ++ created tag note_type recipient ∷ [])
  -- `add_asset` puts an asset of a positive amount into a note that has none, here the last one.
  pub add_asset_last :
      (a : VmAsset m.Felt) (before : List (OutputNote m.Felt)) (tag note_type : m.Felt)
      (recipient : Word m.Felt) (t : Tx)
      → outputs t ≡ before ++ created tag note_type recipient ∷ []
      → 0 < m.as_canonical_u64 a.value.w0
      → (t' : Tx) × (add_asset a (length before) t ≡ ok t')
        × (outputs t' ≡ before ++ record (created tag note_type recipient) { assets = a ∷ [] } ∷ [])

abbrev pub seller_recipient : {F : Type 0} → BartokSettlement F → Word F
seller_recipient self = record {
  w0 = self.seller_recipient_0;
  w1 = self.seller_recipient_1;
  w2 = self.seller_recipient_2;
  w3 = self.seller_recipient_3;
}

abbrev pub buyer_recipient : {F : Type 0} → BartokSettlement F → Word F
buyer_recipient self = record {
  w0 = self.buyer_recipient_0;
  w1 = self.buyer_recipient_1;
  w2 = self.buyer_recipient_2;
  w3 = self.buyer_recipient_3;
}

-- The escrow's asset with another amount: `Word::from([amount, val[1], val[2], val[3]])`.
abbrev pub with_amount : {F : Type 0} → VmAsset F → F → VmAsset F
with_amount escrow v = record {
  key = escrow.key;
  value = record { w0 = v; w1 = escrow.value.w1; w2 = escrow.value.w2; w3 = escrow.value.w3 };
}

abbrev gate_message : String
gate_message = "only the operator multisig may consume the settlement note"

abbrev charge_message : String
charge_message = "charge exceeds escrowed budget"

-- How the virtual machine has the assets and the notes of the host.
module _ (m : Miden) where
  open m use {
    Felt, Fungible, Other, asset_key, asset_value, other_key, other_value, felt_of_tag,
    felt_of_note_type, digest,
  }

  abbrev pub vm_asset : Asset Fungible Other → VmAsset Felt
  vm_asset (fungible a) = record { key = asset_key a; value = asset_value a }
  vm_asset (non_fungible a) = record { key = other_key a; value = other_value a }

  abbrev pub vm_note : Note m → OutputNote Felt
  vm_note n = record {
    tag = felt_of_tag n.metadata.tag;
    note_type = felt_of_note_type n.metadata.note_type;
    recipient = digest n.recipient;
    assets = map vm_asset n.assets;
  }

module _ (m : Miden) (k : Kernel m) where
  open m use {Felt, as_canonical_u64, felt_sub, id_eq, account_new}
  open k use {Tx, active_account, note_assets, create, add_asset}

  -- `output_note::create`, and `output_note::add_asset` on the index that it returns.
  pub emit : Felt → Felt → Word Felt → VmAsset Felt → Tx → Result Tx
  emit tag note_type recipient asset t = do
    (idx, t') ← create tag note_type recipient t
    add_asset asset idx t'

  -- `BartokSettlement::run`, the note script.
  unfoldable pub run : BartokSettlement Felt → Word Felt → Tx → Result Tx
  unfolding emit
  run self arg t = do
    ensure (id_eq (active_account t) (account_new self.operator_prefix self.operator_suffix))
        gate_message
    let charge = arg.w0
    escrow ← context (last? (note_assets t)) "called `Option::unwrap()` on a `None` value"
    let budget = escrow.value.w0
    ensure (leb (as_canonical_u64 charge) (as_canonical_u64 budget)) charge_message
    let refund = felt_sub budget charge
    paid ←
        if ltb 0 (as_canonical_u64 charge)
        then emit self.seller_tag self.note_type (seller_recipient self) (with_amount escrow charge)
            t
        else ok t
    if ltb 0 (as_canonical_u64 refund)
        then emit self.buyer_tag self.note_type (buyer_recipient self) (with_amount escrow refund)
            paid
        else ok paid
