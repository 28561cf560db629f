-- ===== src/Contract/Storage.antt =====
-- The layout of the note storage: `settlement_storage` of miden/integration/src/helpers.rs writes it,
-- and the `#[note]` macro reads it back into the fields of `BartokSettlement` in their order.
use bartok.Base.{◌≡◌, refl, Option, none, some, List, [], ◌∷◌, Result, ok, context, arith}
use native.Mathlib.Nat.{le_trans}
use bartok.Miden.{Miden, Word, NoteType}
use bartok.Contract.{BartokSettlement, seller_recipient, buyer_recipient}

-- What `#[note]` makes of the storage: thirteen felts, in declaration order.
unfoldable pub from_items : {F : Type 0} → List F → Option (BartokSettlement F)
from_items (s0 ∷ s1 ∷ s2 ∷ s3 ∷ st ∷ b0 ∷ b1 ∷ b2 ∷ b3 ∷ bt ∷ nt ∷ op ∷ os ∷ []) = some (record {
  seller_recipient_0 = s0;
  seller_recipient_1 = s1;
  seller_recipient_2 = s2;
  seller_recipient_3 = s3;
  seller_tag = st;
  buyer_recipient_0 = b0;
  buyer_recipient_1 = b1;
  buyer_recipient_2 = b2;
  buyer_recipient_3 = b3;
  buyer_tag = bt;
  note_type = nt;
  operator_prefix = op;
  operator_suffix = os;
})
from_items _ = none

module _ (m : Miden) where
  open m use {
    Felt, AccountId, Tag, felt_of_tag, felt_of_note_type, prefix, suffix, storage_new,
    storage_limit, storage_fits, storage_room, account_new, account_new_parts,
  }

  abbrev pub storage_items : Word Felt → Tag → Word Felt → Tag → NoteType → AccountId → List Felt
  storage_items seller_recipient seller_tag buyer_recipient buyer_tag note_type operator =
      seller_recipient.w0
      ∷ seller_recipient.w1
      ∷ seller_recipient.w2
      ∷ seller_recipient.w3
      ∷ felt_of_tag seller_tag
      ∷ buyer_recipient.w0
      ∷ buyer_recipient.w1
      ∷ buyer_recipient.w2
      ∷ buyer_recipient.w3
      ∷ felt_of_tag buyer_tag
      ∷ felt_of_note_type note_type
      ∷ prefix operator
      ∷ suffix operator
      ∷ []

  -- `settlement_storage`
  unfoldable pub settlement_storage :
      Word Felt → Tag → Word Felt → Tag → NoteType → AccountId → Result (List Felt)
  settlement_storage seller_recipient seller_tag buyer_recipient buyer_tag note_type operator =
      context
        (storage_new
          (storage_items seller_recipient seller_tag buyer_recipient buyer_tag note_type operator))
        "build settlement note storage"

  -- The settlement that the storage stands for.
  abbrev pub stored :
      Word Felt → Tag → Word Felt → Tag → NoteType → AccountId → BartokSettlement Felt
  stored seller seller_tag buyer buyer_tag note_type operator = record {
    seller_recipient_0 = seller.w0;
    seller_recipient_1 = seller.w1;
    seller_recipient_2 = seller.w2;
    seller_recipient_3 = seller.w3;
    seller_tag = felt_of_tag seller_tag;
    buyer_recipient_0 = buyer.w0;
    buyer_recipient_1 = buyer.w1;
    buyer_recipient_2 = buyer.w2;
    buyer_recipient_3 = buyer.w3;
    buyer_tag = felt_of_tag buyer_tag;
    note_type = felt_of_note_type note_type;
    operator_prefix = prefix operator;
    operator_suffix = suffix operator;
  }

  storage_accepted :
      (seller : Word Felt) (seller_tag : Tag) (buyer : Word Felt) (buyer_tag : Tag)
      (note_type : NoteType) (operator : AccountId)
      → storage_new (storage_items seller seller_tag buyer buyer_tag note_type operator)
        ≡ some (storage_items seller seller_tag buyer buyer_tag note_type operator)
  storage_accepted seller seller_tag buyer buyer_tag note_type operator =
      storage_fits (storage_items seller seller_tag buyer buyer_tag note_type operator)
        (le_trans (omega arith) storage_room)

  pub settlement_storage_ok :
      (seller : Word Felt) (seller_tag : Tag) (buyer : Word Felt) (buyer_tag : Tag)
      (note_type : NoteType) (operator : AccountId)
      → settlement_storage seller seller_tag buyer buyer_tag note_type operator
        ≡ ok (storage_items seller seller_tag buyer buyer_tag note_type operator)
  unfolding settlement_storage
  settlement_storage_ok seller seller_tag buyer buyer_tag note_type operator =
      rw (storage_accepted seller seller_tag buyer buyer_tag note_type operator)

  -- Storage that `settlement_storage` builds is always accepted, and the note reads back from it what
  -- went in: both recipients and tags, the note type, and the operator's account.
  pub from_items-settlement_storage :
      (seller : Word Felt) (seller_tag : Tag) (buyer : Word Felt) (buyer_tag : Tag)
      (note_type : NoteType) (operator : AccountId)
      → (items : List Felt) × (self : BartokSettlement Felt) × (settlement_storage seller seller_tag
            buyer buyer_tag note_type operator
          ≡ ok items)
        × (from_items items ≡ some self)
        × (seller_recipient self ≡ seller)
        × (self.seller_tag ≡ felt_of_tag seller_tag)
        × (buyer_recipient self ≡ buyer)
        × (self.buyer_tag ≡ felt_of_tag buyer_tag)
        × (self.note_type ≡ felt_of_note_type note_type)
        × (account_new self.operator_prefix self.operator_suffix ≡ operator)
  unfolding from_items
  from_items-settlement_storage seller seller_tag buyer buyer_tag note_type operator = (
    storage_items seller seller_tag buyer buyer_tag note_type operator,
    stored seller seller_tag buyer buyer_tag note_type operator,
    settlement_storage_ok seller seller_tag buyer buyer_tag note_type operator,
    refl,
    refl,
    refl,
    refl,
    refl,
    refl,
    account_new_parts operator,
  )
