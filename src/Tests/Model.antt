-- ===== src/Tests/Model.antt =====
-- A Miden library of the plainest kind.
use bartok.Base.{
  ℕ, suc, ◌%◌, ◌^◌, ◌≤◌, ◌<◌, ◌≡◌, ◌↔◌, refl, sym, ap, ◌∙◌, Bool, true, ◌&&◌, Option, none, some,
  List, [], ◌∷◌, ◌==◌, leb, le→leb, if◌then◌else◌, length, Option-cases, inl, inr, arith,
}
use native.Mathlib.Nat.{le_trans}
use bartok.Text.{Text}
use bartok.Text.Decimal.{to_string, parse_u64}
use bartok.Miden.{Miden, Word, NoteType, public, private}
use bartok.Tests.Goldilocks.{Element, Element-eq, new, new_lt, canonical_new, reduce, goldilocks}

abbrev pub Account : Type 0
Account = Element × Element

unfoldable pub account_eq : Account → Account → Bool
account_eq a b = a.0.0 == b.0.0 && a.1.0 == b.1.0

pair_eq : (a b : Account) → a.0 ≡ b.0 → a.1 ≡ b.1 → a ≡ b
pair_eq a b e f = λ i. (e i, f i)

pub account_eq_iff : (a b : Account) → (account_eq a b ≡ true) ↔ (a ≡ b)
unfolding account_eq
account_eq_iff a b = (
  λ h. pair_eq a b (Element-eq a.0 b.0 (ground arith)) (Element-eq a.1 b.1 (ground arith)),
  λ e. ground (arith, ap (λ q. q.0.0) e, ap (λ q. q.1.0) e),
)

abbrev pub account : ℕ → Account
account n = (reduce n, reduce 0)

-- An account by its decimal prefix.
unfoldable pub from_text : Text → Option Account
from_text t = elim (parse_u64 t) [ none ↦ none | some n ↦ some (account n) ]

abbrev pub Token : Type 0
Token = Account × Element

unfoldable pub token_of : Account → Option Element → Option Token
token_of f none = none
token_of f (some x) = some (f, x)

pub token_new_fields :
    (f : Account) (v : ℕ) (a : Token) → token_of f (new v) ≡ some a → (a.0 ≡ f) × (a.1.0 ≡ v)
unfolding token_of
token_new_fields f v a e = elim (Option-cases (new v)) [
  | inl refused ↦ cc (rw (refused, token_of) at e)
  | inr (x, taken) ↦
      let made : some (f, x) ≡ some a = rw (taken, token_of) at e in
      let same : ◌≡◌ {A = Token} (f, x) a = cc in
      (ap (λ q. q.0) (sym same), ap (λ q. q.1.0) (sym same) ∙ canonical_new v x taken)
]

pub token_new_smaller :
    (f : Account) (v w : ℕ) (a : Token)
    → token_of f (new v) ≡ some a
    → 0 < w
    → w ≤ v
    → (b : Token) × (token_of f (new w) ≡ some b)
unfolding token_of
token_new_smaller f v w a e pos le =
    let (_, value) = token_new_fields f v a e in
    let (x, taken) = new_lt w (le_trans (le_lt le value) a.1.1) in ((f, x), rw (taken, token_of))
  where
    le_lt : {u v w : ℕ} → w ≤ v → u ≡ v → suc w ≤ suc u
    le_lt l q = omega arith

abbrev pub zeros : Word Element
zeros = record { w0 = reduce 0; w1 = reduce 0; w2 = reduce 0; w3 = reduce 0 }

pub data Payee : Type 0 where
  p2id : Account → Word Element → Payee
  script_note : Word Element → ℕ → List Element → Payee

abbrev pub storage_of : Payee → List Element
storage_of (p2id a w) = a.0 ∷ a.1 ∷ []
storage_of (script_note w s items) = items

abbrev pub script_of : Payee → Option ℕ
script_of (p2id a w) = none
script_of (script_note w s items) = some s

abbrev pub digest_of : Payee → Word Element
digest_of (p2id a w) = record { w0 = a.0; w1 = a.1; w2 = w.w0; w3 = w.w1 }
digest_of (script_note w s items) = w

abbrev pub type_felt : NoteType → Element
type_felt public = reduce 1
type_felt private = reduce 2

unfoldable pub storage_new : List Element → Option (List Element)
storage_new items = if leb (length items) 1024 then some items else none

pub storage_fits : (items : List Element) → length items ≤ 1024 → storage_new items ≡ some items
unfolding storage_new
storage_fits items h = rw (le→leb _ _ h)

abbrev pub toy : Miden
toy = record {
  felts = goldilocks;
  AccountId = Account;
  account_from_hex = from_text;
  to_hex = λ a. to_string a.0.0;
  prefix = λ a. a.0;
  suffix = λ a. a.1;
  account_new = λ p s. (p, s);
  id_eq = account_eq;
  id_eq_iff = account_eq_iff;
  account_new_parts = λ a. refl;
  Fungible = Token;
  Other = Unit {0};
  fungible_new = λ f v. token_of f (new v);
  faucet_id = λ a. a.0;
  amount = λ a. a.1.0;
  new_fields = token_new_fields;
  new_smaller = token_new_smaller;
  asset_key = λ a. record { w0 = a.0.0; w1 = a.0.1; w2 = reduce 0; w3 = reduce 0 };
  asset_value = λ a. record { w0 = a.1; w1 = reduce 0; w2 = reduce 0; w3 = reduce 0 };
  other_key = λ _. zeros;
  other_value = λ _. zeros;
  key_of_faucet =
      λ a b e. ap (λ (q : Account). record { w0 = q.0; w1 = q.1; w2 = reduce 0; w3 = reduce 0 }) e;
  value_layout = λ a. (refl, refl, refl);
  value_amount = λ a. refl;
  Tag = ℕ;
  with_account_target = λ a. a.0.0 % 2 ^ 32;
  tag_of_u32 = λ n. n;
  u32_of_tag = λ n. n;
  felt_of_tag = λ n. reduce n;
  felt_of_note_type = type_felt;
  Script = ℕ;
  Recipient = Payee;
  storage_limit = 1024;
  storage_new = storage_new;
  storage_fits = storage_fits;
  storage_room = omega arith;
  recipient_new = script_note;
  recipient_storage = storage_of;
  recipient_script = script_of;
  recipient_new_fields = λ serial script items. (refl, refl);
  p2id_recipient = p2id;
  digest = digest_of;
  assets_new = λ l. some l;
  assets_new_one = λ a. refl;
}
