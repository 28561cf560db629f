-- ===== src/Tests/Chain.antt =====
-- A transaction kernel, a host and a Guardian of the plainest kind over the library of `Model`.
use bartok.Base.{
  ℕ, zero, suc, ◌<◌, ◌≡◌, refl, Option, none, some, List, [], ◌∷◌, ◌++◌, Result, ok, err, ltb,
  lt→ltb, if◌then◌else◌, length,
}
use bartok.Text.{Text, codes, text_eq}
use bartok.Miden.{Asset, Word, Note}
use bartok.Contract.{VmAsset, OutputNote, Kernel, created}
use bartok.Host.{Host, RequestParts}
use bartok.Settle.{Guardian}
use bartok.Tests.Goldilocks.{Element}
use bartok.Tests.Model.{Token, Account, account, Payee, toy}

pub record Transaction : Type 0 where
  pub consumer : Account
  pub assets : List (VmAsset Element)
  pub out : List (OutputNote Element)

unfoldable pub create_in : Element → Element → Word Element → Transaction → Result (ℕ × Transaction)
create_in tag note_type recipient t =
    if ltb (length t.out) 1024
    then ok (length t.out, record t { out = t.out ++ created tag note_type recipient ∷ [] })
    else err "too many output notes"

unfoldable pub put_at :
    VmAsset Element → ℕ → List (OutputNote Element) → Option (List (OutputNote Element))
put_at a i [] = none
put_at a zero (n ∷ ns) = some (record n { assets = n.assets ++ a ∷ [] } ∷ ns)
put_at a (suc i) (n ∷ ns) = elim (put_at a i ns) [ none ↦ none | some ns' ↦ some (n ∷ ns') ]

abbrev with_out : Transaction → Option (List (OutputNote Element)) → Result Transaction
with_out t none = err "no such output note"
with_out t (some ns) = ok (record t { out = ns })

unfoldable pub add_in : VmAsset Element → ℕ → Transaction → Result Transaction
unfolding put_at
add_in a i t = with_out t (put_at a i t.out)

pub create_in_fits :
    (tag note_type : Element) (recipient : Word Element) (t : Transaction)
    → length t.out < 1024
    → (t' : Transaction) × (create_in tag note_type recipient t ≡ ok (length t.out, t'))
      × (t'.out ≡ t.out ++ created tag note_type recipient ∷ [])
unfolding create_in
create_in_fits tag note_type recipient t room =
    (record t { out = t.out ++ created tag note_type recipient ∷ [] }, rw (lt→ltb _ _ room), refl)

put_at_last :
    (a : VmAsset Element) (before : List (OutputNote Element)) (n : OutputNote Element)
    → put_at a (length before) (before ++ n ∷ [])
      ≡ some (before ++ record n { assets = n.assets ++ a ∷ [] } ∷ [])
unfolding put_at
put_at_last a [] n = refl
put_at_last a (b ∷ before) n = rw (put_at_last a before n)

pub add_in_last :
    (a : VmAsset Element) (before : List (OutputNote Element)) (tag note_type : Element)
    (recipient : Word Element) (t : Transaction)
    → t.out ≡ before ++ created tag note_type recipient ∷ []
    → 0 < a.value.w0.0
    → (t' : Transaction) × (add_in a (length before) t ≡ ok t')
      × (t'.out ≡ before ++ record (created tag note_type recipient) { assets = a ∷ [] } ∷ [])
unfolding add_in
add_in_last a before tag note_type recipient t e pos = (
  record t { out = before ++ record (created tag note_type recipient) { assets = a ∷ [] } ∷ [] },
  rw (e, put_at_last a before (created tag note_type recipient)),
  refl,
)

abbrev pub kernel : Kernel toy
kernel = record {
  Tx = Transaction;
  active_account = λ t. t.consumer;
  note_assets = λ t. t.assets;
  outputs = λ t. t.out;
  create = create_in;
  add_asset = add_in;
  output_limit = 1024;
  create_fits = create_in_fits;
  add_asset_last = add_in_last;
}

-- The parties.
abbrev pub seller : Account
seller = account 11

abbrev pub buyer : Account
buyer = account 22

abbrev pub operator : Account
operator = account 33

abbrev pub faucet : Account
faucet = account 44

pub data Json : Type 0 where
  accounts null : Json
  text : Text → Json
  number : ℕ → Json

unfoldable pub parse_json : Text → Option Json
unfolding text_eq
parse_json t = if text_eq t (codes "accounts.json") then some accounts else none

unfoldable pub index_json : Json → Text → Json
unfolding text_eq
index_json accounts key =
    if text_eq key (codes "sellerMultisig")
    then text (codes "11")
    else if text_eq key (codes "operatorMultisig")
    then text (codes "33")
    else if text_eq key (codes "faucet")
    then text (codes "44")
    else if text_eq key (codes "operatorTag")
    then number 7
    else if text_eq key (codes "guardianGrpc")
    then text (codes "http://localhost:50052")
    else null
index_json _ key = null

abbrev pub json_text : Json → Option Text
json_text (text t) = some t
json_text _ = none

abbrev pub json_number : Json → Option ℕ
json_number (number n) = some n
json_number _ = none

abbrev pub ToyParts : Type 0
ToyParts = RequestParts (Note toy) Payee (Word Element) Element

pub data Raw : Type 0 where
  contract : Raw
  note_bytes : Note toy → Raw
  request_bytes : ToyParts → Raw
  file_bytes : List (Asset Token (Unit {0})) → Payee → ℕ → Option ℕ → Raw

abbrev pub raw_note : Raw → Option (Note toy)
raw_note (note_bytes n) = some n
raw_note _ = none

abbrev pub raw_contract : Raw → Option (Unit {0})
raw_contract contract = some tt
raw_contract _ = none

-- In this host's Base64, "note" stands for the bytes of one note.
unfoldable pub decode : Note toy → Text → Option Raw
unfolding text_eq
decode n t = if text_eq t (codes "note") then some (note_bytes n) else none

-- What a host is given for JSON.
pub record JsonLib : Type 1 where
  pub Value : Type 0
  pub parse : Text → Option Value
  pub index : Value → Text → Value
  pub as_str : Value → Option Text
  pub as_u64 : Value → Option ℕ

abbrev pub plain : JsonLib
plain = record {
  Value = Json;
  parse = parse_json;
  index = index_json;
  as_str = json_text;
  as_u64 = json_number;
}

abbrev pub host_with : JsonLib → (Text → Option Raw) → Host
host_with j d = record {
  miden = toy;
  Json = j.Value;
  json_parse = j.parse;
  json_index = j.index;
  json_str = j.as_str;
  json_u64 = j.as_u64;
  Bytes = Raw;
  b64_decode = d;
  b64_encode = λ _. codes "bytes";
  note_to_bytes = note_bytes;
  note_from_bytes = raw_note;
  note_from_to_bytes = λ x. refl;
  note_id = λ _. codes "0x1";
  note_file_to_bytes = file_bytes;
  Package = Unit {0};
  package_read = raw_contract;
  script_from_package = λ _. some 1;
  Request = ToyParts;
  request_build = λ p. some p;
  request_to_bytes = request_bytes;
}

abbrev pub host : Note toy → Host
host n = host_with plain (decode n)

-- What the Guardian was asked, in order.
pub data Event : Type 0 where
  connected : Text → Event
  proposed : Text → Event
  countersigned submitted : Event

abbrev pub log : {A : Type 0} → Event → A → List Event → Result A × List Event
log e a w = (ok a, w ++ e ∷ [])

abbrev pub guardian : (n : Note toy) → Guardian (host n)
guardian n = record {
  World = List Event;
  Client = Text;
  ProposalId = ℕ;
  guardian_role_client = λ role _ _. log (connected role) role;
  propose_custom_transaction = λ _ _ name. log (proposed name) 1;
  prepare_custom_execution = λ _ _ _. log countersigned [];
  submit_transaction = λ _ _. log submitted tt;
}
