-- ===== src/Setup.antt =====
-- `accounts.json`, as the set-up programs of miden/integration/src/bin/ write it: setup_accounts.rs
-- makes it, setup_multisigs.rs and new_faucet.rs merge into it. Values of `serde_json` and their
-- printing are a parameter.
pub mod Document
pub mod Programs
pub mod Multisigs
use bartok.Base.{
  ℕ, ◌+◌, ◌<◌, ◌≡◌, ◌≢◌, Bool, true, Option, none, some, List, [], ◌∷◌, ◌++◌, map, Result, ok, err,
  ◌>>=◌, context, if◌then◌else◌,
}
use bartok.Text.{Text, codes, text_eq}
use bartok.Text.Decimal.{u64_mod}
use bartok.Host.{Host, read_accounts}

-- Building `serde_json::Value`s. `value[key] = v` panics unless the value is an object (or null).
pub record JsonDoc (h : Host) : Type 0 where
  pub empty_object : h.Json
  pub is_object : h.Json → Bool
  pub set : h.Json → Text → h.Json → Option h.Json
  pub of_text : Text → h.Json
  pub of_number : ℕ → h.Json
  -- `to_string_pretty`
  pub pretty : h.Json → Option Text
  pub empty_is_object : is_object empty_object ≡ true
  pub set_object :
      (j : h.Json) (k : Text) (v : h.Json)
      → is_object j ≡ true
      → (j' : h.Json) × (set j k v ≡ some j')
  pub set_is_object :
      (j : h.Json) (k : Text) (v j' : h.Json) → set j k v ≡ some j' → is_object j' ≡ true
  pub index_set :
      (j : h.Json) (k : Text) (v j' : h.Json) → set j k v ≡ some j' → h.json_index j' k ≡ v
  pub index_set_other :
      (j : h.Json) (k q : Text) (v j' : h.Json)
      → q ≢ k
      → set j k v ≡ some j'
      → h.json_index j' q ≡ h.json_index j q
  -- A value is always printed, and what is printed is read back.
  pub pretty_total : (j : h.Json) → (t : Text) × (pretty j ≡ some t)
  pub str_of_text : (t : Text) → h.json_str (of_text t) ≡ some t
  pub u64_of_number : (n : ℕ) → n < u64_mod → h.json_u64 (of_number n) ≡ some n
  pub parse_pretty : (j : h.Json) (t : Text) → pretty j ≡ some t → h.json_parse t ≡ some j

-- `GUARDIAN_HTTP`, `GUARDIAN_GRPC`
abbrev pub guardian_http_url : Text
guardian_http_url = codes "http://localhost:3300"

abbrev pub guardian_grpc_url : Text
guardian_grpc_url = codes "http://localhost:50052"

abbrev pub accounts_path : Text
accounts_path = codes "../accounts.json"

module _ (h : Host) (d : JsonDoc h) where
  open h use {Json, AccountId, json_parse, to_hex, with_account_target, u32_of_tag}
  open d use {empty_object, set, of_text, of_number, pretty}

  -- One assignment after the other.
  unfoldable pub set_all : List (Text × Json) → Json → Result Json
  set_all [] j = ok j
  set_all ((k, v) ∷ es) j = do
    next ← context (set j k v) "cannot access key in JSON value"
    set_all es next

  -- The `json!` of setup_accounts.rs.
  abbrev pub account_entries : AccountId → AccountId → AccountId → List (Text × Json)
  account_entries seller operator faucet =
      (codes "seller", of_text (to_hex seller))
      ∷ (codes "operator", of_text (to_hex operator))
      ∷ (codes "faucet", of_text (to_hex faucet))
      ∷ (codes "operatorTag", of_number (u32_of_tag (with_account_target operator)))
      ∷ (codes "explorer", of_text (codes "https://testnet.midenscan.com"))
      ∷ []

  unfoldable pub accounts_doc : AccountId → AccountId → AccountId → Result Text
  accounts_doc seller operator faucet = do
    accounts ← set_all (account_entries seller operator faucet) empty_object
    context (pretty accounts) "to_string_pretty"

  -- The assignments of setup_multisigs.rs: the ids in the order of their keys, then the endpoints.
  abbrev pub multisig_entries : List (Text × Text) → List (Text × Json)
  multisig_entries ids =
      map (λ e. (e.0, of_text e.1)) ids
      ++ (codes "guardianHttp", of_text guardian_http_url)
        ∷ (codes "guardianGrpc", of_text guardian_grpc_url)
        ∷ []

  -- `main` of setup_multisigs.rs, from the file's text to the new text.
  unfoldable pub merge_multisigs : List (Text × Text) → Text → Result Text
  merge_multisigs ids file = do
    accounts ← context (json_parse file) "../accounts.json is not JSON"
    merged ← set_all (multisig_entries ids) accounts
    context (pretty merged) "to_string_pretty"

  -- The same of new_faucet.rs.
  unfoldable pub merge_faucet : AccountId → Text → Result Text
  merge_faucet faucet file = do
    accounts ← context (json_parse file) "../accounts.json is not JSON"
    merged ← set_all ((codes "faucet", of_text (to_hex faucet)) ∷ []) accounts
    context (pretty merged) "to_string_pretty"
