-- ===== src/Oracle.antt =====
-- zktls-spike/openrouter-example/oracle.rs: from a TLSNotary presentation to a charge. The TLSNotary
-- library, the JSON reader of the `usage` object and Unicode lower case are parameters.
pub mod Scan
pub mod Charge
pub mod Verdict
pub mod Show
pub mod Fragment
use bartok.Base.{
  ℕ, ◌+◌, ◌-◌, ◌*◌, ◌/◌, ◌%◌, ◌^◌, ◌<◌, Bool, true, false, ◌&&◌, Option, none, some, List, [], ◌∷◌,
  ◌++◌, Result, ok, err, ◌>>=◌, ◌>>◌, ensure, context, ltb, ◌==◌, if◌then◌else◌, length,
}
use bartok.Text.{Text, codes, text_eq, find, drop, take, shift, trim, trim_start}
use bartok.Text.Decimal.{parse_u64, u64_mod}

-- `format!("\"{key}\"")`
abbrev pub quoted : Text → Text
quoted key = b'"' ∷ (key ++ b'"' ∷ [])

-- `depth += 1` and `depth -= 1` on a `usize`; other characters leave it.
abbrev pub next_depth : ℕ → ℕ → ℕ
next_depth depth c =
    if c == b'{'
    then (depth + 1) % u64_mod
    else if c == b'}'
    then (depth + u64_mod - 1) % u64_mod
    else depth

-- The loop over `char_indices`: how many characters the object has.
unfoldable pub scan : ℕ → Text → Option ℕ
scan depth [] = none
scan depth (c ∷ cs) =
    let rest = shift (scan (next_depth depth c) cs) in
    if c == b'}' && next_depth depth c == 0 then some 1 else rest

-- The `?` on options.
infixl 5 ◌>>=?◌
abbrev pub ◌>>=?◌ : {A B : Type 0} → Option A → (A → Option B) → Option B
none >>=? f = none
some a >>=? f = f a

abbrev pub after_key : Text → Text → Option Text
after_key s key = find (quoted key) s >>=? λ i. some (drop (i + length (quoted key)) s)

-- `json_object_fragment`
unfoldable pub json_object_fragment : Text → Text → Option Text
json_object_fragment s key = after_key s key >>=? λ rest.
    (find (codes "{") rest >>=? λ start.
    (scan 0 (drop start rest) >>=? λ n. some (take n (drop start rest))))

abbrev strip_quote : Text → Option Text
strip_quote [] = none
strip_quote (c ∷ cs) = if c == b'"' then some cs else none

-- `json_string`
unfoldable pub json_string : Text → Text → Option Text
json_string s key = after_key s key >>=? λ rest.
    (find (codes ":") rest >>=? λ colon.
    (strip_quote (trim_start (drop (colon + 1) rest)) >>=? λ inner.
    (find (codes "\"") inner >>=? λ n. some (take n inner))))

-- The charge, in arithmetic of 64 bits: release builds wrap.
unfoldable pub charge_of : ℕ → ℕ → ℕ → ℕ
charge_of total_tokens price_per_token price_denom =
    let c =
      ((total_tokens * price_per_token % u64_mod + price_denom / 2) % u64_mod) / price_denom in
    if ltb 0 total_tokens && c == 0 then 1 else c

-- `.ok().and_then(|v| v.parse().ok()).filter(|v| *v > 0).unwrap_or(1)`
unfoldable pub price_denom_of : Option Text → ℕ
price_denom_of var = elim (var >>=? parse_u64) [ none ↦ 1 | some v ↦ if ltb 0 v then v else 1 ]

-- What the program reads.
pub record Inputs (Bytes : Type 0) : Type 0 where
  pub price_denom : Option Text
  pub price_per_token : Option Text
  pub presentation : Option Bytes
  pub notary_pub : Option Text

pub record TlsNotary : Type 1 where
  pub Bytes : Type 0
  pub Presentation : Type 0
  pub Output : Type 0
  pub Transcript : Type 0
  pub deserialize : Bytes → Option Presentation
  -- `hex::encode(&presentation.verifying_key().data)`
  pub verifying_key_hex : Presentation → Text
  -- `presentation.verify` against the Mozilla roots.
  pub verify : Presentation → Option Output
  pub server_name : Output → Option Text
  pub transcript : Output → Option Transcript
  -- The received text, with a byte for what is not disclosed.
  pub received : ℕ → Transcript → Text
  pub to_lowercase : Text → Text
  pub parse_usage : Text → Option ℕ

-- The JSON object of the last line.
pub record Attested : Type 0 where
  pub total_tokens : ℕ
  pub charge : ℕ
  pub model : Text
  pub notary_ok : Bool

module _ (n : TlsNotary) where
  open n use {
    Bytes, Presentation, deserialize, verifying_key_hex, verify, server_name, transcript, received,
    to_lowercase, parse_usage,
  }

  -- `main`, its first part: the presentation and the notary key.
  unfoldable pub known_notary : Option Bytes → Option Text → Result Presentation
  known_notary file notary_pub = do
    bytes ← context file "read openrouter.presentation.tlsn"
    presentation ← context (deserialize bytes) "presentation"
    pub_hex ← context notary_pub "notary pubkey not readable"
    ensure (text_eq (verifying_key_hex presentation) (to_lowercase (trim pub_hex)))
        "ORACLE: REJECTED — presentation signed by unknown notary"
    ok presentation

  -- `main`, its second part: the text that the verified presentation discloses.
  unfoldable pub disclosed : Presentation → Result Text
  disclosed presentation = do
    output ← context (verify presentation) "verify"
    server ← context (server_name output) "server name"
    partial ← context (transcript output) "transcript"
    ok (received b'X' partial)

  -- `main`, its last part.
  unfoldable pub attest : ℕ → ℕ → Text → Result Attested
  attest price_per_token price_denom recv = do
    usage_fragment ←
        context (json_object_fragment recv (codes "usage"))
          "usage not disclosed in the presentation"
    total_tokens ← context (parse_usage usage_fragment) "disclosed usage is not valid JSON"
    model ← context (json_string recv (codes "model")) "model not disclosed in the presentation"
    ok (record {
      total_tokens = total_tokens;
      charge = charge_of total_tokens price_per_token price_denom;
      model = model;
      notary_ok = true;
    })

  -- `main`
  unfoldable pub oracle : Inputs Bytes → Result Attested
  oracle env = do
    price ← context env.price_per_token "PRICE_PER_TOKEN env var is required (units per token)"
    price_per_token ← context (parse_u64 price) "PRICE_PER_TOKEN must be a u64"
    presentation ← known_notary env.presentation env.notary_pub
    recv ← disclosed presentation
    attest price_per_token (price_denom_of env.price_denom) recv
