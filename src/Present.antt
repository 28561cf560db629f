-- ===== src/Present.antt =====
-- zktls-spike/openrouter-example/present.rs: which bytes of the notarized transcript the presentation
-- discloses. The HTTP parser of `tlsn_formats`, with the spans of its parts, and the builder of
-- transcript proofs are parameters.
pub mod Names
pub mod Redaction
pub mod Billing
pub mod File
use bartok.Base.{
  ℕ, ◌+◌, ◌≡◌, Bool, true, false, ◌&&◌, ◌||◌, Option, none, some, List, [], ◌∷◌, ◌++◌, map, Result,
  ok, err, ◌>>=◌, context, leb, if◌then◌else◌,
}
use bartok.Text.{Text, codes, text_eq}

-- `eq_ignore_ascii_case`
unfoldable pub ascii_lower : ℕ → ℕ
ascii_lower c = if leb b'A' c && leb c b'Z' then c + 32 else c

unfoldable pub eq_ignore_ascii_case : Text → Text → Bool
unfolding text_eq ascii_lower
eq_ignore_ascii_case s t = text_eq (map ascii_lower s) (map ascii_lower t)

pub record Header (S : Type 0) : Type 0 where
  pub name : Text
  pub span : S
  pub without_value : S

pub record KeyValue (S : Type 0) : Type 0 where
  pub key : Text
  pub span : S

-- A body: JSON with an object at its root, or anything else.
pub data BodyContent (S : Type 0) : Type 0 where
  json_object : List (KeyValue S) → BodyContent S
  other_content : BodyContent S

pub record Request (S : Type 0) : Type 0 where
  pub without_data : S
  pub target : S
  pub headers : List (Header S)
  pub body : Option (BodyContent S)

pub record Response (S : Type 0) : Type 0 where
  pub without_data : S
  pub headers : List (Header S)
  pub body : Option (BodyContent S)

-- The builder of a transcript proof, and what it was told to reveal.
pub record ProofBuilder : Type 1 where
  pub Span : Type 0
  pub Builder : Type 0
  pub reveal_sent : Span → Builder → Result Builder
  pub reveal_recv : Span → Builder → Result Builder
  pub sent : Builder → List Span
  pub received : Builder → List Span
  pub reveal_sent_adds :
      (s : Span) (b b' : Builder)
      → reveal_sent s b ≡ ok b'
      → (sent b' ≡ sent b ++ s ∷ []) × (received b' ≡ received b)
  pub reveal_recv_adds :
      (s : Span) (b b' : Builder)
      → reveal_recv s b ≡ ok b'
      → (received b' ≡ received b ++ s ∷ []) × (sent b' ≡ sent b)

-- `h.name.as_str().eq_ignore_ascii_case(header::AUTHORIZATION.as_str())`
unfoldable pub is_authorization : Text → Bool
unfolding eq_ignore_ascii_case
is_authorization name = eq_ignore_ascii_case name (codes "authorization")

-- `["model", "max_tokens"].contains(..)`
unfoldable pub is_cost : Text → Bool
unfolding text_eq
is_cost key = text_eq (codes "model") key || text_eq (codes "max_tokens") key

abbrev pub first : {A : Type 0} → List A → Option A
first [] = none
first (a ∷ _) = some a

-- `["id", "model", "usage"]`
abbrev pub billing_paths : List Text
billing_paths = codes "id" ∷ codes "model" ∷ codes "usage" ∷ []

module _ (p : ProofBuilder) where
  open p use {Span, Builder, reveal_sent, reveal_recv}

  -- The loop over the headers of the request.
  unfoldable pub reveal_headers : List (Header Span) → Builder → Result Builder
  reveal_headers [] b = ok b
  reveal_headers (h ∷ hs) b = do
    b' ← reveal_sent (if is_authorization h.name then h.without_value else h.span) b
    reveal_headers hs b'

  -- The loop over the fields of the request's body.
  unfoldable pub reveal_costs : List (KeyValue Span) → Builder → Result Builder
  reveal_costs [] b = ok b
  reveal_costs (kv ∷ kvs) b = do
    b' ← if is_cost kv.key then reveal_sent kv.span b else ok b
    reveal_costs kvs b'

  abbrev pub reveal_request_body : Option (BodyContent Span) → Builder → Result Builder
  reveal_request_body (some (json_object kvs)) b = reveal_costs kvs b
  reveal_request_body _ b = ok b

  unfoldable pub reveal_request : Request Span → Builder → Result Builder
  reveal_request request b = do
    shaped ← reveal_sent request.without_data b
    targeted ← reveal_sent request.target shaped
    headed ← reveal_headers request.headers targeted
    reveal_request_body request.body headed

  unfoldable pub reveal_response_headers : List (Header Span) → Builder → Result Builder
  reveal_response_headers [] b = ok b
  reveal_response_headers (h ∷ hs) b = do b' ← reveal_recv h.span b; reveal_response_headers hs b'

  -- `obj.elems.iter().find(|kv| kv.key.view().as_str() == path)`
  unfoldable pub find_key : Text → List (KeyValue Span) → Option (KeyValue Span)
  unfolding text_eq
  find_key path [] = none
  find_key path (kv ∷ kvs) = if text_eq kv.key path then some kv else find_key path kvs

  abbrev pub reveal_found : Option (KeyValue Span) → Builder → Result Builder
  reveal_found none b = ok b
  reveal_found (some kv) b = reveal_recv kv.span b

  -- The loop over the paths; one that is not there is skipped.
  unfoldable pub reveal_paths : List Text → List (KeyValue Span) → Builder → Result Builder
  reveal_paths [] kvs b = ok b
  reveal_paths (path ∷ paths) kvs b = do
    b' ← reveal_found (find_key path kvs) b
    reveal_paths paths kvs b'

  abbrev pub reveal_response_body : Option (BodyContent Span) → Builder → Result Builder
  reveal_response_body (some (json_object kvs)) b = reveal_paths billing_paths kvs b
  reveal_response_body _ b = ok b

  unfoldable pub reveal_response : Response Span → Builder → Result Builder
  reveal_response response b = do
    shaped ← reveal_recv response.without_data b
    headed ← reveal_response_headers response.headers shaped
    reveal_response_body response.body headed

  -- `main`, from the parsed transcript to the builder of the proof; an index out of range panics.
  unfoldable pub present : List (Request Span) → List (Response Span) → Builder → Result Builder
  present requests responses b = do
    request ← context (first requests) "index out of bounds"
    asked ← reveal_request request b
    response ← context (first responses) "index out of bounds"
    reveal_response response asked
