-- ===== src/Prove/Request.antt =====
-- What `prover` of zktls-spike/openrouter-example/prove.rs sends: the environment and the HTTP request
-- that it makes.
use bartok.Base.{ℕ, ◌^◌, Option, none, some, List, [], ◌∷◌, ◌++◌, Result, ok, ◌>>=◌, context}
use bartok.Text.{Text, codes}
use bartok.Verify.{parse_u32}

-- The environment of the program.
pub record Env : Type 0 where
  pub api_key : Option Text
  pub model : Option Text
  pub max_tokens : Option Text
  pub messages_json : Option Text
  pub prompt : Option Text

pub record HttpRequest : Type 0 where
  pub method : Text
  pub uri : Text
  pub headers : List (Text × Text)
  pub body : Text

-- JSON of the request.
pub record ChatJson : Type 1 where
  pub Json : Type 0
  pub json_parse : Text → Option Json
  -- `json!([{ "role": "user", "content": prompt }])`
  pub user_message : Text → Json
  -- `json!({ "model": .., "max_tokens": .., "messages": .. }).to_string()`
  pub chat_body : Text → ℕ → Json → Text

-- `unwrap_or_else`
abbrev or_text : Option Text → Text → Text
or_text none other = other
or_text (some t) other = t

-- `.ok().and_then(|v| v.parse().ok()).unwrap_or(1024)`
abbrev pub max_tokens_of : Option Text → ℕ
max_tokens_of none = 1024
max_tokens_of (some v) = elim (parse_u32 v) [ none ↦ 1024 | some n ↦ n ]

-- `SERVER_DOMAIN`, `MAX_SENT_DATA`, `MAX_RECV_DATA`
abbrev pub server_domain : Text
server_domain = codes "openrouter.ai"

abbrev pub max_sent_data : ℕ
max_sent_data = 2 ^ 12

abbrev pub max_recv_data : ℕ
max_recv_data = 2 ^ 16

-- The names of the two files.
abbrev pub attestation_path : Text
attestation_path = codes "openrouter.attestation.tlsn"

abbrev pub secrets_path : Text
secrets_path = codes "openrouter.secrets.tlsn"

module _ (j : ChatJson) where
  open j use {Json, json_parse, user_message, chat_body}

  -- The conversation of `MESSAGES_JSON`, or one turn of `PROMPT`.
  abbrev pub messages_of : Option Text → Option Text → Result Json
  messages_of (some text) prompt = context (json_parse text) "MESSAGES_JSON is not valid JSON"
  messages_of none prompt =
      ok (user_message (or_text prompt (codes "In one sentence, what is a zero-knowledge proof?")))

  -- The request that is sent; the key stands in one header alone.
  abbrev pub http_request : Text → Text → HttpRequest
  http_request api_key body = record {
    method = codes "POST";
    uri = codes "/api/v1/chat/completions";
    headers =
        (codes "Host", server_domain)
        ∷ (codes "Accept", codes "*/*")
        ∷ (codes "Accept-Encoding", codes "identity")
        ∷ (codes "Connection", codes "close")
        ∷ (codes "User-Agent", codes "bartok-zktls-spike/0.1")
        ∷ (codes "Content-Type", codes "application/json")
        ∷ (codes "Authorization", codes "Bearer " ++ api_key)
        ∷ [];
    body = body;
  }

  -- `prover`, its first part: the request from the environment.
  unfoldable pub chat_request : Env → Result HttpRequest
  chat_request env = do
    api_key ← context env.api_key "set OPENROUTER_API_KEY (see zktls-spike/.env.example)"
    messages ← messages_of env.messages_json env.prompt
    let model = or_text env.model (codes "meta-llama/llama-3.1-8b-instruct:free")
    ok (http_request api_key (chat_body model (max_tokens_of env.max_tokens) messages))
