-- ===== src/Tests/Notaries.antt =====
-- The theorems on the notary and the prover, over a file system that is a list of files, with a key
-- that is no secret.
use bartok.Base.{ℕ, ◌≡◌, refl, none, some, List, [], ◌∷◌, ok, Option, ◌==◌}
use bartok.Text.{Text, codes, trim, text_eq}
use bartok.Oracle.{TlsNotary, known_notary}
use bartok.Notary.{
  ConnectionInfo, application_data, other_type, v1_2, TlsTranscript, connection_info,
  application_data_len, mpc, NotarySdk, sign_attestation, notary,
}
use bartok.Notary.Key.{Secp256k1, signing_key}
use bartok.Notary.Signed.{IsSigned, notary-IsSigned}
use bartok.Notary.Trust.{keygen-known_notary}
use bartok.Role.Keygen.{keygen, write_keys}
use bartok.Prove.{ProverSdk, request_attestation, keep_attestation, prover, main}
use bartok.Prove.Request.{
  Env, HttpRequest, ChatJson, chat_request, server_domain, max_sent_data, max_recv_data,
}
use bartok.Prove.Attestation.{IsProved, IsKept, prover-IsKept}
use bartok.Tests.Runs.{outcome_of}
use bartok.Tests.Disks.{Disk, disk, put, on_disk, content}

-- The one key: 32 digits `a`.
abbrev the_key : Text
the_key = codes "aaaaaaaaaaaaaaaaaaaaaaaaaaaaaaaa"

trim-the_key : ◌≡◌ {A = Option Text} (some (trim the_key)) (some the_key)
unfolding trim
trim-the_key = refl

abbrev one_key : Secp256k1
one_key = record {
  SigningKey = Unit {0};
  from_bytes = λ b. some tt;
  to_bytes = λ _. the_key;
  compressed_public = λ _. codes "bb";
  hex_encode = λ b. b;
  hex_decode = λ t. some t;
  from_to_bytes = λ k. refl;
  length-to_bytes = λ k. refl;
  hex_decode_encode = λ k. trim-the_key;
}

abbrev session : TlsTranscript ℕ
session = record {
  time = 5;
  version = 12;
  certificate_binding = v1_2 6;
  sent =
      record { typ = application_data; ciphertext_len = 100 }
      ∷ record { typ = other_type; ciphertext_len = 9 }
      ∷ [];
  received = record { typ = application_data; ciphertext_len = 2000 } ∷ [];
}

abbrev signer : NotarySdk one_key
signer = record {
  World = Disk;
  files = disk;
  Verifier = ℕ;
  Commitments = ℕ;
  Request = Text;
  Attestation = ConnectionInfo;
  offered = λ w. (ok (mpc 3), w);
  reject = λ _ _ w. (ok tt, w);
  run_mpc = λ v w. (ok v, w);
  verify = λ v w. (ok v, w);
  close = λ _ w. (ok session, w);
  read_to_end = λ w. (ok (codes "please"), w);
  request_of_bytes = λ b. some b;
  Config = Unit {0};
  attestation_config = λ _. some tt;
  Builder = Text;
  accept_request = λ _ r. some r;
  build = λ _ _ info _ _. ok info;
  EphemeralKey = ℕ;
  attestation_bytes = λ a. a.time ∷ a.sent ∷ a.received ∷ [];
  write_all = λ b. put (codes "socket") b;
  close_socket = λ w. (ok tt, w);
  finish_session = λ w. (ok tt, w);
}

abbrev with_key : Disk
with_key = (codes "../../keys/notary.secp256k1.hex", the_key) ∷ []

unfoldable signed : (a : Unit {0}) × (w : Disk) × (notary one_key signer none with_key ≡ (ok a, w))
unfolding outcome_of sign_attestation notary signing_key content put connection_info
    application_data_len text_eq trim
signed = outcome_of (notary one_key signer none with_key) tt

notary-IsSigned_example : IsSigned one_key signer none with_key signed.1
notary-IsSigned_example = notary-IsSigned one_key signer none with_key signed.1 signed.2

abbrev reader : TlsNotary
reader = record {
  Bytes = Text;
  Presentation = Text;
  Output = Text;
  Transcript = Text;
  deserialize = λ b. some b;
  verifying_key_hex = λ p. codes "bb";
  verify = λ p. some p;
  server_name = λ o. some (codes "openrouter.ai");
  transcript = λ o. some o;
  received = λ c t. t;
  to_lowercase = λ t. t;
  parse_usage = λ t. some 7;
}

unfoldable generated :
    (a : Unit {0}) × (w : Disk) × (keygen disk none the_key (codes "bb") [] ≡ (ok a, w))
unfolding outcome_of keygen write_keys put on_disk
generated = outcome_of (keygen disk none the_key (codes "bb") []) tt

keygen-known_notary_example :
    (key_hex pub_hex : Text) × (content (codes "../../keys/notary.secp256k1.hex") generated.1
      ≡ ok key_hex)
    × (signing_key one_key key_hex ≡ ok tt)
    × (content (codes "../../keys/notary.pub.hex") generated.1 ≡ ok pub_hex)
    × (known_notary reader (some (codes "p")) (some pub_hex) ≡ ok (codes "p"))
unfolding trim
keygen-known_notary_example =
    keygen-known_notary disk one_key reader tt (codes "p") (codes "p") [] generated.1 generated.2
      refl refl refl

abbrev json : ChatJson
json = record {
  Json = Text;
  json_parse = λ t. some t;
  user_message = λ t. t;
  chat_body = λ model max_tokens messages. messages;
}

abbrev env : Env
env = record {
  api_key = some (codes "sk");
  model = none;
  max_tokens = some (codes "64");
  messages_json = none;
  prompt = some (codes "hello");
}

abbrev byte_of : List ℕ → Option ℕ
byte_of [] = none
byte_of (b ∷ _) = some b

abbrev proving : ProverSdk
proving = record {
  World = Disk;
  files = disk;
  Prover = ℕ;
  Request = ℕ;
  Secrets = ℕ;
  Attestation = ℕ;
  commit = λ sent received w. (ok sent, w);
  connect = λ name p w. (ok p, w);
  send_request = λ http p w. (ok p, w);
  response_body = λ p. ok (codes "{}");
  TranscriptCommit = ℕ;
  commit_transcript = λ p. some p;
  RequestConfig = ℕ;
  request_config = λ c. some c;
  transcript_commit_of = λ c. some c;
  ProveConfig = Option ℕ;
  prove_config = λ p c. some c;
  Commitments = ℕ;
  TranscriptSecrets = ℕ;
  prove = λ p c w. (ok (7, 8), w);
  close = λ p w. (ok tt, w);
  Certs = Text;
  Signature = ℕ;
  Binding = ℕ;
  server_cert_chain = λ p. some (codes "chain");
  server_signature = λ p. some p;
  certificate_binding = λ p. p;
  build_request = λ settings name handshake p secrets commitments. some (commitments, secrets);
  spawn_notary = λ w. w;
  exchange = λ b w. (ok b, w);
  finish_session = λ w. (ok tt, w);
  validate = λ request attestation. request == attestation;
  request_bytes = λ n. n ∷ [];
  attestation_bytes = λ n. n ∷ [];
  attestation_of_bytes = byte_of;
  secrets_bytes = λ n. n ∷ [];
}

unfoldable proved : (a : Unit {0}) × (w : Disk) × (main json proving env [] ≡ (ok a, w))
unfolding outcome_of main prover request_attestation chat_request keep_attestation put
proved = outcome_of (main json proving env []) tt

prover-IsKept_example :
    (http : HttpRequest) × (committed connected answered : ℕ) × (request : ℕ) × (secrets : ℕ) × (w1
      w2 w3 : Disk)
    × (chat_request json env ≡ ok http)
    × (proving.commit max_sent_data max_recv_data [] ≡ (ok committed, w1))
    × (proving.connect server_domain committed w1 ≡ (ok connected, w2))
    × (proving.send_request http connected w2 ≡ (ok answered, w3))
    × IsProved json proving answered request secrets
    × IsKept json proving request secrets proved.1
prover-IsKept_example = prover-IsKept json proving env [] proved.1 proved.2
