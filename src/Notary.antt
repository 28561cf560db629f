-- ===== src/Notary.antt =====
-- `notary` of zktls-spike/openrouter-example/prove.rs: the other end of the session, which signs the
-- attestation with the key that keygen.rs wrote. TLSNotary and the secp256k1 library are parameters.
pub mod Key
pub mod Signed
pub mod Trust
use bartok.Base.{
  ℕ, ◌+◌, ◌%◌, ◌^◌, ◌≡◌, Bool, true, false, Option, none, some, List, [], ◌∷◌, Result, ok, err,
  context, ensure, length, ◌==◌,
}
use bartok.Base.Action.{Action, ◌>>=◌, ◌>>◌, pure, lift}
use bartok.Text.{Text, codes, trim}
use bartok.Text.Decimal.{u64_mod}
use bartok.Role.{Files}
use bartok.Notary.Key.{Secp256k1, signing_key}

pub data ContentType : Type 0 where
  application_data other_type : ContentType

-- A TLS record: its type, and the length of its ciphertext.
pub record TlsRecord : Type 0 where
  pub typ : ContentType
  pub ciphertext_len : ℕ

abbrev pub application_len : TlsRecord → ℕ
application_len r = elim r.typ [ application_data ↦ r.ciphertext_len | other_type ↦ 0 ]

-- `.iter().filter_map(..).sum::<usize>()`
unfoldable pub application_data_len : List TlsRecord → ℕ
application_data_len [] = 0
application_data_len (r ∷ rs) = (application_len r + application_data_len rs) % u64_mod

-- `ConnectionInfo`
pub record ConnectionInfo : Type 0 where
  pub time : ℕ
  pub version : ℕ
  pub sent : ℕ
  pub received : ℕ

-- `CertBinding`
pub data CertBinding (K : Type 0) : Type 0 where
  v1_2 : K → CertBinding K
  other_version : CertBinding K

abbrev pub ephemeral_key : {K : Type 0} → CertBinding K → Option K
ephemeral_key (v1_2 key) = some key
ephemeral_key other_version = none

pub record TlsTranscript (K : Type 0) : Type 0 where
  pub time : ℕ
  pub version : ℕ
  pub certificate_binding : CertBinding K
  pub sent : List TlsRecord
  pub received : List TlsRecord

-- `connection_info`: lengths are cast to a `u32`.
unfoldable pub connection_info : {K : Type 0} → TlsTranscript K → ConnectionInfo
unfolding application_data_len
connection_info tls = record {
  time = tls.time;
  version = tls.version;
  sent = application_data_len tls.sent % 2 ^ 32;
  received = application_data_len tls.received % 2 ^ 32;
}

-- `VerifierCommitStart`
pub data CommitStart (V : Type 0) : Type 0 where
  mpc proxy : V → CommitStart V

-- `NOTARY_KEY_FILE`
abbrev pub key_file : Option Text → Text
key_file none = codes "../../keys/notary.secp256k1.hex"
key_file (some path) = path

pub record NotarySdk (k : Secp256k1) : Type 1 where
  pub World : Type 0
  pub files : Files World
  pub Verifier : Type 0
  pub Commitments : Type 0
  pub Request : Type 0
  pub Attestation : Type 0
  -- The prover's offer, with the Mozilla roots to verify the server.
  pub offered : Action World (CommitStart Verifier)
  pub reject : Verifier → Text → Action World (Unit {0})
  -- Accept and run the session; then verify it, and close.
  pub run_mpc : Verifier → Action World Verifier
  pub verify : Verifier → Action World Commitments
  pub EphemeralKey : Type 0
  pub close : Verifier → Action World (TlsTranscript EphemeralKey)
  -- `handle.close()`, and the end of the session's driver, which gives the socket back.
  pub finish_session : Action World (Unit {0})
  pub read_to_end : Action World (List ℕ)
  pub request_of_bytes : List ℕ → Option Request
  -- Settings with the algorithms of the key's signer.
  pub Config : Type 0
  pub attestation_config : k.SigningKey → Option Config
  -- A builder that has accepted the request, and the attestation that it signs.
  pub Builder : Type 0
  pub accept_request : Config → Request → Option Builder
  pub build :
      k.SigningKey → Builder → ConnectionInfo → EphemeralKey → Commitments → Result Attestation
  pub attestation_bytes : Attestation → List ℕ
  pub write_all : List ℕ → Action World (Unit {0})
  pub close_socket : Action World (Unit {0})

module _ (k : Secp256k1) (n : NotarySdk k) where
  open n use {
    World, files, Verifier, Commitments, Request, Attestation, offered, reject, run_mpc, verify,
    close, finish_session, read_to_end, request_of_bytes, Config, attestation_config, Builder,
    accept_request, build, EphemeralKey, attestation_bytes, write_all, close_socket,
  }
  open files use {read_to_string}

  abbrev pub accept_mpc : CommitStart Verifier → Action World Verifier
  accept_mpc (mpc v) = run_mpc v
  accept_mpc (proxy v) = do
    reject v (codes "expecting to use MPC-TLS")
    lift (err "protocol configuration rejected")

  -- `notary`, from the key to the attestation.
  unfoldable pub sign_attestation :
      k.SigningKey → Request → TlsTranscript EphemeralKey → Commitments → Action World Attestation
  sign_attestation key request tls transcript_commitments = do
    config ← lift (context (attestation_config key) "attestation config")
    server_key ←
        lift (context (ephemeral_key tls.certificate_binding) "unsupported cert binding version")
    builder ← lift (context (accept_request config request) "accept request")
    lift (build key builder (connection_info tls) server_key transcript_commitments)

  -- `notary`
  unfoldable pub notary : Option Text → Action World (Unit {0})
  notary key_env = do
    start ← offered
    verifier ← accept_mpc start
    transcript_commitments ← verify verifier
    tls ← close verifier
    finish_session
    request_bytes ← read_to_end
    request ← lift (context (request_of_bytes request_bytes) "attestation request")
    key_hex ← λ w. (read_to_string (key_file key_env) w, w)
    key ← lift (signing_key k key_hex)
    attestation ← sign_attestation key request tls transcript_commitments
    write_all (attestation_bytes attestation)
    close_socket
