-- ===== src/Prove.antt =====
-- `main` and `prover` of zktls-spike/openrouter-example/prove.rs: a chat completion is requested over a notarized
-- TLS session, and the notary's attestation is kept. TLSNotary, HTTP and JSON are parameters.
pub mod Request
pub mod Attestation
use bartok.Base.{ℕ, Bool, Option, List, Result, ok, err, ensure, context}
use bartok.Base.Action.{Action, ◌>>=◌, ◌>>◌, lift}
use bartok.Text.{Text, codes}
use bartok.Role.{Files}
use bartok.Prove.Request.{
  Env, HttpRequest, ChatJson, chat_request, server_domain, max_sent_data, max_recv_data,
  attestation_path, secrets_path,
}

-- `HandshakeData`
pub record Handshake (Certs Signature Binding : Type 0) : Type 0 where
  pub certs : Certs
  pub sig : Signature
  pub binding : Binding

-- The prover of TLSNotary, and the socket to the notary.
pub record ProverSdk : Type 1 where
  pub World : Type 0
  pub files : Files World
  pub Prover : Type 0
  pub Request : Type 0
  pub Secrets : Type 0
  pub Attestation : Type 0
  -- The session with the notary is opened with limits of the data sent and received.
  pub commit : ℕ → ℕ → Action World Prover
  -- TCP and TLS to the server, with its name and the Mozilla roots.
  pub connect : Text → Prover → Action World Prover
  pub send_request : HttpRequest → Prover → Action World Prover
  -- The body of the first response of the transcript; it may not parse, or have no body.
  pub response_body : Prover → Result Text
  -- The default commitments to the parts of the parsed transcript.
  pub TranscriptCommit : Type 0
  pub commit_transcript : Prover → Option TranscriptCommit
  pub RequestConfig : Type 0
  pub request_config : TranscriptCommit → Option RequestConfig
  pub transcript_commit_of : RequestConfig → Option TranscriptCommit
  pub ProveConfig : Type 0
  pub prove_config : Prover → Option TranscriptCommit → Option ProveConfig
  -- What the proof puts out: commitments, and the secrets that open them.
  pub Commitments : Type 0
  pub TranscriptSecrets : Type 0
  pub prove : Prover → ProveConfig → Action World (Commitments × TranscriptSecrets)
  pub close : Prover → Action World (Unit {0})
  -- The server's side of the TLS handshake.
  pub Certs : Type 0
  pub Signature : Type 0
  pub Binding : Type 0
  pub server_cert_chain : Prover → Option Certs
  pub server_signature : Prover → Option Signature
  pub certificate_binding : Prover → Binding
  -- The request for an attestation: its settings, the server's name, the handshake, the transcript of
  -- the prover, and what was proved of it.
  pub build_request :
      RequestConfig
      → Text
      → Handshake Certs Signature Binding
      → Prover
      → TranscriptSecrets
      → Commitments
      → Option (Request × Secrets)
  -- The notary, as a task of its own at the other end of the socket.
  pub spawn_notary : World → World
  -- `handle.close()`, and the end of the session's driver, which gives the socket back.
  pub finish_session : Action World (Unit {0})
  -- Send bytes to the notary, close, and read its answer to the end.
  pub exchange : List ℕ → Action World (List ℕ)
  pub validate : Request → Attestation → Bool
  pub request_bytes : Request → List ℕ
  pub attestation_bytes : Attestation → List ℕ
  pub attestation_of_bytes : List ℕ → Option Attestation
  pub secrets_bytes : Secrets → List ℕ

module _ (j : ChatJson) (s : ProverSdk) where
  open s use {
    World, files, Prover, Request, Secrets, commit, connect, send_request, response_body, prove,
    Certs, Signature, Binding, commit_transcript, request_config, transcript_commit_of,
    prove_config, close, server_cert_chain, server_signature, certificate_binding, build_request,
    spawn_notary, finish_session, exchange, validate, request_bytes, attestation_bytes,
    attestation_of_bytes, secrets_bytes,
  }
  open files use {write}

  -- `prover`, from the transcript to the request: what the request commits to is what is proved.
  unfoldable pub request_attestation : Prover → Action World (Request × Secrets)
  request_attestation p = do
    transcript_commit ← lift (context (commit_transcript p) "transcript commitments")
    settings ← lift (context (request_config transcript_commit) "request config")
    disclosure ← lift (context (prove_config p (transcript_commit_of settings)) "prove config")
    (commitments, secrets) ← prove p disclosure
    close p
    certs ← lift (context (server_cert_chain p) "server cert chain is present")
    sig ← lift (context (server_signature p) "server signature is present")
    let handshake : Handshake Certs Signature Binding = record {
      certs = certs;
      sig = sig;
      binding = certificate_binding p;
    }
    lift (
        context (build_request settings server_domain handshake p secrets commitments)
          "attestation request")

  -- From the end of the session to the files: the attestation is validated before anything of it is written.
  unfoldable pub keep_attestation : Request → Secrets → Action World (Unit {0})
  keep_attestation request secrets = do
    finish_session
    answer ← exchange (request_bytes request)
    attestation ← lift (context (attestation_of_bytes answer) "attestation")
    lift (ensure (validate request attestation) "invalid attestation")
    write attestation_path (attestation_bytes attestation)
    write secrets_path (secrets_bytes secrets)

  -- `prover`
  unfoldable pub prover : Env → Action World (Unit {0})
  prover env = do
    http ← lift (chat_request j env)
    committed ← commit max_sent_data max_recv_data
    connected ← connect server_domain committed
    answered ← send_request http connected
    body ← lift (response_body answered)
    write (codes "openrouter.response.json") body
    (request, secrets) ← request_attestation answered
    keep_attestation request secrets

  -- `main`
  unfoldable pub main : Env → Action World (Unit {0})
  main env w = prover env (spawn_notary w)
