-- ===== src/Prove/Attestation.antt =====
-- What a run of `prover` leaves behind.
use bartok.Base.{ℕ, ◌≡◌, refl, ◌∙◌, Bool, true, false, some, List, ok, ensure}
use bartok.Base.Action.{option-end, continue-eq-ok, option-continue, result-continue}
use bartok.Text.{codes}
use bartok.Prove.{ProverSdk, Handshake, request_attestation, keep_attestation, prover, main}
use bartok.Prove.Request.{
  Env, HttpRequest, ChatJson, chat_request, server_domain, max_sent_data, max_recv_data,
  attestation_path, secrets_path,
}

ensured : (t : Bool) (message : _) → ensure t message ≡ ok tt → t ≡ true
ensured true message e = refl
ensured false message e = cc

module _ (j : ChatJson) (s : ProverSdk) where
  open s use {
    World, files, Prover, Request, Secrets, Attestation, commit, connect, send_request,
    response_body, prove, TranscriptCommit, RequestConfig, ProveConfig, Commitments,
    TranscriptSecrets, Certs, Signature, Binding, commit_transcript, request_config,
    transcript_commit_of, prove_config, close, server_cert_chain, server_signature,
    certificate_binding, build_request, spawn_notary, exchange, finish_session, validate,
    request_bytes, attestation_bytes, attestation_of_bytes, secrets_bytes,
  }
  open files use {write, read_to_string, write_read, write_other}

  -- The files hold an attestation that is valid for the request, as the notary sent it, and secrets.
  pub record IsKept (request : Request) (secrets : Secrets) (w' : World) : Type 0 where
    pub attestation : Attestation
    pub proved : World
    pub asked : World
    pub finishes : finish_session proved ≡ (ok tt, asked)
    pub answered : World
    pub answer : List ℕ
    pub exchanged : exchange (request_bytes request) asked ≡ (ok answer, answered)
    pub decoded : attestation_of_bytes answer ≡ some attestation
    pub valid : validate request attestation ≡ true
    pub attestation_file : read_to_string attestation_path w' ≡ ok (attestation_bytes attestation)
    pub secrets_file : read_to_string secrets_path w' ≡ ok (secrets_bytes secrets)

  -- The request is for the session of the prover: it was proved under the commitments that the request
  -- carries, the prover was closed, and the handshake is the server's.
  pub record IsProved (p : Prover) (request : Request) (secrets : Secrets) : Type 0 where
    pub transcript_commit : TranscriptCommit
    pub settings : RequestConfig
    pub disclosure : ProveConfig
    pub commitments : Commitments
    pub openings : TranscriptSecrets
    pub handshake : Handshake Certs Signature Binding
    pub before : World
    pub behind : World
    pub committed : commit_transcript p ≡ some transcript_commit
    pub configured : request_config transcript_commit ≡ some settings
    pub disclosed : prove_config p (transcript_commit_of settings) ≡ some disclosure
    pub proved : prove p disclosure before ≡ (ok (commitments, openings), behind)
    pub closed : (w : World) × (close p behind ≡ (ok tt, w))
    pub certs : server_cert_chain p ≡ some handshake.certs
    pub signature : server_signature p ≡ some handshake.sig
    pub binding : handshake.binding ≡ certificate_binding p
    pub requested :
        build_request settings server_domain handshake p openings commitments
        ≡ some (request, secrets)

  request_attestation-IsProved :
      (p : Prover) (request : Request) (secrets : Secrets) (w w' : World)
      → request_attestation j s p w ≡ (ok (request, secrets), w')
      → IsProved p request secrets
  unfolding request_attestation
  request_attestation-IsProved p request secrets w w' e =
      let (transcript_commit, committed, e1) = option-continue (commit_transcript p) _ w _ e in
      let (settings, configured, e2) =
        option-continue (request_config transcript_commit) _ w _ e1 in
      let (disclosure, disclosed, e3) =
        option-continue (prove_config p (transcript_commit_of settings)) _ w _ e2 in
      let ((commitments, openings), w1, proved, e4) = continue-eq-ok (prove p disclosure w) _ e3 in
      let (_, w2, closed, e5) = continue-eq-ok (close p w1) _ e4 in
      let (certs, has_certs, e6) = option-continue (server_cert_chain p) _ w2 _ e5 in
      let (sig, has_sig, e7) = option-continue (server_signature p) _ w2 _ e6 in
      let handshake : Handshake Certs Signature Binding = record {
        certs = certs;
        sig = sig;
        binding = certificate_binding p;
      } in
      record {
        transcript_commit = transcript_commit;
        settings = settings;
        disclosure = disclosure;
        commitments = commitments;
        openings = openings;
        handshake = handshake;
        before = w;
        behind = w1;
        committed = committed;
        configured = configured;
        disclosed = disclosed;
        proved = proved;
        closed = (w2, closed);
        certs = has_certs;
        signature = has_sig;
        binding = refl;
        requested =
            option-end (build_request settings server_domain handshake p openings commitments) _ e7;
      }

  keep_attestation-IsKept :
      (request : Request) (secrets : Secrets) (w w' : World)
      → keep_attestation j s request secrets w ≡ (ok tt, w')
      → IsKept request secrets w'
  unfolding keep_attestation
  keep_attestation-IsKept request secrets w w' e =
      let (_, w0, finishes, e0) = continue-eq-ok (finish_session w) _ e in
      let (answer, w1, exchanged, e1) = continue-eq-ok (exchange (request_bytes request) w0) _ e0 in
      let (attestation, decoded, e2) = option-continue (attestation_of_bytes answer) _ w1 _ e1 in
      let (_, valid, e3) =
        result-continue (ensure (validate request attestation) "invalid attestation") w1 _ e2 in
      let (_, w2, wrote, e4) =
        continue-eq-ok (write attestation_path (attestation_bytes attestation) w1) _ e3 in
      record {
        attestation = attestation;
        proved = w;
        asked = w0;
        finishes = finishes;
        answered = w1;
        answer = answer;
        exchanged = exchanged;
        decoded = decoded;
        valid = ensured (validate request attestation) "invalid attestation" valid;
        attestation_file =
            write_other secrets_path attestation_path (secrets_bytes secrets) w2 w' (λ x. cc) e4
            ∙ write_read attestation_path (attestation_bytes attestation) w1 w2 wrote;
        secrets_file = write_read secrets_path (secrets_bytes secrets) w2 w' e4;
      }

  -- Where `main` succeeds, with the notary beside it, the prover sent the chat request of its
  -- environment to openrouter.ai under the limits of 4 KiB and 64 KiB; it made its request of the proof
  -- of that session and the server's handshake; and its two files hold an attestation from the notary
  -- that is valid for this request, and the secrets made with it.
  pub prover-IsKept :
      (env : Env) (w w' : World)
      → main j s env w ≡ (ok tt, w')
      → (http : HttpRequest) × (committed connected answered : Prover) × (request : Request)
        × (secrets : Secrets) × (w1 w2 w3 : World) × (chat_request j env ≡ ok http)
        × (commit max_sent_data max_recv_data (spawn_notary w) ≡ (ok committed, w1))
        × (connect server_domain committed w1 ≡ (ok connected, w2))
        × (send_request http connected w2 ≡ (ok answered, w3))
        × IsProved answered request secrets
        × IsKept request secrets w'
  unfolding main prover
  prover-IsKept env w w' e =
      let (http, made, e1) = result-continue (chat_request j env) (spawn_notary w) _ e in
      let (committed, w1, commits, e2) =
        continue-eq-ok (commit max_sent_data max_recv_data (spawn_notary w)) _ e1 in
      let (connected, w2, connects, e3) =
        continue-eq-ok (connect server_domain committed w1) _ e2 in
      let (answered, w3, answers, e4) = continue-eq-ok (send_request http connected w2) _ e3 in
      let (body, _, e5) = result-continue (response_body answered) w3 _ e4 in
      let (_, w4, _, e6) = continue-eq-ok (write (codes "openrouter.response.json") body w3) _ e5 in
      let ((request, secrets), w5, proves, e7) =
        continue-eq-ok (request_attestation j s answered w4) _ e6 in
      (
        http,
        committed,
        connected,
        answered,
        request,
        secrets,
        w1,
        w2,
        w3,
        made,
        commits,
        connects,
        answers,
        request_attestation-IsProved answered request secrets w4 w5 proves,
        keep_attestation-IsKept request secrets w5 w' e7,
      )
