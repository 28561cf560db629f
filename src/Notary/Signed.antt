-- ===== src/Notary/Signed.antt =====
-- When the notary signs, and what.
use bartok.Base.{ℕ, ◌≡◌, refl, ap, ◌∙◌, Option, some, List, ok}
use bartok.Base.Action.{continue-eq-ok, option-continue, result-continue}
use bartok.Text.{Text, codes}
use bartok.Notary.{
  CommitStart, mpc, proxy, TlsTranscript, CertBinding, v1_2, other_version, ephemeral_key,
  connection_info, key_file, NotarySdk, accept_mpc, sign_attestation, notary,
}
use bartok.Notary.Key.{Secp256k1, signing_key}

module _ (k : Secp256k1) (n : NotarySdk k) where
  open k use {SigningKey}
  open n use {
    World, files, Verifier, Commitments, Request, Attestation, offered, run_mpc, verify, close,
    read_to_end, request_of_bytes, Config, attestation_config, Builder, accept_request, build,
    EphemeralKey, attestation_bytes, write_all, close_socket, reject, finish_session,
  }
  open files use {read_to_string}

  -- An attestation that a key signs for a request that was accepted, over the lengths, the time and the
  -- version of a session whose certificate binding is of TLS 1.2, and its server's ephemeral key.
  pub record IsBuilt (key : SigningKey) (request : Request) (tls : TlsTranscript EphemeralKey)
      (commitments : Commitments) (attestation : Attestation) : Type 0 where
    pub config : Config
    pub configured : attestation_config key ≡ some config
    pub builder : Builder
    pub accepts : accept_request config request ≡ some builder
    pub server_key : EphemeralKey
    pub bound : tls.certificate_binding ≡ v1_2 server_key
    pub builds : build key builder (connection_info tls) server_key commitments ≡ ok attestation

  ephemeral_key-v1_2 :
      (c : CertBinding EphemeralKey) {server_key : EphemeralKey}
      → ephemeral_key c ≡ some server_key
      → c ≡ v1_2 server_key
  ephemeral_key-v1_2 (v1_2 key) e = cc
  ephemeral_key-v1_2 other_version e = cc

  sign_attestation-IsBuilt :
      (key : SigningKey) (request : Request) (tls : TlsTranscript EphemeralKey)
      (commitments : Commitments) (attestation : Attestation) (w w' : World)
      → sign_attestation k n key request tls commitments w ≡ (ok attestation, w')
      → IsBuilt key request tls commitments attestation × (w ≡ w')
  unfolding sign_attestation
  sign_attestation-IsBuilt key request tls commitments attestation w w' e =
      let (config, configured, e1) = option-continue (attestation_config key) _ w _ e in
      let (server_key, binding, e2) =
        option-continue (ephemeral_key tls.certificate_binding) _ w _ e1 in
      let (builder, accepts, e3) = option-continue (accept_request config request) _ w _ e2 in
      (
        record {
          config = config;
          configured = configured;
          builder = builder;
          accepts = accepts;
          server_key = server_key;
          bound = ephemeral_key-v1_2 tls.certificate_binding binding;
          builds = ap (λ x. x.0) e3;
        },
        ap (λ x. x.1) e3,
      )

  -- An attestation sent at the end of a session that the verifier ran and verified.
  pub record IsSigned (key_env : Option Text) (w w' : World) : Type 0 where
    pub offer : Verifier
    pub verifier : Verifier
    pub commitments : Commitments
    pub tls : TlsTranscript EphemeralKey
    pub request_bytes : List ℕ
    pub request : Request
    pub key_hex : Text
    pub key : SigningKey
    pub attestation : Attestation
    pub met : World
    pub ran : World
    pub verified : World
    pub closed : World
    pub heard : World
    pub is_mpc : offered w ≡ (ok (mpc offer), met)
    pub runs : run_mpc offer met ≡ (ok verifier, ran)
    pub verifies : verify verifier ran ≡ (ok commitments, verified)
    pub closes : close verifier verified ≡ (ok tls, closed)
    pub finished : World
    pub finishes : finish_session closed ≡ (ok tt, finished)
    pub hears : read_to_end finished ≡ (ok request_bytes, heard)
    pub requested : request_of_bytes request_bytes ≡ some request
    pub key_text : read_to_string (key_file key_env) heard ≡ ok key_hex
    pub is_key : signing_key k key_hex ≡ ok key
    pub signs : IsBuilt key request tls commitments attestation
    pub ready : World
    pub undisturbed : heard ≡ ready
    pub sent : World
    pub sends : write_all (attestation_bytes attestation) ready ≡ (ok tt, sent)
    pub ends : close_socket sent ≡ (ok tt, w')

  accepted :
      (start : CommitStart Verifier) (v : Verifier) (w w' : World)
      → accept_mpc k n start w ≡ (ok v, w')
      → (offer : Verifier) × (start ≡ mpc offer) × (run_mpc offer w ≡ (ok v, w'))
  accepted (mpc offer) v w w' e = (offer, refl, e)
  accepted (proxy offer) v w w' e =
      let (_, w1, _, e1) = continue-eq-ok (reject offer (codes "expecting to use MPC-TLS") w) _ e in
      cc

  -- The notary answers only to a session in MPC mode that it ran, verified and closed, and to a
  -- request that it then read and accepted; its attestation is signed with the key of its key file,
  -- over the lengths of the application data of that session and its server's ephemeral key.
  pub notary-IsSigned :
      (key_env : Option Text) (w w' : World)
      → notary k n key_env w ≡ (ok tt, w')
      → IsSigned key_env w w'
  unfolding notary
  notary-IsSigned key_env w w' e =
      let (start, w1, offers, e1) = continue-eq-ok (offered w) _ e in
      let (verifier, w2, accepts, e2) = continue-eq-ok (accept_mpc k n start w1) _ e1 in
      let (commitments, w3, verifies, e3) = continue-eq-ok (verify verifier w2) _ e2 in
      let (tls, w4, closes, e4) = continue-eq-ok (close verifier w3) _ e3 in
      let (_, w4', finishes, e4') = continue-eq-ok (finish_session w4) _ e4 in
      let (request_bytes, w5, hears, e5) = continue-eq-ok (read_to_end w4') _ e4' in
      let (request, requested, e6) = option-continue (request_of_bytes request_bytes) _ w5 _ e5 in
      let (key_hex, key_text, e7) =
        result-continue (read_to_string (key_file key_env) w5) w5 _ e6 in
      let (key, is_key, e8) = result-continue (signing_key k key_hex) w5 _ e7 in
      let (attestation, w6, attests, e9) =
        continue-eq-ok (sign_attestation k n key request tls commitments w5) _ e8 in
      let (signs, same) =
        sign_attestation-IsBuilt key request tls commitments attestation w5 w6 attests in
      let (_, w7, sends, e10) =
        continue-eq-ok (write_all (attestation_bytes attestation) w6) _ e9 in
      let (offer, is_mpc, runs) = accepted start verifier w1 w2 accepts in
      record {
        offer = offer;
        verifier = verifier;
        commitments = commitments;
        tls = tls;
        request_bytes = request_bytes;
        request = request;
        key_hex = key_hex;
        key = key;
        attestation = attestation;
        met = w1;
        ran = w2;
        verified = w3;
        closed = w4;
        heard = w5;
        is_mpc = offers ∙ ap (λ x. (ok x, w1)) is_mpc;
        runs = runs;
        verifies = verifies;
        closes = closes;
        finished = w4';
        finishes = finishes;
        hears = hears;
        requested = requested;
        key_text = key_text;
        is_key = is_key;
        signs = signs;
        sent = w7;
        ready = w6;
        undisturbed = same;
        sends = sends;
        ends = e10;
      }
