-- ===== src/Present/File.antt =====
-- `main` of present.rs: from the files that prove.rs left to the presentation that the oracle reads.
use bartok.Base.{ℕ, ◌≡◌, refl, ap, ◌∙◌, Bool, Option, some, List, [], ◌∷◌, ok, All, context}
use bartok.Base.Action.{Action, ◌>>=◌, lift, option-continue, result-continue}
use bartok.Text.{Text, codes}
use bartok.Role.{Files}
use bartok.Prove.Request.{attestation_path, secrets_path}
use bartok.Present.{Request, Response, ProofBuilder, present}
use bartok.Present.Redaction.{Part, MayShow, Within, IsParsed, present-MayShow}

abbrev pub presentation_path : Text
presentation_path = codes "openrouter.presentation.tlsn"

-- What the program uses of TLSNotary beside the builder of the transcript proof.
pub record PresentationSdk (p : ProofBuilder) : Type 1 where
  pub World : Type 0
  pub files : Files World
  pub Attestation : Type 0
  pub Secrets : Type 0
  pub Presentation : Type 0
  pub attestation_of_bytes : List ℕ → Option Attestation
  pub secrets_of_bytes : List ℕ → Option Secrets
  -- `HttpTranscript::parse` of the transcript in the secrets.
  pub parse_transcript : Secrets → Option (List (Request p.Span) × List (Response p.Span))
  -- A builder that reveals nothing yet.
  pub transcript_proof_builder : Secrets → p.Builder
  pub reveals_nothing : (s : Secrets) → p.sent (transcript_proof_builder s) ≡ []
  -- The transcript proof and the identity proof, put into a presentation.
  pub presentation_build : Attestation → Secrets → p.Builder → Option Presentation
  pub presentation_bytes : Presentation → List ℕ

module _ (p : ProofBuilder) (d : PresentationSdk p) where
  open p use {Span, Builder, sent}
  open d use {
    World, files, Attestation, Secrets, Presentation, attestation_of_bytes, secrets_of_bytes,
    parse_transcript, transcript_proof_builder, reveals_nothing, presentation_build,
    presentation_bytes,
  }
  open files use {read_to_string, write, write_read}

  -- `main`
  unfoldable pub present_file : Action World (Unit {0})
  present_file = do
    attestation_bytes ← λ w. (read_to_string attestation_path w, w)
    attestation ← lift (context (attestation_of_bytes attestation_bytes) "attestation")
    secrets_bytes ← λ w. (read_to_string secrets_path w, w)
    secrets ← lift (context (secrets_of_bytes secrets_bytes) "secrets")
    (requests, responses) ← lift (context (parse_transcript secrets) "transcript")
    builder ← lift (present p requests responses (transcript_proof_builder secrets))
    presentation ← lift (context (presentation_build attestation secrets builder) "presentation")
    write presentation_path (presentation_bytes presentation)

  module _ (covers : Span → ℕ → Bool) (part_of : Secrets → ℕ → Part Span) where
    -- The presentation in the file, and what went into it.
    pub record IsPresented (w w' : World) : Type 0 where
      pub attestation : Attestation
      pub secrets : Secrets
      pub builder : Builder
      pub presentation : Presentation
      pub attestation_text : Text
      pub secrets_text : Text
      pub attested : read_to_string attestation_path w ≡ ok attestation_text
      pub is_attestation : attestation_of_bytes attestation_text ≡ some attestation
      pub kept : read_to_string secrets_path w ≡ ok secrets_text
      pub is_secrets : secrets_of_bytes secrets_text ≡ some secrets
      pub builds : presentation_build attestation secrets builder ≡ some presentation
      pub discloses : All (Within p covers (part_of secrets) MayShow) (sent builder)
      pub stored : read_to_string presentation_path w' ≡ ok (presentation_bytes presentation)

    revealed :
        (secrets : Secrets) (requests : List (Request Span)) (responses : List (Response Span))
        (builder : Builder)
        → ((request : Request Span) (others : List (Request Span))
            → requests ≡ request ∷ others
            → IsParsed p covers (part_of secrets) request)
        → present p requests responses (transcript_proof_builder secrets) ≡ ok builder
        → All (Within p covers (part_of secrets) MayShow) (sent builder)
    unfolding present
    revealed secrets [] responses builder parsed e = cc
    revealed secrets (request ∷ others) responses builder parsed e =
        present-MayShow p covers (part_of secrets) request others responses
          (transcript_proof_builder secrets) builder (parsed request others refl)
          (reveals_nothing secrets) e

    -- Where present.rs succeeds, the presentation that it writes was built, for the attestation and
    -- the secrets of its two input files, with a transcript proof that discloses of the request
    -- neither the value of a header that is called Authorization, in upper or lower case, nor
    -- anything of its body but the fields `model`
    -- and `max_tokens`: every byte of what is revealed as sent is of the start line, the target, a
    -- header's name, the value of another header, or one of those two fields. The spans of the
    -- first request are as the parser documents them.
    pub present_file-MayShow :
        (w w' : World)
        → ((secrets : Secrets) (request : Request Span) (others : List (Request Span))
              (responses : List (Response Span))
            → parse_transcript secrets ≡ some (request ∷ others, responses)
            → IsParsed p covers (part_of secrets) request)
        → present_file w ≡ (ok tt, w')
        → IsPresented w w'
    unfolding present_file
    present_file-MayShow w w' parses e =
        let (attestation_text, attested, e1) =
          result-continue (read_to_string attestation_path w) w _ e in
        let (attestation, is_attestation, e2) =
          option-continue (attestation_of_bytes attestation_text) _ w _ e1 in
        let (secrets_text, kept, e3) = result-continue (read_to_string secrets_path w) w _ e2 in
        let (secrets, is_secrets, e4) = option-continue (secrets_of_bytes secrets_text) _ w _ e3 in
        let ((requests, responses), parsed, e5) =
          option-continue (parse_transcript secrets) _ w _ e4 in
        let (builder, shown, e6) =
          result-continue (present p requests responses (transcript_proof_builder secrets)) w _
            e5 in
        let (presentation, builds, e7) =
          option-continue (presentation_build attestation secrets builder) _ w _ e6 in
        record {
          attestation = attestation;
          secrets = secrets;
          builder = builder;
          presentation = presentation;
          attestation_text = attestation_text;
          secrets_text = secrets_text;
          attested = attested;
          is_attestation = is_attestation;
          kept = kept;
          is_secrets = is_secrets;
          builds = builds;
          discloses =
              revealed secrets requests responses builder
                (λ request others is.
                  parses secrets request others responses
                    (parsed ∙ ap (λ x. some (x, responses)) is))
                shown;
          stored = write_read presentation_path (presentation_bytes presentation) w w' e7;
        }
