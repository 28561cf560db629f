-- ===== src/Tests/Disclosures.antt =====
-- The theorems on presentations, at a transcript of nine bytes.
use bartok.Base.{
  ℕ, ◌≡◌, refl, sym, ok_inj, zero, suc, ap, Bool, true, false, Bool-cases, inl, inr, some, List, [],
  ◌∷◌, ◌++◌, ok, All, ◌⊎◌, ◌==◌, ==_iff, if◌then◌else◌,
}
use bartok.Text.{Text, codes, text_eq}
use bartok.Present.{
  Header, KeyValue, json_object, Request, Response, ProofBuilder, present, reveal_request,
  reveal_headers, reveal_costs, reveal_response, reveal_response_headers, reveal_paths, find_key,
  is_authorization, is_cost, eq_ignore_ascii_case, ascii_lower,
}
use bartok.Present.Redaction.{
  Part, start_line, request_target, other_part, header_name, header_value, field, IsParsed,
}
use mathlib.Core.Path.{subst}
use bartok.Present.File.{PresentationSdk, present_file, IsPresented, present_file-MayShow}
use bartok.Tests.Disks.{Disk, disk, put, content}
use bartok.Present.Billing.{IsRevealed, present-IsRevealed}
use bartok.Tests.Runs.{result_of, outcome_of}

-- A span is a list of positions.
abbrev Positions : Type 0
Positions = List ℕ

unfoldable member : Positions → ℕ → Bool
member [] i = false
member (j ∷ js) i = if j == i then true else member js i

member-All : (P : ℕ → Type 0) (s : Positions) (i : ℕ) → All P s → member s i ≡ true → P i
unfolding member
member-All P [] i h e = cc
member-All P (j ∷ js) i (p, h) e = elim (Bool-cases (j == i)) [
  | inl same ↦ rw (← (==_iff j i).0 same) p
  | inr other ↦ member-All P js i h (rw other at e)
]

abbrev proofs : ProofBuilder
proofs = record {
  Span = Positions;
  Builder = List Positions × List Positions;
  reveal_sent = λ s b. ok (b.0 ++ s ∷ [], b.1);
  reveal_recv = λ s b. ok (b.0, b.1 ++ s ∷ []);
  sent = λ b. b.0;
  received = λ b. b.1;
  reveal_sent_adds = λ s b b' e. (ap (λ q. q.0) (sym (ok_inj e)), ap (λ q. q.1) (sym (ok_inj e)));
  reveal_recv_adds = λ s b b' e. (ap (λ q. q.1) (sym (ok_inj e)), ap (λ q. q.0) (sym (ok_inj e)));
}

abbrev secret : Header Positions
secret = record { name = codes "Authorization"; span = 2 ∷ 3 ∷ []; without_value = 2 ∷ [] }

abbrev open_header : Header Positions
open_header = record { name = codes "Host"; span = 4 ∷ 5 ∷ []; without_value = 4 ∷ [] }

abbrev model_field : KeyValue Positions
model_field = record { key = codes "model"; span = 6 ∷ [] }

abbrev messages_field : KeyValue Positions
messages_field = record { key = codes "messages"; span = 7 ∷ [] }

abbrev parts : List (Part Positions)
parts =
    start_line
    ∷ request_target
    ∷ header_name secret
    ∷ header_value secret
    ∷ header_name open_header
    ∷ header_value open_header
    ∷ field model_field
    ∷ field messages_field
    ∷ []

abbrev part_at : List (Part Positions) → ℕ → Part Positions
part_at [] i = other_part
part_at (x ∷ xs) zero = x
part_at (x ∷ xs) (suc i) = part_at xs i

abbrev part_of : ℕ → Part Positions
part_of i = part_at parts i

abbrev asked : Request Positions
asked = record {
  without_data = 0 ∷ [];
  target = 1 ∷ [];
  headers = secret ∷ open_header ∷ [];
  body = some (json_object (messages_field ∷ model_field ∷ []));
}

asked-IsParsed : IsParsed proofs member part_of asked
asked-IsParsed = record {
  shape = λ i. member-All (λ x. part_of x ≡ start_line) (0 ∷ []) i (refl, tt);
  target = λ i. member-All (λ x. part_of x ≡ request_target) (1 ∷ []) i (refl, tt);
  names = (
    λ i. member-All (λ x. part_of x ≡ header_name secret) (2 ∷ []) i (refl, tt),
    (λ i. member-All (λ x. part_of x ≡ header_name open_header) (4 ∷ []) i (refl, tt), tt),
  );
  values = (
    λ i.
        member-All (λ x. (part_of x ≡ header_name secret) ⊎ (part_of x ≡ header_value secret))
          (2 ∷ 3 ∷ []) i (inl refl, (inr refl, tt)),
    (
      λ i.
          member-All
            (λ x. (part_of x ≡ header_name open_header) ⊎ (part_of x ≡ header_value open_header))
            (4 ∷ 5 ∷ []) i (inl refl, (inr refl, tt)),
      tt,
    ),
  );
  entries = (
    λ i. member-All (λ x. part_of x ≡ field messages_field) (7 ∷ []) i (refl, tt),
    (λ i. member-All (λ x. part_of x ≡ field model_field) (6 ∷ []) i (refl, tt), tt),
  );
}

abbrev usage : KeyValue Positions
usage = record { key = codes "usage"; span = 12 ∷ 13 ∷ [] }

abbrev choices : KeyValue Positions
choices = record { key = codes "choices"; span = 14 ∷ [] }

abbrev answered : Response Positions
answered = record {
  without_data = 10 ∷ [];
  headers = record { name = codes "Date"; span = 11 ∷ []; without_value = [] } ∷ [];
  body = some (json_object (choices ∷ usage ∷ []));
}

abbrev empty : List Positions × List Positions
empty = ([], [])

unfoldable presented :
    (b : List Positions × List Positions) × (present proofs (asked ∷ []) (answered ∷ []) empty
      ≡ ok b)
unfolding result_of present reveal_request reveal_headers reveal_costs reveal_response
    reveal_response_headers reveal_paths find_key is_authorization is_cost eq_ignore_ascii_case
    ascii_lower text_eq
presented = result_of (present proofs (asked ∷ []) (answered ∷ []) empty) tt

-- The secrets are always those of this transcript.
abbrev sdk : PresentationSdk proofs
sdk = record {
  World = Disk;
  files = disk;
  Attestation = Text;
  Secrets = Text;
  Presentation = List Positions;
  attestation_of_bytes = λ b. some b;
  secrets_of_bytes = λ b. some b;
  parse_transcript = λ _. some (asked ∷ [], answered ∷ []);
  transcript_proof_builder = λ _. empty;
  reveals_nothing = λ _. refl;
  presentation_build = λ _ _ b. some b.0;
  presentation_bytes = λ _. codes "presentation";
}

abbrev proven : Disk
proven =
    (codes "openrouter.attestation.tlsn", codes "a")
    ∷ (codes "openrouter.secrets.tlsn", codes "s")
    ∷ []

unfoldable disclosed : (u : Unit {0}) × (w : Disk) × (present_file proofs sdk proven ≡ (ok u, w))
unfolding outcome_of present_file content put present reveal_request reveal_headers reveal_costs
    reveal_response reveal_response_headers reveal_paths find_key is_authorization is_cost
    eq_ignore_ascii_case ascii_lower text_eq
disclosed = outcome_of (present_file proofs sdk proven) tt

parse_transcript-IsParsed :
    (secrets : Text) (request : Request Positions) (others : List (Request Positions))
    (responses : List (Response Positions))
    → sdk.parse_transcript secrets ≡ some (request ∷ others, responses)
    → IsParsed proofs member part_of request
parse_transcript-IsParsed secrets request others responses e =
    let same : asked ≡ request = cc in subst (IsParsed proofs member part_of) same asked-IsParsed

present_file-MayShow_example : IsPresented proofs sdk member (λ _. part_of) proven disclosed.1
present_file-MayShow_example =
    present_file-MayShow proofs sdk member (λ _. part_of) proven disclosed.1
      parse_transcript-IsParsed disclosed.2

present-IsRevealed_example : IsRevealed proofs usage.span presented.0
present-IsRevealed_example =
    present-IsRevealed proofs (asked ∷ []) answered [] (codes "usage") (choices ∷ []) [] usage empty
      presented.0 (inr (inr refl)) refl refl (λ e. cc, tt) presented.1
