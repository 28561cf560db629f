-- ===== src/Tests/Texts.antt =====
-- The theorems on serials, random words, charges and attestations at concrete inputs.
use bartok.Base.{
  ℕ, ◌+◌, ◌*◌, ◌/◌, ◌^◌, ◌≤◌, ◌<◌, ◌≡◌, refl, ◌↔◌, ◌⊎◌, none, some, List, [], ◌∷◌, ok, arith,
  Result, err, ltb, if◌then◌else◌, Bool,
}
use bartok.Text.{Text, codes, text_eq, trim, find, starts_with}
use bartok.Sweep.Drain.{drain, Tried, drain-Tried}
use bartok.Text.Decimal.{parse_u64}
use bartok.Cli.Random.{random_word, accepted, random_word_iff}
use bartok.Oracle.{
  Inputs, TlsNotary, Attested, charge_of, scan, json_object_fragment, json_string, price_denom_of,
  known_notary, disclosed, attest, oracle,
}
use bartok.Oracle.Charge.{charge_of-near, charge_of-wraps}
use bartok.Oracle.Scan.{Closes}
use bartok.Oracle.Fragment.{json_object_fragment-Closes}
use bartok.Oracle.Show.{Shown, show_presentation, oracle-show_presentation}
use bartok.Oracle.Verdict.{IsAttested, oracle-IsAttested}
use bartok.Tests.Goldilocks.{reduce}
use bartok.Tests.Model.{toy}
use bartok.Tests.Runs.{result_of}

-- The second number is not below the modulus.
abbrev drawn : List ℕ
drawn = 1 ∷ 0xffffffffffffffff ∷ 2 ∷ 3 ∷ 4 ∷ 5 ∷ []

random_word_iff_example :
    ((rng' : List ℕ) × (random_word toy drawn
        ≡ some (record { w0 = reduce 1; w1 = reduce 2; w2 = reduce 3; w3 = reduce 4 }, rng'))
      × (accepted toy rng' ≡ reduce 5 ∷ []))
    ↔ (accepted toy drawn ≡ reduce 1 ∷ reduce 2 ∷ reduce 3 ∷ reduce 4 ∷ reduce 5 ∷ [])
random_word_iff_example =
    random_word_iff toy drawn
      (record { w0 = reduce 1; w1 = reduce 2; w2 = reduce 3; w3 = reduce 4 }) (reduce 5 ∷ [])

charge_of-near_example :
    ((charge_of 1234 5 1000 ≡ 0) ↔ (◌≡◌ {A = ℕ} 1234 0))
    × (2 * (1234 * 5) < 2 * (charge_of 1234 5 1000 * 1000) + 1000)
    × ((charge_of 1234 5 1000 ≡ 1) ⊎ (2 * (charge_of 1234 5 1000 * 1000) ≤ 2 * (1234 * 5) + 1000))
charge_of-near_example = charge_of-near 1234 5 1000 (omega arith) (omega arith)

charge_of-wraps_example :
    ((charge_of (2 ^ 40) (2 ^ 30) 1000 ≡ 1)
      ⊎ (charge_of (2 ^ 40) (2 ^ 30) 1000 + 2 ^ 64 / 1000 ≤ (2 ^ 40 * 2 ^ 30 + 1000 / 2) / 1000))
    × (charge_of (2 ^ 40) (2 ^ 30) 1000 + 2 ^ 64 / 1000 ≤ (2 ^ 40 * 2 ^ 30 + 1000 / 2) / 1000 + 1)
charge_of-wraps_example = charge_of-wraps (2 ^ 40) (2 ^ 30) 1000 (omega arith) (omega arith)

abbrev disclosed_text : Text
disclosed_text = codes "XX\"model\":\"m\",\"usage\":{\"total_tokens\":7},XX"

abbrev tls : TlsNotary
tls = record {
  Bytes = Text;
  Presentation = Text;
  Output = Text;
  Transcript = Text;
  deserialize = λ b. some b;
  verifying_key_hex = λ p. codes "ab";
  verify = λ p. some p;
  server_name = λ o. some (codes "openrouter.ai");
  transcript = λ o. some o;
  received = λ c t. t;
  to_lowercase = λ t. t;
  parse_usage = λ t. some 7;
}

abbrev presented : Inputs Text
presented = record {
  price_denom = none;
  price_per_token = some (codes "3");
  presentation = some disclosed_text;
  notary_pub = some (codes "ab\n");
}

unfoldable attested : (a : Attested) × (oracle tls presented ≡ ok a)
unfolding result_of oracle known_notary disclosed attest json_object_fragment json_string scan find
    starts_with trim text_eq parse_u64 price_denom_of charge_of
attested = result_of (oracle tls presented) tt

oracle-IsAttested_example : IsAttested tls presented attested.0
oracle-IsAttested_example = oracle-IsAttested tls presented attested.0 attested.1

oracle-show_presentation_example :
    (s : Shown) × (price : ℕ) × (key : Text) × (show_presentation tls
        (λ c t. t)
        presented.presentation
      ≡ ok s)
    × (presented.notary_pub ≡ some key)
    × (s.key ≡ trim key)
    × (attest tls price (price_denom_of presented.price_denom) s.received ≡ ok attested.0)
oracle-show_presentation_example =
    oracle-show_presentation tls (λ c t. t) presented attested.0 attested.1

json_object_fragment-Closes_example :
    (body : Text) × (codes "{\"x\":{}}" ≡ b'{' ∷ body) × Closes 1 body
unfolding json_object_fragment scan find starts_with text_eq
json_object_fragment-Closes_example =
    json_object_fragment-Closes (codes "\"u\":{\"x\":{}},") (codes "u") (codes "{\"x\":{}}")
      (omega arith) refl

abbrev flaky : ℕ → ℕ → Result (Unit {0}) × ℕ
flaky p w = (if ltb p 2 then ok tt else err "raced", w + p)

drain-Tried_example :
    (done : List (ℕ × Bool)) × (w' : ℕ) × (drain {Proposal = ℕ}
        (λ w. (ok (1 ∷ 2 ∷ 3 ∷ []), w))
        flaky
        0
      ≡ (ok done, w'))
    × Tried flaky (1 ∷ 2 ∷ 3 ∷ []) 0 done w'
drain-Tried_example = drain-Tried (λ w. (ok (1 ∷ 2 ∷ 3 ∷ []), w)) flaky (1 ∷ 2 ∷ 3 ∷ []) 0 0 refl
