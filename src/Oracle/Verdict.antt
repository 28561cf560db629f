-- ===== src/Oracle/Verdict.antt =====
-- What the oracle attests, and the presentations that it turns away.
use bartok.Base.{
  ℕ, ◌≡◌, sym, ap, ◌∙◌, Option, some, ok, context-eq-ok, ensure-eq-ok, >>=-eq-ok, ok_inj,
}
use bartok.Text.{Text, codes, trim, text_eq}
use bartok.Text.Decimal.{parse_u64}
use bartok.Text.Laws.{text_eq_iff}
use bartok.Oracle.{
  Inputs, TlsNotary, Attested, json_object_fragment, json_string, charge_of, price_denom_of,
  known_notary, disclosed, attest, oracle,
}

module _ (n : TlsNotary) where
  open n use {
    Bytes, Presentation, Output, Transcript, deserialize, verifying_key_hex, verify, server_name,
    transcript, received, to_lowercase, parse_usage,
  }

  -- What stands behind an attestation.
  pub record IsAttested (env : Inputs Bytes) (a : Attested) : Type 0 where
    pub presentation : Presentation
    pub key : Text
    pub output : Output
    pub partial : Transcript
    pub usage : Text
    pub price : Text
    pub price_per_token : ℕ
    pub priced : (env.price_per_token ≡ some price) × (parse_u64 price ≡ some price_per_token)
    pub trusted :
        (env.notary_pub ≡ some key) × (verifying_key_hex presentation ≡ to_lowercase (trim key))
    pub verified : (verify presentation ≡ some output) × (transcript output ≡ some partial)
    pub sliced : json_object_fragment (received b'X' partial) (codes "usage") ≡ some usage
    pub counted : parse_usage usage ≡ some a.total_tokens
    pub named : json_string (received b'X' partial) (codes "model") ≡ some a.model
    pub charged :
        a.charge ≡ charge_of a.total_tokens price_per_token (price_denom_of env.price_denom)

  known_notary-trusted :
      (file : Option Bytes) (notary_pub : Option Text) {p : Presentation}
      → known_notary n file notary_pub ≡ ok p
      → (key : Text) × (notary_pub ≡ some key) × (verifying_key_hex p ≡ to_lowercase (trim key))
  unfolding known_notary
  known_notary-trusted file notary_pub {p} e =
      let (bytes, _, e1) = context-eq-ok file _ _ e in
      let (q, _, e2) = context-eq-ok (deserialize bytes) _ _ e1 in
      let (key, known, e3) = context-eq-ok notary_pub _ _ e2 in
      let (same, e4) =
        ensure-eq-ok (text_eq (verifying_key_hex q) (to_lowercase (trim key))) _ _ e3 in
      (key, known, ap verifying_key_hex (sym (ok_inj e4)) ∙ (text_eq_iff _ _).0 same)

  disclosed-verified :
      (p : Presentation) {recv : Text}
      → disclosed n p ≡ ok recv
      → (output : Output) × (partial : Transcript) × (verify p ≡ some output)
        × (transcript output ≡ some partial)
        × (received b'X' partial ≡ recv)
  unfolding disclosed
  disclosed-verified p e =
      let (output, proved, e1) = context-eq-ok (verify p) _ _ e in
      let (server, _, e2) = context-eq-ok (server_name output) _ _ e1 in
      let (partial, shown, e3) = context-eq-ok (transcript output) _ _ e2 in
      (output, partial, proved, shown, ok_inj e3)

  attest-charged :
      (price denom : ℕ) (recv : Text) {a : Attested}
      → attest n price denom recv ≡ ok a
      → (usage : Text) × (json_object_fragment recv (codes "usage") ≡ some usage)
        × (parse_usage usage ≡ some a.total_tokens)
        × (json_string recv (codes "model") ≡ some a.model)
        × (a.charge ≡ charge_of a.total_tokens price denom)
  unfolding attest
  attest-charged price denom recv e =
      let (usage, sliced, e1) = context-eq-ok (json_object_fragment recv (codes "usage")) _ _ e in
      let (tokens, counted, e2) = context-eq-ok (parse_usage usage) _ _ e1 in
      let (model, named, e3) = context-eq-ok (json_string recv (codes "model")) _ _ e2 in
      let same = ok_inj e3 in
      (
        usage,
        sliced,
        counted ∙ ap (λ x. some x.total_tokens) same,
        named ∙ ap (λ x. some x.model) same,
        sym (ap (λ x. x.charge) same) ∙ ap (λ x. charge_of x.total_tokens price denom) same,
      )

  -- An attestation always comes from a presentation that verified, signed by the notary whose key is
  -- configured; its tokens and model are sliced from the disclosed text of that presentation, and its
  -- charge is that of these tokens under the configured price.
  pub oracle-IsAttested :
      (env : Inputs Bytes) (a : Attested) → oracle n env ≡ ok a → IsAttested env a
  unfolding oracle
  oracle-IsAttested env a e =
      let (price, given, e1) = context-eq-ok env.price_per_token _ _ e in
      let (price_per_token, number, e2) = context-eq-ok (parse_u64 price) _ _ e1 in
      let (p, known, e3) = >>=-eq-ok (known_notary n env.presentation env.notary_pub) _ e2 in
      let (recv, shown, e4) = >>=-eq-ok (disclosed n p) _ e3 in
      let (key, configured, trusted) = known_notary-trusted env.presentation env.notary_pub known in
      let (output, partial, verified, transcribed, same) = disclosed-verified p shown in
      let (usage, sliced, counted, named, charged) =
        attest-charged price_per_token (price_denom_of env.price_denom) recv e4 in
      record {
        presentation = p;
        key = key;
        output = output;
        partial = partial;
        usage = usage;
        price = price;
        price_per_token = price_per_token;
        priced = (given, number);
        trusted = (configured, trusted);
        verified = (verified, transcribed);
        sliced = ap (λ t. json_object_fragment t (codes "usage")) same ∙ sliced;
        counted = counted;
        named = ap (λ t. json_string t (codes "model")) same ∙ named;
        charged = charged;
      }
