-- ===== src/Oracle/Show.antt =====
-- zktls-spike/openrouter-example/verify.rs: what a presentation discloses, printed. It reads the same
-- file as the oracle and verifies it in the same way.
use bartok.Base.{
  ℕ, ◌≡◌, refl, sym, ap, ◌∙◌, Option, some, Result, ok, ◌>>=◌, ensure-eq-ok, context, context-eq-ok,
  >>=-eq-ok, ok_inj,
}
use bartok.Text.{Text, trim, text_eq}
use bartok.Text.Laws.{text_eq_iff}
use bartok.Text.Decimal.{parse_u64}
use bartok.Oracle.{
  Inputs, TlsNotary, Attested, price_denom_of, known_notary, disclosed, attest, oracle,
}

-- What is printed; the time of the connection is left out.
pub record Shown : Type 0 where
  pub key : Text
  pub server : Text
  pub sent : Text
  pub received : Text

module _ (n : TlsNotary) (sent : ℕ → n.Transcript → Text) where
  open n use {
    Bytes, Presentation, deserialize, verifying_key_hex, verify, server_name, transcript, received,
    to_lowercase,
  }

  -- `main`
  unfoldable pub show_presentation : Option Bytes → Result Shown
  show_presentation file = do
    bytes ← context file "read openrouter.presentation.tlsn"
    presentation ← context (deserialize bytes) "presentation"
    output ← context (verify presentation) "verify"
    server ← context (server_name output) "server name"
    partial ← context (transcript output) "transcript"
    ok (record {
      key = verifying_key_hex presentation;
      server = server;
      sent = sent b'X' partial;
      received = received b'X' partial;
    })

  shown_of :
      (bytes : Bytes) (p : Presentation) (recv : Text)
      → deserialize bytes ≡ some p
      → disclosed n p ≡ ok recv
      → (s : Shown) × (show_presentation (some bytes) ≡ ok s)
        × (s.key ≡ verifying_key_hex p)
        × (s.received ≡ recv)
  unfolding disclosed show_presentation
  shown_of bytes p recv reads e =
      let (output, verified, e1) = context-eq-ok (verify p) _ _ e in
      let (server, named, e2) = context-eq-ok (server_name output) _ _ e1 in
      let (partial, given, e3) = context-eq-ok (transcript output) _ _ e2 in
      (
        record {
          key = verifying_key_hex p;
          server = server;
          sent = sent b'X' partial;
          received = received b'X' partial;
        },
        rw (reads, verified, named, given),
        refl,
        ok_inj e3,
      )

  trusted_of :
      (file : Option Bytes) (notary_pub : Option Text) {p : Presentation}
      → known_notary n file notary_pub ≡ ok p
      → (bytes : Bytes) × (key : Text) × (file ≡ some bytes)
        × (deserialize bytes ≡ some p)
        × (notary_pub ≡ some key)
        × (verifying_key_hex p ≡ to_lowercase (trim key))
  unfolding known_notary
  trusted_of file notary_pub {p} e =
      let (bytes, held, e1) = context-eq-ok file _ _ e in
      let (q, reads, e2) = context-eq-ok (deserialize bytes) _ _ e1 in
      let (key, known, e3) = context-eq-ok notary_pub _ _ e2 in
      let (same, e4) =
        ensure-eq-ok (text_eq (verifying_key_hex q) (to_lowercase (trim key))) _ _ e3 in
      let is : q ≡ p = ok_inj e4 in
      (
        bytes,
        key,
        held,
        reads ∙ ap some is,
        known,
        ap verifying_key_hex (sym is) ∙ (text_eq_iff _ _).0 same,
      )

  -- An attestation can be checked by eye: where the oracle attests, verify.rs prints the presentation
  -- of the same file, under the key that the oracle trusts, and the response that it prints is the
  -- text that the oracle took the model and the charge from.
  pub oracle-show_presentation :
      (env : Inputs Bytes) (a : Attested)
      → oracle n env ≡ ok a
      → (s : Shown) × (price : ℕ) × (key : Text) × (show_presentation env.presentation ≡ ok s)
        × (env.notary_pub ≡ some key)
        × (s.key ≡ to_lowercase (trim key))
        × (attest n price (price_denom_of env.price_denom) s.received ≡ ok a)
  unfolding oracle
  oracle-show_presentation env a e =
      let (price, _, e1) = context-eq-ok env.price_per_token _ _ e in
      let (price_per_token, _, e2) = context-eq-ok (parse_u64 price) _ _ e1 in
      let (p, known, e3) = >>=-eq-ok (known_notary n env.presentation env.notary_pub) _ e2 in
      let (recv, shown, e4) = >>=-eq-ok (disclosed n p) _ e3 in
      let (bytes, key, held, reads, configured, trusted) =
        trusted_of env.presentation env.notary_pub known in
      let (s, prints, is_key, is_text) = shown_of bytes p recv reads shown in
      (
        s,
        price_per_token,
        key,
        ap show_presentation held ∙ prints,
        configured,
        is_key ∙ trusted,
        ap (λ t. attest n price_per_token (price_denom_of env.price_denom) t) is_text ∙ e4,
      )
