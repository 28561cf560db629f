-- ===== src/Present/Billing.antt =====
-- What a presentation does disclose of the response: the fields that the charge is read from.
use bartok.Base.{
  ◌≡◌, ◌≢◌, refl, sym, ap, ◌∙◌, ◌⊎◌, inl, inr, Bool-cases, All, Option, none, some, List, [], ◌∷◌,
  ◌++◌, append_assoc, ok, context-eq-ok, >>=-eq-ok, ok_inj,
}
use bartok.Text.{Text, codes, text_eq}
use bartok.Text.Laws.{text_eq_iff}
use bartok.Present.{
  KeyValue, json_object, Request, Response, ProofBuilder, reveal_request, reveal_response_headers,
  reveal_found, reveal_paths, find_key, reveal_response_body, reveal_response, billing_paths, first,
  present,
}

module _ (p : ProofBuilder) where
  open p use {Span, Builder, received, reveal_recv, reveal_recv_adds}

  -- The span is among what the builder was told to reveal of the response.
  pub record IsRevealed (s : Span) (b : Builder) : Type 0 where
    pub before : List Span
    pub after : List Span
    pub among : received b ≡ before ++ s ∷ after

  IsRevealed-more :
      (s t : Span) (b b' : Builder) → reveal_recv t b ≡ ok b' → IsRevealed s b → IsRevealed s b'
  IsRevealed-more s t b b' e is = record {
    before = is.before;
    after = is.after ++ t ∷ [];
    among =
        (reveal_recv_adds t b b' e).0
        ∙ ap (λ x. x ++ t ∷ []) is.among
        ∙ append_assoc is.before (s ∷ is.after) (t ∷ []);
  }

  reveal_found-IsRevealed :
      (s : Span) (found : Option (KeyValue Span)) (b b' : Builder)
      → reveal_found p found b ≡ ok b'
      → IsRevealed s b
      → IsRevealed s b'
  reveal_found-IsRevealed s none b b' e is = rw (← ok_inj e) is
  reveal_found-IsRevealed s (some kv) b b' e is = IsRevealed-more s kv.span b b' e is

  reveal_paths-keeps :
      (s : Span) (paths : List Text) (kvs : List (KeyValue Span)) (b b' : Builder)
      → reveal_paths p paths kvs b ≡ ok b'
      → IsRevealed s b
      → IsRevealed s b'
  unfolding reveal_paths
  reveal_paths-keeps s [] kvs b b' e is = rw (← ok_inj e) is
  reveal_paths-keeps s (path ∷ paths) kvs b b' e is =
      let (b1, shown, rest) = >>=-eq-ok (reveal_found p (find_key p path kvs) b) _ e in
      reveal_paths-keeps s paths kvs b1 b' rest
        (reveal_found-IsRevealed s (find_key p path kvs) b b1 shown is)

  newly :
      (kv : KeyValue Span) (found : Option (KeyValue Span)) (b b' : Builder)
      → found ≡ some kv
      → reveal_found p found b ≡ ok b'
      → IsRevealed kv.span b'
  newly kv none b b' is e = cc
  newly kv (some x) b b' is e =
      let same : x ≡ kv = cc in
      record {
        before = received b;
        after = [];
        among = (reveal_recv_adds x.span b b' e).0 ∙ ap (λ k. received b ++ k.span ∷ []) same;
      }

  reveal_paths-IsRevealed :
      (before after : List Text) (path : Text) (kvs : List (KeyValue Span)) (kv : KeyValue Span)
      (b b' : Builder)
      → reveal_paths p (before ++ path ∷ after) kvs b ≡ ok b'
      → find_key p path kvs ≡ some kv
      → IsRevealed kv.span b'
  unfolding reveal_paths
  reveal_paths-IsRevealed [] after path kvs kv b b' e found =
      let (b1, shown, rest) = >>=-eq-ok (reveal_found p (find_key p path kvs) b) _ e in
      reveal_paths-keeps kv.span after kvs b1 b' rest
        (newly kv (find_key p path kvs) b b1 found shown)
  reveal_paths-IsRevealed (q ∷ before) after path kvs kv b b' e found =
      let (b1, shown, rest) = >>=-eq-ok (reveal_found p (find_key p q kvs) b) _ e in
      reveal_paths-IsRevealed before after path kvs kv b1 b' rest found

  find_key-first :
      (path : Text) (before after : List (KeyValue Span)) (kv : KeyValue Span)
      → kv.key ≡ path
      → All (λ x. x.key ≢ path) before
      → find_key p path (before ++ kv ∷ after) ≡ some kv
  unfolding find_key
  find_key-first path [] after kv is none_before = rw ((text_eq_iff kv.key path).1 is) refl
  find_key-first path (x ∷ before) after kv is (differs, none_before) =
      elim (Bool-cases (text_eq x.key path)) [
        | inl same ↦ absurd (differs ((text_eq_iff x.key path).0 same))
        | inr other ↦ rw other (find_key-first path before after kv is none_before)
      ]

  -- The three fields, whichever of them the path names.
  reveal_paths-billing :
      (path : Text) (kvs : List (KeyValue Span)) (kv : KeyValue Span) (b b' : Builder)
      → reveal_paths p billing_paths kvs b ≡ ok b'
      → (path ≡ codes "id") ⊎ ((path ≡ codes "model") ⊎ (path ≡ codes "usage"))
      → find_key p path kvs ≡ some kv
      → IsRevealed kv.span b'
  reveal_paths-billing path kvs kv b b' e (inl is) found =
      reveal_paths-IsRevealed [] (codes "model" ∷ codes "usage" ∷ []) path kvs kv b b' (rw is e)
        found
  reveal_paths-billing path kvs kv b b' e (inr (inl is)) found =
      reveal_paths-IsRevealed (codes "id" ∷ []) (codes "usage" ∷ []) path kvs kv b b' (rw is e)
        found
  reveal_paths-billing path kvs kv b b' e (inr (inr is)) found =
      reveal_paths-IsRevealed (codes "id" ∷ codes "model" ∷ []) [] path kvs kv b b' (rw is e) found

  -- A presentation of a JSON response discloses each of its fields `id`, `model` and `usage` that is
  -- there: the first field with that very key, whatever else the response holds.
  pub present-IsRevealed :
      (requests : List (Request Span)) (response : Response Span) (others : List (Response Span))
      (path : Text) (before after : List (KeyValue Span)) (kv : KeyValue Span) (b b' : Builder)
      → (path ≡ codes "id") ⊎ ((path ≡ codes "model") ⊎ (path ≡ codes "usage"))
      → response.body ≡ some (json_object (before ++ kv ∷ after))
      → kv.key ≡ path
      → All (λ x. x.key ≢ path) before
      → present p requests (response ∷ others) b ≡ ok b'
      → IsRevealed kv.span b'
  unfolding present reveal_response
  present-IsRevealed requests response others path before after kv b b' billed json is none_before
        e =
      let kvs = before ++ kv ∷ after in
      let (request, _, e1) = context-eq-ok (first requests) _ _ e in
      let (b1, _, e2) = >>=-eq-ok (reveal_request p request b) _ e1 in
      let (b2, _, e3) = >>=-eq-ok (reveal_recv response.without_data b1) _ e2 in
      let (b3, _, e4) = >>=-eq-ok (reveal_response_headers p response.headers b2) _ e3 in
      let shown : reveal_paths p billing_paths kvs b3 ≡ ok b' =
        ap (λ x. reveal_response_body p x b3) (sym json) ∙ e4 in
      reveal_paths-billing path kvs kv b3 b' shown billed
        (find_key-first path before after kv is none_before)
