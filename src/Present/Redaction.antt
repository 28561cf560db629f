-- ===== src/Present/Redaction.antt =====
-- What a presentation keeps to itself: the API key, the prompt and the answer.
use bartok.Base.{
  ℕ, ◌≡◌, sym, ap, ◌∙◌, ◌⊎◌, Bool, true, Bool-cases, inl, inr, Option, none, some, List, [], ◌∷◌,
  ◌++◌, ok, context-eq-ok, >>=-eq-ok, ok_inj, All, if◌then◌else◌,
}
use bartok.Text.{Text, codes}
use bartok.Present.Names.{SameLetters, public_header, is_cost-named}
use bartok.Present.{
  Header, KeyValue, BodyContent, json_object, other_content, Request, Response, ProofBuilder,
  is_authorization, is_cost, reveal_headers, reveal_costs, reveal_request_body, reveal_request,
  reveal_response_headers, reveal_found, reveal_paths, find_key, reveal_response_body,
  reveal_response, billing_paths, first, present,
}

All-snoc :
    {A : Type 0} (P : A → Type 0) (xs : List A) (x : A) → All P xs → P x → All P (xs ++ x ∷ [])
All-snoc P [] x h p = (p, tt)
All-snoc P (y ∷ ys) x (q, h) p = (q, All-snoc P ys x h p)

-- The fields of a JSON body.
abbrev pub fields_of : {S : Type 0} → Option (BodyContent S) → List (KeyValue S)
fields_of (some (json_object kvs)) = kvs
fields_of (some other_content) = []
fields_of none = []

-- The part of a message that a byte belongs to.
pub data Part (S : Type 0) : Type 0 where
  start_line request_target other_part : Part S
  header_name header_value : Header S → Part S
  field : KeyValue S → Part S

-- What may be disclosed of a request: never the value of a header that is called Authorization, in
-- upper or lower case, and of the body the fields `model` and `max_tokens` alone.
abbrev pub MayShow : {S : Type 0} → Part S → Type 0
MayShow start_line = Unit
MayShow request_target = Unit
MayShow other_part = ⊥
MayShow (header_name h) = Unit
MayShow (header_value h) = ¬ SameLetters h.name (codes "Authorization")
MayShow (field kv) = (kv.key ≡ codes "model") ⊎ (kv.key ≡ codes "max_tokens")

module _ (p : ProofBuilder) (covers : p.Span → ℕ → Bool) (part_of : ℕ → Part p.Span) where
  open p use {
    Span, Builder, sent, received, reveal_sent, reveal_recv, reveal_sent_adds, reveal_recv_adds,
  }

  -- All bytes of the span are of parts with a property.
  abbrev pub Within : (Part Span → Type 0) → Span → Type 0
  Within P s = (i : ℕ) → covers s i ≡ true → P (part_of i)

  -- The spans of a parsed request, as the parser documents them.
  pub record IsParsed (request : Request Span) : Type 0 where
    pub shape : Within (λ x. x ≡ start_line) request.without_data
    pub target : Within (λ x. x ≡ request_target) request.target
    pub names : All (λ h. Within (λ x. x ≡ header_name h) h.without_value) request.headers
    pub values :
        All (λ h. Within (λ x. (x ≡ header_name h) ⊎ (x ≡ header_value h)) h.span) request.headers
    pub entries : All (λ kv. Within (λ x. x ≡ field kv) kv.span) (fields_of request.body)

  sent-step :
      (s : Span) (b b' : Builder)
      → reveal_sent s b ≡ ok b'
      → Within MayShow s
      → All (Within MayShow) (sent b)
      → All (Within MayShow) (sent b')
  sent-step s b b' e may h =
      rw ((reveal_sent_adds s b b' e).0) (All-snoc (Within MayShow) (sent b) s h may)

  header_part-MayShow :
      (h : Header Span) (x : Part Span)
      → ¬ SameLetters h.name (codes "Authorization")
      → (x ≡ header_name h) ⊎ (x ≡ header_value h)
      → MayShow x
  header_part-MayShow h x open_value (inl e) = rw e tt
  header_part-MayShow h x open_value (inr e) = rw e open_value

  -- What the loop reveals of a header may be shown.
  header-MayShow :
      (h : Header Span)
      → Within (λ x. x ≡ header_name h) h.without_value
      → Within (λ x. (x ≡ header_name h) ⊎ (x ≡ header_value h)) h.span
      → Within MayShow (if is_authorization h.name then h.without_value else h.span)
  header-MayShow h name value = elim (Bool-cases (is_authorization h.name)) [
    | inl secret ↦ rw secret (λ i c. rw (name i c) tt)
    | inr public_value ↦
        rw public_value
          (λ i c. header_part-MayShow h (part_of i) (public_header h.name public_value) (value i c))
  ]

  reveal_headers-MayShow :
      (hs : List (Header Span)) (b b' : Builder)
      → reveal_headers p hs b ≡ ok b'
      → All (λ h. Within (λ x. x ≡ header_name h) h.without_value) hs
      → All (λ h. Within (λ x. (x ≡ header_name h) ⊎ (x ≡ header_value h)) h.span) hs
      → All (Within MayShow) (sent b)
      → All (Within MayShow) (sent b')
  unfolding reveal_headers
  reveal_headers-MayShow [] b b' e names values h = rw (← ok_inj e) h
  reveal_headers-MayShow (x ∷ xs) b b' e (name, names) (value, values) h =
      let (b1, first, rest) =
        >>=-eq-ok (reveal_sent (if is_authorization x.name then x.without_value else x.span) b) _
          e in
      reveal_headers-MayShow xs b1 b' rest names values
        (sent-step _ b b1 first (header-MayShow x name value) h)

  reveal_costs-MayShow :
      (kvs : List (KeyValue Span)) (b b' : Builder)
      → reveal_costs p kvs b ≡ ok b'
      → All (λ kv. Within (λ x. x ≡ field kv) kv.span) kvs
      → All (Within MayShow) (sent b)
      → All (Within MayShow) (sent b')
  unfolding reveal_costs
  reveal_costs-MayShow [] b b' e entries h = rw (← ok_inj e) h
  reveal_costs-MayShow (kv ∷ kvs) b b' e (entry, entries) h = elim (Bool-cases (is_cost kv.key)) [
    | inr private_field ↦
        reveal_costs-MayShow kvs b b' (rw (private_field, reveal_costs) at e) entries h
    | inl cost ↦
        let (b1, shown, rest) =
          >>=-eq-ok (reveal_sent kv.span b) _ (rw (cost, reveal_costs) at e) in
        reveal_costs-MayShow kvs b1 b' rest entries
          (sent-step kv.span b b1 shown (λ i c. rw (entry i c) (is_cost-named kv.key cost)) h)
  ]

  reveal_request_body-MayShow :
      (body : Option (BodyContent Span)) (b b' : Builder)
      → reveal_request_body p body b ≡ ok b'
      → All (λ kv. Within (λ x. x ≡ field kv) kv.span) (fields_of body)
      → All (Within MayShow) (sent b)
      → All (Within MayShow) (sent b')
  reveal_request_body-MayShow (some (json_object kvs)) b b' e entries h =
      reveal_costs-MayShow kvs b b' e entries h
  reveal_request_body-MayShow (some other_content) b b' e entries h = rw (← ok_inj e) h
  reveal_request_body-MayShow none b b' e entries h = rw (← ok_inj e) h

  reveal_request-MayShow :
      (request : Request Span) (b b' : Builder)
      → reveal_request p request b ≡ ok b'
      → IsParsed request
      → All (Within MayShow) (sent b)
      → All (Within MayShow) (sent b')
  unfolding reveal_request
  reveal_request-MayShow request b b' e is h =
      let (b1, shaped, e1) = >>=-eq-ok (reveal_sent request.without_data b) _ e in
      let (b2, targeted, e2) = >>=-eq-ok (reveal_sent request.target b1) _ e1 in
      let (b3, headed, e3) = >>=-eq-ok (reveal_headers p request.headers b2) _ e2 in
      let h1 = sent-step request.without_data b b1 shaped (λ i c. rw (is.shape i c) tt) h in
      let h2 = sent-step request.target b1 b2 targeted (λ i c. rw (is.target i c) tt) h1 in
      reveal_request_body-MayShow request.body b3 b' e3 is.entries
        (reveal_headers-MayShow request.headers b2 b3 headed is.names is.values h2)

  reveal_response_headers-sent :
      (hs : List (Header Span)) (b b' : Builder)
      → reveal_response_headers p hs b ≡ ok b'
      → sent b' ≡ sent b
  unfolding reveal_response_headers
  reveal_response_headers-sent [] b b' e = ap sent (sym (ok_inj e))
  reveal_response_headers-sent (x ∷ xs) b b' e =
      let (b1, shown, rest) = >>=-eq-ok (reveal_recv x.span b) _ e in
      reveal_response_headers-sent xs b1 b' rest ∙ (reveal_recv_adds x.span b b1 shown).1

  reveal_found-sent :
      (found : Option (KeyValue Span)) (b b' : Builder)
      → reveal_found p found b ≡ ok b'
      → sent b' ≡ sent b
  reveal_found-sent none b b' e = ap sent (sym (ok_inj e))
  reveal_found-sent (some kv) b b' e = (reveal_recv_adds kv.span b b' e).1

  reveal_paths-sent :
      (paths : List Text) (kvs : List (KeyValue Span)) (b b' : Builder)
      → reveal_paths p paths kvs b ≡ ok b'
      → sent b' ≡ sent b
  unfolding reveal_paths
  reveal_paths-sent [] kvs b b' e = ap sent (sym (ok_inj e))
  reveal_paths-sent (path ∷ paths) kvs b b' e =
      let (b1, shown, rest) = >>=-eq-ok (reveal_found p (find_key p path kvs) b) _ e in
      reveal_paths-sent paths kvs b1 b' rest ∙ reveal_found-sent (find_key p path kvs) b b1 shown

  reveal_response_body-sent :
      (body : Option (BodyContent Span)) (b b' : Builder)
      → reveal_response_body p body b ≡ ok b'
      → sent b' ≡ sent b
  reveal_response_body-sent (some (json_object kvs)) b b' e =
      reveal_paths-sent billing_paths kvs b b' e
  reveal_response_body-sent (some other_content) b b' e = ap sent (sym (ok_inj e))
  reveal_response_body-sent none b b' e = ap sent (sym (ok_inj e))

  reveal_response-sent :
      (response : Response Span) (b b' : Builder)
      → reveal_response p response b ≡ ok b'
      → sent b' ≡ sent b
  unfolding reveal_response
  reveal_response-sent response b b' e =
      let (b1, shaped, e1) = >>=-eq-ok (reveal_recv response.without_data b) _ e in
      let (b2, headed, e2) = >>=-eq-ok (reveal_response_headers p response.headers b1) _ e1 in
      reveal_response_body-sent response.body b2 b' e2
      ∙ reveal_response_headers-sent response.headers b1 b2 headed
      ∙ (reveal_recv_adds response.without_data b b1 shaped).1

  -- No presentation discloses a byte of the request that may not be shown: where the spans of the
  -- first request are as the parser documents them, every revealed byte is of its start line, its
  -- target, a header's name, the value of a header that is not called Authorization in any case, or the body's fields
  -- `model` and `max_tokens`. So neither the API key nor the prompt is disclosed.
  pub present-MayShow :
      (request : Request Span) (others : List (Request Span)) (responses : List (Response Span))
      (b b' : Builder)
      → IsParsed request
      → sent b ≡ []
      → present p (request ∷ others) responses b ≡ ok b'
      → All (Within MayShow) (sent b')
  unfolding present
  present-MayShow request others responses b b' is fresh e =
      let (b1, asked, e1) = >>=-eq-ok (reveal_request p request b) _ e in
      let (response, _, e2) = context-eq-ok (first responses) _ _ e1 in
      rw (reveal_response-sent response b1 b' e2)
        (reveal_request-MayShow request b b1 asked is (rw fresh tt))
