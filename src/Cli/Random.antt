-- ===== src/Cli/Random.antt =====
-- `random_word`: four field elements by rejection. The generator of the `rand` crate is the list of
-- the numbers that it is about to draw; `none` says that the loop is still waiting when they end.
use bartok.Base.{
  ℕ, zero, suc, Option, none, some, List, [], ◌∷◌, ◌≡◌, ◌↔◌, ◌++◌, refl, inl, inr, length,
  Option-cases, arith,
}
use bartok.Miden.{Miden, Word}

module _ (m : Miden) where
  open m use {Felt, felt_new}

  -- `loop { if let Ok(f) = Felt::new(rng.next_u64()) { break f; } }`
  pub draw : List ℕ → Option (Felt × List ℕ)
  draw [] = none
  draw (v ∷ rng) = elim (felt_new v) [ some f ↦ some (f, rng) | none ↦ draw rng ]

  -- `(0..n).map(|_| draw).collect()`
  pub draws : ℕ → List ℕ → Option (List Felt × List ℕ)
  unfolding draw
  draws zero rng = some ([], rng)
  draws (suc n) rng = elim (draw rng) [
    | none ↦ none
    | some (f, rng') ↦ elim (draws n rng') [ none ↦ none | some (fs, rest) ↦ some (f ∷ fs, rest) ]
  ]

  abbrev to_word : List Felt × List ℕ → Option (Word Felt × List ℕ)
  to_word (a ∷ b ∷ c ∷ d ∷ [], rng) = some (record { w0 = a; w1 = b; w2 = c; w3 = d }, rng)
  to_word _ = none

  -- `random_word`
  unfoldable pub random_word : List ℕ → Option (Word Felt × List ℕ)
  unfolding draws
  random_word rng = elim (draws 4 rng) [ none ↦ none | some r ↦ to_word r ]

  -- The draws that are field elements, in order.
  abbrev pub accepted : List ℕ → List Felt
  accepted [] = []
  accepted (v ∷ rng) = elim (felt_new v) [ some f ↦ f ∷ accepted rng | none ↦ accepted rng ]

  draw-accepted :
      (rng : List ℕ) (f : Felt) (fs : List Felt)
      → accepted rng ≡ f ∷ fs
      → (rng' : List ℕ) × (draw rng ≡ some (f, rng')) × (accepted rng' ≡ fs)
  unfolding draw
  draw-accepted [] f fs h = cc
  draw-accepted (v ∷ rng) f fs h = elim (Option-cases (felt_new v)) [
    | inl refused ↦
        let (rng', drawn, rest) = draw-accepted rng f fs (rw (refused, accepted) at h) in
        (rng', rw (refused, draw) drawn, rest)
    | inr (g, taken) ↦
        let same : g ∷ accepted rng ≡ f ∷ fs = rw (taken, accepted) at h in
        let first : g ≡ f = cc in (rng, rw (taken, first, draw), cc)
  ]

  draws-accepted :
      (fs gs : List Felt) (rng : List ℕ)
      → accepted rng ≡ fs ++ gs
      → (rng' : List ℕ) × (draws (length fs) rng ≡ some (fs, rng')) × (accepted rng' ≡ gs)
  unfolding draws
  draws-accepted [] gs rng h = (rng, refl, h)
  draws-accepted (f ∷ fs) gs rng h =
      let (rng1, first, rest) = draw-accepted rng f (fs ++ gs) h in
      let (rng2, others, left) = draws-accepted fs gs rng1 rest in
      (rng2, rw (first, others, draws), left)

  accepted-draw :
      (rng rng' : List ℕ) (f : Felt) → draw rng ≡ some (f, rng') → accepted rng ≡ f ∷ accepted rng'
  unfolding draw
  accepted-draw [] rng' f h = cc
  accepted-draw (v ∷ rng) rng' f h = ground (arith, accepted-draw rng rng' f)

  accepted-draws :
      (n : ℕ) (rng rng' : List ℕ) (fs : List Felt)
      → draws n rng ≡ some (fs, rng')
      → accepted rng ≡ fs ++ accepted rng'
  unfolding draws
  accepted-draws zero rng rng' fs h = ground arith
  accepted-draws (suc n) rng rng' fs h = elim (Option-cases (draw rng)) [
    | inl waits ↦ cc (rw (waits, draws) at h)
    | inr ((f, rng1), first) ↦ elim (Option-cases (draws n rng1)) [
      | inl waits ↦ cc (rw (first, waits, draws) at h)
      | inr ((gs, rng2), others) ↦
          let drawn : some (f ∷ gs, rng2) ≡ some (fs, rng') = rw (first, others, draws) at h in
          cc (accepted-draw rng rng1 f first, accepted-draws n rng1 rng2 gs others)
    ]
  ]

  to_word-eq :
      (fs : List Felt) (w : Word Felt) (rng rng' : List ℕ)
      → to_word (fs, rng) ≡ some (w, rng')
      → (fs ≡ w.w0 ∷ w.w1 ∷ w.w2 ∷ w.w3 ∷ []) × (rng ≡ rng')
  to_word-eq [] w rng rng' h = cc
  to_word-eq (a ∷ []) w rng rng' h = cc
  to_word-eq (a ∷ b ∷ []) w rng rng' h = cc
  to_word-eq (a ∷ b ∷ c ∷ []) w rng rng' h = cc
  to_word-eq (a ∷ b ∷ c ∷ d ∷ []) w rng rng' h = ground arith
  to_word-eq (a ∷ b ∷ c ∷ d ∷ e ∷ fs) w rng rng' h = cc

  -- `random_word` returns exactly when the generator draws four field elements: it then returns the
  -- first four, in order and with none skipped, and leaves the generator with those behind them.
  pub random_word_iff :
      (rng : List ℕ) (w : Word Felt) (fs : List Felt)
      → ((rng' : List ℕ) × (random_word rng ≡ some (w, rng')) × (accepted rng' ≡ fs))
        ↔ (accepted rng ≡ w.w0 ∷ w.w1 ∷ w.w2 ∷ w.w3 ∷ fs)
  unfolding random_word
  random_word_iff rng w fs = (
    λ h. elim (Option-cases (draws 4 rng)) [
      | inl waits ↦ cc (rw (waits, random_word) at h.1)
      | inr ((gs, rng1), drawn) ↦
          let (four, same) = to_word-eq gs w rng1 h.0 (rw (drawn, random_word) at h.1) in
          cc (accepted-draws 4 rng rng1 gs drawn, four, same, h.2)
    ],
    λ h.
        let (rng', drawn, rest) = draws-accepted (w.w0 ∷ w.w1 ∷ w.w2 ∷ w.w3 ∷ []) fs rng h in
        (rng', rw (drawn, random_word), rest),
  )
