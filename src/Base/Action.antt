-- ===== src/Base/Action.antt =====
-- Programs that act on a world outside: a call returns its result and the world that it leaves,
-- also where it fails, since what was done stays done.
use bartok.Base.{Result, ok, err, ◌≡◌, refl, ◌⊎◌, inl, inr, String, Option, none, some, context}

abbrev pub Action : Type 0 → Type 0 → Type 0
Action W A = W → Result A × W

-- The next step, from how the one before it ended.
abbrev pub continue : {W A B : Type 0} → Result A × W → (A → Action W B) → Result B × W
continue (ok a, w) f = f a w
continue (err e, w) f = (err e, w)

module _ {W : Type 0} where
  infixl 5 ◌>>=◌ ◌>>◌
  abbrev pub ◌>>=◌ : {A B : Type 0} → Action W A → (A → Action W B) → Action W B
  ◌>>=◌ m f w = continue (m w) f

  abbrev pub ◌>>◌ : {A B : Type 0} → Action W A → Action W B → Action W B
  m >> k = m >>= λ _. k

  abbrev pub pure : {A : Type 0} → A → Action W A
  pure a w = (ok a, w)

  -- A pure step with `?`.
  abbrev pub lift : {A : Type 0} → Result A → Action W A
  lift r w = (r, w)

-- How a step may end.
pub outcome :
    {W A : Type 0} (r : Result A × W)
    → ((a : A) × (w : W) × (r ≡ (ok a, w))) ⊎ ((e : String) × (w : W) × (r ≡ (err e, w)))
outcome (ok a, w) = inl (a, w, refl)
outcome (err e, w) = inr (e, w, refl)

-- `.await.context(message)?` and `.map_err(..)?`: the error's text is replaced.
abbrev pub relabel : {W A : Type 0} → String → Result A × W → Result A × W
relabel message (ok a, w) = (ok a, w)
relabel message (err e, w) = (err message, w)

abbrev pub with_context : {W A : Type 0} → Action W A → String → Action W A
with_context m message w = relabel message (m w)

-- A successful sequence taken apart: the first step succeeded, and the rest did from there.
pub continue-eq-ok :
    {W A B : Type 0} (r : Result A × W) (f : A → Action W B) {b : B} {w' : W}
    → continue r f ≡ (ok b, w')
    → (a : A) × (w : W) × (r ≡ (ok a, w)) × (f a w ≡ (ok b, w'))
continue-eq-ok (ok a, w) f done = (a, w, refl, done)
continue-eq-ok (err e, w) f done = cc

pub relabel-eq-ok :
    {W A : Type 0} (message : String) (r : Result A × W) {a : A} {w' : W}
    → relabel message r ≡ (ok a, w')
    → r ≡ (ok a, w')
relabel-eq-ok message (ok a, w) done = done
relabel-eq-ok message (err e, w) done = cc

-- The same for a step with `context`, and for a pure one with `?`.
pub context-continue :
    {W A B : Type 0} (message : String) (r : Result A × W) (f : A → Action W B) {b : B} {w' : W}
    → continue (relabel message r) f ≡ (ok b, w')
    → (a : A) × (w : W) × (r ≡ (ok a, w)) × (f a w ≡ (ok b, w'))
context-continue message (ok a, w) f done = (a, w, refl, done)
context-continue message (err e, w) f done = cc

pub option-continue :
    {W A B : Type 0} (o : Option A) (message : String) (w : W) (f : A → Action W B) {b : B} {w' : W}
    → continue (context o message, w) f ≡ (ok b, w')
    → (a : A) × (o ≡ some a) × (f a w ≡ (ok b, w'))
option-continue none message w f done = cc
option-continue (some a) message w f done = (a, refl, done)

pub result-continue :
    {W A B : Type 0} (r : Result A) (w : W) (f : A → Action W B) {b : B} {w' : W}
    → continue (r, w) f ≡ (ok b, w')
    → (a : A) × (r ≡ ok a) × (f a w ≡ (ok b, w'))
result-continue (ok a) w f done = (a, refl, done)
result-continue (err e) w f done = cc

pub end_of :
    {W A : Type 0} {a b : A} {w w' : W}
    → ◌≡◌ {A = Result A × W} (ok a, w) (ok b, w')
    → (a ≡ b) × (w ≡ w')
end_of done = (cc, cc)

pub option-end :
    {W A : Type 0} (o : Option A) (message : String) {a : A} {w w' : W}
    → ◌≡◌ {A = Result A × W} (context o message, w) (ok a, w')
    → o ≡ some a
option-end none message done = cc
option-end (some b) message done = cc
