-- ===== src/Bridge/Waiting.antt =====
-- The handlers of ux-prototype/server.js that wait, counted, and its objects, measured.
use bartok.Base.{
  ◌≤◌, ℕ, ◌+◌, ◌≡◌, ◌≢◌, ◌⊎◌, inl, inr, ap, ◌∙◌, refl, Bool, true, false, Option, none, some, List,
  [], ◌∷◌, ◌++◌, All, Bool-cases, arith,
}
use mathlib.Core.Logic.{ite}
use native.Mathlib.Decide.{ℕ_discrete}
use bartok.Bridge.{
  is_armed, when_listed, Session, Object, Handler, answering, ending, sweeping, total, on, modify,
  insert,
}

abbrev pub flag : Bool → ℕ
flag false = 0
flag true = 1

pub flag-le : (t : Bool) → flag t ≤ 1
flag-le false = omega arith
flag-le true = omega arith

module _ {A : Type 0} where
  -- The sum of a weight over a list.
  abbrev pub weigh : (A → ℕ) → List A → ℕ
  weigh w [] = 0
  weigh w (x ∷ xs) = w x + weigh w xs

  pub weigh-middle :
      (w : A → ℕ) (before after : List A) (x : A)
      → weigh w (before ++ x ∷ after) ≡ w x + weigh w (before ++ after)
  weigh-middle w [] after x = refl
  weigh-middle w (y ∷ before) after x = omega (arith, weigh-middle w before after x)

  pub All-middle :
      (P : A → Type 0) (before after : List A) (x : A)
      → All P (before ++ x ∷ after)
      → P x × All P (before ++ after)
  All-middle P [] after x all = all
  All-middle P (y ∷ before) after x (p, all) =
      let (q, rest) = All-middle P before after x all in (q, (p, rest))

  pub All-imp : {P Q : A → Type 0} → ((x : A) → P x → Q x) → (xs : List A) → All P xs → All Q xs
  All-imp f [] all = tt
  All-imp f (x ∷ xs) (p, all) = (f x p, All-imp f xs all)

  -- What holds where the weight is 0 holds of a list of weight 0.
  pub weigh-All :
      {P : A → Type 0} (w : A → ℕ)
      → ((x : A) → w x ≡ 0 → P x)
      → (xs : List A) → weigh w xs ≡ 0
      → All P xs
  weigh-All w f [] none_of = tt
  weigh-All w f (x ∷ xs) none_of =
      (f x (omega (arith, none_of)), weigh-All w f xs (omega (arith, none_of)))

-- Whether a handler awaits an answer, or a settlement of a session.
abbrev pub is_chat : Handler → ℕ
is_chat (answering id spent) = 1
is_chat _ = 0

abbrev pub settles : ℕ → Handler → ℕ
settles i (ending id charge attempt) = ite (ℕ_discrete i id) 1 0
settles i (sweeping id charge) = ite (ℕ_discrete i id) 1 0
settles i _ = 0

-- The entries of the log on a session.
abbrev pub logged : ℕ → ℕ × ℕ → ℕ
logged i (id, charge) = ite (ℕ_discrete i id) 1 0

pub modify-cases :
    (i : ℕ) (f : Object → Object) (objects : ℕ → Option Object) (j : ℕ)
    → ((i ≡ j) × (modify i f objects j ≡ on f (objects j)))
      ⊎ ((i ≢ j) × (modify i f objects j ≡ objects j))
modify-cases i f objects j = elim (ℕ_discrete i j) [
  | yes e ↦ inl (e, ground arith)
  | no e ↦ inr (e, ground arith)
]

pub modify-here :
    (id : ℕ) (g : Object → Object) (objects : ℕ → Option Object)
    → modify id g objects id ≡ on g (objects id)
modify-here id g objects = elim (modify-cases id g objects id) [
  | inl (_, e) ↦ e
  | inr (differ, _) ↦ absurd (differ refl)
]

pub insert-cases :
    (i : ℕ) (o : Object) (objects : ℕ → Option Object) (j : ℕ)
    → ((i ≡ j) × (insert i o objects j ≡ some o)) ⊎ ((i ≢ j) × (insert i o objects j ≡ objects j))
insert-cases i o objects j = elim (ℕ_discrete i j) [
  | yes e ↦ inl (e, ground arith)
  | no e ↦ inr (e, ground arith)
]

module _ {A : Type 0} (z : A) (q : Session → A) where
  abbrev pub at : Option Object → A
  at none = z
  at (some o) = q o.session

  module _ (R : A → A → Type 0) (same : (a : A) → R a a) where
    at-on :
        (f : Object → Object)
        → ((o : Object) → R (q o.session) (q (f o).session))
        → (o : Option Object) → R (at o) (at (on f o))
    at-on f changes none = same z
    at-on f changes (some o) = changes o

    -- A relation that a change to one object keeps, for every object.
    pub at-modify :
        (i : ℕ) (f : Object → Object) (objects : ℕ → Option Object)
        → ((o : Object) → R (q o.session) (q (f o).session))
        → (j : ℕ) → R (at (objects j)) (at (modify i f objects j))
    at-modify i f objects changes j = elim (modify-cases i f objects j) [
      | inl (_, e) ↦ rw e (at-on f changes (objects j))
      | inr (_, e) ↦ rw e (same (at (objects j)))
    ]

  -- The same for a new object.
  pub at-insert :
      (R : A → A → Type 0)
      → ((a : A) → R a a)
      → (i : ℕ) (o : Object) (objects : ℕ → Option Object) → objects i ≡ none
      → R z (q o.session)
      → (j : ℕ) → R (at (objects j)) (at (insert i o objects j))
  at-insert R same i o objects fresh new j = elim (insert-cases i o objects j) [
    | inl (e, here) ↦ rw (here, ← e, fresh) new
    | inr (_, e) ↦ rw e (same (at (objects j)))
  ]

abbrev pub total_at : Option Object → ℕ
total_at = at 0 (λ s. total s.charges)

abbrev pub budget_at : Option Object → ℕ
budget_at = at 0 (λ s. s.budget)

abbrev pub armed_at : Option Object → Bool
armed_at = at false (λ s. is_armed s.escrow_note_b64)

-- A property of the session, where there is one.
abbrev pub Holds : (Session → Type 0) → Option Object → Type 0
Holds P none = Unit
Holds P (some o) = P o.session

abbrev pub HoldsSaved : (Session → Type 0) → Option Session → Type 0
HoldsSaved P none = Unit
HoldsSaved P (some s) = P s

-- `sessions.get` finds an object that is listed.
pub when_listed-some :
    (o : Option Object) {s : Session}
    → when_listed o ≡ some s
    → (q : Object) × (o ≡ some q) × (q.session ≡ s)
when_listed-some none e = cc
when_listed-some (some q) e = elim (Bool-cases q.listed) [
  | inl listed ↦ (q, refl, ground arith)
  | inr gone ↦ ground arith
]

abbrev pub settling_at : Option Object → Bool
settling_at = at false (λ s. s.settling)

abbrev pub settled_at : Option Object → Bool
settled_at = at false (λ s. s.settled)

module _ (P : Session → Type 0) where
  on-Holds :
      (f : Object → Object) (o : Option Object)
      → ((q : Object) → o ≡ some q → P q.session → P (f q).session)
      → Holds P o
      → Holds P (on f o)
  on-Holds f none keeps h = tt
  on-Holds f (some o) keeps h = keeps o refl h

  pub modify-Holds :
      (i : ℕ) (f : Object → Object) (objects : ℕ → Option Object)
      → ((o : Object) → objects i ≡ some o → P o.session → P (f o).session)
      → ((j : ℕ) → Holds P (objects j))
      → (j : ℕ) → Holds P (modify i f objects j)
  modify-Holds i f objects keeps holds j = elim (modify-cases i f objects j) [
    | inr (_, e) ↦ rw e (holds j)
    | inl (same, e) ↦
        rw e (on-Holds f (objects j) (λ o found. keeps o (ap objects same ∙ found)) (holds j))
  ]

  pub insert-Holds :
      (i : ℕ) (o : Object) (objects : ℕ → Option Object)
      → P o.session
      → ((j : ℕ) → Holds P (objects j))
      → (j : ℕ) → Holds P (insert i o objects j)
  insert-Holds i o objects new holds j = elim (insert-cases i o objects j) [
    | inl (_, e) ↦ rw e new
    | inr (_, e) ↦ rw e (holds j)
  ]

  pub when_listed-HoldsSaved : (o : Option Object) → Holds P o → HoldsSaved P (when_listed o)
  when_listed-HoldsSaved none h = tt
  when_listed-HoldsSaved (some o) h = elim (Bool-cases o.listed) [
    | inl listed ↦ rw listed h
    | inr gone ↦ rw gone tt
  ]
