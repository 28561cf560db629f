-- ===== src/Bridge/Once.antt =====
-- Settling once: what the flags `settling` and `settled` of ux-prototype/server.js are for.
use bartok.Base.{
  ℕ, ◌+◌, ◌≤◌, ◌≡◌, ◌≢◌, sym, ap, ◌∙◌, Bool, true, inl, inr, Option, none, some, List, ◌∷◌, ◌++◌,
  arith,
}
use mathlib.Core.Path.{subst}
use native.Mathlib.Decide.{ℕ_discrete}
use bartok.Bridge.{Object, Handler, Bridge, modify, on}
use bartok.Bridge.Waiting.{
  flag, weigh, weigh-middle, settles, logged, settling_at, settled_at, modify-cases,
}

pub record Single (b : Bridge) : Type 0 where
  pub in_flight : (i : ℕ) → weigh (settles i) b.waiting ≤ flag (settling_at (b.objects i))
  pub once : (i : ℕ) → weigh (settles i) b.waiting + weigh (logged i) b.settlements ≤ 1
  pub marked : (i : ℕ) → weigh (logged i) b.settlements ≤ flag (settled_at (b.objects i))

-- One flag implies another.
infix 40 ◌⊑◌
abbrev pub ◌⊑◌ : Bool → Bool → Type 0
x ⊑ y = flag x ≤ flag y

settling-on :
    (g : Object → Object)
    → ((o : Object) → o.session.settling ⊑ (g o).session.settling)
    → (o : Option Object) → settling_at o ⊑ settling_at (on g o)
settling-on g up none = omega arith
settling-on g up (some o) = up o

settled-on :
    (g : Object → Object)
    → ((o : Object) → o.session.settled ⊑ (g o).session.settled)
    → (o : Option Object) → settled_at o ⊑ settled_at (on g o)
settled-on g up none = omega arith
settled-on g up (some o) = up o

-- A change to one object that keeps `settled`, and `settling` unless nothing settles the session.
pub Single-modify :
    (b : Bridge) (id : ℕ) (g : Object → Object)
    → Single b
    → ((o : Object) → o.session.settled ⊑ (g o).session.settled)
    → (weigh (settles id) b.waiting ≤ flag (settling_at (on g (b.objects id))))
    → Single (record b { objects = modify id g b.objects })
Single-modify b id g single up covers = record {
  in_flight = λ j. elim (modify-cases id g b.objects j) [
    | inl (same, e) ↦ rw (e, ← same) covers
    | inr (_, e) ↦ rw e (single.in_flight j)
  ];
  once = single.once;
  marked = λ j. elim (modify-cases id g b.objects j) [
    | inl (_, e) ↦ rw e (omega (arith, single.marked j, settled-on g up (b.objects j)))
    | inr (_, e) ↦ rw e (single.marked j)
  ];
}

pub Single-keep :
    (b : Bridge) (id : ℕ) (g : Object → Object)
    → Single b
    → ((o : Object) → o.session.settled ⊑ (g o).session.settled)
    → ((o : Object) → o.session.settling ⊑ (g o).session.settling)
    → Single (record b { objects = modify id g b.objects })
Single-keep b id g single settled settling =
    Single-modify b id g single settled
      (omega (arith, single.in_flight id, settling-on g settling (b.objects id)))

-- A handler that goes on.
pub Single-drop :
    (b : Bridge) (before after : List Handler) (x : Handler)
    → Single b
    → b.waiting ≡ before ++ x ∷ after
    → Single (record b { waiting = before ++ after })
Single-drop b before after x single here =
    let less = λ (i : ℕ). ap (weigh (settles i)) here ∙ weigh-middle (settles i) before after x in
    record {
      in_flight = λ i. omega (arith, single.in_flight i, less i);
      once = λ i. omega (arith, single.once i, less i);
      marked = single.marked;
    }

-- One that settles was the only one, and its session is not logged.
pub Single-last :
    (b : Bridge) (before after : List Handler) (x : Handler) (id : ℕ)
    → Single b
    → b.waiting ≡ before ++ x ∷ after
    → settles id x ≡ 1
    → (weigh (settles id) (before ++ after) ≡ 0) × (weigh (logged id) b.settlements ≡ 0)
Single-last b before after x id single here one =
    let less : weigh (settles id) b.waiting ≡ settles id x + weigh (settles id) (before ++ after) =
      ap (weigh (settles id)) here ∙ weigh-middle (settles id) before after x in
    (omega (arith, single.once id, less, one), omega (arith, single.once id, less, one))

-- A handler that does not settle.
pub Single-add :
    (b : Bridge) (x : Handler)
    → Single b
    → ((i : ℕ) → settles i x ≡ 0)
    → Single (record b { waiting = x ∷ b.waiting })
Single-add b x single other = record {
  in_flight = λ i. omega (arith, single.in_flight i, other i);
  once = λ i. omega (arith, single.once i, other i);
  marked = single.marked;
}

-- One that does, of a session that is marked and has no other.
pub Single-begin :
    (b : Bridge) (x : Handler) (id : ℕ)
    → Single b
    → ((i : ℕ) → i ≢ id → settles i x ≡ 0)
    → settles id x ≤ 1
    → weigh (settles id) b.waiting ≡ 0
    → weigh (logged id) b.settlements ≡ 0
    → settling_at (b.objects id) ≡ true
    → Single (record b { waiting = x ∷ b.waiting })
Single-begin b x id single other one none_yet unlogged marked = record {
  in_flight = λ i. elim (ℕ_discrete i id) [
    | yes e ↦
        subst (λ j. settles j x + weigh (settles j) b.waiting ≤ flag (settling_at (b.objects j)))
          (sym e) (omega (arith, one, none_yet, ap flag marked))
    | no e ↦ omega (arith, single.in_flight i, other i e)
  ];
  once = λ i. elim (ℕ_discrete i id) [
    | yes e ↦
        subst (λ j. settles j x + weigh (settles j) b.waiting + weigh (logged j) b.settlements ≤ 1)
          (sym e) (omega (arith, one, none_yet, unlogged))
    | no e ↦ omega (arith, single.once i, other i e)
  ];
  marked = single.marked;
}

logged-le : (i j c : ℕ) → logged i (j, c) ≤ 1
logged-le i j c = ground arith

logged-other : (i j c : ℕ) → i ≢ j → logged i (j, c) ≡ 0
logged-other i j c ne = ground arith

-- The log, behind a settlement that was the last.
pub Single-log :
    (b : Bridge) (id charge : ℕ)
    → Single b
    → weigh (settles id) b.waiting ≡ 0
    → weigh (logged id) b.settlements ≡ 0
    → settled_at (b.objects id) ≡ true
    → Single (record b { settlements = (id, charge) ∷ b.settlements })
Single-log b id charge single none_left unlogged settled = record {
  in_flight = single.in_flight;
  once = λ i. elim (ℕ_discrete i id) [
    | yes e ↦
        subst
          (λ j.
            weigh (settles j) b.waiting + (logged j (id, charge) + weigh (logged j) b.settlements)
            ≤ 1)
          (sym e) (omega (arith, none_left, unlogged, logged-le id id charge))
    | no e ↦ omega (arith, single.once i, logged-other i id charge e)
  ];
  marked = λ i. elim (ℕ_discrete i id) [
    | yes e ↦
        subst
          (λ j.
            logged j (id, charge) + weigh (logged j) b.settlements
            ≤ flag (settled_at (b.objects j)))
          (sym e) (omega (arith, unlogged, logged-le id id charge, ap flag settled))
    | no e ↦ omega (arith, single.marked i, logged-other i id charge e)
  ];
}
