-- ===== src/Bridge/Marked.antt =====
-- Every step of ux-prototype/server.js keeps one settlement to a session.
use bartok.Base.{
  ℕ, ◌≤◌, ◌≡◌, ◌≢◌, refl, ap, ◌∙◌, true, false, not, ◌||◌, Bool-cases, inl, inr, Option, none, some,
  List, ◌∷◌, ◌++◌, ok, ok_inj, context-eq-ok, ensure-eq-ok, >>=-eq-ok, arith,
}
use mathlib.Core.Path.{subst}
use bartok.Bridge.{is_armed, Object, Handler, ending, sweeping, Bridge, modify, on, persist, get}
use bartok.Bridge.Settling.{
  end_session, end_charge, sweep_session, sweep_charge, with_settling, touched,
}
use bartok.Bridge.Waiting.{
  when_listed-some, flag-le, flag, weigh, weigh-middle, settles, logged, settling_at, settled_at,
  modify-here,
}
use bartok.Bridge.Once.{
  Single, ◌⊑◌, Single-modify, Single-drop, Single-last, Single-begin, Single-log,
}

-- A flag that counts at least one is set, on an object.
pub settling_at-set :
    (o : Option Object)
    → 1 ≤ flag (settling_at o)
    → (q : Object) × (o ≡ some q) × (q.session.settling ≡ true)
settling_at-set none h = absurd (omega (arith, h))
settling_at-set (some q) h = elim (Bool-cases q.session.settling) [
  | inl set ↦ (q, refl, set)
  | inr clear ↦ absurd (omega (arith, h, ap flag clear))
]

pub settles-ending-other :
    (i id charge attempt : ℕ) → i ≢ id → settles i (ending id charge attempt) ≡ 0
settles-ending-other i id charge attempt ne = ground arith

pub settles-sweeping-other : (i id charge : ℕ) → i ≢ id → settles i (sweeping id charge) ≡ 0
settles-sweeping-other i id charge ne = ground arith

pub settles-ending : (id charge attempt : ℕ) → settles id (ending id charge attempt) ≡ 1
settles-ending id charge attempt = ground arith

pub settles-sweeping : (id charge : ℕ) → settles id (sweeping id charge) ≡ 1
settles-sweeping id charge = ground arith

-- A listed session that is neither settled nor settling.
abbrev pub Free : Bridge → ℕ → Type 0
Free b id =
    (o : Object) × (b.objects id ≡ some o)
    × (o.session.settled ≡ false)
    × (o.session.settling ≡ false)

pub end_charge-Free : (b : Bridge) (id : ℕ) {charge : ℕ} → end_charge b id ≡ ok charge → Free b id
unfolding end_charge
end_charge-Free b id e =
    let (s, found, e1) = context-eq-ok (get b id) _ _ e in
    let (_, e2) = ensure-eq-ok (is_armed s.escrow_note_b64) _ _ e1 in
    let (open_session, e3) = ensure-eq-ok (not s.settled) _ _ e2 in
    let (quiet, e4) = ensure-eq-ok (not s.settling) _ _ e3 in
    let (o, here, same) = when_listed-some (b.objects id) found in
    (o, here, rw same (ground arith), rw same (ground arith))

pub sweep_charge-Free :
    (b : Bridge) (id now : ℕ) {charge : ℕ} → sweep_charge b id now ≡ ok charge → Free b id
unfolding sweep_charge
sweep_charge-Free b id now e =
    let (s, found, e1) = context-eq-ok (get b id) _ _ e in
    let (open_session, e2) =
      ensure-eq-ok (not (s.settled || s.settling || not (is_armed s.escrow_note_b64))) _ _ e1 in
    let (o, here, same) = when_listed-some (b.objects id) found in
    (o, here, rw same (ground arith), rw same (ground arith))

-- A settlement of a free session begins.
Free-begin :
    (b : Bridge) (id : ℕ) (g : Object → Object) (x : Handler)
    → Single b
    → Free b id
    → ((o : Object) → (g o).session.settled ≡ o.session.settled)
    → ((o : Object) → (g o).session.settling ≡ true)
    → ((i : ℕ) → i ≢ id → settles i x ≡ 0)
    → settles id x ≤ 1
    → Single (record b { objects = modify id g b.objects; waiting = x ∷ b.waiting })
Free-begin b id g x single (o, here, unsettled, quiet) keeps sets other one =
    let none_yet : weigh (settles id) b.waiting ≡ 0 =
      omega (arith, single.in_flight id, ap (λ q. flag (settling_at q)) here, ap flag quiet) in
    let unlogged : weigh (logged id) b.settlements ≡ 0 =
      omega (arith, single.marked id, ap (λ q. flag (settled_at q)) here, ap flag unsettled) in
    Single-begin (record b { objects = modify id g b.objects }) x id
      (Single-modify b id g single (λ q. omega (arith, ap flag (keeps q)))
        (omega (arith, none_yet)))
      other one none_yet unlogged
      (ap settling_at (modify-here id g b.objects ∙ ap (on g) here) ∙ sets o)

pub end_session-Single :
    (b : Bridge) (id now : ℕ) {b' : Bridge} → Single b → end_session b id now ≡ ok b' → Single b'
unfolding end_session
end_session-Single b id now single e =
    let (charge, begun, e1) = >>=-eq-ok (end_charge b id) _ e in
    subst Single (ok_inj e1) (
      Free-begin b id (λ o. touched now (with_settling true o)) (ending id charge 1) single
        (end_charge-Free b id begun) (λ o. refl) (λ o. refl)
        (λ i ne. settles-ending-other i id charge 1 ne) (omega (arith, settles-ending id charge 1)))

pub sweep_session-Single :
    (b : Bridge) (id now : ℕ) {b' : Bridge} → Single b → sweep_session b id now ≡ ok b' → Single b'
unfolding sweep_session
sweep_session-Single b id now single e =
    let (charge, begun, e1) = >>=-eq-ok (sweep_charge b id now) _ e in
    subst Single (ok_inj e1) (
      Free-begin b id (with_settling true) (sweeping id charge) single
        (sweep_charge-Free b id now begun) (λ o. refl) (λ o. refl)
        (λ i ne. settles-sweeping-other i id charge ne) (omega (arith, settles-sweeping id charge)))

-- The snapshot makes no difference.
pub Single-persist : (b : Bridge) → Single b → Single (persist b)
Single-persist b single = record {
  in_flight = single.in_flight;
  once = single.once;
  marked = single.marked;
}

-- Behind the only settlement of a session: its object may change in any way that keeps `settled`,
pub Single-release :
    (b : Bridge) (before after : List Handler) (x : Handler) (id : ℕ) (g : Object → Object)
    → Single b
    → b.waiting ≡ before ++ x ∷ after
    → settles id x ≡ 1
    → ((o : Object) → o.session.settled ⊑ (g o).session.settled)
    → Single (record b { objects = modify id g b.objects; waiting = before ++ after })
Single-release b before after x id g single here one keeps =
    let (last, _) = Single-last b before after x id single here one in
    Single-modify (record b { waiting = before ++ after }) id g
      (Single-drop b before after x single here) keeps (omega (arith, last))

-- and it is logged if the change marks it settled.
pub Single-land :
    (b : Bridge) (before after : List Handler) (x : Handler) (id charge : ℕ) (g : Object → Object)
    → Single b
    → b.waiting ≡ before ++ x ∷ after
    → settles id x ≡ 1
    → ((o : Object) → (g o).session.settled ≡ true)
    → Single (record b {
      objects = modify id g b.objects;
      waiting = before ++ after;
      settlements = (id, charge) ∷ b.settlements;
    })
Single-land b before after x id charge g single here one sets =
    let (last, unlogged) = Single-last b before after x id single here one in
    let busy : 1 ≤ flag (settling_at (b.objects id)) = omega (
      arith,
      single.in_flight id,
      ap (weigh (settles id)) here,
      weigh-middle (settles id) before after x,
      one,
    ) in
    let (o, found, _) = settling_at-set (b.objects id) busy in
    Single-log (record b { objects = modify id g b.objects; waiting = before ++ after }) id charge
      (Single-release b before after x id g single here one
        (λ q. omega (arith, ap flag (sets q), flag-le q.session.settled)))
      last unlogged (ap settled_at (modify-here id g b.objects ∙ ap (on g) found) ∙ sets o)
