-- ===== src/Bridge/Settlements/Handlers.antt =====
-- The handlers of ux-prototype/server.js keep one settlement to a session.
use bartok.Base.{
  ℕ, ◌+◌, ◌≤◌, ◌≡◌, refl, sym, ap, ◌∙◌, false, Bool-cases, inl, inr, none, List, ◌∷◌, ◌++◌, ok,
  ok_inj, >>=-eq-ok, ltb, arith,
}
use mathlib.Core.Path.{subst}
use bartok.Text.{Text}
use bartok.Bridge.{
  Object, Handler, answering, ending, sweeping, Bridge, insert, confirmed, start_session, confirm,
  Tier,
}
use bartok.Escrow.{Report}
use bartok.Bridge.Chat.{charged, chat, chat_spent, answered, is_given}
use bartok.Bridge.Settling.{
  Outcome, landed, escrow_spent, wedged, failed, end_outcome, sweep_outcome, restart, with_settling,
  evicted, released,
}
use bartok.Bridge.Waiting.{
  flag-le, flag, weigh, weigh-middle, settles, settling_at, settled_at, insert-cases,
}
use bartok.Bridge.Once.{
  Single, ◌⊑◌, Single-keep, Single-drop, Single-last, Single-add, Single-begin,
}
use bartok.Bridge.Marked.{
  Single-persist, Single-release, Single-land, settling_at-set, settles-ending, settles-sweeping,
  settles-ending-other,
}

pub end_outcome-Single :
    (b : Bridge) (before after : List Handler) (id charge attempt : ℕ) (q : Outcome)
    → Single b
    → b.waiting ≡ before ++ ending id charge attempt ∷ after
    → Single (end_outcome b (before ++ after) id charge attempt q)
unfolding end_outcome
end_outcome-Single b before after id charge attempt landed single here = Single-persist _ (
    Single-land b before after (ending id charge attempt) id charge
      (λ o. with_settling false (evicted o)) single here (settles-ending id charge attempt)
      (λ o. refl))
end_outcome-Single b before after id charge attempt escrow_spent single here = Single-persist _ (
    Single-release b before after (ending id charge attempt) id
      (λ o. with_settling false (evicted o)) single here (settles-ending id charge attempt)
      (λ o. flag-le o.session.settled))
end_outcome-Single b before after id charge attempt wedged single here =
    elim (Bool-cases (ltb attempt 6)) [
      | inl again ↦
          let (last, unlogged) =
            Single-last b before after (ending id charge attempt) id single here
              (settles-ending id charge attempt) in
          let busy : 1 ≤ flag (settling_at (b.objects id)) = omega (
            arith,
            single.in_flight id,
            ap (weigh (settles id)) here,
            weigh-middle (settles id) before after (ending id charge attempt),
            settles-ending id charge attempt,
          ) in
          let (o, found, set) = settling_at-set (b.objects id) busy in
          rw again (
            Single-begin (record b { waiting = before ++ after }) (ending id charge (attempt + 1))
              id (Single-drop b before after (ending id charge attempt) single here)
              (λ i ne. settles-ending-other i id charge (attempt + 1) ne)
              (omega (arith, settles-ending id charge (attempt + 1))) last unlogged
              (ap settling_at found ∙ set))
      | inr over ↦ rw over (
          Single-release b before after (ending id charge attempt) id (with_settling false) single
            here (settles-ending id charge attempt) (λ o. omega arith))
    ]
end_outcome-Single b before after id charge attempt failed single here =
    Single-release b before after (ending id charge attempt) id (with_settling false) single here
      (settles-ending id charge attempt) (λ o. omega arith)

pub released-settled : (o : Object) → o.session.settled ⊑ (released o).session.settled
released-settled o = elim (Bool-cases o.listed) [
  | inl e ↦ rw e (omega arith)
  | inr e ↦ rw e (omega arith)
]

pub sweep_outcome-Single :
    (b : Bridge) (before after : List Handler) (id charge : ℕ) (q : Outcome)
    → Single b
    → b.waiting ≡ before ++ sweeping id charge ∷ after
    → Single (sweep_outcome b (before ++ after) id charge q)
unfolding sweep_outcome
sweep_outcome-Single b before after id charge landed single here = Single-persist _ (
    Single-land b before after (sweeping id charge) id charge evicted single here
      (settles-sweeping id charge) (λ o. refl))
sweep_outcome-Single b before after id charge escrow_spent single here = Single-persist _ (
    Single-release b before after (sweeping id charge) id evicted single here
      (settles-sweeping id charge) (λ o. flag-le o.session.settled))
sweep_outcome-Single b before after id charge wedged single here =
    Single-release b before after (sweeping id charge) id released single here
      (settles-sweeping id charge) released-settled
sweep_outcome-Single b before after id charge failed single here =
    Single-release b before after (sweeping id charge) id released single here
      (settles-sweeping id charge) released-settled

pub chat-Single :
    (b : Bridge) (id : ℕ) (prompt tier_name : Text) {b' : Bridge}
    → Single b
    → chat b id prompt tier_name ≡ ok b'
    → Single b'
unfolding chat
chat-Single b id prompt tier_name single e =
    let (before, _, e1) = >>=-eq-ok (chat_spent b id prompt tier_name) _ e in
    let added = Single-add b (answering id before) single (λ i. refl) in
    subst Single (ok_inj e1)
      (record { in_flight = added.in_flight; once = added.once; marked = added.marked })

pub answered-Single :
    (b : Bridge) (before after : List Handler) (id spent charge now : ℕ) (o : Object)
    → Single (record b { waiting = before ++ after })
    → Single (answered b (before ++ after) id spent charge now o)
unfolding answered
answered-Single b before after id spent charge now o single =
    let kept =
      Single-keep (record b { waiting = before ++ after }) id (charged charge now) single
        (λ q. omega arith) (λ q. omega arith) in
    elim (Bool-cases (is_given spent charge o.session)) [
      | inl given ↦
          rw given (record { in_flight = kept.in_flight; once = kept.once; marked = kept.marked })
      | inr withheld ↦
          rw withheld
            (record { in_flight = single.in_flight; once = single.once; marked = single.marked })
    ]

pub Single-insert :
    (b : Bridge) (id : ℕ) (o : Object)
    → Single b
    → b.objects id ≡ none
    → Single (record b { objects = insert id o b.objects })
Single-insert b id o single fresh = record {
  in_flight = λ j. elim (insert-cases id o b.objects j) [
    | inl (same, e) ↦ rw e (
        omega (
          arith,
          single.in_flight j,
          ap (λ q. flag (settling_at q)) (ap b.objects (sym same) ∙ fresh),
        ))
    | inr (_, e) ↦ rw e (single.in_flight j)
  ];
  once = single.once;
  marked = λ j. elim (insert-cases id o b.objects j) [
    | inl (same, e) ↦ rw e (
        omega
          (arith, single.marked j, ap (λ q. flag (settled_at q)) (ap b.objects (sym same) ∙ fresh)))
    | inr (_, e) ↦ rw e (single.marked j)
  ];
}

pub start_session-Single :
    (b : Bridge) (id : ℕ) (buyer : Text) (tier : Tier) (params : Report) (budget now : ℕ)
    → Single b
    → b.objects id ≡ none
    → Single (start_session b id buyer tier params budget now)
unfolding start_session
start_session-Single b id buyer tier params budget now single fresh =
    Single-persist _ (Single-insert b id _ single fresh)

pub confirm-Single :
    (b : Bridge) (rest : List Handler) (id now : ℕ)
    → Single (record b { waiting = rest })
    → Single (confirm b rest id now)
unfolding confirm
confirm-Single b rest id now single = Single-persist _ (
    Single-keep (record b { waiting = rest }) id (confirmed now) single (λ q. omega arith)
      (λ q. omega arith))

pub restart-Single : (b : Bridge) → Single (restart b)
unfolding restart
restart-Single b = record {
  in_flight = λ i. omega arith;
  once = λ i. omega arith;
  marked = λ i. omega arith;
}
