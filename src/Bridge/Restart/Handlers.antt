-- ===== src/Bridge/Restart/Handlers.antt =====
-- The handlers of ux-prototype/server.js leave a stranded session as it is.
use bartok.Base.{
  ℕ, ◌+◌, ◌≡◌, ◌≢◌, refl, sym, ap, ◌∙◌, true, false, Bool-cases, inl, inr, Option, none, List, ◌∷◌,
  ◌++◌, ok, ok_inj, >>=-eq-ok, ltb, arith,
}
use mathlib.Core.Path.{subst}
use bartok.Text.{Text}
use bartok.Bridge.{
  Session, Object, Handler, answering, ending, sweeping, Bridge, insert, confirmed, start_session,
  confirm, Tier,
}
use bartok.Escrow.{Report}
use bartok.Bridge.Chat.{charged, chat, chat_spent, answered, is_given}
use bartok.Bridge.Settling.{
  Outcome, landed, escrow_spent, wedged, failed, end_session, end_charge, end_outcome,
  sweep_session, sweep_charge, sweep_outcome, with_settling, touched, evicted, released,
}
use bartok.Bridge.Waiting.{weigh, weigh-middle, settles, insert-cases}
use bartok.Bridge.Marked.{
  Free, end_charge-Free, sweep_charge-Free, settles-ending-other, settles-sweeping-other,
}
use bartok.Bridge.Stranded.{Held, Stranded, Held-modify, Held-persist, Held-waiting}

-- Another session is meant, where one is free to settle,
pub Free-other : (id : ℕ) (b : Bridge) (j : ℕ) → Stranded id b → Free b j → j ≢ id
Free-other id b j s (o, here, _, quiet) same =
    let one : o ≡ s.object = cc (sym here ∙ ap b.objects same ∙ s.here) in
    cc (sym quiet ∙ ap (λ q. q.session.settling) one ∙ s.settling)

-- and where a settlement is under way.
pub waiting-other :
    (id : ℕ) (b : Bridge) (before after : List Handler) (x : Handler) (j : ℕ)
    → Stranded id b
    → b.waiting ≡ before ++ x ∷ after
    → settles j x ≡ 1
    → j ≢ id
waiting-other id b before after x j s here one same =
    let mine : settles id x ≡ 1 = ap (λ i. settles i x) (sym same) ∙ one in
    absurd (
      omega (
        arith,
        s.idle,
        ap (weigh (settles id)) here,
        weigh-middle (settles id) before after x,
        mine,
      ))

pub dropped :
    (id : ℕ) (b : Bridge) (before after : List Handler) (x : Handler)
    → Stranded id b
    → b.waiting ≡ before ++ x ∷ after
    → weigh (settles id) (before ++ after) ≡ 0
dropped id b before after x s here =
    omega (arith, s.idle, ap (weigh (settles id)) here, weigh-middle (settles id) before after x)

pub end_session-Stranded :
    (id : ℕ) (b : Bridge) (j now : ℕ) {b' : Bridge}
    → Stranded id b
    → end_session b j now ≡ ok b'
    → Stranded id b'
unfolding end_session
end_session-Stranded id b j now s e =
    let (charge, begun, e1) = >>=-eq-ok (end_charge b j) _ e in
    let other = Free-other id b j s (end_charge-Free b j begun) in
    subst (Stranded id) (ok_inj e1) (
      Held-waiting id _ b.saved b.waiting (ending j charge 1 ∷ b.waiting)
        (Held-modify id b.objects b.saved _ j (λ o. touched now (with_settling true o)) s
          (λ o same. absurd (other same)))
        (omega (arith, s.idle, settles-ending-other id j charge 1 (λ e. other (sym e)))))

pub sweep_session-Stranded :
    (id : ℕ) (b : Bridge) (j now : ℕ) {b' : Bridge}
    → Stranded id b
    → sweep_session b j now ≡ ok b'
    → Stranded id b'
unfolding sweep_session
sweep_session-Stranded id b j now s e =
    let (charge, begun, e1) = >>=-eq-ok (sweep_charge b j now) _ e in
    let other = Free-other id b j s (sweep_charge-Free b j now begun) in
    subst (Stranded id) (ok_inj e1) (
      Held-waiting id _ b.saved b.waiting (sweeping j charge ∷ b.waiting)
        (Held-modify id b.objects b.saved _ j (with_settling true) s
          (λ o same. absurd (other same)))
        (omega (arith, s.idle, settles-sweeping-other id j charge (λ e. other (sym e)))))

pub end_outcome-Stranded :
    (id : ℕ) (b : Bridge) (rest : List Handler) (j charge attempt : ℕ) (q : Outcome)
    → Stranded id (record b { waiting = rest })
    → j ≢ id
    → Stranded id (end_outcome b rest j charge attempt q)
unfolding end_outcome
end_outcome-Stranded id b rest j charge attempt landed s other = Held-persist id _ b.saved _ (
    Held-modify id b.objects b.saved rest j (λ o. with_settling false (evicted o)) s
      (λ o same. absurd (other same)))
end_outcome-Stranded id b rest j charge attempt escrow_spent s other = Held-persist id _ b.saved _ (
    Held-modify id b.objects b.saved rest j (λ o. with_settling false (evicted o)) s
      (λ o same. absurd (other same)))
end_outcome-Stranded id b rest j charge attempt wedged s other = elim (Bool-cases (ltb attempt 6)) [
  | inl again ↦ rw again (
      Held-waiting id b.objects b.saved rest (ending j charge (attempt + 1) ∷ rest) s (
        omega (arith, s.idle, settles-ending-other id j charge (attempt + 1) (λ e. other (sym e)))))
  | inr over ↦ rw over (
      Held-modify id b.objects b.saved rest j (with_settling false) s
        (λ o same. absurd (other same)))
]
end_outcome-Stranded id b rest j charge attempt failed s other =
    Held-modify id b.objects b.saved rest j (with_settling false) s (λ o same. absurd (other same))

pub sweep_outcome-Stranded :
    (id : ℕ) (b : Bridge) (rest : List Handler) (j charge : ℕ) (q : Outcome)
    → Stranded id (record b { waiting = rest })
    → j ≢ id
    → Stranded id (sweep_outcome b rest j charge q)
unfolding sweep_outcome
sweep_outcome-Stranded id b rest j charge landed s other =
    Held-persist id _ b.saved _
      (Held-modify id b.objects b.saved rest j evicted s (λ o same. absurd (other same)))
sweep_outcome-Stranded id b rest j charge escrow_spent s other =
    Held-persist id _ b.saved _
      (Held-modify id b.objects b.saved rest j evicted s (λ o same. absurd (other same)))
sweep_outcome-Stranded id b rest j charge wedged s other =
    Held-modify id b.objects b.saved rest j released s (λ o same. absurd (other same))
sweep_outcome-Stranded id b rest j charge failed s other =
    Held-modify id b.objects b.saved rest j released s (λ o same. absurd (other same))

pub chat-Stranded :
    (id : ℕ) (b : Bridge) (j : ℕ) (prompt tier_name : Text) {b' : Bridge}
    → Stranded id b
    → chat b j prompt tier_name ≡ ok b'
    → Stranded id b'
unfolding chat
chat-Stranded id b j prompt tier_name s e =
    let (spent, _, e1) = >>=-eq-ok (chat_spent b j prompt tier_name) _ e in
    subst (Stranded id) (ok_inj e1) (
      Held-waiting id b.objects b.saved b.waiting (answering j spent ∷ b.waiting) s
        (omega (arith, s.idle)))

pub answered-Stranded :
    (id : ℕ) (b : Bridge) (rest : List Handler) (j spent charge now : ℕ) (o : Object)
    → Stranded id (record b { waiting = rest })
    → Stranded id (answered b rest j spent charge now o)
unfolding answered
answered-Stranded id b rest j spent charge now o s =
    elim (Bool-cases (is_given spent charge o.session)) [
      | inr withheld ↦ rw withheld s
      | inl given ↦ rw given (
          Held-persist id _ b.saved _ (
            Held-modify id b.objects b.saved rest j (charged charge now) s
              (λ q same. (refl, refl, refl))))
    ]

pub confirm-Stranded :
    (id : ℕ) (b : Bridge) (rest : List Handler) (j now : ℕ)
    → Stranded id b
    → weigh (settles id) rest ≡ 0
    → Stranded id (confirm b rest j now)
unfolding confirm
confirm-Stranded id b rest j now s none_of = Held-persist id _ b.saved _ (
    Held-modify id b.objects b.saved rest j (confirmed now)
      (Held-waiting id b.objects b.saved b.waiting rest s none_of) (λ q same. (refl, refl, refl)))

pub Held-insert :
    (id : ℕ) (objects : ℕ → Option Object) (saved : ℕ → Option Session) (hs : List Handler) (j : ℕ)
    (o : Object)
    → Held id objects saved hs
    → objects j ≡ none
    → Held id (insert j o objects) saved hs
Held-insert id objects saved hs j o s fresh = elim (insert-cases j o objects id) [
  | inl (same, _) ↦ cc (sym fresh ∙ ap objects same ∙ s.here)
  | inr (_, e) ↦ record {
    object = s.object;
    here = e ∙ s.here;
    listed = s.listed;
    settling = s.settling;
    unsettled = s.unsettled;
    idle = s.idle;
    copy = s.copy;
    in_snapshot = s.in_snapshot;
    copied = s.copied;
    unpaid = s.unpaid;
  }
]

-- A new session has another UUID.
pub start_session-Stranded :
    (id : ℕ) (b : Bridge) (j : ℕ) (buyer : Text) (tier : Tier) (params : Report) (budget now : ℕ)
    → Stranded id b
    → b.objects j ≡ none
    → Stranded id (start_session b j buyer tier params budget now)
unfolding start_session
start_session-Stranded id b j buyer tier params budget now s fresh =
    Held-persist id _ b.saved _ (Held-insert id b.objects b.saved b.waiting j _ s fresh)
