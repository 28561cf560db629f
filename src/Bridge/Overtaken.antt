-- ===== src/Bridge/Overtaken.antt =====
-- A chat of ux-prototype/server.js that runs beside the settlement of its session.
use bartok.Base.{
  ℕ, ◌+◌, ◌≤◌, ◌≡◌, refl, ap, ◌∙◌, false, true, not, ◌&&◌, Option, none, some, List, [], ◌∷◌, ◌++◌,
  ok, leb, le→leb, arith,
}
use bartok.Text.{Text}
use bartok.Bridge.{
  Tier, requires_account, anon_spend_cap_bartok, Session, Object, Handler, answering, ending,
  sweeping, Bridge, total, on, has_text, is_armed,
}
use bartok.Bridge.Chat.{msg_tier, chat, chat_spent, answered, is_given, charged}
use bartok.Bridge.Settling.{landed, end_outcome, sweep_outcome, with_settling, evicted}
use bartok.Bridge.Waiting.{modify-here}
use bartok.Bridge.Budget.{total-append}

-- A settlement of the session, by `/api/session/end` at one of its attempts or by the sweeper.
abbrev settlement : ℕ → ℕ → Option ℕ → Handler
settlement id charge (some attempt) = ending id charge attempt
settlement id charge none = sweeping id charge

-- It lands, while the handlers `rest` wait.
abbrev pub landing : Bridge → List Handler → ℕ → ℕ → Option ℕ → Bridge
landing b rest id charge (some attempt) = end_outcome b rest id charge attempt landed
landing b rest id charge none = sweep_outcome b rest id charge landed

-- A chat of a listed session with an escrow is accepted, whether or not it is being settled.
chat-accepted :
    (b : Bridge) (id : ℕ) (o : Object) (prompt tier_name : Text) (tier : Tier)
    → b.objects id ≡ some o
    → o.listed ≡ true
    → is_armed o.session.escrow_note_b64 ≡ true
    → o.session.settled ≡ false
    → has_text prompt ≡ true
    → msg_tier tier_name o.session ≡ some tier
    → (requires_account tier && not (b.users o.session.buyer_id).hash) ≡ false
    → (not (b.users o.session.buyer_id).hash
        && leb anon_spend_cap_bartok (b.users o.session.buyer_id).spent)
      ≡ false
    → b.busy ≡ false
    → chat b id prompt tier_name
      ≡ ok (record b { busy = true; waiting = answering id (total o.session.charges) ∷ b.waiting })
unfolding chat chat_spent
chat-accepted b id o prompt tier_name tier found listed armed unsettled asks is_tier account cap
      free =
    rw (found, listed, is_tier, armed, unsettled, asks, account, cap, free) refl

le-is_given :
    (spent charge : ℕ) (s : Session)
    → spent + charge ≤ s.budget
    → s.settled ≡ false
    → is_given spent charge s ≡ true
unfolding is_given
le-is_given spent charge s room unsettled =
    rw (le→leb (spent + charge) s.budget room, unsettled) refl

-- A reply that is given is entered among the charges.
answered-charged :
    (b : Bridge) (rest : List Handler) (id spent reply now : ℕ) (o : Object)
    → b.objects id ≡ some o
    → is_given spent reply o.session ≡ true
    → (answered b rest id spent reply now o).objects id ≡ some (charged reply now o)
unfolding answered
answered-charged b rest id spent reply now o found given =
    rw given (modify-here id (charged reply now) b.objects ∙ ap (on (charged reply now)) found)

-- A settlement that lands is logged with its charge, and leaves the session with the charges it has.
landing-logged :
    (b : Bridge) (rest : List Handler) (id charge : ℕ) (how : Option ℕ) (o : Object)
    → b.objects id ≡ some o
    → (o' : Object) × ((landing b rest id charge how).objects id ≡ some o')
      × (o'.listed ≡ false)
      × (o'.session.charges ≡ o.session.charges)
      × ((landing b rest id charge how).settlements ≡ (id, charge) ∷ b.settlements)
unfolding end_outcome sweep_outcome
landing-logged b rest id charge (some attempt) o found = (
  with_settling false (evicted o),
  modify-here id (λ x. with_settling false (evicted x)) b.objects
      ∙ ap (on (λ x. with_settling false (evicted x))) found,
  refl,
  refl,
  refl,
)
landing-logged b rest id charge none o found =
    (evicted o, modify-here id evicted b.objects ∙ ap (on evicted) found, refl, refl, refl)

-- While a settlement of a listed session waits, of the handler at any attempt or of the sweeper, a
-- chat of the session is accepted, and both wait. Whenever the answer comes, in a state `c` that has
-- the session unchanged, a reply within the hold is entered among the charges; and whenever the
-- settlement lands, of the handler at any attempt or of the sweeper, in a state `d` that has the
-- session as the answer left it, the settlement is logged with the charge from before the reply, and
-- the session is gone from the list with charges of this and the reply: the reply is never paid for.
-- The prompt is not empty, its tier is known, no other prompt is being answered, and the wallet is
-- one that may use the tier and that is below its cap.
pub overtaken-uncharged :
    (b c d : Bridge) (before after among others rest : List Handler) (id charge reply now : ℕ)
    (how how' : Option ℕ) (o : Object) (prompt tier_name : Text) (tier : Tier)
    → b.waiting ≡ before ++ settlement id charge how ∷ after
    → b.objects id ≡ some o
    → o.listed ≡ true
    → is_armed o.session.escrow_note_b64 ≡ true
    → o.session.settled ≡ false
    → charge ≡ total o.session.charges
    → has_text prompt ≡ true
    → msg_tier tier_name o.session ≡ some tier
    → (requires_account tier && not (b.users o.session.buyer_id).hash) ≡ false
    → (not (b.users o.session.buyer_id).hash
        && leb anon_spend_cap_bartok (b.users o.session.buyer_id).spent)
      ≡ false
    → b.busy ≡ false
    → c.waiting ≡ among ++ answering id charge ∷ others
    → c.objects id ≡ some o
    → charge + reply ≤ o.session.budget
    → d.objects id ≡ (answered c (among ++ others) id charge reply now o).objects id
    → ((b' : Bridge) × (chat b id prompt tier_name ≡ ok b')
        × (b'.waiting ≡ answering id charge ∷ before ++ settlement id charge how ∷ after)
        × (b'.objects id ≡ some o))
      × ((o1 o2 : Object) × ((answered c (among ++ others) id charge reply now o).objects id
            ≡ some o1)
          × (o1.session.charges ≡ o.session.charges ++ reply ∷ [])
          × (o1.listed ≡ true)
          × ((landing d rest id charge how').objects id ≡ some o2)
          × (o2.listed ≡ false)
          × (total o2.session.charges ≡ charge + reply)
          × ((landing d rest id charge how').settlements ≡ (id, charge) ∷ d.settlements))
overtaken-uncharged b c d before after among others rest id charge reply now how how' o prompt
      tier_name tier settling found listed armed unsettled sum asks is_tier account cap free answers
      kept room left =
    let given = le-is_given charge reply o.session room unsettled in
    let entered = answered-charged c (among ++ others) id charge reply now o kept given in
    let (o2, gone, unlisted, same, logged) =
      landing-logged d rest id charge how' (charged reply now o) (left ∙ entered) in
    (
      (
        record b { busy = true; waiting = answering id (total o.session.charges) ∷ b.waiting },
        chat-accepted b id o prompt tier_name tier found listed armed unsettled asks is_tier account
            cap free,
        rw (settling, ← sum) refl,
        found,
      ),
      (
        charged reply now o,
        o2,
        entered,
        refl,
        listed,
        gone,
        unlisted,
        ap total same ∙ omega (arith, total-append o.session.charges (reply ∷ []), sum),
        logged,
      ),
    )
