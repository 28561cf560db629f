-- ===== src/Bridge/Within/Chats.antt =====
-- The start of a session, its chats and the boot of ux-prototype/server.js keep the charges within the
-- holds.
use bartok.Base.{
  ℕ, ◌+◌, ◌≤◌, ◌≡◌, refl, sym, ap, ◌∙◌, false, Bool-cases, inl, inr, Option, none, some, List, ◌∷◌,
  ◌++◌, ok, >>=-eq-ok, ok_inj, arith,
}
use mathlib.Core.Path.{subst}
use bartok.Text.{Text}
use bartok.Host.{Host}
use bartok.Escrow.{Report}
use bartok.Bridge.{
  Object, Handler, answering, Bridge, total, confirmed, start_session, confirm, Tier,
}
use bartok.Bridge.Chat.{chat, chat_spent, answered, is_given}
use bartok.Bridge.Settling.{restart}
use bartok.Bridge.Waiting.{flag-le, flag, weigh, weigh-middle, is_chat, total_at, All-middle}
use bartok.Bridge.Budget.{Sound, Good, Origin, Spent}
use bartok.Bridge.Budget.Parts.{Sound-modify, Sound-charge, Sound-insert, Sound-drop, Sound-persist}
use bartok.Bridge.Within.Guards.{restored-Holds, is_given-le, chat_spent-total}

module _ (h : Host) (program : Text) (accounts_json : Option Text) where
  -- The chat that answers was the only one.
  pub silence-Sound :
      (b : Bridge) (before after : List Handler) (id spent : ℕ)
      → Sound h program accounts_json b
      → b.waiting ≡ before ++ answering id spent ∷ after
      → (weigh is_chat (before ++ after) ≡ 0)
        × (spent ≡ total_at (b.objects id))
        × Sound h program accounts_json (record b { busy = false; waiting = before ++ after })
  silence-Sound b before after id spent sound here =
      let dropped =
        Sound-drop h program accounts_json b before after (answering id spent) sound here in
      let one : 1 + weigh is_chat (before ++ after) ≤ flag b.busy = omega (
        arith,
        weigh-middle is_chat before after (answering id spent),
        ap (weigh is_chat) here,
        sound.one_chat,
      ) in
      let quiet : weigh is_chat (before ++ after) ≡ 0 = omega (arith, one, flag-le b.busy) in
      (
        quiet,
        (All-middle (Spent b.objects) before after (answering id spent)
            (rw here at sound.spends)).0,
        record {
          sessions = dropped.sessions;
          saves = dropped.saves;
          one_chat = omega (arith, quiet);
          spends = dropped.spends;
          settling = dropped.settling;
          paid = dropped.paid;
        },
      )

  pub confirm-Sound :
      (b : Bridge) (rest : List Handler) (id now : ℕ)
      → Sound h program accounts_json (record b { waiting = rest })
      → Sound h program accounts_json (confirm b rest id now)
  unfolding confirm
  confirm-Sound b rest id now sound = Sound-persist h program accounts_json _ (
      Sound-modify h program accounts_json (record b { waiting = rest }) id (confirmed now) sound
        (λ o. refl) (λ o armed. refl) (λ o. refl)
        (λ o origin. record {
          env = origin.env;
          escrow = origin.escrow;
          args = origin.args;
          bounded = origin.bounded;
          file = origin.file;
          built = origin.built;
          printed = origin.printed;
          armed = λ t e. cc;
        }))

  pub chat-Sound :
      (b : Bridge) (id : ℕ) (prompt tier_name : Text) {b' : Bridge}
      → Sound h program accounts_json b
      → chat b id prompt tier_name ≡ ok b'
      → Sound h program accounts_json b'
  unfolding chat
  chat-Sound b id prompt tier_name sound e =
      let (before, begun, e1) = >>=-eq-ok (chat_spent b id prompt tier_name) _ e in
      let (quiet, spent, _) = chat_spent-total b id prompt tier_name begun in
      subst (Sound h program accounts_json) (ok_inj e1) (record {
        sessions = sound.sessions;
        saves = sound.saves;
        one_chat = omega (arith, sound.one_chat, ap flag quiet);
        spends = (spent, sound.spends);
        settling = (tt, sound.settling);
        paid = sound.paid;
      })

  pub answered-Sound :
      (b : Bridge) (before after : List Handler) (id spent charge now : ℕ) (o : Object)
      → Sound h program accounts_json b
      → b.waiting ≡ before ++ answering id spent ∷ after
      → b.objects id ≡ some o
      → Sound h program accounts_json (answered b (before ++ after) id spent charge now o)
  unfolding answered
  answered-Sound b before after id spent charge now o sound here found =
      let (quiet, spends, dropped) = silence-Sound b before after id spent sound here in
      elim (Bool-cases (is_given spent charge o.session)) [
        | inr withheld ↦ rw withheld dropped
        | inl given ↦ rw given (
            Sound-persist h program accounts_json _ (
              Sound-charge h program accounts_json _ id charge now _ dropped quiet (λ q there.
                let same : o ≡ q = cc (sym found ∙ there) in
                subst (λ x. total x.session.charges + charge ≤ x.session.budget) same
                  (omega (
                    arith,
                    is_given-le spent charge o.session given,
                    spends ∙ ap total_at found,
                  )))))
      ]

  pub start_session-Sound :
      (b : Bridge) (id : ℕ) (buyer : Text) (tier : Tier) (params : Report) (budget now : ℕ)
      → Sound h program accounts_json b
      → b.objects id ≡ none
      → Origin h program accounts_json buyer budget params none
      → Sound h program accounts_json (start_session b id buyer tier params budget now)
  unfolding start_session
  start_session-Sound b id buyer tier params budget now sound fresh origin =
      Sound-persist h program accounts_json _
        (Sound-insert h program accounts_json b id _ sound fresh refl origin)

  pub restart-Sound :
      (b : Bridge) → Sound h program accounts_json b → Sound h program accounts_json (restart b)
  unfolding restart
  restart-Sound b sound = record {
    sessions = λ i. restored-Holds (Good h program accounts_json) (b.saved i) (sound.saves i);
    saves = sound.saves;
    one_chat = omega arith;
    spends = tt;
    settling = tt;
    paid = tt;
  }
