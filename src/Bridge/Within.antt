-- ===== src/Bridge/Within.antt =====
-- Every step of ux-prototype/server.js keeps the charges within the holds.
pub mod Guards
pub mod Ends
pub mod Chats
use bartok.Base.{
  ℕ, ◌+◌, ◌≤◌, ◌<◌, ◌≡◌, refl, sym, ap, ◌∙◌, Bool, true, false, not, ◌||◌, ◌&&◌, Bool-cases, inl,
  inr, Option, none, some, List, ◌∷◌, ◌++◌, ok, context-eq-ok, ensure-eq-ok, >>=-eq-ok, ok_inj, leb,
  ltb, arith,
}
use mathlib.Core.Path.{subst}
use bartok.Text.{Text}
use bartok.Text.Decimal.{u64_mod}
use bartok.Host.{Host}
use bartok.Escrow.{report, Report}
use bartok.Bridge.{
  tier_of, basic, genius, hold_of, min_hold_bartok, start_hold, requires_account,
  anon_spend_cap_bartok, is_armed, sweep_idle_ms, Session, Object, Handler, confirming, answering,
  ending, sweeping, Bridge, total, modify, get, when_listed, confirmed, start_session, confirm,
  User, Tier,
}
use bartok.Bridge.Chat.{chat, chat_spent, answered, is_given, msg_tier}
use bartok.Bridge.Settling.{
  Outcome, landed, escrow_spent, wedged, failed, end_session, end_charge, end_outcome,
  sweep_session, sweep_charge, sweep_outcome, restart, restored, with_settling, touched, evicted,
  released,
}
use bartok.Bridge.Steps.{
  Step, started, looked, confirms, refused, asked, answers, no_answer, ends, ended, sweeps, swept,
  signs, restarts, Reach, boot, later,
}
use bartok.Bridge.Waiting.{
  flag, weigh, weigh-middle, is_chat, total_at, settled_at, Holds, HoldsSaved, All-middle,
}
use bartok.Bridge.Budget.{Sound, Good, Origin, Covered, Settles, Spent}
use bartok.Bridge.Budget.Parts.{
  Sound-modify, Sound-charge, Sound-insert, Sound-drop, Sound-settle, Sound-log, Sound-persist,
}
use bartok.Bridge.Within.Guards.{
  restored-Holds, hold_of-fits, start_hold-fits, is_given-le, chat_spent-total, get-Covered,
  end_charge-Covered, sweep_charge-Covered,
}
use bartok.Bridge.Within.Ends.{
  end_session-Sound, sweep_session-Sound, end_outcome-Sound, released-Sound, sweep_outcome-Sound,
}
use bartok.Bridge.Within.Chats.{
  silence-Sound, confirm-Sound, chat-Sound, answered-Sound, start_session-Sound, restart-Sound,
}

module _ (h : Host) (program : Text) (accounts_json : Option Text) where
  Step-Sound :
      {b b' : Bridge}
      → Step h program accounts_json b b'
      → Sound h program accounts_json b
      → Sound h program accounts_json b'
  Step-Sound
        (started {b} users id buyer tier_name balance now budget tier env e fresh held args file
          built)
        sound =
      start_session-Sound h program accounts_json b id buyer tier (report h e) budget now sound
        fresh
        (record {
          env = env;
          escrow = e;
          args = args;
          bounded = start_hold-fits users buyer tier_name balance held;
          file = file;
          built = built;
          printed = refl;
          armed = λ t e. cc;
        })
  Step-Sound (looked {b} id found) sound =
      Sound-settle h program accounts_json b (confirming id) sound refl tt
  Step-Sound (confirms {b} before after id now here) sound =
      confirm-Sound h program accounts_json b (before ++ after) id now
        (Sound-drop h program accounts_json b before after (confirming id) sound here)
  Step-Sound (refused {b} before after id here) sound =
      Sound-drop h program accounts_json b before after (confirming id) sound here
  Step-Sound (asked {b} id prompt tier_name e) sound =
      chat-Sound h program accounts_json b id prompt tier_name sound e
  Step-Sound (answers {b} before after id spent charge now o here found) sound =
      answered-Sound h program accounts_json b before after id spent charge now o sound here found
  Step-Sound (no_answer {b} before after id spent here) sound =
      (silence-Sound h program accounts_json b before after id spent sound here).2
  Step-Sound (ends {b} id now e) sound = end_session-Sound h program accounts_json b id now sound e
  Step-Sound (ended {b} before after id charge attempt q here) sound =
      end_outcome-Sound h program accounts_json b (before ++ after) id charge attempt q
        (Sound-drop h program accounts_json b before after (ending id charge attempt) sound here)
        (All-middle (Settles b.objects) before after (ending id charge attempt)
          (rw here at sound.settling)).0
  Step-Sound (sweeps {b} id now e) sound =
      sweep_session-Sound h program accounts_json b id now sound e
  Step-Sound (swept {b} before after id charge q here) sound =
      sweep_outcome-Sound h program accounts_json b (before ++ after) id charge q
        (Sound-drop h program accounts_json b before after (sweeping id charge) sound here)
        (All-middle (Settles b.objects) before after (sweeping id charge)
          (rw here at sound.settling)).0
  Step-Sound (signs {b} users) sound = record {
    sessions = sound.sessions;
    saves = sound.saves;
    one_chat = sound.one_chat;
    spends = sound.spends;
    settling = sound.settling;
    paid = sound.paid;
  }
  Step-Sound (restarts {b}) sound = restart-Sound h program accounts_json b sound

  pub Reach-Sound :
      {users : Text → User} {b : Bridge}
      → Reach h program accounts_json users b
      → Sound h program accounts_json b
  Reach-Sound boot = record {
    sessions = λ i. tt;
    saves = λ i. tt;
    one_chat = omega arith;
    spends = tt;
    settling = tt;
    paid = tt;
  }
  Reach-Sound (later r step) = Step-Sound step (Reach-Sound r)
