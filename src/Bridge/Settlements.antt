-- ===== src/Bridge/Settlements.antt =====
-- One settlement to a session, in every state of ux-prototype/server.js.
pub mod Handlers
use bartok.Base.{
  ℕ, ◌+◌, ◌≤◌, ◌≡◌, refl, sym, ap, ◌∙◌, false, Bool-cases, inl, inr, Option, none, List, ◌∷◌, ◌++◌,
  ok, ok_inj, >>=-eq-ok, ltb, arith,
}
use mathlib.Core.Path.{subst}
use bartok.Text.{Text}
use bartok.Host.{Host}
use bartok.Bridge.{
  Object, Handler, confirming, answering, ending, sweeping, Bridge, insert, confirmed,
  start_session, confirm, User, Tier,
}
use bartok.Escrow.{Report}
use bartok.Bridge.Chat.{charged, chat, chat_spent, answered, is_given}
use bartok.Bridge.Settling.{
  Outcome, landed, escrow_spent, wedged, failed, end_outcome, sweep_outcome, restart, with_settling,
  evicted, released,
}
use bartok.Bridge.Steps.{
  Step, started, looked, confirms, refused, asked, answers, no_answer, ends, ended, sweeps, swept,
  signs, restarts, Reach, boot, later,
}
use bartok.Bridge.Waiting.{
  flag, weigh, weigh-middle, settles, logged, settling_at, settled_at, insert-cases,
}
use bartok.Bridge.Once.{
  Single, ◌⊑◌, Single-keep, Single-drop, Single-last, Single-add, Single-begin,
}
use bartok.Bridge.Marked.{
  end_session-Single, sweep_session-Single, Single-persist, Single-release, Single-land,
  settling_at-set, settles-ending, settles-sweeping, settles-ending-other,
}
use bartok.Bridge.Settlements.Handlers.{
  end_outcome-Single, released-settled, sweep_outcome-Single, chat-Single, answered-Single,
  Single-insert, start_session-Single, confirm-Single, restart-Single,
}

module _ (h : Host) (program : Text) (accounts_json : Option Text) where
  Step-Single : {b b' : Bridge} → Step h program accounts_json b b' → Single b → Single b'
  Step-Single
        (started {b} users id buyer tier_name balance now budget tier env e fresh held args file
          built)
        single =
      start_session-Single b id buyer tier _ budget now single fresh
  Step-Single (looked {b} id found) single = Single-add b (confirming id) single (λ i. refl)
  Step-Single (confirms {b} before after id now here) single =
      confirm-Single b (before ++ after) id now
        (Single-drop b before after (confirming id) single here)
  Step-Single (refused {b} before after id here) single =
      Single-drop b before after (confirming id) single here
  Step-Single (asked {b} id prompt tier_name e) single = chat-Single b id prompt tier_name single e
  Step-Single (answers {b} before after id spent charge now o here found) single =
      answered-Single b before after id spent charge now o
        (Single-drop b before after (answering id spent) single here)
  Step-Single (no_answer {b} before after id spent here) single =
      let dropped = Single-drop b before after (answering id spent) single here in
      record { in_flight = dropped.in_flight; once = dropped.once; marked = dropped.marked }
  Step-Single (ends {b} id now e) single = end_session-Single b id now single e
  Step-Single (ended {b} before after id charge attempt q here) single =
      end_outcome-Single b before after id charge attempt q single here
  Step-Single (sweeps {b} id now e) single = sweep_session-Single b id now single e
  Step-Single (swept {b} before after id charge q here) single =
      sweep_outcome-Single b before after id charge q single here
  Step-Single (signs {b} users) single = record {
    in_flight = single.in_flight;
    once = single.once;
    marked = single.marked;
  }
  Step-Single (restarts {b}) single = restart-Single b

  -- In every state that the server can reach, whatever handlers interleave, of each session at most
  -- one settlement is under way or has landed since the boot, by its handler and the sweeper together.
  pub Reach-once :
      {users : Text → User} {b : Bridge}
      → Reach h program accounts_json users b
      → (id : ℕ) → weigh (settles id) b.waiting + weigh (logged id) b.settlements ≤ 1
  Reach-once reached = (Reach-Single reached).once
    where
      Reach-Single :
          {users : Text → User} {b : Bridge} → Reach h program accounts_json users b → Single b
      Reach-Single boot = record {
        in_flight = λ i. omega arith;
        once = λ i. omega arith;
        marked = λ i. omega arith;
      }
      Reach-Single (later r step) = Step-Single step (Reach-Single r)
