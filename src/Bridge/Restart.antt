-- ===== src/Bridge/Restart.antt =====
-- No step of ux-prototype/server.js frees a session that the boot has read back as settling.
pub mod Handlers
use bartok.Base.{
  ℕ, ◌+◌, ◌≡◌, ◌≢◌, refl, sym, ap, ◌∙◌, true, false, Bool-cases, inl, inr, Option, none, some, List,
  ◌∷◌, ◌++◌, ok, ok_inj, >>=-eq-ok, ltb, arith,
}
use mathlib.Core.Path.{subst}
use bartok.Text.{Text}
use bartok.Host.{Host}
use bartok.Bridge.{
  Session, Object, Handler, confirming, answering, ending, sweeping, Bridge, insert, persist,
  when_listed, confirmed, start_session, confirm, Tier,
}
use bartok.Escrow.{Report}
use bartok.Bridge.Chat.{charged, chat, chat_spent, answered, is_given}
use bartok.Bridge.Settling.{
  Outcome, landed, escrow_spent, wedged, failed, end_session, end_charge, end_outcome,
  sweep_session, sweep_charge, sweep_outcome, restart, with_settling, touched, evicted, released,
}
use bartok.Bridge.Steps.{
  Step, started, looked, confirms, refused, asked, answers, no_answer, ends, ended, sweeps, swept,
  signs, restarts,
}
use bartok.Bridge.Waiting.{weigh, weigh-middle, settles, insert-cases}
use bartok.Bridge.Steps.{Steps, none_yet, and_then}
use bartok.Bridge.Marked.{
  Free, end_charge-Free, sweep_charge-Free, settles-ending-other, settles-sweeping-other,
  settles-ending, settles-sweeping,
}
use bartok.Bridge.Stranded.{Held, Stranded, Held-modify, Held-persist, Held-waiting, boot-Stranded}
use bartok.Bridge.Restart.Handlers.{
  Free-other, waiting-other, dropped, end_session-Stranded, sweep_session-Stranded,
  end_outcome-Stranded, sweep_outcome-Stranded, chat-Stranded, answered-Stranded, confirm-Stranded,
  Held-insert, start_session-Stranded,
}

module _ (h : Host) (program : Text) (accounts_json : Option Text) where
  Step-Stranded :
      (id : ℕ) {b b' : Bridge} → Step h program accounts_json b b' → Stranded id b → Stranded id b'
  Step-Stranded id
        (started {b} users j buyer tier_name balance now budget tier env e fresh held args file
          built)
        s =
      start_session-Stranded id b j buyer tier _ budget now s fresh
  Step-Stranded id (looked {b} j found) s =
      Held-waiting id b.objects b.saved b.waiting (confirming j ∷ b.waiting) s
        (omega (arith, s.idle))
  Step-Stranded id (confirms {b} before after j now here) s =
      confirm-Stranded id b (before ++ after) j now s
        (dropped id b before after (confirming j) s here)
  Step-Stranded id (refused {b} before after j here) s =
      Held-waiting id b.objects b.saved b.waiting (before ++ after) s
        (dropped id b before after (confirming j) s here)
  Step-Stranded id (asked {b} j prompt tier_name e) s = chat-Stranded id b j prompt tier_name s e
  Step-Stranded id (answers {b} before after j spent charge now o here found) s =
      answered-Stranded id b (before ++ after) j spent charge now o (
        Held-waiting id b.objects b.saved b.waiting (before ++ after) s
          (dropped id b before after (answering j spent) s here))
  Step-Stranded id (no_answer {b} before after j spent here) s =
      Held-waiting id b.objects b.saved b.waiting (before ++ after) s
        (dropped id b before after (answering j spent) s here)
  Step-Stranded id (ends {b} j now e) s = end_session-Stranded id b j now s e
  Step-Stranded id (ended {b} before after j charge attempt q here) s =
      end_outcome-Stranded id b (before ++ after) j charge attempt q
        (Held-waiting id b.objects b.saved b.waiting (before ++ after) s
          (dropped id b before after (ending j charge attempt) s here))
        (waiting-other id b before after (ending j charge attempt) j s here
          (settles-ending j charge attempt))
  Step-Stranded id (sweeps {b} j now e) s = sweep_session-Stranded id b j now s e
  Step-Stranded id (swept {b} before after j charge q here) s =
      sweep_outcome-Stranded id b (before ++ after) j charge q
        (Held-waiting id b.objects b.saved b.waiting (before ++ after) s
          (dropped id b before after (sweeping j charge) s here))
        (waiting-other id b before after (sweeping j charge) j s here (settles-sweeping j charge))
  Step-Stranded id (signs {b} users) s = s
  Step-Stranded id (restarts {b}) s = boot-Stranded id b s.copy s.in_snapshot s.copied s.unpaid

  Steps-Stranded :
      (id : ℕ) {b b' : Bridge} → Steps h program accounts_json b b' → Stranded id b → Stranded id b'
  Steps-Stranded id none_yet s = s
  Steps-Stranded id (and_then steps step) s = Step-Stranded id step (Steps-Stranded id steps s)

  -- Where the snapshot is written while a settlement of a listed session is under way, and the server
  -- then restarts, that session is never settled: in every later state, further restarts included,
  -- it is listed, unsettled and marked as settling, and no handler settles it.
  pub restart-stranded :
      (b : Bridge) (id : ℕ) (o : Object) {b' : Bridge}
      → b.objects id ≡ some o
      → o.listed ≡ true
      → o.session.settling ≡ true
      → o.session.settled ≡ false
      → Steps h program accounts_json (restart (persist b)) b'
      → (o' : Object) × (b'.objects id ≡ some o')
        × (o'.listed ≡ true)
        × (o'.session.settling ≡ true)
        × (o'.session.settled ≡ false)
        × (weigh (settles id) b'.waiting ≡ 0)
  restart-stranded b id o here listed settling unsettled steps =
      let saved = ap when_listed here ∙ rw listed refl in
      let s =
        Steps-Stranded id steps (boot-Stranded id (persist b) o.session saved settling unsettled) in
      (s.object, s.here, s.listed, s.settling, s.unsettled, s.idle)
