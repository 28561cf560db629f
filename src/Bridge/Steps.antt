-- ===== src/Bridge/Steps.antt =====
-- The steps of ux-prototype/server.js: one for each stretch of a handler between two `await`s, in any
-- order, and a restart at any time.
use bartok.Base.{false, ℕ, ◌≡◌, Option, none, some, List, [], ◌∷◌, ◌++◌, ok}
use bartok.Text.{Text, codes}
use bartok.Text.Decimal.{to_string}
use bartok.Miden.{Word}
use bartok.Host.{Host}
use bartok.Escrow.{Inputs, EscrowBuilt, build_escrow, report}
use bartok.Bridge.{
  Session, Object, Handler, confirming, answering, ending, sweeping, Bridge, Tier, User, get,
  start_hold, start_session, confirm,
}
use bartok.Bridge.Chat.{chat, answered}
use bartok.Bridge.Settling.{
  Outcome, end_session, end_outcome, sweep_session, sweep_outcome, restart,
}

-- The server's call of build_escrow.
unfoldable pub escrow_args : Text → Text → ℕ → List Text
escrow_args program buyer budget =
    program ∷ codes "--buyer" ∷ buyer ∷ codes "--budget" ∷ to_string budget ∷ []

module _ (h : Host) (program : Text) (accounts_json : Option Text) where
  open h use {miden, Felt, Bytes}

  -- `confirms` is for a verify_escrow.rs that saw the note committed and `refused` for one that did not,
  -- `no_answer` for a prompt that fails. The guards of `started` were tested before build_escrow ran,
  -- against the wallets `users` of that time.
  pub data Step : Bridge → Bridge → Type 0 where
    started :
        {b : Bridge} (users : Text → User) (id : ℕ) (buyer tier_name : Text)
        (balance now budget : ℕ) (tier : Tier) (env : Inputs Bytes (Word Felt)) (e : EscrowBuilt h)
        → b.objects id ≡ none
        → start_hold users buyer tier_name balance ≡ ok (tier, budget)
        → env.args ≡ escrow_args program buyer budget
        → env.accounts_json ≡ accounts_json
        → build_escrow h env ≡ ok e
        → Step b (start_session b id buyer tier (report h e) budget now)
    looked :
        {b : Bridge} {s : Session} (id : ℕ)
        → get b id ≡ some s
        → Step b (record b { waiting = confirming id ∷ b.waiting })
    confirms :
        {b : Bridge} (before after : List Handler) (id now : ℕ)
        → b.waiting ≡ before ++ confirming id ∷ after
        → Step b (confirm b (before ++ after) id now)
    refused :
        {b : Bridge} (before after : List Handler) (id : ℕ)
        → b.waiting ≡ before ++ confirming id ∷ after
        → Step b (record b { waiting = before ++ after })
    asked :
        {b b' : Bridge} (id : ℕ) (prompt tier_name : Text)
        → chat b id prompt tier_name ≡ ok b'
        → Step b b'
    answers :
        {b : Bridge} (before after : List Handler) (id spent charge now : ℕ) (o : Object)
        → b.waiting ≡ before ++ answering id spent ∷ after
        → b.objects id ≡ some o
        → Step b (answered b (before ++ after) id spent charge now o)
    no_answer :
        {b : Bridge} (before after : List Handler) (id spent : ℕ)
        → b.waiting ≡ before ++ answering id spent ∷ after
        → Step b (record b { busy = false; waiting = before ++ after })
    ends : {b b' : Bridge} (id now : ℕ) → end_session b id now ≡ ok b' → Step b b'
    ended :
        {b : Bridge} (before after : List Handler) (id charge attempt : ℕ) (q : Outcome)
        → b.waiting ≡ before ++ ending id charge attempt ∷ after
        → Step b (end_outcome b (before ++ after) id charge attempt q)
    sweeps : {b b' : Bridge} (id now : ℕ) → sweep_session b id now ≡ ok b' → Step b b'
    swept :
        {b : Bridge} (before after : List Handler) (id charge : ℕ) (q : Outcome)
        → b.waiting ≡ before ++ sweeping id charge ∷ after
        → Step b (sweep_outcome b (before ++ after) id charge q)
    -- Any change of the wallets by the other handlers.
    signs : {b : Bridge} (users : Text → User) → Step b (record b { users = users })
    restarts : {b : Bridge} → Step b (restart b)

  -- A server with no snapshot, and what it becomes.
  pub data Reach (users : Text → User) : Bridge → Type 0 where
    boot : Reach users (record {
      objects = λ i. none;
      users = users;
      busy = false;
      waiting = [];
      saved = λ i. none;
      settlements = [];
    })
    later : {b b' : Bridge} → Reach users b → Step b b' → Reach users b'

  -- What a state becomes.
  pub data Steps (b : Bridge) : Bridge → Type 0 where
    none_yet : Steps b b
    and_then : {b' b'' : Bridge} → Steps b b' → Step b' b'' → Steps b b''
