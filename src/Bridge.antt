-- ===== src/Bridge.antt =====
-- The sessions of ux-prototype/server.js, the web server that calls the programs: what the session
-- handlers and the sweeper do between two of their `await`s, the state that they share, and the
-- snapshot on disk. A session is known by its UUID, here a number; amounts are whole base units. A
-- session object outlives its entry in the map `sessions` while a handler holds it. Chat and settlement stand in modules of their own.
pub mod Chat
pub mod Waiting
pub mod Settling
pub mod Steps
pub mod Budget
pub mod Within
pub mod Honoured
pub mod Once
pub mod Marked
pub mod Settlements
pub mod Stranded
pub mod Restart
pub mod Overtaken
use bartok.Base.{
  ℕ, ◌+◌, ◌≡◌, Bool, true, false, not, ◌&&◌, ◌||◌, Option, none, some, List, [], ◌∷◌, ◌++◌, Result,
  ok, ◌>>◌, ◌>>=◌, ensure, context, ltb, leb, if◌then◌else◌,
}
use mathlib.Core.Logic.{ite}
use native.Mathlib.Decide.{ℕ_discrete}
use bartok.Text.{Text, codes, text_eq}
use bartok.Escrow.{Report}

-- `TIERS` and `CONFIG`, what the session handlers take from them.
pub data Tier : Type 0 where
  basic genius : Tier

-- `TIERS[tier]`. The names that every JavaScript object inherits pass the server's test too, but the
-- request then fails further on; they are left out.
unfoldable pub tier_of : Text → Option Tier
tier_of t =
    if text_eq t (codes "basic")
    then some basic
    else if text_eq t (codes "genius")
    then some genius
    else none

abbrev pub requires_account : Tier → Bool
requires_account basic = false
requires_account genius = true

abbrev pub hold_bartok : Tier → ℕ
hold_bartok basic = 50000
hold_bartok genius = 200000

abbrev pub min_hold_bartok : Tier → ℕ
min_hold_bartok basic = 2500
min_hold_bartok genius = 10000

abbrev pub anon_spend_cap_bartok : ℕ
anon_spend_cap_bartok = 5000000

-- `SWEEP_IDLE_MS`
abbrev pub sweep_idle_ms : ℕ
sweep_idle_ms = 7200000

-- A wallet in `users`: whether it has a password, and what it spent.
pub record User : Type 0 where
  pub hash : Bool
  pub spent : ℕ

-- A value of `sessions`.
pub record Session : Type 0 where
  pub buyer_id : Text
  pub tier : Tier
  pub params : Report
  pub budget : ℕ
  pub escrow_note_b64 : Option Text
  pub charges : List ℕ
  pub settled : Bool
  pub settling : Bool
  pub last_activity : ℕ

-- A session object, and whether `sessions` still lists it.
pub record Object : Type 0 where
  pub session : Session
  pub listed : Bool

-- A handler that awaits a program: of `/api/session/escrow`, `/api/chat` with what was spent before,
-- `/api/session/end` with the charge and the attempt, and the sweeper with the charge.
pub data Handler : Type 0 where
  confirming : ℕ → Handler
  answering : ℕ → ℕ → Handler
  ending : ℕ → ℕ → ℕ → Handler
  sweeping : ℕ → ℕ → Handler

-- The server: its memory, the snapshot, and the settlements that it has logged.
pub record Bridge : Type 0 where
  pub objects : ℕ → Option Object
  pub users : Text → User
  pub busy : Bool
  pub waiting : List Handler
  pub saved : ℕ → Option Session
  pub settlements : List (ℕ × ℕ)

abbrev pub total : List ℕ → ℕ
total [] = 0
total (c ∷ cs) = c + total cs

abbrev pub when_listed : Option Object → Option Session
when_listed none = none
when_listed (some o) = if o.listed then some o.session else none

-- `sessions.get`
abbrev pub get : Bridge → ℕ → Option Session
get b i = when_listed (b.objects i)

-- `persistSessions`: the listed sessions.
abbrev pub persist : Bridge → Bridge
persist b = record b { saved = λ i. get b i }

abbrev pub on : (Object → Object) → Option Object → Option Object
on f none = none
on f (some o) = some (f o)

abbrev pub modify : ℕ → (Object → Object) → (ℕ → Option Object) → ℕ → Option Object
modify i f objects j = ite (ℕ_discrete i j) (on f (objects j)) (objects j)

abbrev pub insert : ℕ → Object → (ℕ → Option Object) → ℕ → Option Object
insert i o objects j = ite (ℕ_discrete i j) (some o) (objects j)

abbrev pub has_text : Text → Bool
has_text [] = false
has_text (c ∷ t) = true

-- `Math.min(CONFIG.holdBartok[tier], bal)`
abbrev pub hold_of : Tier → ℕ → ℕ
hold_of tier balance = if leb (hold_bartok tier) balance then hold_bartok tier else balance

-- `/api/session/start`, up to the run of build_escrow: the hold.
unfoldable pub start_hold : (Text → User) → Text → Text → ℕ → Result (Tier × ℕ)
start_hold users buyer tier_name balance = do
  ensure (has_text buyer) "missing buyerId"
  tier ← context (tier_of tier_name) "unknown tier"
  ensure (not (requires_account tier && not (users buyer).hash)) "account_required"
  ensure (leb (min_hold_bartok tier) balance) "insufficient_credits"
  ok (tier, hold_of tier balance)

-- `/api/session/start`, behind it: a new session.
unfoldable pub start_session : Bridge → ℕ → Text → Tier → Report → ℕ → ℕ → Bridge
start_session b id buyer tier params budget now =
    let o : Object = record {
      session = record {
        buyer_id = buyer;
        tier = tier;
        params = params;
        budget = budget;
        escrow_note_b64 = none;
        charges = [];
        settled = false;
        settling = false;
        last_activity = now;
      };
      listed = true;
    } in
    persist (record b { objects = insert id o b.objects })

-- `/api/session/escrow`, behind a run of verify_escrow that saw the note.
abbrev pub confirmed : ℕ → Object → Object
confirmed now o = record o {
  session = record (o.session) {
    escrow_note_b64 = some o.session.params.note_b64;
    last_activity = now;
  };
}

unfoldable pub confirm : Bridge → List Handler → ℕ → ℕ → Bridge
confirm b rest id now =
    persist (record b { objects = modify id (confirmed now) b.objects; waiting = rest })

abbrev pub is_armed : Option Text → Bool
is_armed none = false
is_armed (some t) = true
