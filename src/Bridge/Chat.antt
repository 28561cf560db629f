-- ===== src/Bridge/Chat.antt =====
-- Paid chat in ux-prototype/server.js: `/api/chat` before and behind the answer.
use bartok.Base.{
  ℕ, ◌+◌, Bool, true, false, not, ◌&&◌, Option, some, List, [], ◌∷◌, ◌++◌, Result, ok, ◌>>◌, ◌>>=◌,
  ensure, context, leb, if◌then◌else◌,
}
use bartok.Text.{Text, text_eq}
use bartok.Bridge.{
  Tier, tier_of, requires_account, anon_spend_cap_bartok, User, Session, Object, Handler, answering,
  Bridge, total, get, persist, modify, has_text, is_armed,
}

-- `tier || s.tier`
abbrev pub msg_tier : Text → Session → Option Tier
msg_tier [] s = some s.tier
msg_tier (c ∷ t) s = tier_of (c ∷ t)

-- `/api/chat`, its guards, and what was spent so far.
unfoldable pub chat_spent : Bridge → ℕ → Text → Text → Result ℕ
chat_spent b id prompt tier_name = do
  s ← context (get b id) "unknown session"
  ensure (is_armed s.escrow_note_b64) "session has no escrow yet"
  ensure (not s.settled) "session already settled"
  ensure (has_text prompt) "missing prompt"
  tier ← context (msg_tier tier_name s) "unknown tier"
  let u = b.users s.buyer_id
  ensure (not (requires_account tier && not u.hash)) "account_required"
  ensure (not (not u.hash && leb anon_spend_cap_bartok u.spent)) "anon_cap"
  ensure (not b.busy) "BUSY"
  ok (total s.charges)

unfoldable pub chat : Bridge → ℕ → Text → Text → Result Bridge
chat b id prompt tier_name = do
  spent ← chat_spent b id prompt tier_name
  ok (record b { busy = true; waiting = answering id spent ∷ b.waiting })

-- `recordSpend`
abbrev pub record_spend : Text → ℕ → (Text → User) → Text → User
record_spend buyer amount users w =
    if text_eq w buyer then record (users w) { spent = (users w).spent + amount } else users w

-- `/api/chat`, behind the answer: whether it is given, and then charged.
unfoldable pub is_given : ℕ → ℕ → Session → Bool
is_given spent charge s = leb (spent + charge) s.budget && not s.settled

abbrev pub charged : ℕ → ℕ → Object → Object
charged charge now o = record o {
  session = record (o.session) { charges = o.session.charges ++ charge ∷ []; last_activity = now };
}

unfoldable pub answered : Bridge → List Handler → ℕ → ℕ → ℕ → ℕ → Object → Bridge
answered b rest id spent charge now o =
    if is_given spent charge o.session
    then persist (record b {
      objects = modify id (charged charge now) b.objects;
      users = record_spend o.session.buyer_id charge b.users;
      busy = false;
      waiting = rest;
    })
    else record b { busy = false; waiting = rest }
