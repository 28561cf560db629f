-- ===== src/Bridge/Settling.antt =====
-- Settlement in ux-prototype/server.js: `/api/session/end` and the sweeper before and behind each run
-- of settle_session, the call itself, and the boot.
use bartok.Base.{
  ℕ, ◌+◌, Bool, true, false, not, ◌||◌, Option, none, some, List, [], ◌∷◌, Result, ok, ◌>>◌, ◌>>=◌,
  ensure, context, leb, ltb, if◌then◌else◌,
}
use bartok.Text.{Text}
use bartok.Settle.Command.{settle_args}
use bartok.Bridge.{
  Session, Object, Handler, ending, sweeping, Bridge, total, get, persist, modify, sweep_idle_ms,
  is_armed,
}

-- What a run of settle_session means to the handlers, in the order in which they test its output.
pub data Outcome : Type 0 where
  landed escrow_spent wedged failed : Outcome

-- `/api/session/end`, its guards, and the charge.
unfoldable pub end_charge : Bridge → ℕ → Result ℕ
end_charge b id = do
  s ← context (get b id) "unknown session"
  ensure (is_armed s.escrow_note_b64) "session has no escrow"
  ensure (not s.settled) "already settled"
  ensure (not s.settling) "settle_retry"
  ok (total s.charges)

-- `s.settling`
abbrev pub with_settling : Bool → Object → Object
with_settling q o = record o { session = record (o.session) { settling = q } }

abbrev pub touched : ℕ → Object → Object
touched now o = record o { session = record (o.session) { last_activity = now } }

unfoldable pub end_session : Bridge → ℕ → ℕ → Result Bridge
end_session b id now = do
  charge ← end_charge b id
  ok (record b {
    objects = modify id (λ o. touched now (with_settling true o)) b.objects;
    waiting = ending id charge 1 ∷ b.waiting;
  })

-- `s.settled = true; sessions.delete(id)`
abbrev pub evicted : Object → Object
evicted o = record { session = record (o.session) { settled = true }; listed = false }

-- `/api/session/end`, behind each run of settle_session.
unfoldable pub end_outcome : Bridge → List Handler → ℕ → ℕ → ℕ → Outcome → Bridge
end_outcome b rest id charge attempt landed = persist (record b {
  objects = modify id (λ o. with_settling false (evicted o)) b.objects;
  waiting = rest;
  settlements = (id, charge) ∷ b.settlements;
})
end_outcome b rest id charge attempt escrow_spent = persist (record b {
  objects = modify id (λ o. with_settling false (evicted o)) b.objects;
  waiting = rest;
})
end_outcome b rest id charge attempt wedged =
    if ltb attempt 6
    then record b { waiting = ending id charge (attempt + 1) ∷ rest }
    else record b { objects = modify id (with_settling false) b.objects; waiting = rest }
end_outcome b rest id charge attempt failed = record b {
  objects = modify id (with_settling false) b.objects;
  waiting = rest;
}

-- `sweepAbandonedSessions`, at one session: its guards, and the charge.
unfoldable pub sweep_charge : Bridge → ℕ → ℕ → Result ℕ
sweep_charge b id now = do
  s ← context (get b id) "not listed"
  ensure (not (s.settled || s.settling || not (is_armed s.escrow_note_b64))) "nothing to settle"
  ensure (leb (s.last_activity + sweep_idle_ms) now) "not idle"
  ok (total s.charges)

unfoldable pub sweep_session : Bridge → ℕ → ℕ → Result Bridge
sweep_session b id now = do
  charge ← sweep_charge b id now
  ok (record b {
    objects = modify id (with_settling true) b.objects;
    waiting = sweeping id charge ∷ b.waiting;
  })

-- `cur.settling = false`, for a session that is still listed.
abbrev pub released : Object → Object
released o = if o.listed then with_settling false o else o

unfoldable pub sweep_outcome : Bridge → List Handler → ℕ → ℕ → Outcome → Bridge
sweep_outcome b rest id charge landed = persist (record b {
  objects = modify id evicted b.objects;
  waiting = rest;
  settlements = (id, charge) ∷ b.settlements;
})
sweep_outcome b rest id charge escrow_spent =
    persist (record b { objects = modify id evicted b.objects; waiting = rest })
sweep_outcome b rest id charge _ = record b {
  objects = modify id released b.objects;
  waiting = rest;
}

-- The boot: what the snapshot holds unsettled.
abbrev pub restored : Option Session → Option Object
restored none = none
restored (some s) = if s.settled then none else some (record { session = s; listed = true })

unfoldable pub restart : Bridge → Bridge
restart b = record b {
  objects = λ i. restored (b.saved i);
  busy = false;
  waiting = [];
  settlements = [];
}

-- The call of settle_session for a session and a charge.
abbrev pub text_of : Option Text → Text
text_of none = []
text_of (some t) = t

abbrev pub settle_call : Text → Session → ℕ → List Text
settle_call program s charge =
    settle_args program (text_of s.escrow_note_b64) charge s.buyer_id s.params.seller_serial
      s.params.buyer_serial
