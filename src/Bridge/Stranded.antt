-- ===== src/Bridge/Stranded.antt =====
-- What the snapshot of ux-prototype/server.js does to a session whose settlement is under way: its flag
-- `settling` is written, and read back at the boot.
use bartok.Base.{ℕ, ◌≡◌, refl, ap, ◌∙◌, true, false, inl, inr, Option, some, List}
use bartok.Bridge.{Session, Object, Handler, Bridge, modify, on, when_listed}
use bartok.Bridge.Settling.{restart, restored}
use bartok.Bridge.Waiting.{weigh, settles}
use bartok.Bridge.Waiting.{modify-cases}

-- A listed session that is marked as settling, with no handler that would settle it; the snapshot
-- has it so too.
pub record Held (id : ℕ) (objects : ℕ → Option Object) (saved : ℕ → Option Session)
    (waiting : List Handler) : Type 0 where
  pub object : Object
  pub here : objects id ≡ some object
  pub listed : object.listed ≡ true
  pub settling : object.session.settling ≡ true
  pub unsettled : object.session.settled ≡ false
  pub idle : weigh (settles id) waiting ≡ 0
  pub copy : Session
  pub in_snapshot : saved id ≡ some copy
  pub copied : copy.settling ≡ true
  pub unpaid : copy.settled ≡ false

abbrev pub Stranded : ℕ → Bridge → Type 0
Stranded id b = Held id b.objects b.saved b.waiting

pub Held-modify :
    (id : ℕ) (objects : ℕ → Option Object) (saved : ℕ → Option Session) (hs : List Handler) (j : ℕ)
    (g : Object → Object)
    → Held id objects saved hs
    → ((o : Object)
        → j ≡ id
        → ((g o).listed ≡ o.listed)
          × ((g o).session.settling ≡ o.session.settling)
          × ((g o).session.settled ≡ o.session.settled))
    → Held id (modify j g objects) saved hs
Held-modify id objects saved hs j g s calm = elim (modify-cases j g objects id) [
  | inr (_, e) ↦ record {
    object = s.object;
    here = e ∙ s.here;
    listed = s.listed;
    settling = s.settling;
    unsettled = s.unsettled;
    idle = s.idle;
    copy = s.copy;
    in_snapshot = s.in_snapshot;
    copied = s.copied;
    unpaid = s.unpaid;
  }
  | inl (same, e) ↦
      let (listed, settling, settled) = calm s.object same in
      record {
        object = g s.object;
        here = e ∙ ap (on g) s.here;
        listed = listed ∙ s.listed;
        settling = settling ∙ s.settling;
        unsettled = settled ∙ s.unsettled;
        idle = s.idle;
        copy = s.copy;
        in_snapshot = s.in_snapshot;
        copied = s.copied;
        unpaid = s.unpaid;
      }
]

pub Held-persist :
    (id : ℕ) (objects : ℕ → Option Object) (saved : ℕ → Option Session) (hs : List Handler)
    → Held id objects saved hs
    → Held id objects (λ i. when_listed (objects i)) hs
Held-persist id objects saved hs s = record {
  object = s.object;
  here = s.here;
  listed = s.listed;
  settling = s.settling;
  unsettled = s.unsettled;
  idle = s.idle;
  copy = s.object.session;
  in_snapshot = ap when_listed s.here ∙ rw (s.listed) refl;
  copied = s.settling;
  unpaid = s.unsettled;
}

pub Held-waiting :
    (id : ℕ) (objects : ℕ → Option Object) (saved : ℕ → Option Session) (hs hs' : List Handler)
    → Held id objects saved hs
    → weigh (settles id) hs' ≡ 0
    → Held id objects saved hs'
Held-waiting id objects saved hs hs' s none_of = record {
  object = s.object;
  here = s.here;
  listed = s.listed;
  settling = s.settling;
  unsettled = s.unsettled;
  idle = none_of;
  copy = s.copy;
  in_snapshot = s.in_snapshot;
  copied = s.copied;
  unpaid = s.unpaid;
}

-- The boot reads the flag back.
pub boot-Stranded :
    (id : ℕ) (b : Bridge) (copy : Session)
    → b.saved id ≡ some copy
    → copy.settling ≡ true
    → copy.settled ≡ false
    → Stranded id (restart b)
unfolding restart
boot-Stranded id b copy saved settling unsettled = record {
  object = record { session = copy; listed = true };
  here = ap restored saved ∙ simp unsettled refl;
  listed = refl;
  settling = settling;
  unsettled = unsettled;
  idle = refl;
  copy = copy;
  in_snapshot = saved;
  copied = settling;
  unpaid = unsettled;
}
