-- ===== src/Verify/Poll.antt =====
-- The polling of verify_escrow.rs, and the same loop in `wait_note_committed` of joao_sweep.rs. The
-- Miden client and the network behind it are a parameter: a world that each call, and each pause,
-- may change.
use bartok.Base.{
  ℕ, zero, suc, ◌<◌, ◌≡◌, ◌↔◌, refl, ap, ◌∙◌, Bool, true, false, Bool-cases, inl, inr, Option, none,
  some, List, Result, ok, err, arith,
}
use bartok.Base.Action.{continue-eq-ok, Action, ◌>>=◌, ◌>>◌, lift}
use mathlib.Core.Path.{subst}
use bartok.Text.{Text}
use bartok.Miden.{Note, NoteType, Asset}
use bartok.Host.{Host}
use bartok.Verify.{Escrowed, read_escrow}

pub record Chain (h : Host) : Type 1 where
  pub World : Type 0
  pub Client : Type 0
  pub InputNote : Type 0
  pub setup_client : Action World Client
  pub sync_state : Client → Action World (Unit {0})
  -- `import_notes` of one `NoteFile::NoteDetails`.
  pub import_note :
      Client
      → List (Asset h.Fungible h.Other)
      → h.Recipient
      → ℕ
      → Option h.Tag
      → Action World (Unit {0})
  -- `get_input_note(note.id())`
  pub get_input_note : Client → Note h.miden → Action World (Option InputNote)
  pub is_committed : InputNote → Bool
  pub sleep : ℕ → World → World
  pub TxId : Type 0
  -- `build_mint_fungible_asset`, which draws a serial from the client's generator.
  pub build_mint : Client → h.Fungible → h.AccountId → NoteType → Action World h.Request
  pub submit_new_transaction : Client → h.AccountId → h.Request → Action World TxId

-- The JSON object of the last line.
pub record Verdict : Type 0 where
  pub committed : Bool
  pub budget : ℕ

module _ (h : Host) (c : Chain h) where
  open h use {miden}
  open c use {
    World, Client, InputNote, setup_client, sync_state, import_note, get_input_note, is_committed,
    sleep,
  }

  -- `if let Ok(Some(r)) = .. { if r.is_committed() .. }`
  abbrev pub seen : Result (Option InputNote) → Bool
  seen (ok (some r)) = is_committed r
  seen _ = false

  -- The look of one round: the answer, and the world that it leaves. A failed sync is ignored.
  abbrev pub look : Client → Note miden → World → Bool × World
  look client note w =
      let asked = get_input_note client note (sync_state client w).1 in (seen asked.0, asked.1)

  abbrev pub found_or : Bool × World → Bool × World → Bool × World
  found_or (true, w) rest = (true, w)
  found_or (false, w) rest = rest

  -- `for _ in 0..tries`
  unfoldable pub poll : ℕ → ℕ → Client → Note miden → World → Bool × World
  poll seconds zero client note w = (false, w)
  poll seconds (suc tries) client note w =
      found_or (look client note w)
        (poll seconds tries client note (sleep seconds (look client note w).1))

  -- The world at the start of round `i`: each round before it syncs, asks for the note and pauses.
  abbrev world_at : ℕ → ℕ → Client → Note miden → World → World
  world_at seconds zero client note w = w
  world_at seconds (suc i) client note w =
      world_at seconds i client note
        (sleep seconds (get_input_note client note (sync_state client w).1).1)

  -- In round `i` the client, synced, reports the note as committed, and leaves the world `w'`.
  abbrev SeenAt : ℕ → ℕ → Client → Note miden → World → World → Type 0
  SeenAt seconds i client note w w' =
      (r : InputNote) × (get_input_note client note
          (sync_state client (world_at seconds i client note w)).1
        ≡ (ok (some r), w'))
      × (is_committed r ≡ true)

  abbrev pub SeenWithin : ℕ → ℕ → Client → Note miden → World → World → Type 0
  SeenWithin seconds tries client note w w' =
      (i : ℕ) × (i < tries) × SeenAt seconds i client note w w'

  found_here : (x y : Bool × World) → x.0 ≡ true → found_or x y ≡ (true, x.1)
  found_here (true, w) y e = refl
  found_here (false, w) y e = cc

  found_later : (x y : Bool × World) → x.0 ≡ false → found_or x y ≡ y
  found_later (true, w) y e = cc
  found_later (false, w) y e = refl

  seen_record :
      (asked : Result (Option InputNote) × World)
      → seen asked.0 ≡ true
      → (r : InputNote) × (asked ≡ (ok (some r), asked.1)) × (is_committed r ≡ true)
  seen_record (ok (some r), w) e = (r, refl, e)
  seen_record (ok none, w) e = cc
  seen_record (err x, w) e = cc

  -- A look that finds the note committed, and the world it leaves.
  look-SeenAt :
      (seconds : ℕ) (client : Client) (note : Note miden) (w : World)
      → (look client note w).0 ≡ true
      → SeenAt seconds 0 client note w (look client note w).1
  look-SeenAt seconds client note w e =
      seen_record (get_input_note client note (sync_state client w).1) e

  poll-SeenWithin :
      (seconds tries : ℕ) (client : Client) (note : Note miden) (w : World)
      → (poll seconds tries client note w).0 ≡ true
      → SeenWithin seconds tries client note w (poll seconds tries client note w).1
  unfolding poll
  poll-SeenWithin seconds zero client note w e = cc
  poll-SeenWithin seconds (suc tries) client note w e = elim (Bool-cases (look client note w).0) [
    | inl here ↦
        let rest = poll seconds tries client note (sleep seconds (look client note w).1) in
        rw (found_here (look client note w) rest here)
          (0, omega arith, look-SeenAt seconds client note w here)
    | inr nothing ↦
        let w1 = sleep seconds (look client note w).1 in
        let later = found_later (look client note w) (poll seconds tries client note w1) nothing in
        let (i, before, there) = poll-SeenWithin seconds tries client note w1 (rw later at e) in
        rw later (suc i, omega arith, there)
  ]

  SeenWithin-poll :
      (seconds tries : ℕ) (client : Client) (note : Note miden) (w : World) {w' : World}
      → SeenWithin seconds tries client note w w'
      → (poll seconds tries client note w).0 ≡ true
  unfolding poll
  SeenWithin-poll seconds zero client note w (i, before, there) = absurd (omega arith)
  SeenWithin-poll seconds (suc tries) client note w (zero, before, (r, asked, committed)) =
      let here : (look client note w).0 ≡ true = ap (λ q. seen q.0) asked ∙ committed in
      ap (λ q. q.0) (found_here (look client note w) _ here)
  SeenWithin-poll seconds (suc tries) client note w (suc i, before, there) =
      elim (Bool-cases (look client note w).0) [
        | inl here ↦ ap (λ q. q.0) (found_here (look client note w) _ here)
        | inr nothing ↦
            let w1 = sleep seconds (look client note w).1 in
            rw (found_later (look client note w) (poll seconds tries client note w1) nothing)
              (SeenWithin-poll seconds tries client note w1 (i, omega arith, there))
      ]

  abbrev pub polled : ℕ → Bool × World → Result Verdict × World
  polled budget (b, w) = (ok (record { committed = b; budget = budget }), w)

  -- `main` of verify_escrow.rs
  unfoldable pub verify_escrow : List Text → Option Text → Action World Verdict
  verify_escrow args accounts_json = do
    e ← lift (read_escrow h args accounts_json)
    client ← setup_client
    import_note client e.note.assets e.note.recipient 0 (some e.note.metadata.tag)
    λ w. polled e.budget (poll 3 e.tries client e.note w)

  abbrev pub waited : Bool × World → Result (Unit {0}) × World
  waited (true, w) = (ok tt, w)
  waited (false, w) = (err "note never committed on-chain", w)

  -- `wait_note_committed`, of the note that its details and tag belong to.
  unfoldable pub wait_note_committed : Note miden → h.Tag → Action World (Unit {0})
  wait_note_committed note tag = do
    client ← setup_client
    import_note client note.assets note.recipient 0 (some tag)
    λ w. waited (poll 5 60 client note w)

  waited_ok : (q : Bool × World) {w' : World} → waited q ≡ (ok tt, w') → (q.0 ≡ true) × (q.1 ≡ w')
  waited_ok (true, w) e = (refl, ap (λ q. q.1) e)
  waited_ok (false, w) e = cc

  -- Waiting that ends well imported the note and then saw it committed, in the world that it leaves.
  pub wait_note_committed-SeenWithin :
      (note : Note miden) (tag : h.Tag) (w w' : World)
      → wait_note_committed note tag w ≡ (ok tt, w')
      → (client : Client) × (connected imported : World) × (setup_client w ≡ (ok client, connected))
        × (import_note client note.assets note.recipient 0 (some tag) connected ≡ (ok tt, imported))
        × SeenWithin 5 60 client note imported w'
  unfolding wait_note_committed
  wait_note_committed-SeenWithin note tag w w' e =
      let (client, w1, connects, e1) = continue-eq-ok (setup_client w) _ e in
      let (_, w2, imports, e2) =
        continue-eq-ok (import_note client note.assets note.recipient 0 (some tag) w1) _ e1 in
      let (found, last) = waited_ok (poll 5 60 client note w2) e2 in
      (
        client,
        w1,
        w2,
        connects,
        imports,
        subst (SeenWithin 5 60 client note w2) last (poll-SeenWithin 5 60 client note w2 found),
      )

  -- Once the note is read and its import succeeds, `verify_escrow` always answers, with the note's
  -- budget; and it says `committed` exactly when in one of its first `tries` rounds the synced client
  -- reports a record of the note that is committed.
  pub verify_escrow-committed :
      (args : List Text) (accounts_json : Option Text) (e : Escrowed (Note miden)) (client : Client)
      (w w1 w2 : World)
      → read_escrow h args accounts_json ≡ ok e
      → setup_client w ≡ (ok client, w1)
      → import_note client e.note.assets e.note.recipient 0 (some e.note.metadata.tag) w1
        ≡ (ok tt, w2)
      → (v : Verdict) × (w' : World) × (verify_escrow args accounts_json w ≡ (ok v, w'))
        × (v.budget ≡ e.budget)
        × ((v.committed ≡ true)
            ↔ ((seen_in : World) × SeenWithin 3 e.tries client e.note w2 seen_in))
  unfolding verify_escrow
  verify_escrow-committed args accounts_json e client w w1 w2 read connects imports = (
    record { committed = (poll 3 e.tries client e.note w2).0; budget = e.budget },
    (poll 3 e.tries client e.note w2).1,
    rw (read, connects, imports),
    refl,
    (
      λ found.
          ((poll 3 e.tries client e.note w2).1, poll-SeenWithin 3 e.tries client e.note w2 found),
      λ q. SeenWithin-poll 3 e.tries client e.note w2 q.1,
    ),
  )
