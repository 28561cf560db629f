-- ===== src/Sweep/Consume.antt =====
-- joao_sweep.rs as a whole: the manual consume of one note, or the drain. The client of the seller's
-- multisig is a parameter over the world of the Miden client; its `guardian_role_client` is that of
-- `Role` there.
use bartok.Base.{ℕ, ◌≡◌, sym, ap, ◌∙◌, Bool, Option, none, some, List, ok}
use bartok.Base.Action.{
  Action, ◌>>=◌, ◌>>◌, pure, lift, with_context, continue-eq-ok, context-continue, result-continue,
  end_of,
}
use bartok.Text.{Text, codes}
use bartok.Miden.{Note}
use bartok.Host.{Host}
use bartok.Verify.Poll.{Chain, SeenWithin, wait_note_committed, wait_note_committed-SeenWithin}
use bartok.Sweep.{NoteFiles, read_seller, note_file_flag, handed_over}
use bartok.Sweep.Drain.{drain}

pub record SweepSdk (h : Host) (c : Chain h) : Type 1 where
  pub Client : Type 0
  pub Proposal : Type 0
  pub guardian_role_client : Text → Text → Option h.AccountId → Action c.World Client
  pub sync : Client → Action c.World (Unit {0})
  -- `TransactionType::ConsumeNotes` of one note, with the metadata version.
  pub propose_consume : Client → Note h.miden → ℕ → Action c.World Proposal
  pub execute_proposal : Client → Proposal → Action c.World (Unit {0})
  pub list_proposals : Client → Action c.World (List Proposal)

-- How the program ends.
pub data Swept (Proposal : Type 0) : Type 0 where
  consumed : Proposal → Swept Proposal
  drained : List (Proposal × Bool) → Swept Proposal

module _ (h : Host) (nf : NoteFiles h) (c : Chain h) (g : SweepSdk h c) where
  open h use {miden, AccountId}
  open c use {World}
  open g use {
    Client, Proposal, guardian_role_client, sync, propose_consume, execute_proposal, list_proposals,
  }

  -- The manual consume: wait for the note, propose, execute.
  unfoldable pub consume : Client → AccountId → List Text → ℕ → Action World (Swept Proposal)
  consume joao operator args i = do
    (note, tag) ← lift (handed_over h nf operator args i)
    wait_note_committed h c note tag
    p ← with_context (propose_consume joao note 2) "propose"
    with_context (execute_proposal joao p) "execute"
    pure (consumed p)

  abbrev pub sweep : Client → AccountId → List Text → Option ℕ → Action World (Swept Proposal)
  sweep joao operator args (some i) = consume joao operator args i
  sweep joao operator args none = do
    done ← drain (with_context (list_proposals joao) "list") (execute_proposal joao)
    pure (drained done)

  -- `main`; a failed sync is ignored.
  unfoldable pub joao_sweep : List Text → Option Text → Action World (Swept Proposal)
  joao_sweep args accounts_json = do
    s ← lift (read_seller h accounts_json)
    joao ← guardian_role_client (codes "joao") s.grpc (some s.seller)
    λ w. sweep joao s.operator args (note_file_flag h args) (sync joao w).1

  -- A manual consume that succeeds was of the note that was handed over. The client was set up and the
  -- note imported; within sixty rounds the synced client reported a record of this note that was
  -- committed; in the very world which that report left, the consumption of this note was proposed,
  -- with metadata version 2; and this proposal was executed last.
  pub consume-SeenWithin :
      (joao : Client) (operator : AccountId) (args : List Text) (i : ℕ) (w w' : World)
      (r : Swept Proposal)
      → consume joao operator args i w ≡ (ok r, w')
      → (note : Note miden) × (tag : h.Tag) × (p : Proposal) × (client : c.Client) × (connected
          imported seen_in proposed : World)
        × (handed_over h nf operator args i ≡ ok (note, tag))
        × (c.setup_client w ≡ (ok client, connected))
        × (c.import_note client note.assets note.recipient 0 (some tag) connected
            ≡ (ok tt, imported))
        × SeenWithin h c 5 60 client note imported seen_in
        × (propose_consume joao note 2 seen_in ≡ (ok p, proposed))
        × (execute_proposal joao p proposed ≡ (ok tt, w'))
        × (r ≡ consumed p)
  unfolding consume
  consume-SeenWithin joao operator args i w w' r e =
      let ((note, tag), read, e1) = result-continue (handed_over h nf operator args i) w _ e in
      let (_, w2, waited, e2) = continue-eq-ok (wait_note_committed h c note tag w) _ e1 in
      let (p, w3, proposes, e3) = context-continue _ (propose_consume joao note 2 w2) _ e2 in
      let (_, w4, executes, e4) = context-continue _ (execute_proposal joao p w3) _ e3 in
      let (same, last) = end_of e4 in
      let (client, connected, imported, connects, imports, seen) =
        wait_note_committed-SeenWithin h c note tag w w2 waited in
      (
        note,
        tag,
        p,
        client,
        connected,
        imported,
        w2,
        w3,
        read,
        connects,
        imports,
        seen,
        proposes,
        executes ∙ ap (λ x. (ok tt, x)) last,
        sym same,
      )
