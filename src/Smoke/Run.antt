-- ===== src/Smoke/Run.antt =====
-- `main` of smoke_escrow.rs: a scratch buyer is created, funded, and locks an escrow.
use bartok.Base.{◌*◌, ◌%◌, ◌^◌, ◌≡◌, sym, ap, ◌∙◌, none, some, [], ◌∷◌, ok, context}
use bartok.Base.Action.{
  Action, ◌>>=◌, ◌>>◌, pure, lift, with_context, continue-eq-ok, context-continue, result-continue,
  option-continue, end_of,
}
use bartok.Miden.{Word, Note, NoteType}
use bartok.Host.{Host}
use bartok.Client.{AccountType, ClientSdk, setup_client, create_basic_wallet_account}
use bartok.Client.Signing.{IsSignable, create_basic_wallet_account-IsRegistered}
use bartok.Escrow.{Inputs}
use bartok.Smoke.{Session, read_session, minted_amount, smoke_note, smoke_parts}
use bartok.Smoke.Waiting.{
  SmokeSdk, wait_consumable, wait_funded, FundedWithin, wait_funded-FundedWithin,
}

-- What the program prints at the end.
pub record Locked (N Account Tx : Type 0) : Type 0 where
  pub buyer : Account
  pub escrow_note : N
  pub escrow_tx : Tx

module _ (h : Host) (c : ClientSdk h) (s : SmokeSdk h c) where
  open h use {miden, Felt, AccountId, Bytes, Fungible, Request, fungible_new, request_build}
  open c use {
    World, Client, Keystore, Account, InputNote, TxId, account_id, sync_state, build_mint,
    submit_new_transaction,
  }
  open s use {note_of, build_consume_notes}

  -- Steps 2 and 3: mint to the buyer, and consume the mint note as the buyer.
  unfoldable pub fund_scratch : Client → Session AccountId → AccountId → Action World TxId
  fund_scratch client session buyer = do
    asset ←
        lift (context (fungible_new session.faucet (minted_amount session.budget)) "fungible asset")
    mint_request ← build_mint client asset buyer NoteType.public
    submit_new_transaction client session.faucet mint_request
    minted ← wait_consumable h c s 36 client buyer
    mint_note ← lift (context (note_of minted) "mint note missing details")
    consume_request ← lift (context (build_consume_notes (mint_note ∷ [])) "consume request")
    submit_new_transaction client buyer consume_request

  -- Step 4: the escrow transaction.
  unfoldable pub lock_escrow :
      Inputs Bytes (Word Felt)
      → Client
      → Session AccountId
      → AccountId
      → Action World (Locked (Note miden) AccountId TxId)
  lock_escrow env client session buyer = do
    note ← lift (smoke_note h env session buyer)
    request ← lift (context (request_build (smoke_parts h note)) "escrow request")
    tx ← submit_new_transaction client buyer request
    pure (record { buyer = buyer; escrow_note = note; escrow_tx = tx })

  -- `main`
  unfoldable pub smoke_escrow :
      Inputs Bytes (Word Felt) → Action World (Locked (Note miden) AccountId TxId)
  smoke_escrow env = do
    session ← lift (read_session h env)
    setup ← setup_client h c
    with_context (sync_state setup.client) "initial sync failed"
    buyer ← create_basic_wallet_account h c setup.client setup.keystore AccountType.private
    fund_scratch setup.client session (account_id buyer)
    wait_funded h c s 24 setup.client (account_id buyer) session.faucet session.budget
    lock_escrow env setup.client session (account_id buyer)

  -- The buyer got the mint: twice the budget of the session's asset was minted by the faucet's account
  -- in a public note for the buyer, and a note that the client reports as consumable was consumed by the
  -- buyer's account.
  pub record IsMinted (client : Client) (session : Session AccountId) (buyer : AccountId)
      (w w' : World) : Type 0 where
    pub asset : Fungible
    pub mint_request : Request
    pub consume_request : Request
    pub mint_tx : TxId
    pub consume_tx : TxId
    pub minted : InputNote
    pub mint_note : Note miden
    pub drawn : World
    pub mint_sent : World
    pub offered : World
    pub twice_the_budget : fungible_new session.faucet (session.budget * 2 % 2 ^ 64) ≡ some asset
    pub to_buyer : build_mint client asset buyer NoteType.public w ≡ (ok mint_request, drawn)
    pub mints :
        submit_new_transaction client session.faucet mint_request drawn ≡ (ok mint_tx, mint_sent)
    pub waits : wait_consumable h c s 36 client buyer mint_sent ≡ (ok minted, offered)
    pub is_note : note_of minted ≡ some mint_note
    pub consumes : build_consume_notes (mint_note ∷ []) ≡ some consume_request
    pub consumed : submit_new_transaction client buyer consume_request offered ≡ (ok consume_tx, w')

  -- How a run of the program went that locked an escrow, from world to world.
  pub record IsLocked (env : Inputs Bytes (Word Felt)) (r : Locked (Note miden) AccountId TxId)
      (w w' : World) : Type 0 where
    pub session : Session AccountId
    pub client : Client
    pub keystore : Keystore
    pub buyer : Account
    pub request : Request
    pub connected : World
    pub synced : World
    pub created : World
    pub minted : World
    pub funded : World
    pub reads : read_session h env ≡ ok session
    pub connects :
        setup_client h c w ≡ (ok (record { client = client; keystore = keystore }), connected)
    pub syncs : sync_state client connected ≡ (ok tt, synced)
    pub creates :
        create_basic_wallet_account h c client keystore AccountType.private synced
        ≡ (ok buyer, created)
    pub signable : IsSignable h c buyer created
    pub is_minted : IsMinted client session (account_id buyer) created minted
    pub is_funded :
        FundedWithin h c s client (account_id buyer) session.faucet session.budget 24 minted funded
    pub is_buyer : r.buyer ≡ account_id buyer
    pub builds : smoke_note h env session (account_id buyer) ≡ ok r.escrow_note
    pub requests :
        request_build (record {
          own_output_notes = r.escrow_note ∷ [];
          input_notes = [];
          expected_output_recipients = [];
          auth_arg = none;
          advice = [];
        })
        ≡ some request
    pub submits :
        submit_new_transaction client (account_id buyer) request funded ≡ (ok r.escrow_tx, w')

  fund_scratch-IsMinted :
      (client : Client) (session : Session AccountId) (buyer : AccountId) (w w' : World) (tx : TxId)
      → fund_scratch client session buyer w ≡ (ok tx, w')
      → IsMinted client session buyer w w'
  unfolding fund_scratch
  fund_scratch-IsMinted client session buyer w w' tx e =
      let (asset, whole, e1) =
        option-continue (fungible_new session.faucet (minted_amount session.budget)) _ w _ e in
      let (mint_request, w1, to_buyer, e2) =
        continue-eq-ok (build_mint client asset buyer NoteType.public w) _ e1 in
      let (mint_tx, w2, mints, e3) =
        continue-eq-ok (submit_new_transaction client session.faucet mint_request w1) _ e2 in
      let (minted, w3, waits, e4) =
        continue-eq-ok (wait_consumable h c s 36 client buyer w2) _ e3 in
      let (mint_note, is_note, e5) = option-continue (note_of minted) _ w3 _ e4 in
      let (consume_request, consumes, e6) =
        option-continue (build_consume_notes (mint_note ∷ [])) _ w3 _ e5 in
      record {
        asset = asset;
        mint_request = mint_request;
        consume_request = consume_request;
        mint_tx = mint_tx;
        consume_tx = tx;
        minted = minted;
        mint_note = mint_note;
        drawn = w1;
        mint_sent = w2;
        offered = w3;
        twice_the_budget = whole;
        to_buyer = to_buyer;
        mints = mints;
        waits = waits;
        is_note = is_note;
        consumes = consumes;
        consumed = e6;
      }

  lock_escrow-submits :
      (env : Inputs Bytes (Word Felt)) (client : Client) (session : Session AccountId)
      (buyer : AccountId) (w w' : World) (r : Locked (Note miden) AccountId TxId)
      → lock_escrow env client session buyer w ≡ (ok r, w')
      → (r.buyer ≡ buyer)
        × (smoke_note h env session buyer ≡ ok r.escrow_note)
        × (request : Request) × (request_build (smoke_parts h r.escrow_note) ≡ some request)
        × (submit_new_transaction client buyer request w ≡ (ok r.escrow_tx, w'))
  unfolding lock_escrow
  lock_escrow-submits env client session buyer w w' r e =
      let (note, made, e1) = result-continue (smoke_note h env session buyer) w _ e in
      let (request, requests, e2) = option-continue (request_build (smoke_parts h note)) _ w _ e1 in
      let (tx, w1, submits, e3) =
        continue-eq-ok (submit_new_transaction client buyer request w) _ e2 in
      let (same, last) = end_of e3 in
      (
        ap (λ x. x.buyer) (sym same),
        made ∙ ap (λ x. ok x.escrow_note) same,
        request,
        ap (λ x. request_build (smoke_parts h x.escrow_note)) (sym same) ∙ requests,
        submits ∙ (λ i. (ok (same i).escrow_tx, last i)),
      )

  -- A run that succeeds created a buyer that can be signed for in the world which that left; minted
  -- twice the budget to this buyer; waited, from there on, until the client reported a vault of the
  -- buyer whose assets of the session's faucet sum to the budget or more; and in the very world of
  -- that report it submitted, for the buyer's account, the request with the escrow note as its only
  -- output note and nothing else.
  pub smoke_escrow-IsLocked :
      (env : Inputs Bytes (Word Felt)) (w w' : World) (r : Locked (Note miden) AccountId TxId)
      → smoke_escrow env w ≡ (ok r, w')
      → IsLocked env r w w'
  unfolding smoke_escrow
  smoke_escrow-IsLocked env w w' r e =
      let (session, read, e1) = result-continue (read_session h env) w _ e in
      let (setup, w1, connects, e2) = continue-eq-ok (setup_client h c w) _ e1 in
      let (_, w2, syncs, e3) = context-continue _ (sync_state setup.client w1) _ e2 in
      let (buyer, w3, made, e4) =
        continue-eq-ok
          (create_basic_wallet_account h c setup.client setup.keystore AccountType.private w2) _
          e3 in
      let (tx, w4, pays, e5) =
        continue-eq-ok (fund_scratch setup.client session (account_id buyer) w3) _ e4 in
      let (_, w5, waited, e6) =
        continue-eq-ok
          (wait_funded h c s 24 setup.client (account_id buyer) session.faucet session.budget w4) _
          e5 in
      let (is_buyer, builds, request, requests, submits) =
        lock_escrow-submits env setup.client session (account_id buyer) w5 w' r e6 in
      record {
        session = session;
        client = setup.client;
        keystore = setup.keystore;
        buyer = buyer;
        request = request;
        connected = w1;
        synced = w2;
        created = w3;
        minted = w4;
        funded = w5;
        reads = read;
        connects = connects;
        syncs = syncs;
        creates = made;
        signable =
            (create_basic_wallet_account-IsRegistered h c setup.client setup.keystore
              AccountType.private w2 w3 buyer made).signable;
        is_minted = fund_scratch-IsMinted setup.client session (account_id buyer) w3 w4 tx pays;
        is_funded =
            wait_funded-FundedWithin h c s 24 setup.client (account_id buyer) session.faucet
              session.budget w4 w5 waited;
        is_buyer = is_buyer;
        builds = builds;
        requests = requests;
        submits = submits;
      }
