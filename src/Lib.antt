-- ===== src/Lib.antt =====
-- Bartok settles paid inference sessions on Miden. A buyer locks a budget in a private escrow note;
-- after the session the operator's multisig consumes the note with the charge as its argument, and
-- the note's script splits the budget between seller and buyer. The charge comes from an oracle that
-- reads it off a TLSNotary presentation of the provider's response.
--
-- Parts, and the files that model them:
--   miden/contracts/settlement-note/src/lib.rs: Contract (`BartokSettlement`, `run`), with
--     Contract/Split (successful runs), Contract/Gate (when it succeeds) and Contract/Storage (the layout of the
--     note storage, `settlement_storage` of miden/integration/src/helpers.rs); Ledger puts the
--     script on a chain of many escrows, with Ledger/Refinement and Ledger/Traces.
--   miden/integration/src/bin/build_escrow.rs: Escrow (`parameters`, `load_script`, `assemble`,
--     `report` are the consecutive parts of `main`), with Escrow/Layout.
--   miden/integration/src/bin/settle_session.rs: Settle (`arguments`, `accounts_of`, `open_with`,
--     `build_request`, `make_note`, `announce`) and Settle/Program (`countersign`, `settle_session`),
--     with Settle/Budget, Settle/Countersign, Settle/Announced and Settle/Agreement; Settle/Command
--     is its command line, and Settle/Printed ties it to the output of build_escrow.rs.
--   ux-prototype/server.js: Bridge, the sessions of the web server that calls the programs, with
--     Bridge/Chat (`/api/chat`), Bridge/Settling (`/api/session/end`, the sweeper, the boot) and
--     Bridge/Steps (the interleavings); Bridge/Waiting, Bridge/Budget, Bridge/Within and
--     Bridge/Honoured are about holds, Bridge/Once, Bridge/Marked and Bridge/Settlements about
--     settling once, Bridge/Stranded and Bridge/Restart about restarts, Bridge/Overtaken about chats
--     beside a settlement.
--   miden/integration/src/bin/verify_escrow.rs and `wait_note_committed` of joao_sweep.rs: Verify,
--     Verify/Poll and Verify/Funded.
--   miden/integration/src/bin/joao_sweep.rs: Sweep (`read_seller`, `note_of_file`), Sweep/Drain and
--     Sweep/Consume (`consume`, `joao_sweep`), with Sweep/Handover.
--   miden/integration/src/bin/fund_buyer.rs: Fund and Fund/Mint.
--   miden/integration/src/bin/smoke_escrow.rs: Smoke (`read_session`, `smoke_note`), Smoke/Waiting (its
--     two loops) and Smoke/Run (`smoke_escrow`), with Smoke/Reference.
--   setup_accounts.rs, new_faucet.rs and setup_multisigs.rs of miden/integration/src/bin/: Setup (the
--     text of `accounts.json`), Setup/Programs and Setup/Multisigs, with Setup/Document.
--   miden/integration/src/helpers.rs: Client (`setup_client`, `create_basic_wallet_account`,
--     `create_basic_faucet_account`) with Client/Signing, Client/Project (`build_project_in_dir`), and
--     Role with Role/Signer (`guardian_role_client`), which fills the interface `Guardian` of Settle.
--   zktls-spike/openrouter-example/: oracle.rs is Oracle, with Oracle/Charge, Oracle/Scan,
--     Oracle/Fragment and Oracle/Verdict; verify.rs is Oracle/Show; keygen.rs is Role/Keygen;
--     present.rs is Present and Present/File, with Present/Names, Present/Redaction and
--     Present/Billing; `main` and `prover` of prove.rs are Prove and Prove/Request, with Prove/Attestation; `notary` of prove.rs
--     is Notary and Notary/Key, with Notary/Signed and Notary/Trust.
--   `arg_value`, `parse_serial`, `word_strings`, `word_csv`, `random_word`, which the programs repeat:
--     Cli, Cli/Serial, Cli/Random.
-- Base, Text and Miden are shared: results and actions, Rust's string operations over code points,
-- and the types of the Miden library.
--
-- The programs meet in files and notes: the set-up programs write the `accounts.json` that the
-- others read, build_escrow.rs makes the note that verify_escrow.rs looks for and that
-- settle_session.rs consumes, the web server passes what build_escrow.rs prints on to
-- settle_session.rs with the sum of the charges, settle_session.rs prints the note file that
-- joao_sweep.rs consumes, and prove.rs, present.rs and oracle.rs hand an attestation on, under the
-- keys of keygen.rs.
--
-- Libraries are parameters, with the laws that the theorems use: `Miden` (field, accounts, assets,
-- recipients), `Kernel` (the transaction kernel under the script), `Host` (JSON, Base64, serialized
-- notes, transaction requests), `JsonDoc` (building JSON values), `NoteFiles`, `Guardian`, `Sdk`,
-- `MultisigSdk` and `SweepSdk` (the multisig client), `Chain`, `ClientSdk` and `SmokeSdk` (the Miden
-- client), `CargoMiden`, `Files` (the file system), `TlsNotary`, `ProofBuilder`, `PresentationSdk`,
-- `ProverSdk` and `NotarySdk` (TLSNotary), `Secp256k1`, `ChatJson`. Tests instantiates the ones that
-- theorems use with functions.
--
-- A program that acts outside is an `Action` on a world: a call returns its result and the world that
-- it leaves, also where it fails. Amounts and counters of 64 bits are naturals; the multiplication
-- and addition of the oracle's charge, the depth of its brace counter, the amount that
-- smoke_escrow.rs mints and the sums of balances and lengths wrap at 2 ^ 64, as release builds do,
-- and casts to a `u32` wrap at 2 ^ 32. Subtraction in the script is that of the field. Polling
-- recurs on its number of tries and scanning on its text; `random_word` reads the draws of its
-- generator from a list, and returns as soon as four of them are field elements. Messages of errors
-- are fixed texts, without the values that the programs print into them. The environment and the
-- files read at the start of a program are arguments.
--
-- Not modelled: what the programs print for a reader; how the tasks of prove.rs take turns, of which
-- the prover sees the answers that it reads; rate limits; the tests, the browser application and the
-- vendored libraries; of the web server all but its sessions, and there the history of the messages
-- that goes into the next prompt. A stretch of one of its handlers between two `await`s is one step; a
-- crash falls between two steps, and loses all but the snapshot. Amounts of the web server are whole
-- numbers.
pub mod Base
pub mod Text
pub mod Miden
pub mod Contract
pub mod Cli
pub mod Host
pub mod Escrow
pub mod Settle
pub mod Bridge
pub mod Ledger
pub mod Verify
pub mod Client
pub mod Setup
pub mod Sweep
pub mod Smoke
pub mod Fund
pub mod Role
pub mod Oracle
pub mod Prove
pub mod Notary
pub mod Present
pub mod Tests
