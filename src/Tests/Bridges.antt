-- ===== src/Tests/Bridges.antt =====
-- The theorems on the web server's sessions, along one run: a session starts, is armed, is charged for
-- a reply, and its settlement is asked for.
use bartok.Base.{◌+◌, ◌≡◌, refl, false, none, some, [], ◌∷◌, ok}
use native.Mathlib.Decide.{ℕ_discrete}
use bartok.Text.{Text, codes, text_eq}
use bartok.Text.Decimal.{parse_u64, to_string}
use bartok.Contract.Storage.{settlement_storage}
use bartok.Cli.{arg, arg_value}
use bartok.Host.{Host}
use bartok.Escrow.{Inputs, EscrowBuilt, report, build_escrow, parameters, load_script, assemble}
use bartok.Miden.{Word}
use bartok.Bridge.{
  basic, User, Object, confirming, Bridge, start_hold, start_session, confirm, tier_of,
}
use bartok.Bridge.Chat.{chat, chat_spent, answered, is_given}
use bartok.Bridge.Settling.{end_session, end_charge}
use bartok.Bridge.Steps.{
  started, looked, confirms, asked, answers, ends, Reach, boot, later, escrow_args,
}
use bartok.Tests.Goldilocks.{Element, new}
use bartok.Tests.Model.{account_eq, from_text, token_of, storage_new}
use bartok.Tests.Chain.{Raw, contract, note_bytes, host_with, plain, parse_json, index_json}
use bartok.Tests.Runs.{result_of, placeholder, word}
use bartok.Tests.Handovers.{holding, value_of}

abbrev pub program : Text
program = codes "bartok"

abbrev pub inputs : Inputs Raw (Word Element)
inputs = record {
  args = escrow_args program (codes "22") 50000;
  accounts_json = some (codes "accounts.json");
  masp = none;
  masp_alt = some contract;
  words = λ i. word (i + 1);
}

abbrev blank : Host
blank = host_with plain (holding (note_bytes placeholder))

unfoldable pub first : (e : EscrowBuilt blank) × (build_escrow blank inputs ≡ ok e)
unfolding result_of build_escrow parameters load_script assemble arg_value settlement_storage
    storage_new from_text parse_u64 parse_json index_json new token_of account_eq escrow_args arg
    text_eq to_string
first = result_of (build_escrow blank inputs) tt

abbrev pub web : Host
web = host_with plain (holding (note_bytes first.0.escrow_note))

unfoldable pub made : (e : EscrowBuilt web) × (build_escrow web inputs ≡ ok e)
unfolding result_of build_escrow parameters load_script assemble arg_value settlement_storage
    storage_new from_text parse_u64 parse_json index_json new token_of account_eq escrow_args arg
    text_eq to_string
made = result_of (build_escrow web inputs) tt

abbrev pub nobody : Text → User
nobody w = record { hash = false; spent = 0 }

abbrev pub at_boot : Bridge
at_boot = record {
  objects = λ i. none;
  users = nobody;
  busy = false;
  waiting = [];
  saved = λ i. none;
  settlements = [];
}

abbrev pub session_started : Bridge
session_started = start_session at_boot 1 (codes "22") basic (report web made.0) 50000 10

abbrev pub session_looked : Bridge
session_looked = record session_started { waiting = confirming 1 ∷ [] }

abbrev pub session_armed : Bridge
session_armed = confirm session_looked [] 1 20

unfoldable pub session_asked : (b : Bridge) × (chat session_armed 1 (codes "hello") [] ≡ ok b)
unfolding result_of chat chat_spent confirm start_session ℕ_discrete report
session_asked = result_of (chat session_armed 1 (codes "hello") []) tt

unfoldable pub session_object : (o : Object) × (session_asked.0.objects 1 ≡ some o)
unfolding value_of session_asked result_of chat chat_spent confirm start_session ℕ_discrete report
session_object = value_of (session_asked.0.objects 1) tt

-- The reply that costs 300.
abbrev pub session_charged : Bridge
session_charged = answered session_asked.0 [] 1 0 300 30 session_object.0

unfoldable pub session_ended : (b : Bridge) × (end_session session_charged 1 40 ≡ ok b)
unfolding result_of end_session end_charge answered is_given session_object value_of session_asked
    chat chat_spent confirm start_session ℕ_discrete report
session_ended = result_of (end_session session_charged 1 40) tt

unfoldable pub ended_object : (o : Object) × (session_ended.0.objects 1 ≡ some o)
unfolding value_of session_ended result_of end_session end_charge answered is_given session_object
    session_asked chat chat_spent confirm start_session ℕ_discrete report
ended_object = value_of (session_ended.0.objects 1) tt

reached_started : Reach web program (some (codes "accounts.json")) nobody session_started
unfolding start_hold tier_of text_eq escrow_args
reached_started = later boot (
    started nobody 1 (codes "22") (codes "basic") 60000 10 50000 basic inputs made.0 refl refl refl
      refl made.1)

reached_armed : Reach web program (some (codes "accounts.json")) nobody session_armed
unfolding start_session ℕ_discrete
reached_armed = later (later reached_started (looked 1 refl)) (confirms [] [] 1 20 refl)

reached_charged : Reach web program (some (codes "accounts.json")) nobody session_charged
unfolding session_asked result_of chat chat_spent confirm start_session ℕ_discrete
reached_charged =
    later (later reached_armed (asked 1 (codes "hello") [] session_asked.1))
      (answers [] [] 1 0 300 30 session_object.0 refl session_object.1)

pub reached_ended : Reach web program (some (codes "accounts.json")) nobody session_ended.0
reached_ended = later reached_charged (ends 1 40 session_ended.1)
