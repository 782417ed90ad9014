-- ===== src/Scenarios/Commands.antt =====
-- internal/command and internal/controller: a command through the dispatcher and the journal.
use inari_agent.Prelude.{
  true, ℕ, suc, Str, String, codes, false, if◌then◌else◌, none, some, ok, err, lookup, [], ◌∷◌, ◌≡◌,
  refl, str_eq,
}
use inari_agent.Wire.{
  EventType, CommandAck, Event, Decoder, apply_bundle, secret_store_apply, other, applied,
  same_type,
}
use inari_agent.Command.Fault.{command_error, handler_failed}
use inari_agent.Command.Identity.{command_id_of, is_bridge_command_type}
use inari_agent.Command.Dispatcher.{
  KindHandler, Dispatcher, handle_event, new_dispatcher, register, set_connected,
}
use inari_agent.Command.Dispatcher.Replay.{deliver, connectivity, perform_all, redelivery_replays}
use inari_agent.Command.Dispatcher.Failures.{failure_keeps_dispatcher}
use inari_agent.Controller.Routing.{dispatch}
use inari_agent.Controller.Routing.Answers.{IsCorrelated, answers_correlate}

abbrev kind_of : Str → EventType
kind_of s =
    if str_eq s (codes "APPLY")
    then apply_bundle
    else if str_eq s (codes "SECRET")
    then secret_store_apply
    else other 0

-- Payloads that are command ids.
abbrev pub decoder : Decoder Str
decoder = record {
  event_type = kind_of;
  type_string = λ t. [];
  command_id = λ t p. ok p;
  is_struct = λ p. false;
  struct_field = λ p. err [];
  quote = λ s. s;
}

abbrev event_of : String → Event Str
event_of kind = record {
  event_id = codes "e1";
  type_name = codes kind;
  resource_id = [];
  sequence = 1;
  time = none;
  payload = some (codes "c1");
}

abbrev pub apply_event : Event Str
apply_event = event_of "APPLY"

abbrev pub done_ack : CommandAck
done_ack = record { command_id = codes "c1"; result = applied; message = codes "done" }

-- A handler that counts its calls, and one that fails.
abbrev counting : KindHandler Str ℕ
counting ev n = (ok (applied, codes "done"), suc n)

abbrev failing : KindHandler Str ℕ
failing ev n = (err (codes "timeout"), suc n)

redelivery_replays_example :
    let r =
      handle_event decoder (some apply_event) (register apply_bundle counting new_dispatcher) 0 in
    let s = perform_all decoder (connectivity false ∷ deliver none ∷ []) (r.1, r.2) in
    handle_event decoder (some apply_event) s.0 s.1 ≡ (ok done_ack, s.0, s.1)
unfolding handle_event command_id_of register new_dispatcher lookup str_eq same_type
redelivery_replays_example =
    redelivery_replays decoder apply_event apply_event (codes "c1") (codes "c1") (codes "c1")
      done_ack (register apply_bundle counting new_dispatcher) 0
      (connectivity false ∷ deliver none ∷ []) refl refl refl refl refl

failure_keeps_dispatcher_example :
    (handle_event decoder (some apply_event) (register apply_bundle failing new_dispatcher) 0).1
    ≡ register apply_bundle failing new_dispatcher
unfolding handle_event command_id_of register new_dispatcher lookup str_eq same_type
failure_keeps_dispatcher_example =
    failure_keeps_dispatcher decoder (some apply_event)
      (register apply_bundle failing new_dispatcher) 0
      (command_error (codes "c1") (handler_failed (codes "timeout"))) refl refl

abbrev closed : Dispatcher Str ℕ
closed = set_connected false (register apply_bundle counting new_dispatcher)

answers_correlate_example :
    IsCorrelated true
      (codes "c1")
      (register apply_bundle failing new_dispatcher)
      0
      (dispatch decoder apply_event (register apply_bundle failing new_dispatcher) 0)
unfolding command_id_of str_eq register new_dispatcher lookup is_bridge_command_type
answers_correlate_example =
    answers_correlate decoder apply_event (codes "c1") (codes "c1")
      (register apply_bundle failing new_dispatcher) 0 (record { keyed = λ k a e. cc }) refl refl
      refl
