-- ===== src/Controller/Routing.antt =====
-- internal/controller/agent_controller.go: dispatch, handleCommand and sendAck. The aggregator's
-- replay and the client's Send are reported, not run.
pub mod Keyed
pub mod Answers
use inari_agent.Prelude.{
  Str, Bool, true, false, if◌then◌else◌, some, Outcome, ok, err, [], ◌∷◌, is_empty,
}
use inari_agent.Wire.{
  EventType, apply_bundle, register_argocd_app, invoke_action, render_rgd_instance,
  gitops_config_update, resync_request, command_ack, command_nack, CommandAck, CommandResult,
  failed, Event, Decoder,
}
use inari_agent.Command.Fault.{Fault, command_error, fault_text}
use inari_agent.Command.Identity.{is_bridge_command_type}
use inari_agent.Command.Dispatcher.{Dispatcher, handle_event}

-- What one inbound event led to.
pub data Reaction : Type 0 where
  replay : Reaction
  answer : Str → CommandAck → EventType → Reaction
  drop : Reaction

-- The id that a NACK carries: the error's command id, unless there is none.
unfoldable nack_id : Str → Fault → Str
nack_id event_id (command_error id c) = if is_empty id then event_id else id
nack_id event_id _ = event_id

unfoldable is_failed : CommandResult → Bool
is_failed failed = true
is_failed _ = false

-- The answer to what HandleEvent returned.
unfoldable answer_to : Str → Outcome Fault CommandAck → Reaction
unfolding nack_id is_failed fault_text
answer_to event_id (err f) =
    let id = nack_id event_id f in
    answer id (record { command_id = id; result = failed; message = fault_text f }) command_nack
answer_to event_id (ok ack) =
    answer ack.command_id ack (if is_failed ack.result then command_nack else command_ack)

module _ {P W : Type 0} (dec : Decoder P) where
  -- handleCommand
  unfoldable pub handle_command_event : Event P → Dispatcher P W → W → Reaction × Dispatcher P W × W
  unfolding answer_to handle_event
  handle_command_event ev d w =
      let r = handle_event dec (some ev) d w in (answer_to ev.event_id r.0, r.1, r.2)

  -- The default case of dispatch.
  unfoldable dispatch_other : Event P → Dispatcher P W → W → Reaction × Dispatcher P W × W
  unfolding handle_command_event is_bridge_command_type
  dispatch_other ev d w =
      if is_bridge_command_type ev.type_name then handle_command_event ev d w else (drop, d, w)

  unfoldable dispatch_type :
      EventType → Event P → Dispatcher P W → W → Reaction × Dispatcher P W × W
  unfolding dispatch_other
  dispatch_type resync_request ev d w = (replay, d, w)
  dispatch_type apply_bundle ev d w = handle_command_event ev d w
  dispatch_type register_argocd_app ev d w = handle_command_event ev d w
  dispatch_type invoke_action ev d w = handle_command_event ev d w
  dispatch_type render_rgd_instance ev d w = handle_command_event ev d w
  dispatch_type gitops_config_update ev d w = handle_command_event ev d w
  dispatch_type _ ev d w = dispatch_other ev d w

  unfoldable pub dispatch : Event P → Dispatcher P W → W → Reaction × Dispatcher P W × W
  unfolding dispatch_type
  dispatch ev d w = dispatch_type (dec.event_type ev.type_name) ev d w
