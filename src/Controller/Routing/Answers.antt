-- ===== src/Controller/Routing/Answers.antt =====
-- internal/controller/agent_controller.go: which answer an inbound command gets.
use inari_agent.Prelude.{
  Str, Bool, true, false, Bool-cases, Option-cases, Option, none, some, Outcome, ok, err, lookup,
  ◌≡◌, ◌⊎◌, inl, inr, refl, ap, arith, is_empty,
}
use inari_agent.Wire.{
  EventType, resync_request, apply_bundle, register_argocd_app, invoke_action, render_rgd_instance,
  gitops_config_update, CommandAck, Event, Decoder,
}
use inari_agent.Command.Fault.{Fault, command_error}
use inari_agent.Command.Identity.{is_bridge_command_type, command_id_of}
use inari_agent.Command.Dispatcher.{
  KindHandler, Dispatcher, record_ack, execute, select_handler, handle_command, handle_event,
}
use inari_agent.Command.Dispatcher.Branches.{
  handle_command_seen, handle_command_closed, handle_command_open, execute_cases,
}
use inari_agent.Command.Dispatcher.Replay.{handle_event_decoded}
use inari_agent.Controller.Routing.Keyed.{IsKeyed, handle_event-IsKeyed}
use inari_agent.Controller.Routing.{
  Reaction, answer, nack_id, answer_to, handle_command_event, dispatch_other, dispatch_type,
  dispatch,
}

-- The id that an answer is correlated by.
abbrev pub answer_id : Reaction → Option Str
answer_id (answer id ack t) = some id
answer_id _ = none

abbrev NamesCommand : Str → Outcome Fault CommandAck → Type 0
NamesCommand id (ok a) = a.command_id ≡ id
NamesCommand id (err (command_error k c)) = k ≡ id
NamesCommand id (err _) = ⊥

module _ {P W : Type 0} where
  record_ack-NamesCommand :
      (id : Str) (ack : CommandAck) (d : Dispatcher P W) (w : W)
      → ack.command_id ≡ id
      → NamesCommand id (record_ack id ack d w).0
  unfolding record_ack
  record_ack-NamesCommand id ack d w c = ground arith

  execute-NamesCommand :
      (id : Str) (h : Option (KindHandler P W)) (ev : Event P) (d : Dispatcher P W) (w : W)
      → NamesCommand id (execute id h ev d w).0
  execute-NamesCommand id h ev d w = elim (execute_cases id h ev d w) [
    | inl (_, (x, e)) ↦ rw e refl
    | inr (ack, v, c, e) ↦ rw e (record_ack-NamesCommand id ack d v c)
  ]

  handle_command-NamesCommand :
      (t : EventType) (id : Str) (ev : Event P) (d : Dispatcher P W) (w : W)
      → IsKeyed d
      → NamesCommand id (handle_command t id ev d w).0
  handle_command-NamesCommand t id ev d w k = elim (Option-cases (lookup id d.seen)) [
    | inr (ack, e) ↦ rw (handle_command_seen t id ev d w e) (k.keyed id ack e)
    | inl n ↦ elim (Bool-cases d.connected) [
      | inl c ↦
          rw (handle_command_open t id ev d w n c)
            (execute-NamesCommand id (select_handler t ev.type_name d) ev d w)
      | inr c ↦ rw (handle_command_closed t id ev d w n c) refl
    ]
  ]

answer_id_named :
    (event_id id : Str) (o : Outcome Fault CommandAck)
    → is_empty id ≡ false
    → NamesCommand id o
    → answer_id (answer_to event_id o) ≡ some id
unfolding answer_to nack_id
answer_id_named event_id id (ok a) n h = ap some h
answer_id_named event_id id (err (command_error k c)) n h = rw (h, n)
answer_id_named event_id id (err Fault.empty_event) n h = absurd h
answer_id_named event_id id (err (Fault.decode_failed t e)) n h = absurd h
answer_id_named event_id id (err (Fault.bridge_decode_failed e)) n h = absurd h
answer_id_named event_id id (err (Fault.unknown_event_type q)) n h = absurd h
answer_id_named event_id id (err Fault.missing_command_id) n h = absurd h

module _ {P W : Type 0} (dec : Decoder P) where
  -- A command that handleCommand is given, and whose id can be read, is answered under that id.
  handled_correlate :
      (ev : Event P) (p : P) (id : Str) (d : Dispatcher P W) (w : W)
      → IsKeyed d
      → ev.payload ≡ some p
      → command_id_of dec ev p ≡ ok id
      → is_empty id ≡ false
      → (answer_id (handle_command_event dec ev d w).0 ≡ some id)
        × IsKeyed (handle_command_event dec ev d w).1
  unfolding handle_command_event
  handled_correlate ev p id d w k h e n = (
    answer_id_named ev.event_id id (handle_event dec (some ev) d w).0 n (
        rw (handle_event_decoded dec ev d w h e)
          (handle_command-NamesCommand (dec.event_type ev.type_name) id ev d w k)),
    handle_event-IsKeyed dec (some ev) d w k,
  )

-- What becomes of an event with a command's id: an answer under the id, or none and no change.
abbrev pub IsCorrelated :
    {P W : Type 0} → Bool → Str → Dispatcher P W → W → Reaction × Dispatcher P W × W → Type 0
IsCorrelated routed id d w r =
    ((routed ≡ true) × (answer_id r.0 ≡ some id) × IsKeyed r.1)
    ⊎ ((routed ≡ false) × (answer_id r.0 ≡ none) × (r.1 ≡ d) × (r.2 ≡ w))

-- The types that are answered: five kinds of commands, and the bridge commands among the types that
-- have no case of their own. Commands on secret stores are in neither.
abbrev pub is_routed : EventType → Bool → Bool
is_routed resync_request bridge = false
is_routed apply_bundle bridge = true
is_routed register_argocd_app bridge = true
is_routed invoke_action bridge = true
is_routed render_rgd_instance bridge = true
is_routed gitops_config_update bridge = true
is_routed _ bridge = bridge

module _ {P W : Type 0} (dec : Decoder P) where
  other_correlates :
      (ev : Event P) (id : Str) (d : Dispatcher P W) (w : W)
      → (answer_id (handle_command_event dec ev d w).0 ≡ some id)
        × IsKeyed (handle_command_event dec ev d w).1
      → IsCorrelated (is_bridge_command_type ev.type_name) id d w (dispatch_other dec ev d w)
  unfolding dispatch_other
  other_correlates ev id d w handled = elim (Bool-cases (is_bridge_command_type ev.type_name)) [
    | inl b ↦ inl (b, rw b handled.0, rw b handled.1)
    | inr b ↦ inr (b, rw b refl, rw b refl, rw b refl)
  ]

  type_correlates :
      (t : EventType) (ev : Event P) (id : Str) (d : Dispatcher P W) (w : W)
      → (answer_id (handle_command_event dec ev d w).0 ≡ some id)
        × IsKeyed (handle_command_event dec ev d w).1
      → IsCorrelated
          (is_routed t (is_bridge_command_type ev.type_name))
          id
          d
          w
          (dispatch_type dec t ev d w)
  unfolding dispatch_type
  type_correlates resync_request ev id d w handled = inr (refl, refl, refl, refl)
  type_correlates apply_bundle ev id d w handled = inl (refl, handled.0, handled.1)
  type_correlates register_argocd_app ev id d w handled = inl (refl, handled.0, handled.1)
  type_correlates invoke_action ev id d w handled = inl (refl, handled.0, handled.1)
  type_correlates render_rgd_instance ev id d w handled = inl (refl, handled.0, handled.1)
  type_correlates gitops_config_update ev id d w handled = inl (refl, handled.0, handled.1)
  type_correlates t ev id d w handled = other_correlates ev id d w handled

  -- What dispatch does with an event whose command id can be read, if every recorded ack stands under its
  -- own command id. Where its type is one of the five that dispatch lists, or a bridge command, it is
  -- answered, by an ack or a nack, under its command id and never under the event id, whether it is
  -- replayed, refused, executed or fails; and every recorded ack still stands under its own id. Every
  -- other event gets no answer, and neither the dispatcher nor the world changes: also a command that
  -- applies or deletes a secret store, whatever handlers the dispatcher has.
  pub answers_correlate :
      (ev : Event P) (p : P) (id : Str) (d : Dispatcher P W) (w : W)
      → IsKeyed d
      → ev.payload ≡ some p
      → command_id_of dec ev p ≡ ok id
      → is_empty id ≡ false
      → IsCorrelated
          (is_routed (dec.event_type ev.type_name) (is_bridge_command_type ev.type_name))
          id
          d
          w
          (dispatch dec ev d w)
  unfolding dispatch
  answers_correlate ev p id d w k h e n =
      type_correlates (dec.event_type ev.type_name) ev id d w
        (handled_correlate dec ev p id d w k h e n)
