-- ===== src/Command/Dispatcher/Failures.antt =====
-- internal/command/dispatcher.go: the failing branches of HandleEvent.
use inari_agent.Prelude.{
  Str, Bool, true, false, Bool-cases, Option-cases, Outcome-cases, Option, none, some, ok, err,
  lookup, ◌≡◌, inl, inr, refl, ◌∙◌, arith,
}
use inari_agent.Wire.{EventType, CommandAck, Event, Decoder}
use inari_agent.Command.Fault.{Fault, command_error, disconnected, journal_failed}
use inari_agent.Command.Identity.{command_id_of}
use inari_agent.Command.Dispatcher.{
  KindHandler, Dispatcher, record_ack, execute, select_handler, handle_command, handle_payload,
  handle_event,
}
use inari_agent.Command.Dispatcher.Branches.{
  handle_command_seen, handle_command_closed, handle_command_open, execute_cases,
}
use inari_agent.Command.Dispatcher.Replay.{handle_event_decoded}

-- Is the error a failed write to the journal?
abbrev is_journal_failure : Fault → Bool
is_journal_failure (command_error id (journal_failed e)) = true
is_journal_failure _ = false

module _ {P W : Type 0} where
  record_ack_failure :
      (id : Str) (ack : CommandAck) (d : Dispatcher P W) (w : W) (f : Fault)
      → (record_ack id ack d w).0 ≡ err f
      → is_journal_failure f ≡ true
  unfolding record_ack
  record_ack_failure id ack d w f h = ground arith

  execute_failure :
      (id : Str) (h : Option (KindHandler P W)) (ev : Event P) (d : Dispatcher P W) (w : W)
      (f : Fault)
      → (execute id h ev d w).0 ≡ err f
      → is_journal_failure f ≡ false
      → (execute id h ev d w).1 ≡ d
  execute_failure id h ev d w f q n = elim (execute_cases id h ev d w) [
    | inl (same, _) ↦ same
    | inr (ack, v, _, e) ↦ cc (record_ack_failure id ack d v f (rw e at q), n)
  ]

  handle_command_failure :
      (t : EventType) (id : Str) (ev : Event P) (d : Dispatcher P W) (w : W) (f : Fault)
      → (handle_command t id ev d w).0 ≡ err f
      → is_journal_failure f ≡ false
      → (handle_command t id ev d w).1 ≡ d
  handle_command_failure t id ev d w f q n = elim (Option-cases (lookup id d.seen)) [
    | inr (ack, e) ↦ rw (handle_command_seen t id ev d w e)
    | inl m ↦ elim (Bool-cases d.connected) [
      | inl c ↦
          let o = handle_command_open t id ev d w m c in
          rw o (execute_failure id (select_handler t ev.type_name d) ev d w f (rw o at q) n)
      | inr c ↦ rw (handle_command_closed t id ev d w m c)
    ]
  ]

module _ {P W : Type 0} (dec : Decoder P) where
  handle_payload_failure :
      (ev : Event P) (o : Option P) (d : Dispatcher P W) (w : W) (f : Fault)
      → (handle_payload dec ev o d w).0 ≡ err f
      → is_journal_failure f ≡ false
      → (handle_payload dec ev o d w).1 ≡ d
  unfolding handle_payload
  handle_payload_failure ev none d w f q n = refl
  handle_payload_failure ev (some p) d w f q n = elim (Outcome-cases (command_id_of dec ev p)) [
    | inl (e, c) ↦ rw (c, handle_payload)
    | inr (id, c) ↦
        rw (c, handle_payload)
          (handle_command_failure (dec.event_type ev.type_name) id ev d w f
            (rw (c, handle_payload) at q) n)
  ]

  -- An error other than a failed journal write (an empty or undecodable event, a missing command
  -- id, a closed gate, a handler's error) leaves the dispatcher as it was: no ack is recorded and
  -- nothing is counted, so that a redelivery executes again.
  pub failure_keeps_dispatcher :
      (o : Option (Event P)) (d : Dispatcher P W) (w : W) (f : Fault)
      → (handle_event dec o d w).0 ≡ err f
      → is_journal_failure f ≡ false
      → (handle_event dec o d w).1 ≡ d
  unfolding handle_event
  failure_keeps_dispatcher none d w f q n = refl
  failure_keeps_dispatcher (some ev) d w f q n = handle_payload_failure ev ev.payload d w f q n

  -- While the gate is closed, a command that has no recorded ack is refused with an error that
  -- carries its id, and neither the dispatcher nor the world changes.
  pub closed_gate_refuses :
      (ev : Event P) (p : P) (id : Str) (d : Dispatcher P W) (w : W)
      → ev.payload ≡ some p
      → command_id_of dec ev p ≡ ok id
      → lookup id d.seen ≡ none
      → d.connected ≡ false
      → handle_event dec (some ev) d w ≡ (err (command_error id disconnected), d, w)
  closed_gate_refuses ev p id d w h e n c =
      handle_event_decoded dec ev d w h e
      ∙ handle_command_closed (dec.event_type ev.type_name) id ev d w n c
