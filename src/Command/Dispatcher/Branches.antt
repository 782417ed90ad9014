-- ===== src/Command/Dispatcher/Branches.antt =====
-- internal/command/dispatcher.go: HandleEvent on each of its branches.
use inari_agent.Prelude.{
  Str, codes, true, false, Outcome-cases, Option, none, some, ok, err, lookup, insert, ◌≡◌, ◌⊎◌,
  inl, inr, refl, arith,
}
use inari_agent.Wire.{EventType, CommandAck, Event, accepted}
use inari_agent.Command.Fault.{command_error, disconnected, handler_failed}
use inari_agent.Command.Dispatcher.{
  KindHandler, Dispatcher, record_ack, execute, select_handler, handle_command,
}

module _ {P W : Type 0} where
  -- A recorded ack answers the command, and nothing changes.
  pub handle_command_seen :
      (t : EventType) (id : Str) (ev : Event P) (d : Dispatcher P W) (w : W) {ack : CommandAck}
      → lookup id d.seen ≡ some ack
      → handle_command t id ev d w ≡ (ok ack, d, w)
  unfolding handle_command
  handle_command_seen t id ev d w h = rw (h, handle_command)

  pub handle_command_closed :
      (t : EventType) (id : Str) (ev : Event P) (d : Dispatcher P W) (w : W)
      → lookup id d.seen ≡ none
      → d.connected ≡ false
      → handle_command t id ev d w ≡ (err (command_error id disconnected), d, w)
  unfolding handle_command
  handle_command_closed t id ev d w h c = rw (h, c, handle_command)

  pub handle_command_open :
      (t : EventType) (id : Str) (ev : Event P) (d : Dispatcher P W) (w : W)
      → lookup id d.seen ≡ none
      → d.connected ≡ true
      → handle_command t id ev d w ≡ execute id (select_handler t ev.type_name d) ev d w
  unfolding handle_command
  handle_command_open t id ev d w h c = rw (h, c, handle_command)

  -- Whatever the journal says, the ack is in memory afterwards.
  pub seen-record_ack :
      (id : Str) (ack : CommandAck) (d : Dispatcher P W) (w : W)
      → (record_ack id ack d w).1.seen ≡ insert id ack d.seen
  unfolding record_ack
  seen-record_ack id ack d w = ground arith

  pub record_ack_outcome :
      (id : Str) (ack : CommandAck) (d : Dispatcher P W) (w : W) {a : CommandAck}
      → (record_ack id ack d w).0 ≡ ok a
      → a ≡ ack
  unfolding record_ack
  record_ack_outcome id ack d w h = ground arith

  -- A handler's error leaves the dispatcher as it was; else one ack is recorded under the id.
  pub execute_cases :
      (id : Str) (h : Option (KindHandler P W)) (ev : Event P) (d : Dispatcher P W) (w : W)
      → ((execute id h ev d w).1 ≡ d)
          × ((e : Str) × ((execute id h ev d w).0 ≡ err (command_error id (handler_failed e))))
        ⊎ ((ack : CommandAck) × (v : W) × (ack.command_id ≡ id)
            × (execute id h ev d w ≡ record_ack id ack d v))
  unfolding execute
  execute_cases id none ev d w = inr (
    record {
      command_id = id;
      result = accepted;
      message = codes "accepted (no handler registered)";
    },
    w,
    refl,
    refl,
  )
  execute_cases id (some h) ev d w = elim (Outcome-cases (h ev w).0) [
    | inl (e, q) ↦ inl (rw (q, execute), (e, rw (q, execute)))
    | inr ((r, m), q) ↦
        inr (record { command_id = id; result = r; message = m }, (h ev w).1, refl, rw (q, execute))
  ]
