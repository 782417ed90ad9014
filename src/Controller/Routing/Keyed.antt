-- ===== src/Controller/Routing/Keyed.antt =====
-- internal/command/dispatcher.go: acks are recorded under their own command ids.
use inari_agent.Prelude.{
  Str, Bool-cases, Option-cases, Outcome-cases, some-injective, Option, none, some, Map, lookup,
  insert, lookup-insert, ◌≡◌, inl, inr, sym, ap, ◌∙◌, str_eq, str_eq_sound,
}
use inari_agent.Wire.{EventType, CommandAck, Event, Decoder}
use inari_agent.Command.Identity.{command_id_of}
use inari_agent.Command.Dispatcher.{
  KindHandler, Dispatcher, record_ack, execute, select_handler, new_dispatcher, handle_command,
  handle_payload, handle_event,
}
use inari_agent.Command.Dispatcher.Branches.{
  handle_command_seen, handle_command_closed, handle_command_open, seen-record_ack, execute_cases,
}

-- Every recorded ack is recorded under its own command id.
pub record IsKeyed {P W : Type 0} (d : Dispatcher P W) : Type 0 where
  pub keyed : (k : Str) (a : CommandAck) → lookup k d.seen ≡ some a → a.command_id ≡ k

new_dispatcher-IsKeyed : {P W : Type 0} → IsKeyed (new_dispatcher {P = P} {W = W})
unfolding new_dispatcher lookup
new_dispatcher-IsKeyed = record { keyed = λ k a e. cc }

insert_keyed :
    (id : Str) (ack : CommandAck) (seen : Map CommandAck)
    → ((k : Str) (a : CommandAck) → lookup k seen ≡ some a → a.command_id ≡ k)
    → ack.command_id ≡ id
    → (k : Str) (a : CommandAck) → lookup k (insert id ack seen) ≡ some a
    → a.command_id ≡ k
insert_keyed id ack seen h c k a e = elim (Bool-cases (str_eq id k)) [
  | inl t ↦
      let same : ack ≡ a = some-injective (rw (lookup-insert, t) at e) in
      ap (λ (x : CommandAck). x.command_id) (sym same) ∙ c ∙ str_eq_sound id k t
  | inr n ↦ h k a (rw (lookup-insert, n) at e)
]

module _ {P W : Type 0} where
  record_ack-IsKeyed :
      (id : Str) (ack : CommandAck) (d : Dispatcher P W) (w : W)
      → IsKeyed d
      → ack.command_id ≡ id
      → IsKeyed (record_ack id ack d w).1
  record_ack-IsKeyed id ack d w k c = record {
    keyed = rw (seen-record_ack id ack d w) (insert_keyed id ack d.seen k.keyed c);
  }

  execute-IsKeyed :
      (id : Str) (h : Option (KindHandler P W)) (ev : Event P) (d : Dispatcher P W) (w : W)
      → IsKeyed d
      → IsKeyed (execute id h ev d w).1
  execute-IsKeyed id h ev d w k = elim (execute_cases id h ev d w) [
    | inl (same, _) ↦ rw same k
    | inr (ack, v, c, e) ↦ rw e (record_ack-IsKeyed id ack d v k c)
  ]

  handle_command-IsKeyed :
      (t : EventType) (id : Str) (ev : Event P) (d : Dispatcher P W) (w : W)
      → IsKeyed d
      → IsKeyed (handle_command t id ev d w).1
  handle_command-IsKeyed t id ev d w k = elim (Option-cases (lookup id d.seen)) [
    | inr (ack, e) ↦ rw (handle_command_seen t id ev d w e) k
    | inl n ↦ elim (Bool-cases d.connected) [
      | inl c ↦
          rw (handle_command_open t id ev d w n c)
            (execute-IsKeyed id (select_handler t ev.type_name d) ev d w k)
      | inr c ↦ rw (handle_command_closed t id ev d w n c) k
    ]
  ]

module _ {P W : Type 0} (dec : Decoder P) where
  handle_payload-IsKeyed :
      (ev : Event P) (o : Option P) (d : Dispatcher P W) (w : W)
      → IsKeyed d
      → IsKeyed (handle_payload dec ev o d w).1
  unfolding handle_payload
  handle_payload-IsKeyed ev none d w k = k
  handle_payload-IsKeyed ev (some p) d w k = elim (Outcome-cases (command_id_of dec ev p)) [
    | inl (e, c) ↦ rw (c, handle_payload) k
    | inr (id, c) ↦
        rw (c, handle_payload) (handle_command-IsKeyed (dec.event_type ev.type_name) id ev d w k)
  ]

  -- Whatever event comes, every recorded ack still stands under its own command id.
  pub handle_event-IsKeyed :
      (o : Option (Event P)) (d : Dispatcher P W) (w : W)
      → IsKeyed d
      → IsKeyed (handle_event dec o d w).1
  unfolding handle_event
  handle_event-IsKeyed none d w k = k
  handle_event-IsKeyed (some ev) d w k = handle_payload-IsKeyed ev ev.payload d w k
