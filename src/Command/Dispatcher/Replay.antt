-- ===== src/Command/Dispatcher/Replay.antt =====
-- internal/command/dispatcher.go: a recorded ack outlives whatever is done to the dispatcher.
use inari_agent.Prelude.{
  Str, Bool, Bool-cases, Option-cases, Outcome-cases, ok-injective, Option, none, some, ok, Map,
  lookup, insert, lookup-insert, List, [], ◌∷◌, ◌≡◌, inl, inr, refl, sym, ap, ◌∙◌, arith,
  str_eq_iff, str_eq_refl,
}
use inari_agent.Wire.{EventType, CommandAck, Event, Decoder}
use inari_agent.Command.Identity.{command_id_of}
use inari_agent.Command.Dispatcher.{
  KindHandler, Journal, Dispatcher, Handling, preload, record_ack, execute, select_handler,
  handle_command, handle_payload, handle_event, register, register_bridge, set_connected,
  attach_journal,
}
use inari_agent.Command.Dispatcher.Branches.{
  handle_command_seen, handle_command_closed, handle_command_open, seen-record_ack,
  record_ack_outcome, execute_cases,
}

-- Whatever the agent does to its dispatcher: events, connectivity changes, registrations and
-- journals, in any order.
pub data Op (P W : Type 0) : Type 0 where
  deliver : Option (Event P) → Op P W
  connectivity : Bool → Op P W
  install : EventType → KindHandler P W → Op P W
  install_bridge : Str → KindHandler P W → Op P W
  attach : Journal W → Op P W

lookup-insert_kept {ℓ} :
    {V : Type ℓ} (id k : Str) (a v : V) (m : Map V)
    → lookup k m ≡ none
    → lookup id m ≡ some a
    → lookup id (insert k v m) ≡ some a
lookup-insert_kept id k a v m h r =
    rw lookup-insert
      (ground (arith, str_eq_iff k id, ap (λ (s : Str). lookup s m) {x = k} {y = id}))

pub lookup-preload :
    (id : Str) (a : CommandAck) (loaded seen : Map CommandAck)
    → lookup id seen ≡ some a
    → lookup id (preload loaded seen) ≡ some a
unfolding preload
lookup-preload id a [] seen h = h
lookup-preload id a ((k, v) ∷ loaded) seen h = elim (Option-cases (lookup k seen)) [
  | inl e ↦
      rw (e, preload)
        (lookup-preload id a loaded (insert k v seen) (lookup-insert_kept id k a v seen e h))
  | inr (o, e) ↦ rw (e, preload) (lookup-preload id a loaded seen h)
]

module _ {P W : Type 0} where
  kept-record_ack :
      (id k : Str) (a v : CommandAck) (d : Dispatcher P W) (w : W)
      → lookup k d.seen ≡ none
      → lookup id d.seen ≡ some a
      → lookup id (record_ack k v d w).1.seen ≡ some a
  kept-record_ack id k a v d w n h =
      rw (seen-record_ack k v d w) (lookup-insert_kept id k a v d.seen n h)

  kept-execute :
      (id k : Str) (a : CommandAck) (h : Option (KindHandler P W)) (ev : Event P)
      (d : Dispatcher P W) (w : W)
      → lookup k d.seen ≡ none
      → lookup id d.seen ≡ some a
      → lookup id (execute k h ev d w).1.seen ≡ some a
  kept-execute id k a h ev d w n r = elim (execute_cases k h ev d w) [
    | inl (same, _) ↦ rw same r
    | inr (ack, v, _, e) ↦ rw e (kept-record_ack id k a ack d v n r)
  ]

  kept-handle_command :
      (t : EventType) (id k : Str) (a : CommandAck) (ev : Event P) (d : Dispatcher P W) (w : W)
      → lookup id d.seen ≡ some a
      → lookup id (handle_command t k ev d w).1.seen ≡ some a
  kept-handle_command t id k a ev d w r = elim (Option-cases (lookup k d.seen)) [
    | inr (ack, e) ↦ rw (handle_command_seen t k ev d w e) r
    | inl n ↦ elim (Bool-cases d.connected) [
      | inl c ↦
          rw (handle_command_open t k ev d w n c)
            (kept-execute id k a (select_handler t ev.type_name d) ev d w n r)
      | inr c ↦ rw (handle_command_closed t k ev d w n c) r
    ]
  ]

  -- The ack that comes back is the one that is recorded.
  recorded-handle_command :
      (t : EventType) (id : Str) (a : CommandAck) (ev : Event P) (d : Dispatcher P W) (w : W)
      → (handle_command t id ev d w).0 ≡ ok a
      → lookup id (handle_command t id ev d w).1.seen ≡ some a
  recorded-handle_command t id a ev d w q = elim (Option-cases (lookup id d.seen)) [
    | inr (ack, e) ↦
        let s = handle_command_seen t id ev d w e in rw s (e ∙ ap some (ok-injective (rw s at q)))
    | inl n ↦ elim (Bool-cases d.connected) [
      | inl c ↦
          rw (handle_command_open t id ev d w n c)
            (of_execute n (rw (handle_command_open t id ev d w n c) at q))
      | inr c ↦ cc (ap (λ (x : Handling P W). x.0) (handle_command_closed t id ev d w n c), q)
    ]
  ]
    where
      of_execute :
          lookup id d.seen ≡ none
          → (execute id (select_handler t ev.type_name d) ev d w).0 ≡ ok a
          → lookup id (execute id (select_handler t ev.type_name d) ev d w).1.seen ≡ some a
      of_execute n q = elim (execute_cases id (select_handler t ev.type_name d) ev d w) [
        | inl (_, (e, f)) ↦ cc (f, q)
        | inr (ack, v, _, e) ↦ rw e (
            rw (seen-record_ack id ack d v, lookup-insert id id ack d.seen, str_eq_refl id)
              (ap some (sym (record_ack_outcome id ack d v (rw e at q)))))
      ]

module _ {P W : Type 0} (dec : Decoder P) where
  unfoldable perform : Op P W → Dispatcher P W × W → Dispatcher P W × W
  unfolding handle_event register register_bridge set_connected attach_journal
  perform (deliver o) (d, w) = let r = handle_event dec o d w in (r.1, r.2)
  perform (connectivity v) (d, w) = (set_connected v d, w)
  perform (install t h) (d, w) = (register t h d, w)
  perform (install_bridge s h) (d, w) = (register_bridge s h d, w)
  perform (attach j) (d, w) = let r = attach_journal j d w in (r.1, r.2)

  unfoldable pub perform_all : List (Op P W) → Dispatcher P W × W → Dispatcher P W × W
  unfolding perform
  perform_all [] s = s
  perform_all (op ∷ ops) s = perform_all ops (perform op s)

  kept-handle_payload :
      (id : Str) (a : CommandAck) (ev : Event P) (o : Option P) (d : Dispatcher P W) (w : W)
      → lookup id d.seen ≡ some a
      → lookup id (handle_payload dec ev o d w).1.seen ≡ some a
  unfolding handle_payload
  kept-handle_payload id a ev none d w r = r
  kept-handle_payload id a ev (some p) d w r = elim (Outcome-cases (command_id_of dec ev p)) [
    | inl (e, q) ↦ rw (q, handle_payload) r
    | inr (k, q) ↦
        rw (q, handle_payload) (kept-handle_command (dec.event_type ev.type_name) id k a ev d w r)
  ]

  kept-attach_journal :
      (id : Str) (a : CommandAck) (j : Journal W) (d : Dispatcher P W) (w : W)
      → lookup id d.seen ≡ some a
      → lookup id (attach_journal j d w).1.seen ≡ some a
  unfolding attach_journal
  kept-attach_journal id a j d w r = elim (Outcome-cases (j.load w).0) [
    | inl (e, q) ↦ rw (q, attach_journal) r
    | inr (acks, q) ↦ rw (q, attach_journal) (lookup-preload id a acks d.seen r)
  ]

  kept-perform :
      (id : Str) (a : CommandAck) (op : Op P W) (s : Dispatcher P W × W)
      → lookup id s.0.seen ≡ some a
      → lookup id (perform op s).0.seen ≡ some a
  unfolding perform
  kept-perform id a (deliver none) (d, w) r = r
  kept-perform id a (deliver (some ev)) (d, w) r = kept-handle_payload id a ev ev.payload d w r
  kept-perform id a (connectivity v) (d, w) r = r
  kept-perform id a (install t h) (d, w) r = r
  kept-perform id a (install_bridge t h) (d, w) r = r
  kept-perform id a (attach j) (d, w) r = kept-attach_journal id a j d w r

  kept-perform_all :
      (id : Str) (a : CommandAck) (ops : List (Op P W)) (s : Dispatcher P W × W)
      → lookup id s.0.seen ≡ some a
      → lookup id (perform_all ops s).0.seen ≡ some a
  unfolding perform_all
  kept-perform_all id a [] s r = r
  kept-perform_all id a (op ∷ ops) s r =
      kept-perform_all id a ops (perform op s) (kept-perform id a op s r)

  -- What HandleEvent does with an event once its command id is known.
  pub handle_event_decoded :
      (ev : Event P) {p : P} {id : Str} (d : Dispatcher P W) (w : W)
      → ev.payload ≡ some p
      → command_id_of dec ev p ≡ ok id
      → handle_event dec (some ev) d w ≡ handle_command (dec.event_type ev.type_name) id ev d w
  unfolding handle_event
  handle_event_decoded ev {p} {id} d w h e =
      ap (λ (o : Option P). handle_payload dec ev o d w) h ∙ rw (e, handle_payload) refl

  -- Once an event with a command id was answered with an ack, then after any further events,
  -- connectivity changes, registrations and journal attachments every event with that command id
  -- is answered with the same ack, connected or not, and neither the dispatcher nor the world
  -- changes.
  pub redelivery_replays :
      (ev ev' : Event P) (p p' : P) (id : Str) (a : CommandAck) (d : Dispatcher P W) (w : W)
      (ops : List (Op P W))
      → ev.payload ≡ some p
      → command_id_of dec ev p ≡ ok id
      → (handle_event dec (some ev) d w).0 ≡ ok a
      → ev'.payload ≡ some p'
      → command_id_of dec ev' p' ≡ ok id
      → let r = handle_event dec (some ev) d w in
        let s = perform_all ops (r.1, r.2) in handle_event dec (some ev') s.0 s.1 ≡ (ok a, s.0, s.1)
  redelivery_replays ev ev' p p' id a d w ops h e q h' e' =
      let r = handle_event dec (some ev) d w in
      let s = perform_all ops (r.1, r.2) in
      let step = handle_event_decoded ev d w h e in
      let there : lookup id r.1.seen ≡ some a =
        rw step
          (recorded-handle_command (dec.event_type ev.type_name) id a ev d w (rw step at q)) in
      handle_event_decoded ev' s.0 s.1 h' e'
      ∙ handle_command_seen (dec.event_type ev'.type_name) id ev' s.0 s.1
          (kept-perform_all id a ops (r.1, r.2) there)
