-- ===== src/Command/Dispatcher/Durable.antt =====
-- internal/command/dispatcher.go: idempotency across restarts, through the interface Journal.
use inari_agent.Prelude.{
  Str, Bool-cases, Option-cases, Outcome-cases, Option, none, some, ok, Map, lookup, insert,
  lookup-insert, [], ◌∷◌, ◌≡◌, inl, inr, sym, ap, ◌∙◌, arith, str_eq, str_eq_sound,
}
use inari_agent.Wire.{EventType, CommandAck, Event, Decoder}
use inari_agent.Command.Identity.{command_id_of}
use inari_agent.Command.Dispatcher.{
  KindHandler, Journal, Dispatcher, Handling, preload, record_ack, execute, select_handler,
  handle_command, handle_event, attach_journal,
}
use inari_agent.Command.Dispatcher.Branches.{
  handle_command_seen, handle_command_closed, handle_command_open, record_ack_outcome,
  execute_cases,
}
use inari_agent.Command.Dispatcher.Replay.{handle_event_decoded, lookup-preload}

-- What a dispatcher relies on: a load right after a successful save reads the saved ack back.
pub record IsDurable {W : Type 0} (j : Journal W) : Type 0 where
  pub reads_back :
      (a : CommandAck) (w : W) (m : Map CommandAck)
      → (j.save a w).0 ≡ none
      → (j.load (j.save a w).1).0 ≡ ok m
      → lookup a.command_id m ≡ some a

-- Into a dispatcher that has no ack for the id, the loaded one comes.
lookup-preload_new :
    (id : Str) (a : CommandAck) (loaded seen : Map CommandAck)
    → lookup id seen ≡ none
    → lookup id loaded ≡ some a
    → lookup id (preload loaded seen) ≡ some a
unfolding preload lookup
lookup-preload_new id a [] seen n h = cc
lookup-preload_new id a ((k, v) ∷ loaded) seen n h = elim (Bool-cases (str_eq k id)) [
  | inl t ↦
      let e : lookup k seen ≡ none = ap (λ (s : Str). lookup s seen) (str_eq_sound k id t) ∙ n in
      rw (e, preload)
        (lookup-preload id a loaded (insert k v seen) (rw (lookup-insert, t) (rw (t, lookup) at h)))
  | inr t ↦ elim (Option-cases (lookup k seen)) [
    | inl e ↦
        rw (e, preload)
          (lookup-preload_new id a loaded (insert k v seen) (rw (lookup-insert, t) n)
            (rw (t, lookup) at h))
    | inr (o, e) ↦ rw (e, preload) (lookup-preload_new id a loaded seen n (rw (t, lookup) at h))
  ]
]

module _ {P W : Type 0} where
  record_ack_saved :
      (j : Journal W) (id : Str) (ack a : CommandAck) (d : Dispatcher P W) (w : W)
      → d.journal ≡ some j
      → (record_ack id ack d w).0 ≡ ok a
      → ((j.save a w).0 ≡ none) × ((record_ack id ack d w).2 ≡ (j.save a w).1)
  unfolding record_ack
  record_ack_saved j id ack a d w e h = ground arith

  execute_saved :
      (j : Journal W) (id : Str) (h : Option (KindHandler P W)) (ev : Event P) (d : Dispatcher P W)
      (w : W) (a : CommandAck)
      → d.journal ≡ some j
      → (execute id h ev d w).0 ≡ ok a
      → (a.command_id ≡ id)
        × ((v : W) × ((j.save a v).0 ≡ none) × ((execute id h ev d w).2 ≡ (j.save a v).1))
  execute_saved j id h ev d w a e q = elim (execute_cases id h ev d w) [
    | inl (_, (x, f)) ↦ cc (f, q)
    | inr (ack, v, c, f) ↦
        let r = rw f at q in
        let (none_left, world) = record_ack_saved j id ack a d v e r in
        (
          ap (λ (y : CommandAck). y.command_id) (record_ack_outcome id ack d v r) ∙ c,
          (v, none_left, ap (λ (y : Handling P W). y.2) f ∙ world),
        )
  ]

  handle_command_saved :
      (j : Journal W) (t : EventType) (id : Str) (ev : Event P) (d : Dispatcher P W) (w : W)
      (a : CommandAck)
      → d.journal ≡ some j
      → lookup id d.seen ≡ none
      → (handle_command t id ev d w).0 ≡ ok a
      → (a.command_id ≡ id)
        × ((v : W) × ((j.save a v).0 ≡ none) × ((handle_command t id ev d w).2 ≡ (j.save a v).1))
  handle_command_saved j t id ev d w a e n q = elim (Bool-cases d.connected) [
    | inl c ↦
        let o = handle_command_open t id ev d w n c in
        rw o (execute_saved j id (select_handler t ev.type_name d) ev d w a e (rw o at q))
    | inr c ↦ cc (ap (λ (x : Handling P W). x.0) (handle_command_closed t id ev d w n c), q)
  ]

  attached_seen :
      (j : Journal W) (d : Dispatcher P W) (w : W) (id : Str) (a : CommandAck)
      → lookup id d.seen ≡ none
      → (attach_journal j d w).0 ≡ none
      → ((m : Map CommandAck) → (j.load w).0 ≡ ok m → lookup id m ≡ some a)
      → lookup id (attach_journal j d w).1.seen ≡ some a
  unfolding attach_journal
  attached_seen j d w id a n q back = elim (Outcome-cases (j.load w).0) [
    | inl (x, e) ↦ cc (rw (e, attach_journal) at q)
    | inr (m, e) ↦ rw (e, attach_journal) (lookup-preload_new id a m d.seen n (back m e))
  ]

module _ {P W : Type 0} (dec : Decoder P) where
  -- Durable idempotency. A command that was not known is answered with an ack by a dispatcher with
  -- a durable journal, and the agent restarts: a dispatcher that has no ack for the command attaches
  -- the journal, with success, in the world that the first one left. Then every event with the same
  -- command id is answered with the same ack, without a handler being called.
  pub restart_replays :
      (j : Journal W) (durable : IsDurable j) (ev ev' : Event P) (p p' : P) (id : Str)
      (a : CommandAck) (d fresh : Dispatcher P W) (w : W)
      → d.journal ≡ some j
      → lookup id d.seen ≡ none
      → ev.payload ≡ some p
      → command_id_of dec ev p ≡ ok id
      → (handle_event dec (some ev) d w).0 ≡ ok a
      → lookup id fresh.seen ≡ none
      → (attach_journal j fresh (handle_event dec (some ev) d w).2).0 ≡ none
      → ev'.payload ≡ some p'
      → command_id_of dec ev' p' ≡ ok id
      → let s = attach_journal j fresh (handle_event dec (some ev) d w).2 in
        handle_event dec (some ev') s.1 s.2 ≡ (ok a, s.1, s.2)
  restart_replays j durable ev ev' p p' id a d fresh w je n h e q fn att h' e' =
      let w' = (handle_event dec (some ev) d w).2 in
      let s = attach_journal j fresh w' in
      let step = handle_event_decoded dec ev d w h e in
      let t = dec.event_type ev.type_name in
      let (c, (v, saved, world)) = handle_command_saved j t id ev d w a je n (rw step at q) in
      let there : w' ≡ (j.save a v).1 = ap (λ (y : Handling P W). y.2) step ∙ world in
      let back : (m : Map CommandAck) → (j.load w').0 ≡ ok m → lookup id m ≡ some a = λ m l.
        ap (λ (k : Str). lookup k m) (sym c)
        ∙ durable.reads_back a v m saved (ap (λ (u : W). (j.load u).0) (sym there) ∙ l) in
      handle_event_decoded dec ev' s.1 s.2 h' e'
      ∙ handle_command_seen (dec.event_type ev'.type_name) id ev' s.1 s.2
          (attached_seen j fresh w' id a fn att back)
