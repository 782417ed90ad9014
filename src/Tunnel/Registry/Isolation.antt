-- ===== src/Tunnel/Registry/Isolation.antt =====
-- internal/tunnelagent/handler.go: one connection's messages and the others, and the registry after a reset.
use inari_agent.Prelude.{
  Str, Bool, false, ◌||◌, if◌then◌else◌, Bool-cases, Option-cases, none, some, Map, lookup,
  lookup-insert, lookup-delete, List, [], ◌∷◌, length, ◌≡◌, inl, inr, refl, ap, ◌∙◌, arith, str_eq,
  str_eq_refl, ltb,
}
use inari_agent.Tunnel.Message.{Payload, open_request, frame, close, Message}
use inari_agent.Tunnel.Registry.{
  Conn, Handler, inbound_capacity, new_conn, send, set_conn, cancel, open_new, open_conn,
  queue_frame, deliver_frame, close_from_hub, handle_payload, handle, unregister, reset_keys,
  conn_ids, reset_all, active_conns,
}

lookup-set_conn :
    (id j : Str) (cs : Conn) (h : Handler)
    → str_eq id j ≡ false
    → lookup j (set_conn id cs h).conns ≡ lookup j h.conns
unfolding set_conn
lookup-set_conn id j cs h n = rw (lookup-insert, n)

conns-send : (m : Message) (h : Handler) → (send m h).conns ≡ h.conns
unfolding send
conns-send m h = ground arith

payload_isolates :
    (id : Str) (p : Payload) (j : Str) (h : Handler)
    → str_eq id j ≡ false
    → lookup j (handle_payload id p h).conns ≡ lookup j h.conns
unfolding handle_payload open_conn open_new deliver_frame queue_frame close_from_hub cancel
payload_isolates id (open_request none) j h n = refl
payload_isolates id (open_request (some o)) j h n =
    ground (arith, lookup-set_conn id j new_conn h n)
payload_isolates id (frame none) j h n = refl
payload_isolates id (frame (some f)) j h n = elim (Option-cases (lookup id h.conns)) [
  | inl e ↦ rw (e, deliver_frame)
  | inr (cs, e) ↦
      rw (e, deliver_frame)
        (elim (Bool-cases (ltb (length cs.inbound) inbound_capacity)) [
          | inl t ↦ rw (t, queue_frame) (lookup-set_conn id j _ h n)
          | inr t ↦
              rw (t, queue_frame)
                (lookup-set_conn id j _ (send _ h) n
                  ∙ ap (λ (m : Map Conn). lookup j m) (conns-send _ h))
        ])
]
payload_isolates id (close r) j h n = elim (Option-cases (lookup id h.conns)) [
  | inl e ↦ rw (e, close_from_hub)
  | inr (cs, e) ↦ rw (e, close_from_hub) (lookup-set_conn id j _ h n)
]
payload_isolates id _ j h n = refl

-- The message of one connection leaves every other connection as it was, also where it overflows
-- its own queue.
pub handle_isolates :
    (m : Message) (j : Str) (h : Handler)
    → str_eq m.connection_id j ≡ false
    → lookup j (handle m h).conns ≡ lookup j h.conns
unfolding handle
handle_isolates m j h n = payload_isolates m.connection_id m.payload j h n

listed : Str → List Str → Bool
listed j [] = false
listed j (id ∷ ids) = str_eq id j || listed j ids

lookup-reset_keys :
    (ids : List Str) (j : Str) (h : Handler)
    → lookup j (reset_keys ids h).conns ≡ (if listed j ids then none else lookup j h.conns)
unfolding reset_keys listed
lookup-reset_keys [] j h = refl
lookup-reset_keys (id ∷ ids) j h =
    lookup-reset_keys ids j (unregister id h)
    ∙ (unfold unregister in ground (arith, lookup-delete id j h.conns))

lookup-conn_ids : (j : Str) (m : Map Conn) → listed j (conn_ids m) ≡ false → lookup j m ≡ none
unfolding conn_ids listed lookup
lookup-conn_ids j [] h = refl
lookup-conn_ids j ((id, cs) ∷ m) h = ground (arith, lookup-conn_ids j m)

no_entries : (m : Map Conn) → ((j : Str) → lookup j m ≡ none) → length m ≡ 0
unfolding lookup
no_entries [] h = refl
no_entries ((id, cs) ∷ m) h = ground (arith, h id, str_eq_refl id)

-- ResetAll leaves no connection registered.
pub reset_all_empties : (h : Handler) → active_conns (reset_all h) ≡ 0
unfolding active_conns reset_all
reset_all_empties h = no_entries (reset_keys (conn_ids h.conns) h).conns (λ j.
    lookup-reset_keys (conn_ids h.conns) j h ∙ elim (Bool-cases (listed j (conn_ids h.conns))) [
      | inl t ↦ rw t
      | inr n ↦ rw n (lookup-conn_ids j h.conns n)
    ])
