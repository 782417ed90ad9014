-- ===== src/Tunnel/Registry/Safety.antt =====
-- internal/tunnelagent/handler.go: what the registry keeps, whatever the hub sends.
use inari_agent.Prelude.{
  ℕ, ◌+◌, ◌≤◌, Str, Bool, true, Bool-cases, ltb→lt, leb→le, Option-cases, none, some, lookup, List,
  [], ◌∷◌, ◌++◌, length, length-append, ◌≡◌, ◌⊎◌, inl, inr, refl, arith, ltb, leb, is_empty,
  AllValues, AllValues-insert, AllValues-delete, AllValues-lookup,
}
use inari_agent.Tunnel.Message.{Frame, Payload, open_request, frame, close, Message}
use inari_agent.Tunnel.Registry.{
  Conn, Handler, inbound_capacity, new_conn, send, set_send, set_conn, cancel, open_new, open_conn,
  queue_frame, deliver_frame, close_from_hub, handle_payload, handle, unregister, effective_max,
  charge_conn, charge, charge_frame, take_frame, inbound_step, reset_keys, conn_ids, reset_all,
}

-- What the handler does: a message of the hub, a charge of the outbound pump, a receive of the
-- inbound pump, a goroutine's end, a reset, a change of the stream.
pub data Act : Type 0 where
  receive : Message → Act
  charged : Str → ℕ → Act
  consumed : Str → Act
  finished : Str → Act
  reset : Act
  session : Bool → Act

unfoldable act : Act → Handler → Handler
unfolding handle charge inbound_step unregister reset_all set_send
act (receive m) h = handle m h
act (charged id n) h = (charge id n h).1
act (consumed id) h = inbound_step id h
act (finished id) h = unregister id h
act reset h = reset_all h
act (session v) h = set_send v h

unfoldable pub act_all : List Act → Handler → Handler
unfolding act
act_all [] h = h
act_all (a ∷ as') h = act_all as' (act a h)

-- A connection that is live (not cancelled) has not passed the byte cap, and no queue is overfull.
abbrev IsConnSafe : ℕ → Conn → Type 0
IsConnSafe limit cs =
    (length cs.inbound ≤ inbound_capacity) × ((cs.canceled ≡ true) ⊎ (cs.relayed ≤ limit))

abbrev pub IsSafe : Handler → Type 0
IsSafe h = AllValues (IsConnSafe (effective_max h)) h.conns

IsSafe-set_conn :
    (id : Str) (cs : Conn) (h : Handler)
    → IsSafe h
    → IsConnSafe (effective_max h) cs
    → IsSafe (set_conn id cs h)
unfolding set_conn effective_max
IsSafe-set_conn id cs h s c = AllValues-insert (IsConnSafe (effective_max h)) id cs h.conns s c

conn_safe :
    (id : Str) (cs : Conn) (h : Handler)
    → IsSafe h
    → lookup id h.conns ≡ some cs
    → IsConnSafe (effective_max h) cs
conn_safe id cs h s e = AllValues-lookup (IsConnSafe (effective_max h)) id cs h.conns s e

IsSafe-send : (m : Message) (h : Handler) → IsSafe h → IsSafe (send m h)
unfolding send effective_max
IsSafe-send m h s = elim (Bool-cases h.installed) [
  | inl t ↦ rw (t, send) s
  | inr t ↦ rw (t, send) s
]

IsSafe-cancel :
    (id : Str) (cs : Conn) (h : Handler)
    → IsSafe h
    → length cs.inbound ≤ inbound_capacity
    → IsSafe (cancel id cs h)
unfolding cancel
IsSafe-cancel id cs h s q = IsSafe-set_conn id (record cs { canceled = true }) h s (q, inl refl)

IsSafe-queue_frame :
    (id : Str) (f : Frame) (cs : Conn) (h : Handler)
    → IsSafe h
    → IsConnSafe (effective_max h) cs
    → IsSafe (queue_frame id f cs h)
unfolding queue_frame
IsSafe-queue_frame id f cs h s c = elim (Bool-cases (ltb (length cs.inbound) inbound_capacity)) [
  | inl t ↦
      rw (t, queue_frame)
        (IsSafe-set_conn id (record cs { inbound = cs.inbound ++ (f ∷ []) }) h s
          (omega (arith, length-append cs.inbound (f ∷ []), ltb→lt _ _ t), c.1))
  | inr t ↦ rw (t, queue_frame) (IsSafe-cancel id cs (send _ h) (IsSafe-send _ h s) c.0)
]

IsSafe-charge_conn :
    (id : Str) (n : ℕ) (cs : Conn) (h : Handler)
    → IsSafe h
    → IsConnSafe (effective_max h) cs
    → IsSafe (charge_conn id n cs h).1
unfolding charge_conn
IsSafe-charge_conn id n cs h s c = elim (Bool-cases (leb (cs.relayed + n) (effective_max h))) [
  | inl t ↦
      rw (t, charge_conn)
        (IsSafe-set_conn id (record cs { relayed = cs.relayed + n }) h s (c.0, inr (leb→le _ _ t)))
  | inr t ↦
      rw (t, charge_conn)
        (IsSafe-cancel id (record cs { relayed = cs.relayed + n }) (send _ h) (IsSafe-send _ h s)
          c.0)
]

IsSafe-open_new : (id : Str) (h : Handler) → IsSafe h → IsSafe (open_new id h)
unfolding open_new
IsSafe-open_new id h s = elim (Option-cases (lookup id h.conns)) [
  | inl e ↦ rw (e, open_new) (IsSafe-set_conn id new_conn h s (omega arith, inr (omega arith)))
  | inr (cs, e) ↦ rw (e, open_new) s
]

IsSafe-handle_payload :
    (id : Str) (p : Payload) (h : Handler) → IsSafe h → IsSafe (handle_payload id p h)
unfolding handle_payload open_conn deliver_frame close_from_hub
IsSafe-handle_payload id (open_request none) h s = s
IsSafe-handle_payload id (open_request (some o)) h s = elim (Bool-cases (is_empty id)) [
  | inl t ↦ rw t s
  | inr t ↦ rw t (IsSafe-open_new id h s)
]
IsSafe-handle_payload id (frame none) h s = s
IsSafe-handle_payload id (frame (some f)) h s = elim (Option-cases (lookup id h.conns)) [
  | inl e ↦ rw (e, deliver_frame) s
  | inr (cs, e) ↦ rw (e, deliver_frame) (IsSafe-queue_frame id f cs h s (conn_safe id cs h s e))
]
IsSafe-handle_payload id (close r) h s = elim (Option-cases (lookup id h.conns)) [
  | inl e ↦ rw (e, close_from_hub) s
  | inr (cs, e) ↦ rw (e, close_from_hub) (IsSafe-cancel id cs h s (conn_safe id cs h s e).0)
]
IsSafe-handle_payload id _ h s = s

IsSafe-charge : (id : Str) (n : ℕ) (h : Handler) → IsSafe h → IsSafe (charge id n h).1
unfolding charge
IsSafe-charge id n h s = elim (Option-cases (lookup id h.conns)) [
  | inl e ↦ rw (e, charge) s
  | inr (cs, e) ↦ rw (e, charge) (IsSafe-charge_conn id n cs h s (conn_safe id cs h s e))
]

IsSafe-charge_frame : (id : Str) (f : Frame) (h : Handler) → IsSafe h → IsSafe (charge_frame id f h)
unfolding charge_frame
IsSafe-charge_frame id f h s = elim (Bool-cases (is_empty f.bytes)) [
  | inl t ↦ rw t s
  | inr t ↦ rw t (IsSafe-charge id (length f.bytes) h s)
]

IsSafe-take_frame :
    (id : Str) (cs : Conn) (fs : List Frame) (h : Handler)
    → IsSafe h
    → (length fs ≤ inbound_capacity) × ((cs.canceled ≡ true) ⊎ (cs.relayed ≤ effective_max h))
    → IsSafe (take_frame id cs fs h)
unfolding take_frame
IsSafe-take_frame id cs [] h s c = s
IsSafe-take_frame id cs (f ∷ fs) h s c =
    IsSafe-charge_frame id f (set_conn id (record cs { inbound = fs }) h)
      (IsSafe-set_conn id (record cs { inbound = fs }) h s (omega (arith, c.0), c.1))

IsSafe-inbound_step : (id : Str) (h : Handler) → IsSafe h → IsSafe (inbound_step id h)
unfolding inbound_step
IsSafe-inbound_step id h s = elim (Option-cases (lookup id h.conns)) [
  | inl e ↦ rw (e, inbound_step) s
  | inr (cs, e) ↦
      rw (e, inbound_step) (IsSafe-take_frame id cs cs.inbound h s (conn_safe id cs h s e))
]

IsSafe-unregister : (id : Str) (h : Handler) → IsSafe h → IsSafe (unregister id h)
unfolding unregister effective_max
IsSafe-unregister id h s = AllValues-delete (IsConnSafe (effective_max h)) id h.conns s

IsSafe-reset_keys : (ids : List Str) (h : Handler) → IsSafe h → IsSafe (reset_keys ids h)
unfolding reset_keys
IsSafe-reset_keys [] h s = s
IsSafe-reset_keys (id ∷ ids) h s =
    IsSafe-reset_keys ids (unregister id h) (IsSafe-unregister id h s)

IsSafe-act : (a : Act) (h : Handler) → IsSafe h → IsSafe (act a h)
unfolding act
IsSafe-act (receive m) h s = IsSafe-handle_payload m.connection_id m.payload h s
IsSafe-act (charged id n) h s = IsSafe-charge id n h s
IsSafe-act (consumed id) h s = IsSafe-inbound_step id h s
IsSafe-act (finished id) h s = IsSafe-unregister id h s
IsSafe-act reset h s = IsSafe-reset_keys (conn_ids h.conns) h s
IsSafe-act (session v) h s = unfold set_send effective_max in s

-- Whatever the hub sends and the connections relay, every registered connection holds at most
-- `inbound_capacity` queued frames, and has relayed no more than the byte cap unless it is cancelled.
pub act_all-IsSafe : (acts : List Act) (h : Handler) → IsSafe h → IsSafe (act_all acts h)
unfolding act_all
act_all-IsSafe [] h s = s
act_all-IsSafe (a ∷ acts) h s = act_all-IsSafe acts (act a h) (IsSafe-act a h s)
