-- ===== src/Tunnel/Registry.antt =====
-- internal/tunnelagent/handler.go: the registry of connections, and the messages of the hub. The hub's
-- messages come one by one (the stream's receive loop); the connections' goroutines act between them
-- through `charge`, `inbound_step` and `unregister`.
pub mod Safety
pub mod Isolation
use inari_agent.Prelude.{
  ℕ, ◌+◌, Str, codes, Bool, true, false, if◌then◌else◌, Option, none, some, Map, lookup, insert,
  delete, List, [], ◌∷◌, ◌++◌, length, ltb, leb, ◌==◌, is_empty,
}
use inari_agent.Tunnel.Message.{Open, Frame, Payload, open_request, frame, close, Message}

pub record Conn : Type 0 where
  pub inbound : List Frame
  pub relayed : ℕ
  pub canceled : Bool

-- `installed` says that the stream client has set Send; `outbox` is what went to it, latest first.
pub record Handler : Type 0 where
  pub conns : Map Conn
  pub installed : Bool
  pub outbox : List Message
  pub max_conn_bytes : ℕ

abbrev inbound_capacity : ℕ
inbound_capacity = 64

abbrev default_max_conn_bytes : ℕ
default_max_conn_bytes = 1073741824

abbrev new_conn : Conn
new_conn = record { inbound = []; relayed = 0; canceled = false }

-- Handler.send
unfoldable send : Message → Handler → Handler
send m h = if h.installed then record h { outbox = m ∷ h.outbox } else h

unfoldable set_send : Bool → Handler → Handler
set_send v h = record h { installed = v }

unfoldable set_conn : Str → Conn → Handler → Handler
set_conn id cs h = record h { conns = insert id cs h.conns }

-- cs.cancel(), for the connection that is registered under the id
unfoldable cancel : Str → Conn → Handler → Handler
unfolding set_conn
cancel id cs h = set_conn id (record cs { canceled = true }) h

unfoldable open_new : Str → Handler → Handler
unfolding set_conn
open_new id h = elim (lookup id h.conns) [ some cs ↦ h | none ↦ set_conn id new_conn h ]

unfoldable open_conn : Str → Option Open → Handler → Handler
unfolding open_new
open_conn id none h = h
open_conn id (some o) h = if is_empty id then h else open_new id h

-- A frame for a registered connection: queued, or the connection is closed as overflowing.
unfoldable queue_frame : Str → Frame → Conn → Handler → Handler
unfolding send cancel
queue_frame id f cs h =
    if ltb (length cs.inbound) inbound_capacity
    then set_conn id (record cs { inbound = cs.inbound ++ (f ∷ []) }) h
    else cancel id cs
        (send (record { connection_id = id; payload = close (codes "inbound-overflow") }) h)

unfoldable deliver_frame : Str → Option Frame → Handler → Handler
unfolding queue_frame
deliver_frame id none h = h
deliver_frame id (some f) h = elim (lookup id h.conns) [
  | none ↦ h
  | some cs ↦ queue_frame id f cs h
]

unfoldable close_from_hub : Str → Handler → Handler
unfolding cancel
close_from_hub id h = elim (lookup id h.conns) [ none ↦ h | some cs ↦ cancel id cs h ]

-- Handle
unfoldable handle_payload : Str → Payload → Handler → Handler
unfolding open_conn deliver_frame close_from_hub
handle_payload id (open_request o) h = open_conn id o h
handle_payload id (frame f) h = deliver_frame id f h
handle_payload id (close reason) h = close_from_hub id h
handle_payload id _ h = h

unfoldable pub handle : Message → Handler → Handler
unfolding handle_payload
handle m h = handle_payload m.connection_id m.payload h

-- The end of a connection's goroutine.
unfoldable unregister : Str → Handler → Handler
unregister id h = record h { conns = delete id h.conns }

unfoldable effective_max : Handler → ℕ
effective_max h = if h.max_conn_bytes == 0 then default_max_conn_bytes else h.max_conn_bytes

-- chargeBytes, for the connection registered under the id
unfoldable charge_conn : Str → ℕ → Conn → Handler → Bool × Handler
unfolding send cancel effective_max
charge_conn id n cs h =
    let charged = record cs { relayed = cs.relayed + n } in
    if leb charged.relayed (effective_max h) then (true, set_conn id charged h) else (
      false,
      cancel id charged
          (send (record { connection_id = id; payload = close (codes "byte-cap-exceeded") }) h),
    )

unfoldable charge : Str → ℕ → Handler → Bool × Handler
unfolding charge_conn
charge id n h = elim (lookup id h.conns) [ none ↦ (false, h) | some cs ↦ charge_conn id n cs h ]

-- inboundPump: one frame off the queue, charged unless it is empty. Where the bytes are written (the
-- request body or the upgraded connection) is not in the model.
unfoldable charge_frame : Str → Frame → Handler → Handler
unfolding charge
charge_frame id f h = let r = charge id (length f.bytes) h in if is_empty f.bytes then h else r.1

unfoldable take_frame : Str → Conn → List Frame → Handler → Handler
unfolding charge_frame set_conn
take_frame id cs [] h = h
take_frame id cs (f ∷ fs) h = charge_frame id f (set_conn id (record cs { inbound = fs }) h)

unfoldable inbound_step : Str → Handler → Handler
unfolding take_frame
inbound_step id h = elim (lookup id h.conns) [ none ↦ h | some cs ↦ take_frame id cs cs.inbound h ]

-- ResetAll: every connection is cancelled, and unregistered by its goroutine before the call returns.
unfoldable reset_keys : List Str → Handler → Handler
unfolding unregister
reset_keys [] h = h
reset_keys (id ∷ ids) h = reset_keys ids (unregister id h)

unfoldable conn_ids : Map Conn → List Str
conn_ids [] = []
conn_ids ((id, cs) ∷ m) = id ∷ conn_ids m

unfoldable pub reset_all : Handler → Handler
unfolding reset_keys conn_ids
reset_all h = reset_keys (conn_ids h.conns) h

unfoldable pub active_conns : Handler → ℕ
active_conns h = length h.conns
