-- ===== src/Tunnel/Pump.antt =====
-- internal/tunnelagent/handler.go: runConn and outboundPump, for one connection. What the relay and
-- the response body give is an argument: the relay's result, and the reads of the body in order.
pub mod Merged
pub mod Protocol
use inari_agent.Prelude.{
  ℕ, ◌+◌, Str, codes, Bool, false, ◌||◌, if◌then◌else◌, Option, none, some, Map, List, [], ◌∷◌,
  ◌++◌, length, str_eq, leb, is_empty,
}
use inari_agent.Tunnel.Message.{Payload, frame, close, open_result, open_error}

-- How a read of the body ended: more to come, io.EOF, or an error with ctx live, past its deadline
-- or cancelled.
pub data ReadEnd : Type 0 where
  more eof broken expired canceled : ReadEnd

-- The bytes of a read, how it ended, and the bytes that the inbound pump charged to the connection since
-- the read before it: the cap is for both directions together.
pub record Read : Type 0 where
  pub bytes : Str
  pub end : ReadEnd
  pub inbound : ℕ

-- What the pump has done: the messages, in order, and the bytes charged.
pub record Pumped : Type 0 where
  pub sent : List Payload
  pub relayed : ℕ
  pub reason : Option Str

-- The reason of the terminal Close that an end gives; `none` goes on, and "" sends no Close.
unfoldable end_reason : ReadEnd → Option Str
end_reason more = none
end_reason eof = some (codes "complete")
end_reason broken = some (codes "read-error")
end_reason expired = some (codes "max-lifetime-exceeded")
end_reason canceled = some []

abbrev data_frame : Str → Payload
data_frame bytes = frame (some (record { bytes = bytes; half_close = false }))

abbrev emit : List Payload → Pumped → Pumped
emit ps p = record p { sent = ps ++ p.sent }

-- After a read was charged and its frame sent: the next read, or the end.
unfoldable go_on : List Payload → ℕ → Option Str → Pumped → Pumped
go_on frames charged none after = emit frames after
go_on frames charged (some why) after = record {
  sent = frames;
  relayed = charged;
  reason = some why;
}

-- One read: no bytes are charged and sent for an empty one; past the cap chargeBytes sends its own
-- Close, and the pump ends with reason "".
unfoldable pump_read : ℕ → ℕ → Str → Option Str → Pumped → Pumped
unfolding go_on
pump_read limit charged [] end after = go_on [] charged end after
pump_read limit charged (b ∷ bytes) end after =
    if leb charged limit then go_on (data_frame (b ∷ bytes) ∷ []) charged end after else record {
      sent = close (codes "byte-cap-exceeded") ∷ [];
      relayed = charged;
      reason = some [];
    }

-- With no reads left the pump waits in Read.
unfoldable pub outbound_pump : ℕ → ℕ → List Read → Pumped
unfolding end_reason pump_read
outbound_pump limit relayed [] = record { sent = []; relayed = relayed; reason = none }
outbound_pump limit relayed (r ∷ rs) =
    let charged = relayed + r.inbound + length r.bytes in
    let after = outbound_pump limit charged rs in
    pump_read limit charged r.bytes (end_reason r.end) after

-- What Relay.Do returns: an error, or a status with headers (and a body, which is read above).
pub data RelayResult : Type 0 where
  relay_failed : Str → RelayResult
  relayed_head : ℕ → Map (List Str) → RelayResult

-- The last message of runConn.
unfoldable closing : Option Str → List Payload
closing none = []
closing (some why) = if is_empty why then [] else close why ∷ []

-- runConn: the messages that it and its outbound pump send to the hub. Those of the inbound pump and of
-- deliverFrame (a Close past the cap or past the queue) come from other goroutines and are not among
-- them.
unfoldable pub run_conn : ℕ → ℕ → RelayResult → List Read → List Payload
unfolding outbound_pump closing
run_conn limit relayed (relay_failed e) reads = open_error e ∷ (close (codes "open-failed") ∷ [])
run_conn limit relayed (relayed_head status headers) reads =
    let p = outbound_pump limit relayed reads in
    open_result status headers ∷ (p.sent ++ closing p.reason)

-- methodAllowsBody
unfoldable method_allows_body : Str → Bool
method_allows_body method =
    str_eq method (codes "POST")
    || str_eq method (codes "PUT")
    || str_eq method (codes "PATCH")
    || str_eq method (codes "DELETE")
