-- ===== src/Tunnel/Message.antt =====
-- The messages of inari.tunnel.v2, which the repository takes from the inari-api module, as far as
-- internal/tunnelagent builds and reads them.
use inari_agent.Prelude.{ℕ, Str, Bool, Option, Map, List}

pub record Open : Type 0 where
  pub method : Str
  pub path : Str
  pub headers : Map (List Str)
  pub upgrade_expected : Bool

pub record Frame : Type 0 where
  pub bytes : Str
  pub half_close : Bool

-- A nil submessage is `none`.
pub data Payload : Type 0 where
  open_request : Option Open → Payload
  frame : Option Frame → Payload
  close : Str → Payload
  open_result : ℕ → Map (List Str) → Payload
  open_error : Str → Payload
  ping : Payload
  absent : Payload

pub record Message : Type 0 where
  pub connection_id : Str
  pub payload : Payload
