-- ===== src/Wire.antt =====
-- The wire types of inari.agent.v1, which the repository takes from the inari-api module: the
-- names that its code mentions, and the library's decoding as an interface.
use inari_agent.Prelude.{ℕ, ◌+◌, Str, Bool, Option, Outcome, ◌==◌}

-- agentv1.EventType: the values that the code names, and any other.
pub data EventType : Type 0 where
  apply_bundle register_argocd_app invoke_action render_rgd_instance : EventType
  secret_store_apply secret_store_delete gitops_config_update : EventType
  resync_request ping pong command_ack command_nack capability_update status_update : EventType
  other : ℕ → EventType

pub data CommandResult : Type 0 where
  unspecified accepted applied failed : CommandResult

pub record CommandAck : Type 0 where
  pub command_id : Str
  pub result : CommandResult
  pub message : Str

-- agentv1.Event, over the type of its payloads (an `anypb.Any`; `none` is a nil payload).
pub record Event (P : Type 0) : Type 0 where
  pub event_id : Str
  pub type_name : Str
  pub resource_id : Str
  pub sequence : ℕ
  pub time : Option ℕ
  pub payload : Option P

-- What the generated code and protobuf do. `command_id` is UnmarshalTo at the message of an event
-- type followed by its CommandId; `is_struct` is MessageIs(&structpb.Struct{}); `struct_field` is
-- UnmarshalTo(&doc) followed by the string value of a field ("" where there is none).
pub record Decoder (P : Type 0) : Type 0 where
  pub event_type : Str → EventType
  pub type_string : EventType → Str
  pub command_id : EventType → P → Outcome Str Str
  pub is_struct : P → Bool
  pub struct_field : P → Outcome Str (Str → Str)
  pub quote : Str → Str

-- Enum values are compared as numbers.
abbrev type_number : EventType → ℕ
type_number apply_bundle = 0
type_number register_argocd_app = 1
type_number invoke_action = 2
type_number render_rgd_instance = 3
type_number secret_store_apply = 4
type_number secret_store_delete = 5
type_number gitops_config_update = 6
type_number resync_request = 7
type_number ping = 8
type_number pong = 9
type_number command_ack = 10
type_number command_nack = 11
type_number capability_update = 12
type_number status_update = 13
type_number (other n) = n + 14

unfoldable pub same_type : EventType → EventType → Bool
same_type t u = type_number t == type_number u
