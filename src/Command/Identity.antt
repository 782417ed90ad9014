-- ===== src/Command/Identity.antt =====
-- internal/command/dispatcher.go (commandIDOf, requireID) and bridge.go: the command id of an event.
use inari_agent.Prelude.{Str, codes, ok, err, Outcome, if◌then◌else◌, is_empty, str_eq, ◌||◌}
use inari_agent.Prelude.{Bool}
use inari_agent.Wire.{
  EventType, Event, Decoder, apply_bundle, register_argocd_app, invoke_action, render_rgd_instance,
  secret_store_apply, secret_store_delete, gitops_config_update,
}
use inari_agent.Command.Fault.{
  Fault, decode_failed, bridge_decode_failed, unknown_event_type, missing_command_id,
}

unfoldable require_id : Str → Outcome Fault Str
require_id id = if is_empty id then err missing_command_id else ok id

abbrev pub appset_type : Str
appset_type = codes "EVENT_TYPE_REGISTER_ARGOCD_APPSET"

abbrev pub app_manifest_type : Str
app_manifest_type = codes "EVENT_TYPE_REGISTER_ARGOCD_APP_MANIFEST"

-- IsBridgeCommandType
unfoldable pub is_bridge_command_type : Str → Bool
is_bridge_command_type s = str_eq s appset_type || str_eq s app_manifest_type

module _ {P : Type 0} (dec : Decoder P) where
  unfoldable decode_kind : EventType → P → Outcome Fault Str
  unfolding require_id
  decode_kind t p = elim (dec.command_id t p) [
    | err e ↦ err (decode_failed t e)
    | ok id ↦ require_id id
  ]

  unfoldable bridge_command_id : Str → P → Outcome Fault Str
  unfolding require_id
  bridge_command_id type_name p =
      if dec.is_struct p
      then (elim (dec.struct_field p) [
        | err e ↦ err (bridge_decode_failed e)
        | ok field ↦ require_id (field (codes "commandId"))
      ])
      else err (unknown_event_type (dec.quote type_name))

  -- the switch of commandIDOf
  unfoldable command_id_for : EventType → Str → P → Outcome Fault Str
  unfolding decode_kind bridge_command_id
  command_id_for apply_bundle s p = decode_kind apply_bundle p
  command_id_for register_argocd_app s p = decode_kind register_argocd_app p
  command_id_for invoke_action s p = decode_kind invoke_action p
  command_id_for render_rgd_instance s p = decode_kind render_rgd_instance p
  command_id_for secret_store_apply s p = decode_kind secret_store_apply p
  command_id_for secret_store_delete s p = decode_kind secret_store_delete p
  command_id_for gitops_config_update s p = decode_kind gitops_config_update p
  command_id_for _ s p = bridge_command_id s p

  unfoldable pub command_id_of : Event P → P → Outcome Fault Str
  unfolding command_id_for
  command_id_of ev p = command_id_for (dec.event_type ev.type_name) ev.type_name p
