-- ===== src/Command/Fault.antt =====
-- internal/command/errors.go and the error values that dispatcher.go and bridge.go build.
use inari_agent.Prelude.{Str, codes, [], ◌++◌}
use inari_agent.Wire.{
  EventType, apply_bundle, register_argocd_app, invoke_action, render_rgd_instance,
  secret_store_apply, secret_store_delete, gitops_config_update,
}

-- The error inside a `command.Error`.
pub data Cause : Type 0 where
  disconnected : Cause
  handler_failed : Str → Cause
  journal_failed : Str → Cause

-- Errors raised before the command id is known are plain; the others carry it (`command.Error`).
pub data Fault : Type 0 where
  empty_event : Fault
  decode_failed : EventType → Str → Fault
  bridge_decode_failed : Str → Fault
  unknown_event_type : Str → Fault
  missing_command_id : Fault
  command_error : Str → Cause → Fault

unfoldable kind_name : EventType → Str
kind_name apply_bundle = codes "apply-bundle"
kind_name register_argocd_app = codes "register-argocd-app"
kind_name invoke_action = codes "invoke-action"
kind_name render_rgd_instance = codes "render-rgd-instance"
kind_name secret_store_apply = codes "secret-store-apply"
kind_name secret_store_delete = codes "secret-store-delete"
kind_name gitops_config_update = codes "gitops-config-update"
kind_name _ = []

-- err.Error(); an unknown type is quoted where the error is built.
unfoldable pub fault_text : Fault → Str
unfolding kind_name
fault_text empty_event = codes "command: empty event"
fault_text (decode_failed t e) = codes "command: decode " ++ (kind_name t ++ (codes ": " ++ e))
fault_text (bridge_decode_failed e) = codes "command: decode bridge payload: " ++ e
fault_text (unknown_event_type q) = codes "command: unknown event type " ++ q
fault_text missing_command_id = codes "command: missing command_id"
fault_text (command_error id disconnected) =
    codes "command " ++ (id ++ codes ": stream disconnected, failing closed")
fault_text (command_error id (handler_failed e)) = codes "command " ++ (id ++ (codes ": " ++ e))
fault_text (command_error id (journal_failed e)) =
    codes "command " ++ (id ++ (codes ": journal record: " ++ e))
