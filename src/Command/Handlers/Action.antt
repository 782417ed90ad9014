-- ===== src/Command/Handlers/Action.antt =====
-- internal/command/handlers_action.go: InvokeActionHandler. The context that carries the bearer is an
-- argument of the API calls; its deadline, the command's timeout, is not modelled. strings.ToLower,
-- strings.EqualFold, int64 of a float and Sscan are parameters.
pub mod Credentials
use inari_agent.Prelude.{
  Str, codes, Bool, false, not, ◌&&◌, if◌then◌else◌, Option, none, some, Outcome, ok, err, [], ◌∷◌,
  ◌++◌, str_eq, is_empty,
}
use inari_agent.Prelude.Effect.{Effect, pure, stop, lift, on_error, check, ◌>>=◌, ◌>>◌}
use inari_agent.Prelude.Docs.{Doc, text, flag, number, Fields, end, get_field}
use inari_agent.Argocd.Objects.{applications, Object, kube_text, ObjectApi, is_managed}
use inari_agent.Argocd.Api.{ApiClient, sync, refresh, rollback}
use inari_agent.Command.Handlers.{Answer, refused, done, transient, Body}
use inari_agent.Command.Handlers.Messages.{InvokeAction}
use inari_agent.Command.Handlers.Redeem.{
  RedeemFailure, redeem_error, passed_on, redeem_text, is_terminal,
}

-- InvokeActionDeps: `resolve_namespace` and `redeemer` may be nil.
pub record ActionDeps (W : Type 0) : Type 0 where
  pub api : ApiClient W
  pub objects : ObjectApi W
  pub namespace : Str
  pub resolve_namespace : Option (Effect W Str Str)
  pub redeemer : Option (Str → Effect W RedeemFailure Str)

pub data Action : Type 0 where
  sync_action refresh_action rollback_action : Action

-- allowedActions
unfoldable pub allowed_action : Str → Option Action
allowed_action s =
    if str_eq s (codes "sync")
    then some sync_action
    else if str_eq s (codes "refresh")
    then some refresh_action
    else if str_eq s (codes "rollback")
    then some rollback_action
    else none

abbrev flag_of : Option Doc → Bool
flag_of (some (flag b)) = b
flag_of _ = false

abbrev fields_or_empty : Option Fields → Fields
fields_or_empty none = end
fields_or_empty (some fs) = fs

-- The answer to a redemption that failed.
unfoldable pub redeem_answer : RedeemFailure → Answer
redeem_answer (redeem_error code) =
    if is_terminal code
    then refused (redeem_text code)
    else transient (codes "redeem user credential: " ++ redeem_text code)
redeem_answer (passed_on e) = transient (codes "redeem user credential: " ++ e)

module _ {W : Type 0} (quote to_lower : Str → Str) (equal_fold : Str → Str → Bool)
    (truncated : Str → Str) (scan : Str → Option Str) (deps : ActionDeps W) where
  -- toInt64, as the decimal text of the number
  unfoldable to_int64 : Option Doc → Option Str
  to_int64 (some (number n)) = some (truncated n)
  to_int64 (some (text s)) = scan s
  to_int64 _ = none

  -- The action and the name of its target, or the refusal.
  unfoldable pub target_action : InvokeAction → Outcome Answer (Action × Str)
  unfolding allowed_action
  target_action m = elim (allowed_action (to_lower m.action)) [
    | none ↦ err (
        refused (
          codes "action "
          ++ (quote m.action ++ codes " not in allow-list (sync|refresh|rollback)")))
    | some action ↦ elim m.resource [
      | none ↦ err (refused (codes "missing target resource"))
      | some res ↦
          if is_empty res.name
          then err (refused (codes "missing target resource"))
          else if not (is_empty res.kind) && not (equal_fold res.kind (codes "Application"))
          then err (
              refused
                (codes "invoke-action targets Applications only, got kind " ++ quote res.kind))
          else ok (action, res.name)
    ]
  ]

  unfoldable namespace_with : Option (Effect W Str Str) → Body W Str
  namespace_with none = pure deps.namespace
  namespace_with (some resolve) = on_error refused resolve

  -- The ownership check
  unfoldable unmanaged_error : Str → Object → Option Str
  unmanaged_error name app =
      if is_managed app.labels
      then none
      else some (
          codes "application "
          ++ (name ++ codes " is not Inari-managed; refusing out-of-scope action"))

  -- The redemption of a reference
  unfoldable pub redeem_with : Option (Str → Effect W RedeemFailure Str) → Str → Body W Str
  unfolding redeem_answer
  redeem_with none ref = stop (
      refused
        (codes "per-user credentials not configured on this agent; refusing user-scoped action"))
  redeem_with (some redeem) ref = do
    bearer ← on_error redeem_answer (redeem ref)
    check
        (if is_empty bearer
          then some (codes "user credential redemption returned no token")
          else none)
        refused
    pure bearer

  -- The bearer of the context: "" without a reference.
  unfoldable pub bearer_for : Str → Body W Str
  unfolding redeem_with
  bearer_for ref = if is_empty ref then pure [] else redeem_with deps.redeemer ref

  unfoldable rollback_with : Option Str → Str → Str → Fields → Option (Effect W Str (Unit {0}))
  rollback_with none bearer name params = none
  rollback_with (some id) bearer name params =
      some (rollback deps.api bearer name id (flag_of (get_field (codes "dryRun") params)))

  -- The switch on the action; `none` is a rollback without an id.
  unfoldable action_call : Action → Str → Str → Fields → Option (Effect W Str (Unit {0}))
  unfolding to_int64 rollback_with
  action_call sync_action bearer name params = some (sync deps.api bearer name params)
  action_call refresh_action bearer name params =
      some (refresh deps.api bearer name (flag_of (get_field (codes "hard") params)))
  action_call rollback_action bearer name params =
      rollback_with (to_int64 (get_field (codes "id") params)) bearer name params

  abbrev action_text : Action → Str
  action_text sync_action = codes "sync"
  action_text refresh_action = codes "refresh"
  action_text rollback_action = codes "rollback"

  unfoldable run_action : Action → Str → Option (Effect W Str (Unit {0})) → Body W Answer
  run_action action name none = stop (refused (codes "rollback needs numeric parameter id"))
  run_action action name (some call) = do
    on_error
        (λ e. transient (
          codes "invoke " ++ (action_text action ++ (codes " on " ++ (name ++ (codes ": " ++ e))))))
        call
    pure (done (action_text action ++ (codes " invoked on application " ++ name)))

  -- The handler, once the message is decoded.
  unfoldable invoke_action_on : InvokeAction → Body W Answer
  unfolding target_action namespace_with unmanaged_error bearer_for action_call run_action
  invoke_action_on m = do
    (action, name) ← lift (target_action m)
    ns ← namespace_with deps.resolve_namespace
    app ←
        on_error
          (λ e. refused (codes "resolve application " ++ (name ++ (codes ": " ++ kube_text e))))
          (deps.objects.get applications ns name)
    check (unmanaged_error name app) refused
    bearer ← bearer_for m.user_credential_ref
    run_action action name (action_call action bearer name (fields_or_empty m.parameters))

  -- The body of the handler
  unfoldable pub invoke_action_body : Outcome Str InvokeAction → Body W Answer
  unfolding invoke_action_on
  invoke_action_body payload = do
    m ← on_error (λ e. transient (codes "decode: " ++ e)) (lift payload)
    invoke_action_on m
