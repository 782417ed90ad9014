-- ===== src/Controller/Config.antt =====
-- internal/controller/gitops_config.go: the state repository of a tenant, and the handlers that configure
-- registers.
pub mod Rebinding
use inari_agent.Prelude.{
  Str, codes, Bool, not, ◌&&◌, if◌then◌else◌, Option, none, some, Outcome, List, [], ◌∷◌, ◌++◌,
  is_empty,
}
use inari_agent.Prelude.Effect.{Effect}
use inari_agent.Prelude.Docs.{Doc}
use inari_agent.Wire.{
  apply_bundle, register_argocd_app, invoke_action, render_rgd_instance, secret_store_apply,
  secret_store_delete, gitops_config_update, Decoder,
}
use inari_agent.Command.Identity.{appset_type, app_manifest_type}
use inari_agent.Command.Dispatcher.{Dispatcher, Journal, register, register_bridge, attach_journal}
use inari_agent.Command.Journal.{ConfigMapApi}
use inari_agent.Git.Target.{File}
use inari_agent.Git.Provider.{Provider}
use inari_agent.Render.Instance.{Rgd}
use inari_agent.Render.Bundle.{BundleRef}
use inari_agent.Command.Handlers.{Agent, Answer, Body, answered, outside}
use inari_agent.Command.Handlers.Messages.{Messages}
use inari_agent.Command.Handlers.GitOps.{
  render_rgd_instance_body, apply_bundle_body, secret_store_apply_body, secret_store_delete_body,
}
use inari_agent.Command.Handlers.Rebind.{gitops_config_update_body}
use inari_agent.Command.Handlers.Action.{ActionDeps, invoke_action_body}
use inari_agent.Command.Handlers.Register.{
  ArgoClient, register_argocd_app_body, register_manifest_body, decode_bridge_manifest,
}

pub record RepoConfig : Type 0 where
  pub bound_state_repo : Str
  pub state_repo : Str
  pub state_repo_org : Str

-- stateRepo
unfoldable pub state_repo_for : RepoConfig → Str → Str
state_repo_for c tenant_id =
    if not (is_empty c.bound_state_repo)
    then c.bound_state_repo
    else if not (is_empty c.state_repo)
    then c.state_repo
    else if not (is_empty c.state_repo_org) && not (is_empty tenant_id)
    then c.state_repo_org ++ (b'/' ∷ (tenant_id ++ codes "-inari-state"))
    else []

-- What the handlers are built from. `actions` is `none` without an API client of ArgoCD, `journal`
-- without a namespace for it.
pub record GitOpsParts (P W : Type 0) : Type 0 where
  pub quote : Str → Str
  pub messages : Messages P
  pub decoder : Decoder P
  pub git : Provider W
  pub marshal : Doc → Outcome Str Str
  pub get_rgd : Str → Effect W Str Rgd
  pub fetch : BundleRef → Effect W Str (List File)
  pub registration : ConfigMapApi W
  pub gate : Effect W Str Str
  pub client : ArgoClient W
  pub actions : Option (ActionDeps W)
  pub to_lower : Str → Str
  pub equal_fold : Str → Str → Bool
  pub truncated : Str → Str
  pub scan : Str → Option Str
  pub journal : Option (Journal (Agent W))

-- A handler that acts on the world alone
unfoldable pub on_world : {W : Type 0} → Body W Answer → Agent W → Answer × Agent W
on_world m a = let (r, w') = answered m a.outside in (r, record a { outside = w' })

module _ {P W : Type 0} (g : GitOpsParts P W) where
  -- d.Register of the handlers that share the binding
  unfoldable with_git_handlers : Dispatcher P (Agent W) → Dispatcher P (Agent W)
  with_git_handlers d =
      register gitops_config_update
        (λ ev. answered (
          gitops_config_update_body g.quote g.registration
            (g.messages.read_gitops_config_update ev.payload)))
        (register secret_store_delete
          (λ ev. answered (
            secret_store_delete_body g.quote g.git
              (g.messages.read_secret_store_delete ev.payload)))
          (register secret_store_apply
            (λ ev. answered (
              secret_store_apply_body g.quote g.git g.marshal
                (g.messages.read_secret_store_apply ev.payload)))
            (register apply_bundle
              (λ ev.
                answered (
                  apply_bundle_body g.quote g.git g.fetch
                    (g.messages.read_apply_bundle ev.payload)))
              (register render_rgd_instance
                (λ ev. answered (
                  render_rgd_instance_body g.quote g.git g.marshal g.get_rgd
                    (g.messages.read_render_rgd_instance ev.payload)))
                d))))

  -- d.Register and d.RegisterBridge of the handlers of ArgoCD objects
  unfoldable with_argocd_handlers : Dispatcher P (Agent W) → Dispatcher P (Agent W)
  with_argocd_handlers d =
      register_bridge app_manifest_type
        (λ ev. on_world (
          register_manifest_body g.gate g.client (codes "application")
            g.client.ensure_application_manifest (decode_bridge_manifest g.decoder ev.payload)))
        (register_bridge appset_type
          (λ ev. on_world (
            register_manifest_body g.gate g.client (codes "applicationset")
              g.client.ensure_application_set (decode_bridge_manifest g.decoder ev.payload)))
          (register register_argocd_app
            (λ ev. on_world (
              register_argocd_app_body g.gate g.client
                (g.messages.read_register_argocd_app ev.payload)))
            d))

  unfoldable with_action_handler :
      Option (ActionDeps W) → Dispatcher P (Agent W) → Dispatcher P (Agent W)
  with_action_handler none d = d
  with_action_handler (some deps) d =
      register invoke_action
        (λ ev. on_world (
          invoke_action_body g.quote g.to_lower g.equal_fold g.truncated g.scan deps
            (g.messages.read_invoke_action ev.payload)))
        d

  -- configure, for a tenant: the error of the journal, the dispatcher, and the agent with its binding.
  unfoldable pub configure :
      RepoConfig → Str → Dispatcher P (Agent W) → W → Option Str × Dispatcher P (Agent W) × Agent W
  unfolding with_git_handlers with_argocd_handlers with_action_handler on_world state_repo_for
  configure c tenant_id d w =
      let d' = with_action_handler g.actions (with_argocd_handlers (with_git_handlers d)) in
      let a : Agent W = record { default_state_repo = state_repo_for c tenant_id; outside = w } in
      elim g.journal [ none ↦ (none, d', a) | some j ↦ attach_journal j d' a ]
