-- ===== src/Command/Handlers/GitOps.antt =====
-- internal/command/handlers_gitops.go and handlers_secretstore.go: the handlers that write to the tenant
-- state repository. The git provider, the bundle source and the renderers are parameters.
pub mod Containment
use inari_agent.Prelude.{
  Str, codes, not, ◌&&◌, if◌then◌else◌, Option, none, some, Outcome, ok, err, delete, List, [], ◌∷◌,
  ◌++◌, str_eq, is_empty,
}
use inari_agent.Prelude.Effect.{Effect, pure, lift, on_error, check, ◌>>=◌, ◌>>◌}
use inari_agent.Prelude.Docs.{Doc, Fields, end}
use inari_agent.Git.Target.{File, Target, TargetError, validate, validate_file_path}
use inari_agent.Git.Provider.{Provider, target_error_text}
use inari_agent.Render.Instance.{Rgd, render_rgd_instance}
use inari_agent.Render.SecretStore.{SecretStoreProvider, render_secret_store}
use inari_agent.Render.Bundle.{BundleRef}
use inari_agent.Command.Handlers.{Agent, Answer, refused, done, transient, Body, outside}
use inari_agent.Command.Handlers.Messages.{
  CommitPolicy, pull_request, other_policy, BundleOrigin, oci_origin, git_origin, no_origin,
  ApplyBundle, RenderRgdInstance, StoreBackend, aws_sm, vault, gcp_sm, azure_kv, no_backend,
  SecretStoreApply, SecretStoreDelete,
}

abbrev no_target : Target
no_target = record { repo = []; path = []; branch = [] }

-- A nil target, and nil parameters, are empty.
abbrev target_of : Option Target → Target
target_of none = no_target
target_of (some t) = t

abbrev params_of : Option Fields → Fields
params_of none = end
params_of (some fs) = fs

-- The check of validateFiles; `none` is no error.
unfoldable pub validate_files : List File → Option TargetError
validate_files [] = none
validate_files (f ∷ fs) =
    let rest = validate_files fs in
    elim (validate_file_path f.path) [ some e ↦ some e | none ↦ rest ]

-- providerFromProto; `none` is no provider.
unfoldable pub provider_from_proto : StoreBackend → Option SecretStoreProvider
provider_from_proto (aws_sm region auth) = some (record {
  kind = codes "awsSM";
  region = region;
  server = [];
  path = [];
  project_id = [];
  vault_url = [];
  tenant_id = [];
  auth_name = auth.name;
  auth_namespace = auth.namespace;
})
provider_from_proto (vault server path auth) = some (record {
  kind = codes "vault";
  region = [];
  server = server;
  path = path;
  project_id = [];
  vault_url = [];
  tenant_id = [];
  auth_name = auth.name;
  auth_namespace = auth.namespace;
})
provider_from_proto (gcp_sm project auth) = some (record {
  kind = codes "gcpsm";
  region = [];
  server = [];
  path = [];
  project_id = project;
  vault_url = [];
  tenant_id = [];
  auth_name = auth.name;
  auth_namespace = auth.namespace;
})
provider_from_proto (azure_kv url tenant auth) = some (record {
  kind = codes "azurekv";
  region = [];
  server = [];
  path = [];
  project_id = [];
  vault_url = url;
  tenant_id = tenant;
  auth_name = auth.name;
  auth_namespace = auth.namespace;
})
provider_from_proto no_backend = none

abbrev bundle_ref_of : Str → BundleOrigin → BundleRef
bundle_ref_of checksum (oci_origin r) = record { oci_ref = r; git_url = []; checksum = checksum }
bundle_ref_of checksum (git_origin u) = record { oci_ref = []; git_url = u; checksum = checksum }
bundle_ref_of checksum no_origin = record { oci_ref = []; git_url = []; checksum = checksum }

-- resolveTarget
unfoldable pub resolve_target : (Str → Str) → Str → Option Target → Outcome Str Target
resolve_target quote default_repo t =
    let gt = target_of t in
    if not (is_empty gt.repo) && not (str_eq gt.repo default_repo)
    then err (
        codes "target repo "
        ++ (quote gt.repo
            ++ (codes " is not the platform-owned state repo " ++ quote default_repo)))
    else elim (validate default_repo gt) [ err e ↦ err (target_error_text quote e) | ok u ↦ ok u ]

module _ {W : Type 0} (quote : Str → Str) (git : Provider W) where
  -- commit
  unfoldable pub commit : Target → List File → CommitPolicy → Str → Str → Effect W Str Str
  commit target files pull_request command_id message = do
    pr_url ←
        git.open_pr target files (codes "inari/" ++ command_id) message
          (codes "Rendered by inari-agent (command " ++ (command_id ++ codes ")."))
    pure (codes "pull request: " ++ pr_url)
  commit target files (other_policy n) command_id message = do
    (sha, changed) ← git.commit_files target files message
    pure (
        if changed
        then codes "commit " ++ sha
        else codes "commit " ++ (sha ++ codes " (no changes)"))

  -- The start of each handler: the message, and its target in the state repository.
  unfoldable decoded : {M : Type 0} → Outcome Str M → Body (Agent W) M
  decoded r = on_error (λ e. transient (codes "decode: " ++ e)) (lift r)

  unfoldable targeted : Option Target → Body (Agent W) Target
  unfolding resolve_target
  targeted t a = on_error refused (lift (resolve_target quote a.default_state_repo t)) a

  -- The end of the handlers that commit: the files are checked, then committed.
  unfoldable write : Target → List File → CommitPolicy → Str → Str → Body (Agent W) Answer
  unfolding validate_files commit
  write target files policy command_id message = do
    check (validate_files files) (λ e. refused (target_error_text quote e))
    outcome ← on_error transient (outside (commit target files policy command_id message))
    pure (done outcome)

  unfoldable pub render_rgd_instance_body :
      (Doc → Outcome Str Str)
      → (Str → Effect W Str Rgd)
      → Outcome Str RenderRgdInstance
      → Body (Agent W) Answer
  unfolding decoded targeted write
  render_rgd_instance_body marshal get_rgd payload = do
    m ← decoded payload
    target ← targeted m.target
    files ← on_error refused (
        outside (
          render_rgd_instance quote marshal get_rgd m.rgd_ref m.instance_name m.target_namespace
            (params_of m.parameters)))
    write target files m.policy m.command_id
        (codes "inari: render " ++ (m.rgd_ref ++ (codes " instance " ++ m.instance_name)))

  unfoldable pub apply_bundle_body :
      (BundleRef → Effect W Str (List File)) → Outcome Str ApplyBundle → Body (Agent W) Answer
  unfolding decoded targeted write
  apply_bundle_body fetch payload = do
    m ← decoded payload
    target ← targeted m.target
    files ← on_error refused (outside (fetch (bundle_ref_of m.checksum m.source)))
    write target files m.policy m.command_id (codes "inari: apply bundle")

  unfoldable pub secret_store_apply_body :
      (Doc → Outcome Str Str) → Outcome Str SecretStoreApply → Body (Agent W) Answer
  unfolding decoded targeted write provider_from_proto
  secret_store_apply_body marshal payload = do
    m ← decoded payload
    target ← targeted m.target
    provider ← lift (elim (provider_from_proto m.backend) [
      | none ↦ err (refused (codes "secret store " ++ (quote m.name ++ codes ": no provider set")))
      | some p ↦ ok p
    ])
    files ← on_error refused (lift (render_secret_store quote marshal m.name m.scope provider))
    write target files m.policy m.command_id (codes "inari: apply secret store " ++ m.name)

  -- Pull requests are not supported for deletes.
  abbrev policy_error : CommitPolicy → Option Str
  policy_error pull_request =
      some (codes "pull-request policy is not supported for secret store deletes")
  policy_error (other_policy n) = none

  unfoldable pub secret_store_delete_body : Outcome Str SecretStoreDelete → Body (Agent W) Answer
  unfolding decoded targeted
  secret_store_delete_body payload = do
    m ← decoded payload
    target ← targeted m.target
    check (validate_file_path (m.name ++ codes ".yaml")) (λ e. refused (target_error_text quote e))
    check (policy_error m.policy) refused
    (sha, changed) ← on_error transient (
        outside (
          git.delete_files target ((m.name ++ codes ".yaml") ∷ [])
            (codes "inari: delete secret store " ++ m.name)))
    pure (done (if changed then codes "commit " ++ sha else codes "already absent"))
