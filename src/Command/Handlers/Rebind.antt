-- ===== src/Command/Handlers/Rebind.antt =====
-- internal/command/handlers_gitops.go: GitopsConfigUpdateHandler. The client of the registration ConfigMap
-- is a parameter.
pub mod Persistence
use inari_agent.Prelude.{
  Str, codes, not, if◌then◌else◌, Option, none, some, Outcome, ok, err, insert, [], ◌∷◌, ◌++◌,
  str_eq, is_empty,
}
use inari_agent.Prelude.Effect.{Effect, pure, lift, on_error, check, ◌>>=◌, ◌>>◌}
use inari_agent.Git.Target.{validate}
use inari_agent.Git.Provider.{target_error_text}
use inari_agent.Command.Journal.{
  ConfigMap, GetReply, found, not_found, get_failed, WriteReply, written, ConfigMapApi, write_text,
}
use inari_agent.Command.Handlers.{Agent, Answer, refused, done, transient, Body, outside}
use inari_agent.Command.Handlers.Messages.{GitopsConfigUpdate}

-- The check of Target.Validate with the default x/y; `none` is no error.
unfoldable pub repo_error : (Str → Str) → Str → Option Str
repo_error quote repo =
    elim (validate (codes "x/y") (record { repo = repo; path = []; branch = [] })) [
      | err e ↦ some (codes "invalid baseline_repo: " ++ target_error_text quote e)
      | ok t ↦ none
    ]

unfoldable empty_error : Str → Option Str
empty_error repo = if is_empty repo then some (codes "baseline_repo must not be empty") else none

abbrev pub baseline_key : Str
baseline_key = codes "baseline-repo"

-- What Get and Update of the ConfigMap return to the handler.
unfoldable pub got_map : GetReply → Outcome Str ConfigMap
got_map (found cm) = ok cm
got_map not_found = err (codes "not found")
got_map (get_failed e) = err e

unfoldable pub wrote_map : WriteReply → Outcome Str (Unit {0})
unfolding write_text
wrote_map written = ok tt
wrote_map r = err (write_text r)

abbrev pub rebound_map : Str → ConfigMap → ConfigMap
rebound_map repo cm = record cm { entries = insert baseline_key repo cm.entries }

-- `api` is the client of the ConfigMap inari-agent-registration in the handler's namespace.
module _ {W : Type 0} (quote : Str → Str) (api : ConfigMapApi W) where
  unfoldable pub get_registration : Effect W Str ConfigMap
  unfolding got_map
  get_registration w = let (r, w') = api.get w in (got_map r, w')

  unfoldable pub update_registration : ConfigMap → Effect W Str (Unit {0})
  unfolding wrote_map
  update_registration cm w = let (r, w') = api.update cm w in (wrote_map r, w')

  -- The ConfigMap is written first.
  unfoldable pub persist : Str → Body (Agent W) (Unit {0})
  unfolding get_registration update_registration
  persist repo = do
    cm ←
        on_error (λ e. refused (codes "get registration ConfigMap: " ++ e))
          (outside get_registration)
    on_error (λ e. refused (codes "update registration ConfigMap: " ++ e))
        (outside (update_registration (rebound_map repo cm)))

  -- deps.DefaultStateRepo = repo
  unfoldable pub bind_repo : Str → Body (Agent W) (Unit {0})
  bind_repo repo a = (ok tt, record a { default_state_repo = repo })

  unfoldable pub rebind : Str → Body (Agent W) Answer
  unfolding persist bind_repo
  rebind repo = do persist repo; bind_repo repo; pure (done (codes "rebound to " ++ repo))

  -- The body of the handler
  unfoldable pub gitops_config_update_body : Outcome Str GitopsConfigUpdate → Body (Agent W) Answer
  unfolding rebind repo_error empty_error
  gitops_config_update_body payload = do
    m ← on_error (λ e. transient (codes "decode: " ++ e)) (lift payload)
    check (empty_error m.baseline_repo) refused
    check (repo_error quote m.baseline_repo) refused
    λ a.
        if str_eq m.baseline_repo a.default_state_repo
        then pure (done (codes "no change")) a
        else rebind m.baseline_repo a
