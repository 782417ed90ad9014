-- ===== src/Controller/Config/Rebinding.antt =====
-- A rebinding of the state repository across a restart of the agent.
use inari_agent.Prelude.{
  Str, Bool, true, false, if◌then◌else◌, ok-injective, some-injective, Option, none, some, Outcome,
  ok, err, Map, lookup, ◌≡◌, ◌⊎◌, inl, inr, refl, sym, ap, ◌∙◌, is_empty,
}
use inari_agent.Prelude.Effect.{Effect}
use inari_agent.Command.Journal.{ConfigMapApi}
use inari_agent.Command.Journal.Saved.{IsStore}
use inari_agent.Command.Handlers.{Agent, Answer}
use inari_agent.Command.Handlers.Messages.{GitopsConfigUpdate}
use inari_agent.Command.Handlers.Rebind.{baseline_key, gitops_config_update_body}
use inari_agent.Command.Handlers.Rebind.Persistence.{IsPersisted, IsSettled, body-IsSettled}
use inari_agent.Registration.Credentials.{SecretReference, Credentials}
use inari_agent.Controller.Identity.{
  value_at, read_credentials, credentials_in, load_credentials, loaded_from,
}
use inari_agent.Controller.Config.{RepoConfig, state_repo_for}

credentials_in-read :
    (d : Map Str) (c : Credentials) → credentials_in d ≡ some c → read_credentials d ≡ c
unfolding credentials_in
credentials_in-read d c h = settled _ h
  where
    settled :
        (b : Bool)
        → ◌≡◌ {A = Option Credentials} (if b then none else some (read_credentials d)) (some c)
        → read_credentials d ≡ c
    settled true e = cc
    settled false e = some-injective e

load-baseline :
    {W : Type 0} (api : ConfigMapApi W) (registrar : Option (Str → Effect W Str Credentials))
    (read_secret : SecretReference → Effect W Str Str) (repo : Str) (w : W) (c : Credentials)
    → IsPersisted api repo w
    → (load_credentials (some api) registrar read_secret w).0 ≡ ok (some c)
    → c.baseline_repo ≡ repo
unfolding load_credentials loaded_from read_credentials value_at
load-baseline api registrar read_secret repo w c (cm, there, under) h =
    let same : credentials_in cm.entries ≡ some c = ok-injective (rw there at h) in
    ap (λ (k : Credentials). k.baseline_repo) (sym (credentials_in-read cm.entries c same))
    ∙ value_found cm.entries under
  where
    value_found : (d : Map Str) → lookup baseline_key d ≡ some repo → value_at baseline_key d ≡ repo
    value_found d e = rw (e, value_at) refl

-- How a rebinding to a repository ends, from `a`: with an error the binding is as before. Else the
-- binding is the repository, and either it was that before and nothing has changed, or it is also
-- what a start resolves from the credentials that it loads.
unfoldable pub IsRebound :
    {W : Type 0}
    → (Effect W Str (Option Credentials))
    → Str
    → Agent W
    → Outcome Answer Answer × Agent W
    → Type 0
IsRebound load repo a (err r, b) = b.default_state_repo ≡ a.default_state_repo
IsRebound load repo a (ok r, b) =
    (b.default_state_repo ≡ repo)
    × ((b ≡ a)
        ⊎ ((c : Credentials) (config : RepoConfig) (tenant_id : Str)
            → (load b.outside).0 ≡ ok (some c)
            → state_repo_for (record config { bound_state_repo = c.baseline_repo }) tenant_id
              ≡ repo))

-- A rebinding survives a restart, if the handler writes the ConfigMap that the controller reads. A
-- gitops-config-update that is answered with success leaves the binding at its repository; and then
-- either that was the binding before and nothing at all has changed ("no change" writes nothing), or
-- it is the state repository that the next start resolves from the credentials that it loads, whatever
-- its tenant and its configuration. One that is answered with an error leaves the binding as it was.
pub rebinding_survives :
    {W : Type 0} (quote : Str → Str) (api : ConfigMapApi W)
    (registrar : Option (Str → Effect W Str Credentials))
    (read_secret : SecretReference → Effect W Str Str) (m : GitopsConfigUpdate) (a : Agent W)
    → IsStore api
    → IsRebound
        (load_credentials (some api) registrar read_secret)
        m.baseline_repo
        a
        (gitops_config_update_body quote api (ok m) a)
unfolding state_repo_for IsRebound IsSettled
rebinding_survives {W} quote api registrar read_secret m a store =
    from (gitops_config_update_body quote api (ok m) a) (body-IsSettled quote api store m a)
  where
    resolved :
        (config : RepoConfig) (tenant_id s repo : Str)
        → is_empty repo ≡ false
        → s ≡ repo
        → state_repo_for (record config { bound_state_repo = s }) tenant_id ≡ repo
    resolved config tenant_id s repo full same =
        let bound : is_empty s ≡ false = ap is_empty same ∙ full in rw bound same

    from :
        (p : Outcome Answer Answer × Agent W)
        → IsSettled api m.baseline_repo a p
        → IsRebound (load_credentials (some api) registrar read_secret) m.baseline_repo a p
    from (err r, b) same = same
    from (ok r, b) (full, bound, inl same) = (bound, inl same)
    from (ok r, b) (full, bound, inr there) = (
      bound,
      inr (λ c config tenant_id h.
          resolved config tenant_id c.baseline_repo m.baseline_repo full
            (load-baseline api registrar read_secret m.baseline_repo b.outside c there h)),
    )
