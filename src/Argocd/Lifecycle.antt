-- ===== src/Argocd/Lifecycle.antt =====
-- internal/argocd/lifecycle.go (Detect) and install.go (EnsureReady). The list of deployments is a call of
-- the cluster; the installation of the bundle is the parameter `install`, ApplyManifests of the manifests.
pub mod Adoption
use inari_agent.Prelude.{
  ℕ, min, Str, codes, Bool, true, false, ◌&&◌, ◌||◌, if◌then◌else◌, Option, none, some, Outcome, ok,
  err, Map, lookup, List, [], ◌∷◌, ◌++◌, str_eq, is_empty, contains,
}
use inari_agent.Prelude.Effect.{Effect, pure, stop, lift, on_error, ◌>>=◌, ◌>>◌}
use inari_agent.Argocd.Skew.{parse_version, in_skew}

pub data Classification : Type 0 where
  adoptable out_of_skew : Classification

pub record Installation : Type 0 where
  pub namespace : Str
  pub version : Str
  pub helm_managed : Bool
  pub classification : Classification

pub record Container : Type 0 where
  pub name : Str
  pub image : Str

pub record Deployment : Type 0 where
  pub name : Str
  pub namespace : Str
  pub labels : Map Str
  pub containers : List Container

pub data Mode : Type 0 where
  bundle byo : Mode

-- l.Mode, where "" is bundle mode and so is any other text.
unfoldable pub mode_of : Str → Mode
mode_of s = if str_eq s (codes "byo") then byo else bundle

abbrev server_name : Str
server_name = codes "argocd-server"

abbrev has_value : Str → Option Str → Bool
has_value v none = false
has_value v (some s) = str_eq s v

module _ (quote : Str → Str) (atoi : Str → ℕ) where
  -- The version of the first container that runs ArgoCD, "" where there is none.
  unfoldable server_version : List Container → Outcome Str Str
  server_version [] = ok []
  server_version (c ∷ cs) =
      let rest = server_version cs in
      if str_eq c.name server_name || contains c.image (codes "argocd")
      then parse_version quote c.image
      else rest

  -- What is detected at a deployment
  unfoldable pub found_at : Deployment → Str → Installation
  found_at d version = record {
    namespace = d.namespace;
    version = version;
    helm_managed =
        has_value (codes "Helm") (lookup (codes "app.kubernetes.io/managed-by") d.labels);
    classification = if in_skew atoi version then adoptable else out_of_skew;
  }

  unfoldable installation_of : Deployment → Str → Outcome Str (Option Installation)
  unfolding found_at
  installation_of d version =
      if is_empty version
      then err (
          codes "argocd: detect: argocd-server in "
          ++ (d.namespace ++ codes " has no image version"))
      else ok (some (found_at d version))

  -- The loop of Detect; `none` is a nil installation.
  unfoldable pub detect_in : List Deployment → Outcome Str (Option Installation)
  unfolding server_version installation_of
  detect_in [] = ok none
  detect_in (d ∷ ds) =
      let rest = detect_in ds in
      if str_eq d.name server_name
      then (elim (server_version d.containers) [ err e ↦ err e | ok v ↦ installation_of d v ])
      else rest

pub record Lifecycle : Type 0 where
  pub mode : Str
  pub namespace : Str
  pub has_manifests : Bool

abbrev is_adoptable : Classification → Bool
is_adoptable adoptable = true
is_adoptable out_of_skew = false

module _ {W : Type 0} (quote : Str → Str) (atoi : Str → ℕ)
    (list_deployments : Effect W Str (List Deployment))
    (install : Str → Effect W Str (Unit {0})) where
  -- Detect
  unfoldable pub detect : Effect W Str (Option Installation)
  unfolding detect_in
  detect = do
    ds ← on_error (λ e. codes "argocd: detect: list deployments: " ++ e) list_deployments
    lift (detect_in quote atoi ds)

  abbrev conflict_text : Installation → Str → Str
  conflict_text inst ns =
      codes "argocd: existing installation in "
      ++ (inst.namespace
          ++ (codes " (version "
              ++ (inst.version
                  ++ (codes ") conflicts with bundle-managed mode in "
                      ++ (ns ++ codes "; set BYO mode to adopt or remove it")))))

  abbrev skew_text : Installation → Str
  skew_text inst =
      codes "argocd: refusing to adopt argocd-server in "
      ++ (inst.namespace
          ++ (codes " (version "
              ++ (inst.version
                  ++ codes
                      " out of supported skew 3.3/2.14, min v2.14.0); the agent runs observe-only — upgrade the tenant ArgoCD or install side-by-side")))

  abbrev pub install_namespace : Lifecycle → Str
  install_namespace l = if is_empty l.namespace then codes "argocd" else l.namespace

  -- Bundle mode, where nothing was found.
  unfoldable fresh_install : Bool → Str → Effect W Str Str
  fresh_install false ns =
      stop (codes "argocd: no installation found and no bundle manifests configured")
  fresh_install true ns =
      on_error (λ e. codes "argocd: install bundle: " ++ e) (install ns) >> pure ns

  -- EnsureReady, by the mode and what Detect found.
  unfoldable ready_on : Lifecycle → Mode → Option Installation → Effect W Str Str
  unfolding fresh_install
  ready_on l byo none = stop (codes "argocd: BYO mode but no argocd-server found in any namespace")
  ready_on l byo (some inst) =
      if is_adoptable inst.classification then pure inst.namespace else stop (skew_text inst)
  ready_on l bundle none = fresh_install l.has_manifests (install_namespace l)
  ready_on l bundle (some inst) =
      if str_eq inst.namespace (install_namespace l) && is_adoptable inst.classification
      then pure (install_namespace l)
      else stop (conflict_text inst (install_namespace l))

  -- EnsureReady
  unfoldable pub ensure_ready : Lifecycle → Effect W Str Str
  unfolding detect mode_of ready_on
  ensure_ready l = do inst ← detect; ready_on l (mode_of l.mode) inst
