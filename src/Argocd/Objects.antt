-- ===== src/Argocd/Objects.antt =====
-- The ArgoCD objects as the dynamic client of Kubernetes returns them, and that client as an interface.
use inari_agent.Prelude.{Str, Bool, false, Option, none, some, Map, lookup, str_eq}
use inari_agent.Prelude.Docs.{Fields}
use inari_agent.Prelude.Effect.{Effect}
use inari_agent.Render.Label.{managed_by_label, managed_by_value}

-- types.go: applications, appprojects and applicationsets of argoproj.io/v1alpha1.
pub data ArgoKind : Type 0 where
  applications appprojects applicationsets : ArgoKind

-- An unstructured object: what the code reads and writes, and the rest of it. A spec that is absent,
-- or no map, is `none`.
pub record Object : Type 0 where
  pub kind : Str
  pub name : Str
  pub namespace : Str
  pub labels : Map Str
  pub spec : Option Fields
  pub rest : Fields

-- Errors of the Kubernetes API, as apierrors tells them apart.
pub data KubeError : Type 0 where
  not_found : Str → KubeError
  forbidden : Str → KubeError
  other_error : Str → KubeError

unfoldable pub kube_text : KubeError → Str
kube_text (not_found e) = e
kube_text (forbidden e) = e
kube_text (other_error e) = e

-- Get, Create and Update of a kind in a namespace.
pub record ObjectApi (W : Type 0) : Type 0 where
  pub get : ArgoKind → Str → Str → Effect W KubeError Object
  pub create : ArgoKind → Str → Object → Effect W KubeError (Unit {0})
  pub update : ArgoKind → Str → Object → Effect W KubeError (Unit {0})

-- labels[ManagedByLabel] == ManagedByValue, where a missing label is "".
unfoldable pub is_managed : Map Str → Bool
is_managed labels = elim (lookup managed_by_label labels) [
  | none ↦ false
  | some v ↦ str_eq v managed_by_value
]
