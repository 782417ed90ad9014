-- ===== src/Argocd/Install.antt =====
-- internal/argocd/install.go: ApplyManifests. The YAML decoder is a parameter: what it yields is the list of
-- its documents. The GVR of a kind is what GVRFor computes.
use inari_agent.Prelude.{
  ℕ, Str, codes, if◌then◌else◌, Option, none, some, Outcome, ok, err, [], ◌∷◌, ◌++◌, ◌==◌, is_empty,
}
use inari_agent.Prelude.Effect.{Effect, pure, stop, lift, on_error, check, ◌>>=◌, ◌>>◌}
use inari_agent.Prelude.Texts.{lower}
use inari_agent.Argocd.Objects.{KubeError, not_found, kube_text}

-- A document of the bundle, with its group and version, and the rest of it.
pub record Manifest : Type 0 where
  pub api_group : Str
  pub api_version : Str
  pub kind : Str
  pub name : Str
  pub namespace : Str
  pub content : Str

-- What dec.Decode yields: the end, an error, an empty document, or a document.
pub data Stream : Type 0 where
  ended : Stream
  undecodable : Str → Stream
  blank : Stream → Stream
  document : Manifest → Stream → Stream

pub record Gvr : Type 0 where
  pub api_group : Str
  pub api_version : Str
  pub resource : Str

-- The text without its last byte, and that byte.
unfoldable last_split : Str → Option (Str × ℕ)
last_split [] = none
last_split (c ∷ s) = elim (last_split s) [
  | none ↦ some ([], c)
  | some (front, l) ↦ some (c ∷ front, l)
]

-- The naive plural of a kind, in lower case.
unfoldable pub plural : Str → Str
unfolding last_split
plural word = elim (last_split word) [
  | none ↦ codes "s"
  | some (front, l) ↦
      if l == b's'
      then word ++ codes "es"
      else if l == b'y'
      then front ++ codes "ies"
      else word ++ codes "s"
]

-- GVRFor
unfoldable pub gvr_for : Manifest → Outcome Str Gvr
unfolding plural lower
gvr_for m =
    if is_empty m.kind
    then err (codes "argocd: manifest with empty kind")
    else ok (record {
      api_group = m.api_group;
      api_version = m.api_version;
      resource = plural (lower m.kind);
    })

-- The dynamic client: the server-side apply patch, and Create.
pub record ApplyApi (W : Type 0) : Type 0 where
  pub apply_patch : Gvr → Str → Manifest → Effect W KubeError (Unit {0})
  pub create : Gvr → Str → Manifest → Effect W KubeError (Unit {0})

module _ {W : Type 0} (marshal : Manifest → Option Str) (api : ApplyApi W) where
  abbrev apply_text : Str → Manifest → KubeError → Str
  apply_text ns m e =
      codes "argocd: apply "
      ++ (m.kind ++ (b' ' ∷ (ns ++ (b'/' ∷ (m.name ++ (codes ": " ++ kube_text e))))))

  -- What follows the patch: Create where there is nothing to patch.
  unfoldable after_patch :
      Gvr → Str → Manifest → Outcome KubeError (Unit {0}) → Effect W Str (Unit {0})
  after_patch gvr ns m (ok u) = pure tt
  after_patch gvr ns m (err (not_found e)) = on_error (apply_text ns m) (api.create gvr ns m)
  after_patch gvr ns m (err e) = stop (apply_text ns m e)

  -- One document of the bundle.
  unfoldable apply_manifest : Str → Manifest → Effect W Str (Unit {0})
  unfolding gvr_for after_patch
  apply_manifest default_ns m = do
    gvr ← lift (gvr_for m)
    let ns = if is_empty m.namespace then default_ns else m.namespace
    let placed = record m { namespace = ns }
    check (marshal placed) (λ e. e)
    λ w. let (reply, w') = api.apply_patch gvr ns placed w in after_patch gvr ns placed reply w'

  -- ApplyManifests
  unfoldable pub apply_manifests : Stream → Str → Effect W Str (Unit {0})
  unfolding apply_manifest
  apply_manifests ended default_ns = pure tt
  apply_manifests (undecodable e) default_ns = stop (codes "argocd: decode bundle manifest: " ++ e)
  apply_manifests (blank more) default_ns = apply_manifests more default_ns
  apply_manifests (document m more) default_ns = do
    apply_manifest default_ns m
    apply_manifests more default_ns
