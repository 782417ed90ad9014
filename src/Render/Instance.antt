-- ===== src/Render/Instance.antt =====
-- internal/render/renderer.go: RenderRGDInstance. yaml.Marshal and the cluster's RGDs are parameters; an
-- `Rgd` is what the code reads of the object that the getter returns.
use inari_agent.Prelude.{
  Str, codes, Bool, ◌||◌, if◌then◌else◌, Option, none, some, Outcome, List, [], ◌∷◌, ◌++◌, is_empty,
  join,
}
use inari_agent.Prelude.Effect.{Effect, pure, lift, on_error, check, ◌>>=◌, ◌>>◌}
use inari_agent.Prelude.Docs.{Doc, text, object, Fields, has_field}
use inari_agent.Git.Target.{File, validate_file_path}
use inari_agent.Git.Provider.{target_error_text}
use inari_agent.Capability.Checksum.{insert_key}
use inari_agent.Render.Label.{managed_by_label, managed_by_value, instance_label, object_of}

-- spec.schema.apiVersion, spec.schema.kind and spec.schema.spec.required ("" and [] where absent)
pub record Rgd : Type 0 where
  pub api_version : Str
  pub kind : Str
  pub required : List Str

unfoldable missing_names : List Str → Fields → List Str
missing_names [] parameters = []
missing_names (n ∷ ns) parameters =
    let rest = missing_names ns parameters in if has_field n parameters then rest else n ∷ rest

-- sort.Strings
unfoldable sorted_names : List Str → List Str
sorted_names [] = []
sorted_names (n ∷ ns) = insert_key n (sorted_names ns)

-- The error of validateRequired, %v of the sorted names; `none` is no error.
unfoldable pub validate_required : Rgd → Fields → Option Str
unfolding missing_names sorted_names
validate_required rgd parameters = elim (missing_names rgd.required parameters) [
  | [] ↦ none
  | n ∷ ns ↦
      some
        (codes "missing required parameters: [" ++ (join b' ' (sorted_names (n ∷ ns)) ++ codes "]"))
]

-- The manifest of an instance.
unfoldable pub instance_doc : Rgd → Str → Str → Fields → Doc
instance_doc rgd name namespace parameters = object_of (
    (codes "apiVersion", text rgd.api_version)
    ∷ (codes "kind", text rgd.kind)
    ∷ (
      codes "metadata",
      object_of (
          (codes "name", text name)
          ∷ (codes "namespace", text namespace)
          ∷ (
            codes "labels",
            object_of
                ((managed_by_label, text managed_by_value) ∷ (instance_label, text name) ∷ []),
          )
          ∷ []),
    )
    ∷ (codes "spec", object parameters)
    ∷ [])

abbrev missing_field : Bool → Str → Option Str
missing_field b message = if b then some message else none

module _ {W : Type 0} (quote : Str → Str) (marshal : Doc → Outcome Str Str)
    (get_rgd : Str → Effect W Str Rgd) where
  -- RenderRGDInstance
  unfoldable pub render_rgd_instance : Str → Str → Str → Fields → Effect W Str (List File)
  unfolding instance_doc validate_required
  render_rgd_instance rgd_ref name namespace parameters = do
    check (missing_field (is_empty rgd_ref) (codes "render: missing rgd_ref")) (λ e. e)
    check (missing_field (is_empty name) (codes "render: missing instance_name")) (λ e. e)
    check (validate_file_path name)
        (λ e. codes "render: invalid instance_name: " ++ target_error_text quote e)
    rgd ←
        on_error (λ e. codes "render: resolve RGD " ++ (quote rgd_ref ++ (codes ": " ++ e)))
          (get_rgd rgd_ref)
    check
        (missing_field (is_empty rgd.api_version || is_empty rgd.kind)
          (codes "render: RGD " ++ (quote rgd_ref ++ codes " has no spec.schema apiVersion/kind")))
        (λ e. e)
    check (validate_required rgd parameters)
        (λ e. codes "render: RGD " ++ (quote rgd_ref ++ (codes ": " ++ e)))
    out ←
        on_error (λ e. codes "render: marshal instance: " ++ e)
          (lift (marshal (instance_doc rgd name namespace parameters)))
    pure (record { path = name ++ codes "/instance.yaml"; content = out } ∷ [])
