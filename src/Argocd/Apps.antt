-- ===== src/Argocd/Apps.antt =====
-- internal/argocd/apps.go and manifest.go: Client. reflect.DeepEqual and the decoding of a manifest are
-- parameters.
pub mod Ownership
use inari_agent.Prelude.{
  Str, codes, Bool, not, ◌&&◌, if◌then◌else◌, Option, none, some, Outcome, ok, err, insert, [], ◌∷◌,
  ◌++◌, str_eq, is_empty,
}
use inari_agent.Prelude.Effect.{Effect, pure, stop, on_error}
use inari_agent.Prelude.Docs.{
  Doc, text, flag, object, array, Fields, end, field, Docs, item, set_field,
}
use inari_agent.Render.Label.{
  managed_by_label, managed_by_value, instance_label, fields_of, object_of,
}
use inari_agent.Argocd.Objects.{
  ArgoKind, applications, appprojects, Object, KubeError, not_found, forbidden, kube_text,
  ObjectApi, is_managed,
}

-- The messages RegisterArgoCDApp, with its source and its sync policy.
pub record AppSource : Type 0 where
  pub repo_url : Str
  pub target_revision : Str
  pub chart : Str
  pub path : Str

pub record SyncPolicy : Type 0 where
  pub automated : Bool
  pub prune : Bool
  pub self_heal : Bool

pub record RegisterArgoCdApp : Type 0 where
  pub name : Str
  pub project : Str
  pub source : Option AppSource
  pub destination_server : Str
  pub destination_namespace : Str
  pub sync_policy : Option SyncPolicy

-- orDefault
unfoldable pub given_or : Str → Str → Str
given_or v def = if is_empty v then def else v

-- syncPolicy: `none` is a nil map.
unfoldable pub sync_policy_doc : Option SyncPolicy → Option Doc
sync_policy_doc none = none
sync_policy_doc (some sp) = some (
    if sp.automated
    then object_of (
        (
          codes "automated",
          object_of ((codes "prune", flag sp.prune) ∷ (codes "selfHeal", flag sp.self_heal) ∷ []),
        )
        ∷ [])
    else object end)

-- The spec of an Application.
unfoldable pub application_spec : RegisterArgoCdApp → AppSource → Fields
unfolding given_or sync_policy_doc set_field
application_spec m source =
    let place =
      if is_empty source.chart
      then (codes "path", text (given_or source.path (codes ".")))
      else (codes "chart", text source.chart) in
    let spec = fields_of (
      (codes "project", text (given_or m.project (codes "default")))
      ∷ (
        codes "source",
        object_of (
            (codes "repoURL", text source.repo_url)
            ∷ (codes "targetRevision", text (given_or source.target_revision (codes "main")))
            ∷ place
            ∷ []),
      )
      ∷ (
        codes "destination",
        object_of (
            (
              codes "server",
              text (given_or m.destination_server (codes "https://kubernetes.default.svc")),
            )
            ∷ (codes "namespace", text (given_or m.destination_namespace (codes "default")))
            ∷ []),
      )
      ∷ []) in
    elim (sync_policy_doc m.sync_policy) [
      | none ↦ spec
      | some sp ↦ set_field (codes "syncPolicy") sp spec
    ]

-- The spec of a per-team AppProject.
abbrev project_spec : Fields
project_spec = fields_of (
    (codes "sourceRepos", array (item (text (codes "*")) Docs.stop))
    ∷ (
      codes "destinations",
      array (
          item
            (object_of
              ((codes "server", text (codes "*")) ∷ (codes "namespace", text (codes "*")) ∷ []))
            Docs.stop),
    )
    ∷ (
      codes "clusterResourceWhitelist",
      array (
          item
            (object_of ((codes "group", text (codes "*")) ∷ (codes "kind", text (codes "*")) ∷ []))
            Docs.stop),
    )
    ∷ [])

abbrev api_version : Fields
api_version = field (codes "apiVersion") (text (codes "argoproj.io/v1alpha1")) end

module _ {W : Type 0} (quote : Str → Str) (deep_equal : Option Fields → Option Fields → Bool)
    (api : ObjectApi W) where
  abbrev naming : Str → Object → Str → Str
  naming verb obj e = codes "argocd: " ++ (verb ++ (obj.kind ++ (b' ' ∷ (obj.name ++ e))))

  abbrev create_error : Object → KubeError → Str
  create_error obj (forbidden e) = naming (codes "creating ") obj (
      codes
        " forbidden — the ArgoCD install's RBAC/AppProject configuration rejects Inari-managed objects: "
      ++ e)
  create_error obj e = naming (codes "create ") obj (codes ": " ++ kube_text e)

  -- upsert, where the object exists.
  unfoldable adjust : ArgoKind → Str → Object → Object → Effect W Str (Unit {0})
  adjust k namespace obj existing =
      if not (is_managed existing.labels)
      then stop (
          naming [] obj
            (codes " exists and is not Inari-managed; refusing to adopt implicitly (observe-only)"))
      else if deep_equal obj.spec existing.spec
      then pure tt
      else on_error (λ e. naming (codes "update ") obj (codes ": " ++ kube_text e))
          (api.update k namespace (record existing { spec = obj.spec }))

  -- upsert, by the answer to Get.
  unfoldable upsert_on :
      ArgoKind → Str → Object → Outcome KubeError Object → Effect W Str (Unit {0})
  unfolding adjust
  upsert_on k namespace obj (err (not_found e)) =
      on_error (create_error obj) (api.create k namespace obj)
  upsert_on k namespace obj (err e) = stop (naming (codes "get ") obj (codes ": " ++ kube_text e))
  upsert_on k namespace obj (ok existing) = adjust k namespace obj existing

  -- upsert
  unfoldable pub upsert : ArgoKind → Str → Object → Effect W Str (Unit {0})
  unfolding upsert_on
  upsert k namespace obj w =
      let (reply, w') = api.get k namespace obj.name w in upsert_on k namespace obj reply w'

  -- EnsureAppProject
  unfoldable pub ensure_app_project : Str → Str → Effect W Str (Unit {0})
  unfolding upsert
  ensure_app_project namespace name = upsert appprojects namespace (record {
    kind = codes "AppProject";
    name = name;
    namespace = namespace;
    labels = (managed_by_label, managed_by_value) ∷ [];
    spec = some project_spec;
    rest = api_version;
  })

  -- EnsureApplication, where there is a source with a repository.
  unfoldable ensure_from : Str → RegisterArgoCdApp → AppSource → Effect W Str (Unit {0})
  unfolding upsert application_spec
  ensure_from namespace m source = upsert applications namespace (record {
    kind = codes "Application";
    name = m.name;
    namespace = namespace;
    labels = (managed_by_label, managed_by_value) ∷ (instance_label, m.name) ∷ [];
    spec = some (application_spec m source);
    rest = api_version;
  })

  -- EnsureApplication
  unfoldable pub ensure_application : Str → RegisterArgoCdApp → Effect W Str (Unit {0})
  unfolding ensure_from
  ensure_application namespace m =
      if is_empty m.name
      then stop (codes "argocd: application name is required")
      else elim m.source [
        | none ↦
            stop
              (codes "argocd: application " ++ (quote m.name ++ codes " needs a source repo_url"))
        | some source ↦
            if is_empty source.repo_url
            then stop
                (codes "argocd: application " ++ (quote m.name ++ codes " needs a source repo_url"))
            else ensure_from namespace m source
      ]

  -- ensureManifest: `decode` is YAMLToJSON followed by json.Unmarshal.
  unfoldable pub ensure_manifest :
      (Str → Outcome Str Object) → ArgoKind → Str → Str → Str → Str → Effect W Str (Unit {0})
  unfolding upsert
  ensure_manifest decode k kind namespace name manifest = elim (decode manifest) [
    | err e ↦ stop (codes "argocd: decode " ++ (kind ++ (codes " manifest: " ++ e)))
    | ok obj ↦
        if not (str_eq obj.kind kind)
        then stop (
            codes "argocd: manifest kind "
            ++ (quote obj.kind ++ (codes " does not match " ++ kind)))
        else if not (is_empty obj.name) && not (str_eq obj.name name)
        then stop (
            codes "argocd: manifest name "
            ++ (quote obj.name ++ (codes " does not match " ++ quote name)))
        else upsert k namespace (record obj {
          name = name;
          namespace = namespace;
          labels = insert managed_by_label managed_by_value obj.labels;
        })
  ]
