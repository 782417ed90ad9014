-- ===== src/Render/SecretStore.antt =====
-- internal/render/secretstore.go: the manifest of an external-secrets store. yaml.Marshal is a parameter.
use inari_agent.Prelude.{
  Str, codes, Bool, not, ◌&&◌, ◌||◌, if◌then◌else◌, Option, none, some, Outcome, ok, err, List, [],
  ◌∷◌, ◌++◌, str_eq, is_empty,
}
use inari_agent.Prelude.Docs.{Doc, text, object, Fields, set_field}
use inari_agent.Git.Target.{File, validate_file_path}
use inari_agent.Git.Provider.{target_error_text}
use inari_agent.Render.Label.{object_of, fields_of, managed_labels}

abbrev pub system_namespace : Str
system_namespace = codes "inari-system"

abbrev pub platform_scope : Str
platform_scope = codes "platform"

abbrev pub cluster_scope : Str
cluster_scope = codes "cluster"

pub record SecretStoreProvider : Type 0 where
  pub kind : Str
  pub region : Str
  pub server : Str
  pub path : Str
  pub project_id : Str
  pub vault_url : Str
  pub tenant_id : Str
  pub auth_name : Str
  pub auth_namespace : Str

-- secretRef
unfoldable pub secret_ref : Bool → Str → Str → Str → Doc
unfolding set_field
secret_ref include_ns name namespace key =
    let ref = fields_of ((codes "name", text name) ∷ (codes "key", text key) ∷ []) in
    object (if include_ns then set_field (codes "namespace") (text namespace) ref else ref)

-- A field that is set only to a text that is not empty.
abbrev with_text : Str → Str → Fields → Fields
with_text k s fs = if is_empty s then fs else set_field k (text s) fs

-- The kinds of providerSpec, one by one
module _ (p : SecretStoreProvider) (cluster_scoped : Bool) where
  abbrev auth_ref : Str → Doc
  auth_ref key = secret_ref cluster_scoped p.auth_name p.auth_namespace key

  unfoldable aws_spec : Doc
  aws_spec = object_of (
      (
        codes "aws",
        object_of (
            (codes "service", text (codes "SecretsManager"))
            ∷ (codes "region", text p.region)
            ∷ (
              codes "auth",
              object_of (
                  (
                    codes "secretRef",
                    object_of (
                        (codes "accessKeyIdSecretRef", auth_ref (codes "access-key-id"))
                        ∷ (codes "secretAccessKeySecretRef", auth_ref (codes "secret-access-key"))
                        ∷ []),
                  )
                  ∷ []),
            )
            ∷ []),
      )
      ∷ [])

  unfoldable vault_spec : Doc
  vault_spec = object_of (
      (
        codes "vault",
        object (
            with_text (codes "path") p.path (
              fields_of (
                (codes "server", text p.server)
                ∷ (
                  codes "auth",
                  object_of ((codes "tokenSecretRef", auth_ref (codes "token")) ∷ []),
                )
                ∷ []))),
      )
      ∷ [])

  unfoldable gcp_spec : Doc
  gcp_spec = object_of (
      (
        codes "gcpsm",
        object_of (
            (codes "projectID", text p.project_id)
            ∷ (
              codes "auth",
              object_of (
                  (
                    codes "secretRef",
                    object_of (
                        (codes "secretAccessTokenSecretRef", auth_ref (codes "secret-access-token"))
                        ∷ []),
                  )
                  ∷ []),
            )
            ∷ []),
      )
      ∷ [])

  unfoldable azure_spec : Doc
  azure_spec = object_of (
      (
        codes "azurekv",
        object (
            with_text (codes "tenantId") p.tenant_id (
              fields_of (
                (codes "vaultUrl", text p.vault_url)
                ∷ (
                  codes "authSecretRef",
                  object_of (
                      (codes "clientIdSecretRef", auth_ref (codes "client-id"))
                      ∷ (codes "clientSecretSecretRef", auth_ref (codes "client-secret"))
                      ∷ []),
                )
                ∷ []))),
      )
      ∷ [])

module _ (quote : Str → Str) where
  -- providerSpec
  unfoldable pub provider_spec : SecretStoreProvider → Bool → Outcome Str Doc
  unfolding aws_spec vault_spec gcp_spec azure_spec
  provider_spec p cluster_scoped =
      if str_eq p.kind (codes "awsSM")
      then ok (aws_spec p cluster_scoped)
      else if str_eq p.kind (codes "vault")
      then ok (vault_spec p cluster_scoped)
      else if str_eq p.kind (codes "gcpsm")
      then ok (gcp_spec p cluster_scoped)
      else if str_eq p.kind (codes "azurekv")
      then ok (azure_spec p cluster_scoped)
      else err (codes "render: unknown secret store provider kind " ++ quote p.kind)

  -- The metadata and the kind by the scope.
  unfoldable pub store_doc : Str → Bool → Doc → Doc
  store_doc name cluster_scoped provider = object_of (
      (codes "apiVersion", text (codes "external-secrets.io/v1beta1"))
      ∷ (
        codes "kind",
        text (if cluster_scoped then codes "ClusterSecretStore" else codes "SecretStore"),
      )
      ∷ (
        codes "metadata",
        (if cluster_scoped
            then object_of ((codes "name", text name) ∷ (codes "labels", managed_labels) ∷ [])
            else object_of (
                (codes "name", text name)
                ∷ (codes "namespace", text system_namespace)
                ∷ (codes "labels", managed_labels)
                ∷ [])),
      )
      ∷ (codes "spec", object_of ((codes "provider", provider) ∷ []))
      ∷ [])

  -- The checks of RenderSecretStore, in their order; `none` is no error.
  unfoldable store_error : Str → Str → SecretStoreProvider → Option Str
  store_error name scope p =
      if is_empty name
      then some (codes "render: missing secret store name")
      else elim (validate_file_path (name ++ codes ".yaml")) [
        | some e ↦ some (codes "render: invalid secret store name: " ++ target_error_text quote e)
        | none ↦
            if not (str_eq scope platform_scope) && not (str_eq scope cluster_scope)
            then some (codes "render: unknown secret store scope " ++ quote scope)
            else if is_empty p.auth_name || is_empty p.auth_namespace
            then some (
                codes "render: provider "
                ++ (p.kind ++ codes " auth secret name and namespace are required"))
            else if not (str_eq scope platform_scope)
                && not (str_eq p.auth_namespace system_namespace)
            then some (
                codes
                  "render: namespaced (cluster-scope) SecretStore auth secret must live in namespace "
                ++ (quote system_namespace
                    ++ (codes " (namespaced secretRefs cannot cross namespaces), got "
                        ++ quote p.auth_namespace)))
            else none
      ]

  -- RenderSecretStore
  unfoldable pub render_secret_store :
      (Doc → Outcome Str Str) → Str → Str → SecretStoreProvider → Outcome Str (List File)
  unfolding store_error provider_spec store_doc
  render_secret_store marshal name scope p = elim (store_error name scope p) [
    | some e ↦ err e
    | none ↦
        let cluster_scoped = str_eq scope platform_scope in
        elim (provider_spec p cluster_scoped) [
          | err e ↦ err e
          | ok provider ↦ elim (marshal (store_doc name cluster_scoped provider)) [
            | err e ↦ err (codes "render: marshal secret store: " ++ e)
            | ok out ↦ ok (record { path = name ++ codes ".yaml"; content = out } ∷ [])
          ]
        ]
  ]
