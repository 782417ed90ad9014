-- ===== src/Command/Handlers/Messages.antt =====
-- The command messages of inari.agent.v1, with the fields that the handlers read, and their decoding
-- (`UnmarshalTo` of the event's payload) as an interface.
use inari_agent.Prelude.{ℕ, Str, Option, Outcome}
use inari_agent.Prelude.Docs.{Fields}
use inari_agent.Git.Target.{Target}
use inari_agent.Argocd.Apps.{RegisterArgoCdApp}

-- agentv1.CommitPolicy: the value that the code names, and the others.
pub data CommitPolicy : Type 0 where
  pull_request : CommitPolicy
  other_policy : ℕ → CommitPolicy

pub data BundleOrigin : Type 0 where
  oci_origin : Str → BundleOrigin
  git_origin : Str → BundleOrigin
  no_origin : BundleOrigin

pub record ApplyBundle : Type 0 where
  pub command_id : Str
  pub target : Option Target
  pub source : BundleOrigin
  pub checksum : Str
  pub policy : CommitPolicy

pub record RenderRgdInstance : Type 0 where
  pub command_id : Str
  pub target : Option Target
  pub rgd_ref : Str
  pub instance_name : Str
  pub target_namespace : Str
  pub parameters : Option Fields
  pub policy : CommitPolicy

-- A reference to a credential Secret; the getters read "" from nil.
pub record SecretRef : Type 0 where
  pub name : Str
  pub namespace : Str

pub data StoreBackend : Type 0 where
  aws_sm : Str → SecretRef → StoreBackend
  vault : Str → Str → SecretRef → StoreBackend
  gcp_sm : Str → SecretRef → StoreBackend
  azure_kv : Str → Str → SecretRef → StoreBackend
  no_backend : StoreBackend

pub record SecretStoreApply : Type 0 where
  pub command_id : Str
  pub target : Option Target
  pub name : Str
  pub scope : Str
  pub backend : StoreBackend
  pub policy : CommitPolicy

pub record SecretStoreDelete : Type 0 where
  pub command_id : Str
  pub target : Option Target
  pub name : Str
  pub policy : CommitPolicy

pub record GitopsConfigUpdate : Type 0 where
  pub baseline_repo : Str

pub record ResourceRef : Type 0 where
  pub kind : Str
  pub name : Str

pub record InvokeAction : Type 0 where
  pub action : Str
  pub resource : Option ResourceRef
  pub user_credential_ref : Str
  pub parameters : Option Fields

-- UnmarshalTo at each message type, of a payload that may be nil.
pub record Messages (P : Type 0) : Type 0 where
  pub read_apply_bundle : Option P → Outcome Str ApplyBundle
  pub read_render_rgd_instance : Option P → Outcome Str RenderRgdInstance
  pub read_secret_store_apply : Option P → Outcome Str SecretStoreApply
  pub read_secret_store_delete : Option P → Outcome Str SecretStoreDelete
  pub read_gitops_config_update : Option P → Outcome Str GitopsConfigUpdate
  pub read_invoke_action : Option P → Outcome Str InvokeAction
  pub read_register_argocd_app : Option P → Outcome Str RegisterArgoCdApp
