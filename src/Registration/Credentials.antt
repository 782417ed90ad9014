-- ===== src/Registration/Credentials.antt =====
-- internal/registration/registrar.go: what registration yields.
use inari_agent.Prelude.{ℕ, Str, Option}

pub record SecretReference : Type 0 where
  pub store : Str
  pub name : Str
  pub namespace : Str
  pub key : Str

-- `expires_hint` is the zero time where it is `none`.
pub record Credentials : Type 0 where
  pub tenant_id : Str
  pub cluster_id : Str
  pub client_id : Str
  pub token_url : Str
  pub control_plane : Str
  pub secret_ref : SecretReference
  pub expires_hint : Option ℕ
  pub baseline_repo : Str
