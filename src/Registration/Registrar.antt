-- ===== src/Registration/Registrar.antt =====
-- internal/registration/registrar_connect.go: Register, over the call of the registration service.
use inari_agent.Prelude.{
  ℕ, Str, codes, Bool, ◌||◌, if◌then◌else◌, Option, none, some, Map, ◌++◌, is_empty,
}
use inari_agent.Prelude.Effect.{Effect, pure, on_error, check, ◌>>=◌, ◌>>◌}
use inari_agent.Argocd.Api.{without_slash}
use inari_agent.Registration.Credentials.{SecretReference, Credentials}

pub record RegisterRequest : Type 0 where
  pub registration_token : Str
  pub agent_version : Str
  pub contract_version : Str
  pub cluster_labels : Map Str
  pub kubernetes_version : Str

-- The response; the getters read "" from a nil delivery.
pub record RegisterResponse : Type 0 where
  pub cluster_id : Str
  pub client_id : Str
  pub oidc_issuer_url : Str
  pub delivery : SecretReference
  pub expire_hint : Option ℕ
  pub baseline_repo : Str

-- ConnectRegistrar
pub record ConnectRegistrar (W : Type 0) : Type 0 where
  pub call : RegisterRequest → Effect W Str RegisterResponse
  pub agent_version : Str
  pub tenant_id : Str
  pub control_plane : Str
  pub cluster_labels : Map Str
  pub kubernetes_version : Str

abbrev when : Bool → Str → Option Str
when b e = if b then some e else none

module _ {W : Type 0} (r : ConnectRegistrar W) where
  abbrev request_for : Str → RegisterRequest
  request_for token = record {
    registration_token = token;
    agent_version = r.agent_version;
    contract_version = codes "inari.agent.v1";
    cluster_labels = r.cluster_labels;
    kubernetes_version = r.kubernetes_version;
  }

  unfoldable pub credentials_of : RegisterResponse → Credentials
  unfolding without_slash
  credentials_of msg = record {
    tenant_id = r.tenant_id;
    cluster_id = msg.cluster_id;
    client_id = msg.client_id;
    token_url = without_slash msg.oidc_issuer_url ++ codes "/protocol/openid-connect/token";
    control_plane = r.control_plane;
    secret_ref = msg.delivery;
    expires_hint = msg.expire_hint;
    baseline_repo = msg.baseline_repo;
  }

  -- Register
  unfoldable pub register_cluster : Str → Effect W Str Credentials
  unfolding credentials_of
  register_cluster token = do
    check (when (is_empty token) (codes "registration: bootstrap token is empty")) (λ e. e)
    msg ←
        on_error (λ e. codes "registration: exchange bootstrap token: " ++ e)
          (r.call (request_for token))
    check
        (when (is_empty msg.cluster_id || is_empty msg.client_id || is_empty msg.oidc_issuer_url)
          (codes "registration: incomplete response from control plane"))
        (λ e. e)
    pure (credentials_of msg)
