-- ===== src/Controller/Identity.antt =====
-- internal/controller/agent_controller.go: the credential phase of Start, up to the client secret. The client
-- of the registration ConfigMap, the registrar and the secret reader are parameters.
pub mod Restart
use inari_agent.Prelude.{
  Str, codes, Bool, true, not, ◌||◌, if◌then◌else◌, Option, none, some, Outcome, ok, err, Map,
  lookup, [], ◌∷◌, ◌++◌, is_empty,
}
use inari_agent.Prelude.Effect.{Effect, pure, on_error, ◌>>=◌, ◌>>◌}
use inari_agent.Command.Journal.{
  GetReply, found, not_found, get_failed, WriteReply, written, already_exists, ConfigMapApi,
  write_text,
}
use inari_agent.Registration.Credentials.{SecretReference, Credentials}

-- systemNamespace: the field, then POD_NAMESPACE, then the default.
unfoldable pub system_namespace : Str → Str → Str
system_namespace given pod =
    if not (is_empty given) then given else if not (is_empty pod) then pod else codes "inari-system"

-- d[key], "" where it is missing
unfoldable pub value_at : Str → Map Str → Str
value_at k m = elim (lookup k m) [ none ↦ [] | some v ↦ v ]

-- What a ConfigMap holds of credentials
unfoldable pub read_credentials : Map Str → Credentials
unfolding value_at
read_credentials d = record {
  tenant_id = value_at (codes "tenant-id") d;
  cluster_id = value_at (codes "cluster-id") d;
  client_id = value_at (codes "client-id") d;
  token_url = value_at (codes "token-url") d;
  control_plane = value_at (codes "control-plane") d;
  secret_ref = record {
    store = value_at (codes "secret-store") d;
    name = value_at (codes "secret-name") d;
    namespace = value_at (codes "secret-namespace") d;
    key = value_at (codes "secret-key") d;
  };
  expires_hint = none;
  baseline_repo = value_at (codes "baseline-repo") d;
}

-- The credentials that a ConfigMap yields; `none` if they are incomplete.
unfoldable pub credentials_in : Map Str → Option Credentials
unfolding read_credentials
credentials_in d =
    let c = read_credentials d in
    if is_empty c.cluster_id || (is_empty c.client_id || is_empty c.token_url) then none else some c

-- The data of the ConfigMap that persistCredentials creates.
unfoldable pub registration_data : Credentials → Map Str
registration_data c =
    (codes "tenant-id", c.tenant_id)
    ∷ (codes "cluster-id", c.cluster_id)
    ∷ (codes "client-id", c.client_id)
    ∷ (codes "token-url", c.token_url)
    ∷ (codes "control-plane", c.control_plane)
    ∷ (codes "secret-store", c.secret_ref.store)
    ∷ (codes "secret-name", c.secret_ref.name)
    ∷ (codes "secret-namespace", c.secret_ref.namespace)
    ∷ (codes "secret-key", c.secret_ref.key)
    ∷ (codes "baseline-repo", c.baseline_repo)
    ∷ []

unfoldable pub loaded_from : GetReply → Outcome Str (Option Credentials)
unfolding credentials_in
loaded_from not_found = ok none
loaded_from (get_failed e) = err e
loaded_from (found cm) = ok (credentials_in cm.entries)

unfoldable pub persisted_by : WriteReply → Outcome Str (Unit {0})
unfolding write_text
persisted_by written = ok tt
persisted_by already_exists = ok tt
persisted_by r = err (write_text r)

-- The reconciler's token, and whether it was forgotten; with the world.
pub record Booting (W : Type 0) : Type 0 where
  pub bootstrap_token : Str
  pub token_forgotten : Bool
  pub world : W

-- What the credential phase comes to: the agent waits without a control plane, or it has credentials
-- and the client secret.
pub data Phase : Type 0 where
  standalone : Phase
  registered : Credentials → Str → Phase

-- `api` is `none` where no Kubernetes client is configured, `registrar` where there is no registrar.
module _ {W : Type 0} (api : Option (ConfigMapApi W))
    (registrar : Option (Str → Effect W Str Credentials))
    (read_secret : SecretReference → Effect W Str Str) where
  -- A call of the world
  abbrev calling : {A : Type 0} → Effect W Str A → Effect (Booting W) Str A
  calling m b = let (r, w') = m b.world in (r, record b { world = w' })

  -- loadPersistedCredentials
  unfoldable pub load_credentials : Effect W Str (Option Credentials)
  unfolding loaded_from
  load_credentials w = elim api [
    | none ↦ (ok none, w)
    | some a ↦ let (r, w') = a.get w in (loaded_from r, w')
  ]

  -- persistCredentials
  unfoldable pub persist_credentials : Credentials → Effect W Str (Unit {0})
  unfolding registration_data persisted_by
  persist_credentials c w = elim api [
    | none ↦ (ok tt, w)
    | some a ↦ let (r, w') = a.create (registration_data c) w in (persisted_by r, w')
  ]

  -- register: the token is forgotten whatever the registrar returns.
  unfoldable register_with : (Str → Effect W Str Credentials) → Effect (Booting W) Str Credentials
  register_with exchange b =
      let (r, w') = exchange b.bootstrap_token b.world in
      (
        elim r [ ok c ↦ ok c | err e ↦ err (codes "register: " ++ e) ],
        record { bootstrap_token = []; token_forgotten = true; world = w' },
      )

  -- The exchange, and what it yields is persisted.
  unfoldable pub exchanged :
      (Str → Effect W Str Credentials) → Effect (Booting W) Str (Option Credentials)
  unfolding register_with persist_credentials
  exchanged exchange = do
    creds ← on_error (λ e. codes "agent lifecycle: " ++ e) (register_with exchange)
    on_error (λ e. codes "agent lifecycle: persist credentials: " ++ e)
        (calling (persist_credentials creds))
    pure (some creds)

  -- Where nothing is persisted: the exchange, or standalone operation (`none`).
  unfoldable exchange_token :
      Option (Str → Effect W Str Credentials) → Effect (Booting W) Str (Option Credentials)
  unfolding exchanged
  exchange_token none b = (ok none, b)
  exchange_token (some exchange) b =
      if is_empty b.bootstrap_token then (ok none, b) else exchanged exchange b

  unfoldable secret_phase : Option Credentials → Effect (Booting W) Str Phase
  secret_phase none = pure standalone
  secret_phase (some creds) = do
    secret ←
        on_error (λ e. codes "agent lifecycle: read client secret: " ++ e)
          (calling (read_secret creds.secret_ref))
    pure (registered creds secret)

  unfoldable resume : Option Credentials → Effect (Booting W) Str (Option Credentials)
  unfolding exchange_token
  resume (some creds) = pure (some creds)
  resume none = exchange_token registrar

  -- Start, up to the client secret
  unfoldable pub boot : Effect (Booting W) Str Phase
  unfolding load_credentials resume secret_phase
  boot = do
    loaded ←
        on_error (λ e. codes "agent lifecycle: load persisted credentials: " ++ e)
          (calling load_credentials)
    creds ← resume loaded
    secret_phase creds
