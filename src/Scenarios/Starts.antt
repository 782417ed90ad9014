-- ===== src/Scenarios/Starts.antt =====
-- internal/controller and internal/health: a start of the agent, and a rebinding before a restart.
use inari_agent.Prelude.{
  Str, codes, true, false, Bool-cases, Option, none, some, ok, Map, [], ◌∷◌, ◌≡◌, ◌≢◌, inl, inr,
  refl,
}
use inari_agent.Prelude.Effect.{Effect, ◌>>=◌, ◌>>◌, on_error, pure}
use inari_agent.Command.Journal.{ConfigMap, found, not_found, written, already_exists}
use inari_agent.Command.Handlers.{Agent}
use inari_agent.Command.Handlers.Messages.{GitopsConfigUpdate}
use inari_agent.Command.Handlers.Rebind.{gitops_config_update_body}
use inari_agent.Registration.Credentials.{SecretReference, Credentials}
use inari_agent.Controller.Identity.{Booting, exchanged, load_credentials, credentials_in}
use inari_agent.Controller.Identity.Restart.{IsMapStore, without_hint, exchange_persists}
use inari_agent.Controller.Config.Rebinding.{IsRebound, rebinding_survives}
use inari_agent.Health.{is_ready}
use inari_agent.Health.Grace.{after_transitions, expected, ready_within_grace}
use inari_agent.Scenarios.Journals.{
  Cluster, cluster_api, read_map, create_map, cluster_api-IsStore, is_distinct,
}

abbrev map_data : Cluster → Option (Map Str)
map_data none = none
map_data (some cm) = some cm.entries

read_found : (w : Cluster) (cm : ConfigMap) → read_map w ≡ found cm → map_data w ≡ some cm.entries
read_found none cm h = cc
read_found (some old) cm h = elim (Bool-cases (is_distinct old.entries)) [
  | inr n ↦ cc (rw n at h)
  | inl e ↦ let same : found old ≡ found cm = rw e at h in found_entries same
]
  where
    found_entries : found old ≡ found cm → some old.entries ≡ some cm.entries
    found_entries h = cc

read_missing : (w : Cluster) → read_map w ≡ not_found → map_data w ≡ none
read_missing none h = refl
read_missing (some old) h = elim (Bool-cases (is_distinct old.entries)) [
  | inr n ↦ cc (rw n at h)
  | inl e ↦ cc (rw e at h)
]

created_done :
    (w : Cluster) (m : Map Str)
    → (create_map m w).0 ≡ written
    → map_data (create_map m w).1 ≡ some m
created_done none m h = refl
created_done (some old) m h = cc

created_there :
    (w : Cluster) (m : Map Str)
    → (create_map m w).0 ≡ already_exists
    → map_data (create_map m w).1 ≡ map_data w
created_there none m h = cc
created_there (some old) m h = refl

created_absent :
    (w : Cluster) (m : Map Str) → map_data w ≡ none → (create_map m w).0 ≢ already_exists
created_absent none m h e = cc
created_absent (some old) m h e = cc

created_present : (w : Cluster) (m d : Map Str) → map_data w ≡ some d → (create_map m w).0 ≢ written
created_present none m d h e = cc
created_present (some old) m d h e = cc

cluster_api-IsMapStore : IsMapStore cluster_api map_data
cluster_api-IsMapStore = record {
  get_reads = λ w. refl;
  get_found = read_found;
  get_missing = read_missing;
  create_done = created_done;
  create_there = created_there;
  create_absent = created_absent;
  create_present = created_present;
}

abbrev identity : Credentials
identity = record {
  tenant_id = codes "acme";
  cluster_id = codes "c1";
  client_id = codes "agent-c1";
  token_url = codes "https://issuer/token";
  control_plane = codes "https://gateway";
  secret_ref = record {
    store = codes "vault";
    name = codes "agent";
    namespace = codes "inari-system";
    key = codes "secret";
  };
  expires_hint = some 7;
  baseline_repo = codes "acme/state";
}

abbrev give_identity : Str → Effect Cluster Str Credentials
give_identity token w = (ok identity, w)

abbrev give_secret : SecretReference → Effect Cluster Str Str
give_secret ref w = (ok (codes "s3cret"), w)

abbrev first_start : Booting Cluster
first_start = record { bootstrap_token = codes "once"; token_forgotten = false; world = none }

exchange_persists_example :
    let after =
      (exchanged (some cluster_api) (some give_identity) give_secret give_identity first_start).1 in
    (after.bootstrap_token ≡ [])
    × (after.token_forgotten ≡ true)
    × (map_data none ≡ none
        → (o : Option Credentials)
        → (load_credentials (some cluster_api) (some give_identity) give_secret after.world).0
          ≡ ok o
        → o ≡ some (without_hint identity))
    × ((m : Map Str)
        → map_data none ≡ some m
        → credentials_in m ≡ none
        → (o : Option Credentials)
        → (load_credentials (some cluster_api) (some give_identity) give_secret after.world).0
          ≡ ok o
        → o ≡ none)
unfolding exchanged ◌>>=◌ on_error ◌>>◌ pure
exchange_persists_example =
    exchange_persists cluster_api (some give_identity) give_secret map_data cluster_api-IsMapStore
      give_identity first_start identity (λ token w. refl) (refl, refl, refl) refl

abbrev registered_cluster : Cluster
registered_cluster = some (record {
  version = 1;
  entries =
      (codes "cluster-id", codes "c1")
      ∷ (codes "client-id", codes "agent-c1")
      ∷ (codes "token-url", codes "https://issuer/token")
      ∷ (codes "baseline-repo", codes "acme/state")
      ∷ [];
})

abbrev running : Agent Cluster
running = record { default_state_repo = codes "acme/state"; outside = registered_cluster }

abbrev to_next : GitopsConfigUpdate
to_next = record { baseline_repo = codes "acme/next" }

abbrev quoted : Str → Str
quoted s = b'"' ∷ s

rebinding_survives_example :
    IsRebound
      (load_credentials (some cluster_api) (some give_identity) give_secret)
      (codes "acme/next")
      running
      (gitops_config_update_body quoted cluster_api (ok to_next) running)
rebinding_survives_example =
    rebinding_survives quoted cluster_api (some give_identity) give_secret to_next running
      cluster_api-IsStore

ready_within_grace_example :
    is_ready 100 (after_transitions 90 ((20, false) ∷ (5, true) ∷ []))
    ≡ expected 90 100 ((20, false) ∷ (5, true) ∷ [])
ready_within_grace_example = ready_within_grace 90 100 ((20, false) ∷ (5, true) ∷ [])
