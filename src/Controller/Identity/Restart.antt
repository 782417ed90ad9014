-- ===== src/Controller/Identity/Restart.antt =====
-- What the credential phase leaves for the next start of the agent.
use inari_agent.Prelude.{
  Str, true, false, Outcome-cases, ok-injective, some-injective, Option, none, some, Outcome, ok,
  err, Map, lookup, [], ◌≡◌, ◌≢◌, inl, inr, refl, sym, ap, ◌∙◌, str_eq, is_empty,
}
use inari_agent.Prelude.Effect.{Effect, pure, on_error, ◌>>=◌, ◌>>◌}
use inari_agent.Command.Journal.{
  ConfigMap, GetReply, found, not_found, get_failed, WriteReply, written, already_exists, conflict,
  write_failed, ConfigMapApi,
}
use inari_agent.Registration.Credentials.{SecretReference, Credentials}
use inari_agent.Controller.Identity.{
  value_at, credentials_in, registration_data, Booting, load_credentials, persist_credentials,
  exchanged, loaded_from, persisted_by, register_with,
}

-- Credentials that identify the agent to its control plane.
abbrev pub IsComplete : Credentials → Type 0
IsComplete c =
    (is_empty c.cluster_id ≡ false)
    × (is_empty c.client_id ≡ false)
    × (is_empty c.token_url ≡ false)

-- What is persisted of credentials: all but the hint of their expiry.
abbrev pub without_hint : Credentials → Credentials
without_hint c = record c { expires_hint = none }

-- Complete credentials are read back from the data that persists them, without the expiry hint.
pub credentials-registration_data :
    (c : Credentials) → IsComplete c → credentials_in (registration_data c) ≡ some (without_hint c)
unfolding credentials_in registration_data value_at lookup str_eq
credentials-registration_data c (a, b, d) = rw (a, b, d) refl

-- The API keeps one ConfigMap, as `view` shows its data: a read changes nothing and returns what is
-- there, and Create puts its data where there is nothing, and only there.
pub record IsMapStore {W : Type 0} (api : ConfigMapApi W) (view : W → Option (Map Str))
    : Type 0 where
  pub get_reads : (w : W) → view (api.get w).1 ≡ view w
  pub get_found : (w : W) (cm : ConfigMap) → (api.get w).0 ≡ found cm → view w ≡ some cm.entries
  pub get_missing : (w : W) → (api.get w).0 ≡ not_found → view w ≡ none
  pub create_done :
      (w : W) (m : Map Str) → (api.create m w).0 ≡ written → view (api.create m w).1 ≡ some m
  pub create_there :
      (w : W) (m : Map Str) → (api.create m w).0 ≡ already_exists → view (api.create m w).1 ≡ view w
  pub create_absent : (w : W) (m : Map Str) → view w ≡ none → (api.create m w).0 ≢ already_exists
  pub create_present : (w : W) (m d : Map Str) → view w ≡ some d → (api.create m w).0 ≢ written

module _ {W : Type 0} (api : ConfigMapApi W) (registrar : Option (Str → Effect W Str Credentials))
    (read_secret : SecretReference → Effect W Str Str) (view : W → Option (Map Str))
    (store : IsMapStore api view) where
  -- A persisted registration: created where nothing was, kept as it was where something was.
  persisted_view :
      (c : Credentials) (w : W)
      → (persist_credentials (some api) registrar read_secret c w).0 ≡ ok tt
      → view (persist_credentials (some api) registrar read_secret c w).1
        ≡ elim (view w) [ none ↦ some (registration_data c) | some m ↦ some m ]
  unfolding persist_credentials persisted_by
  persisted_view c w h = by_reply (api.create (registration_data c) w).0 refl h (view w) refl
    where
      by_reply :
          (r : WriteReply)
          → (api.create (registration_data c) w).0 ≡ r
          → persisted_by r ≡ ok tt
          → (o : Option (Map Str)) → view w ≡ o
          → view (api.create (registration_data c) w).1
            ≡ elim o [ none ↦ some (registration_data c) | some m ↦ some m ]
      by_reply written e k none v = store.create_done w (registration_data c) e
      by_reply written e k (some m) v = absurd (store.create_present w (registration_data c) m v e)
      by_reply already_exists e k none v = absurd (store.create_absent w (registration_data c) v e)
      by_reply already_exists e k (some m) v = store.create_there w (registration_data c) e ∙ v
      by_reply conflict e k o v = cc
      by_reply (write_failed x) e k o v = cc

  -- Credentials that are loaded are those of the ConfigMap.
  loaded_view :
      (w : W) (m : Map Str) (o : Option Credentials)
      → view w ≡ some m
      → (load_credentials (some api) registrar read_secret w).0 ≡ ok o
      → o ≡ credentials_in m
  unfolding load_credentials loaded_from
  loaded_view w m o there h = by_reply (api.get w).0 refl h
    where
      by_reply : (r : GetReply) → (api.get w).0 ≡ r → loaded_from r ≡ ok o → o ≡ credentials_in m
      by_reply (found cm) e k =
          sym (ok-injective k)
          ∙ ap credentials_in (some-injective (sym (store.get_found w cm e) ∙ there))
      by_reply not_found e k = cc (store.get_missing w e)
      by_reply (get_failed x) e k = cc

  -- The state after the exchange and the persistence, with what the exchange returned.
  exchanged_state :
      (exchange : Str → Effect W Str Credentials) (b : Booting W) (c : Credentials)
      → (exchanged (some api) registrar read_secret exchange b).0 ≡ ok (some c)
      → let w = (exchange b.bootstrap_token b.world).1 in
        ((persist_credentials (some api) registrar read_secret c w).0 ≡ ok tt)
        × ((exchanged (some api) registrar read_secret exchange b).1 ≡ record {
          bootstrap_token = [];
          token_forgotten = true;
          world = (persist_credentials (some api) registrar read_secret c w).1;
        })
  unfolding exchanged register_with on_error ◌>>=◌ ◌>>◌ pure
  exchanged_state exchange b c h = run (exchange b.bootstrap_token b.world) h
    where
      run :
          (p : Outcome Str Credentials × W)
          → (exchanged (some api) registrar read_secret (λ _ _. p) b).0 ≡ ok (some c)
          → ((persist_credentials (some api) registrar read_secret c p.1).0 ≡ ok tt)
            × ((exchanged (some api) registrar read_secret (λ _ _. p) b).1 ≡ record {
              bootstrap_token = [];
              token_forgotten = true;
              world = (persist_credentials (some api) registrar read_secret c p.1).1;
            })
      run (err e, w) k = cc
      run (ok d, w) k = elim (Outcome-cases (persisted_by (api.create (registration_data d) w).0)) [
        | inl (e, q) ↦ cc (rw (q, exchanged, ◌>>◌, ◌>>=◌, on_error, persist_credentials) at k)
        | inr (u, q) ↦
            let same : d ≡ c =
              some-injective (
                ok-injective
                  (rw (q, exchanged, ◌>>◌, ◌>>=◌, on_error, persist_credentials) at k)) in
            rw (← same) (
              q,
              rw (q, exchanged, ◌>>◌, ◌>>=◌, on_error, persist_credentials)
                  (rw (q, on_error, persist_credentials) refl),
            )
      ]

  -- When the exchange of the bootstrap token yields credentials, the token is forgotten. Where there was
  -- no registration ConfigMap, a start that can read it then loads the same complete credentials,
  -- but for the expiry hint. Where there was an incomplete one, nothing is persisted: a
  -- start that can read it finds no credentials, although the token was used.
  pub exchange_persists :
      (exchange : Str → Effect W Str Credentials) (b : Booting W) (c : Credentials)
      → ((token : Str) (w : W) → view (exchange token w).1 ≡ view w)
      → IsComplete c
      → (exchanged (some api) registrar read_secret exchange b).0 ≡ ok (some c)
      → let after = (exchanged (some api) registrar read_secret exchange b).1 in
        (after.bootstrap_token ≡ [])
        × (after.token_forgotten ≡ true)
        × (view b.world ≡ none
            → (o : Option Credentials)
            → (load_credentials (some api) registrar read_secret after.world).0 ≡ ok o
            → o ≡ some (without_hint c))
        × ((m : Map Str)
            → view b.world ≡ some m
            → credentials_in m ≡ none
            → (o : Option Credentials)
            → (load_credentials (some api) registrar read_secret after.world).0 ≡ ok o
            → o ≡ none)
  exchange_persists exchange b c quiet complete h =
      let (saved, state) = exchanged_state exchange b c h in
      let w = (exchange b.bootstrap_token b.world).1 in
      let there = persisted_view c w saved in
      let world = ap (λ (s : Booting W). s.world) state in
      (
        ap (λ (s : Booting W). s.bootstrap_token) state,
        ap (λ (s : Booting W). s.token_forgotten) state,
        λ absent o k.
            loaded_view _ (registration_data c) o
              (there
                ∙ ap (λ v. elim v [ none ↦ some (registration_data c) | some m ↦ some m ])
                    (quiet b.bootstrap_token b.world ∙ absent))
              (ap (λ v. (load_credentials (some api) registrar read_secret v).0) (sym world) ∙ k)
            ∙ credentials-registration_data c complete,
        λ m present incomplete o k.
            loaded_view _ m o
              (there
                ∙ ap (λ v. elim v [ none ↦ some (registration_data c) | some n ↦ some n ])
                    (quiet b.bootstrap_token b.world ∙ present))
              (ap (λ v. (load_credentials (some api) registrar read_secret v).0) (sym world) ∙ k)
            ∙ incomplete,
      )
