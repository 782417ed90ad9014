-- ===== src/Command/Handlers/Rebind/Persistence.antt =====
-- When the binding changes, and what the registration ConfigMap then says.
use inari_agent.Prelude.{
  Str, codes, false, if◌then◌else◌, Bool-cases, none, some, Outcome, ok, err, lookup, insert,
  lookup-insert, [], ◌∷◌, ◌++◌, ◌≡◌, ◌⊎◌, inl, inr, refl, sym, ap, ◌∙◌, str_eq, str_eq_sound,
  str_eq_refl, is_empty,
}
use mathlib.Core.Path.{subst}
use inari_agent.Prelude.Effect.{
  check-run, lift, bind-run, Effect, Keeps, Keeps-bind, Keeps-on_error, bind-ok, on_error-ok,
  on_error-state, pure, on_error, ◌>>=◌, ◌>>◌,
}
use inari_agent.Command.Journal.{
  ConfigMap, found, WriteReply, written, already_exists, conflict, write_failed, ConfigMapApi,
}
use inari_agent.Command.Journal.Saved.{IsStore}
use inari_agent.Command.Handlers.{Agent, Answer, done, refused, outside}
use inari_agent.Command.Handlers.Messages.{GitopsConfigUpdate}
use inari_agent.Command.Handlers.Rebind.{
  get_registration, update_registration, baseline_key, wrote_map, rebound_map, persist, bind_repo,
  rebind, empty_error, repo_error, gitops_config_update_body,
}

-- The ConfigMap has the repository under the key that a start reads.
abbrev pub IsPersisted : {W : Type 0} → ConfigMapApi W → Str → W → Type 0
IsPersisted api repo w =
    (cm : ConfigMap) × ((api.get w).0 ≡ found cm) × (lookup baseline_key cm.entries ≡ some repo)

-- How the handler ends for a repository: with an error the binding is as before; else it is the
-- repository, and either nothing has changed or the ConfigMap now has the repository.
unfoldable pub IsSettled :
    {W : Type 0} → ConfigMapApi W → Str → Agent W → Outcome Answer Answer × Agent W → Type 0
IsSettled api repo a (err r, b) = b.default_state_repo ≡ a.default_state_repo
IsSettled api repo a (ok r, b) =
    (is_empty repo ≡ false)
    × (b.default_state_repo ≡ repo)
    × ((b ≡ a) ⊎ IsPersisted api repo b.outside)

-- A call of the outside world leaves the binding.
outside-binding :
    {W : Type 0} {E : Type 0} {A : Type 0} (m : Effect W E A) (r : Str)
    → Keeps (λ (a : Agent W). a.default_state_repo ≡ r) (outside m)
unfolding outside
outside-binding m r a h = h

outside-outcome :
    {W : Type 0} {E : Type 0} {A : Type 0} (m : Effect W E A) (a : Agent W)
    → (outside m a).0 ≡ (m a.outside).0
unfolding outside
outside-outcome m a = refl

outside-world :
    {W : Type 0} {E : Type 0} {A : Type 0} (m : Effect W E A) (a : Agent W)
    → (outside m a).1.outside ≡ (m a.outside).1
unfolding outside
outside-world m a = refl

module _ {W : Type 0} (quote : Str → Str) (api : ConfigMapApi W) (store : IsStore api) where
  -- An update that the handler takes for done is what the next read finds.
  updated-IsPersisted :
      (repo : Str) (cm : ConfigMap) (w : W)
      → (update_registration quote api (rebound_map repo cm) w).0 ≡ ok tt
      → IsPersisted api repo (update_registration quote api (rebound_map repo cm) w).1
  unfolding update_registration wrote_map
  updated-IsPersisted repo cm w h =
      let (n, there) = store.read_update (rebound_map repo cm) w (accepted_only _ h) in
      (
        record { version = n; entries = insert baseline_key repo cm.entries },
        there,
        rw (lookup-insert baseline_key baseline_key repo cm.entries, str_eq_refl baseline_key) refl,
      )
    where
      accepted_only : (r : WriteReply) → wrote_map r ≡ ok tt → r ≡ written
      accepted_only written e = refl
      accepted_only already_exists e = cc
      accepted_only conflict e = cc
      accepted_only (write_failed x) e = cc

  persist-IsPersisted :
      (repo : Str) (a : Agent W)
      → (persist quote api repo a).0 ≡ ok tt
      → IsPersisted api repo (persist quote api repo a).1.outside
  unfolding persist
  persist-IsPersisted repo a h =
      let (cm, got, rest) = bind-ok (on_error _ (outside (get_registration quote api))) _ a tt h in
      let b = (on_error _ (outside (get_registration quote api)) a).1 in
      let written_there = updated-IsPersisted repo cm b.outside (
        sym (outside-outcome (update_registration quote api (rebound_map repo cm)) b)
        ∙ on_error-ok _ (outside (update_registration quote api (rebound_map repo cm))) b tt
            rest) in
      let state =
        ap (λ p. p.1.outside)
          (bind-run (on_error _ (outside (get_registration quote api))) _ a cm got)
        ∙ ap (λ (c : Agent W). c.outside)
            (on_error-state _ (outside (update_registration quote api (rebound_map repo cm))) b)
        ∙ outside-world (update_registration quote api (rebound_map repo cm)) b in
      subst (IsPersisted api repo) (sym state) written_there

  persist-binding :
      (repo : Str) (r : Str)
      → Keeps (λ (a : Agent W). a.default_state_repo ≡ r) (persist quote api repo)
  unfolding persist
  persist-binding repo r =
      Keeps-bind I _ _ (Keeps-on_error I _ _ (outside-binding _ r))
        λ cm. Keeps-on_error I _ _ (outside-binding _ r)
    where
      I : Agent W → Type 0
      I a = a.default_state_repo ≡ r

  rebind-IsSettled :
      (repo : Str) (a : Agent W)
      → is_empty repo ≡ false
      → IsSettled api repo a (rebind quote api repo a)
  unfolding rebind bind_repo ◌>>=◌ ◌>>◌ pure IsSettled
  rebind-IsSettled repo a full =
      after (persist quote api repo a) (persist-binding repo a.default_state_repo a refl)
        (persist-IsPersisted repo a)
    where
      after :
          (p : Outcome Answer (Unit {0}) × Agent W)
          → p.1.default_state_repo ≡ a.default_state_repo
          → (p.0 ≡ ok tt → IsPersisted api repo p.1.outside)
          → IsSettled api repo a (
              ((λ _. p) >> (bind_repo quote api repo >> pure (done (codes "rebound to " ++ repo))))
                a)
      after (ok u, b) same there = (full, refl, inr (there refl))
      after (err e, b) same there = same

  IsSettled-either :
      (repo : Str) (a : Agent W)
      → is_empty repo ≡ false
      → IsSettled api repo a (
          if str_eq repo a.default_state_repo
          then pure {E = Answer} (done (codes "no change")) a
          else rebind quote api repo a)
  unfolding pure IsSettled
  IsSettled-either repo a full = elim (Bool-cases (str_eq repo a.default_state_repo)) [
    | inl e ↦ rw e (full, sym (str_eq_sound repo a.default_state_repo e), inl refl)
    | inr n ↦ rw n (rebind-IsSettled repo a full)
  ]

  -- What the handler does with a message.
  pub body-IsSettled :
      (m : GitopsConfigUpdate) (a : Agent W)
      → IsSettled api m.baseline_repo a (gitops_config_update_body quote api (ok m) a)
  unfolding gitops_config_update_body on_error lift ◌>>=◌ IsSettled
  body-IsSettled m a =
      check-run (IsSettled api m.baseline_repo a) (empty_error m.baseline_repo) refused _ a
        (λ x. refl)
        λ named.
          check-run (IsSettled api m.baseline_repo a) (repo_error quote m.baseline_repo) refused _ a
            (λ x. refl)
            λ valid. IsSettled-either m.baseline_repo a (full_repo m.baseline_repo named)
    where
      full_repo : (s : Str) → empty_error s ≡ none → is_empty s ≡ false
      full_repo [] e = cc
      full_repo (c ∷ s) e = refl
