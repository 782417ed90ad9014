-- ===== src/Argocd/Lifecycle/Adoption.antt =====
-- When EnsureReady yields a namespace.
use inari_agent.Prelude.{
  ℕ, Str, Bool, true, false, ◌&&◌, Bool-cases, Outcome-cases, ok-injective, some-injective, Option,
  none, some, Outcome, ok, err, List, [], ◌∷◌, ◌≡◌, ◌⊎◌, inl, inr, refl, sym, ap, ◌∙◌, arith,
  str_eq, str_eq_sound, is_empty,
}
use mathlib.Core.Path.{subst}
use inari_agent.Prelude.Effect.{Effect, pure, stop, lift, on_error, ◌>>=◌, ◌>>◌, bind-ok, bind-run}
use inari_agent.Argocd.Skew.{in_skew}
use inari_agent.Argocd.Lifecycle.{
  Installation, Deployment, Mode, bundle, byo, mode_of, Lifecycle, fresh_install, server_version,
  found_at, installation_of, is_adoptable, detect_in, detect, ready_on, ensure_ready,
  install_namespace, server_name,
}

-- A deployment named argocd-server in the namespace, whose image has a version within the skew policy.
abbrev pub IsSupported : (Str → Str) → (Str → ℕ) → List Deployment → Str → Type 0
IsSupported quote atoi ds ns =
    (inst : Installation) × (detect_in quote atoi ds ≡ ok (some inst))
    × (inst.namespace ≡ ns)
    × (in_skew atoi inst.version ≡ true)

both : (a b : Bool) → a && b ≡ true → (a ≡ true) × (b ≡ true)
both a b h = ground arith

module _ (quote : Str → Str) (atoi : Str → ℕ) where
  adoptable-in_skew :
      (d : Deployment) (v : Str)
      → is_adoptable (found_at quote atoi d v).classification ≡ true
      → in_skew atoi v ≡ true
  unfolding found_at
  adoptable-in_skew d v h = elim (Bool-cases (in_skew atoi v)) [
    | inl e ↦ e
    | inr n ↦ cc (rw n at h)
  ]

  -- The classification is by the skew policy.
  classified :
      (d : Deployment) (v : Str) (inst : Installation)
      → installation_of quote atoi d v ≡ ok (some inst)
      → is_adoptable inst.classification ≡ true
      → in_skew atoi inst.version ≡ true
  unfolding installation_of
  classified d v inst h k = elim (Bool-cases (is_empty v)) [
    | inl e ↦ cc (rw e at h)
    | inr n ↦
        let same : found_at quote atoi d v ≡ inst = some-injective (ok-injective (rw n at h)) in
        ap (λ (i : Installation). in_skew atoi i.version) (sym same)
        ∙ adoptable-in_skew d v (ap (λ (i : Installation). is_adoptable i.classification) same ∙ k)
  ]

  detected_in_skew :
      (ds : List Deployment) (inst : Installation)
      → detect_in quote atoi ds ≡ ok (some inst)
      → is_adoptable inst.classification ≡ true
      → in_skew atoi inst.version ≡ true
  unfolding detect_in
  detected_in_skew [] inst h k = cc
  detected_in_skew (d ∷ ds) inst h k = elim (Bool-cases (str_eq d.name server_name)) [
    | inr n ↦ detected_in_skew ds inst (rw n at h) k
    | inl e ↦ elim (Outcome-cases (server_version quote atoi d.containers)) [
      | inl (x, q) ↦ cc (rw (e, q) at h)
      | inr (v, q) ↦ classified d v inst (rw (e, q) at h) k
    ]
  ]

  module _ {W : Type 0} (list : Effect W Str (List Deployment))
      (install : Str → Effect W Str (Unit {0})) where
    -- The bundle is installed from this state.
    abbrev pub IsInstall : Lifecycle → W → W → Type 0
    IsInstall l v w =
        ((install (install_namespace quote atoi list install l) v).0 ≡ ok tt)
        × ((install (install_namespace quote atoi list install l) v).1 ≡ w)

    -- Why a namespace is ready: a supported installation is there and nothing was done, or none was
    -- and the bundle was installed.
    abbrev pub IsReady : Lifecycle → List Deployment → Str → W → W → Type 0
    IsReady l ds ns v w =
        (IsSupported quote atoi ds ns × (v ≡ w))
        ⊎ ((mode_of l.mode ≡ bundle)
            × (detect_in quote atoi ds ≡ ok none)
            × (ns ≡ install_namespace quote atoi list install l)
            × IsInstall l v w)

    installed_namespace :
        (has_manifests : Bool) (ns r : Str) (v : W)
        → (fresh_install quote atoi list install has_manifests ns v).0 ≡ ok r
        → (r ≡ ns)
          × ((install ns v).0 ≡ ok tt)
          × ((install ns v).1 ≡ (fresh_install quote atoi list install has_manifests ns v).1)
    unfolding fresh_install on_error ◌>>◌ ◌>>=◌ pure stop
    installed_namespace false ns r v h = cc
    installed_namespace true ns r v h = run (install ns v) h
      where
        run :
            (p : Outcome Str (Unit {0}) × W)
            → (fresh_install quote atoi list (λ _ _. p) true ns v).0 ≡ ok r
            → (r ≡ ns)
              × (p.0 ≡ ok tt)
              × (p.1 ≡ (fresh_install quote atoi list (λ _ _. p) true ns v).1)
        run (ok u, w) k = (sym (ok-injective k), refl, refl)
        run (err e, w) k = cc

    ready_on-IsReady :
        (l : Lifecycle) (m : Mode) (found : Option Installation) (ds : List Deployment) (ns : Str)
        (v : W)
        → mode_of l.mode ≡ m
        → detect_in quote atoi ds ≡ ok found
        → (ready_on quote atoi list install l m found v).0 ≡ ok ns
        → IsReady l ds ns v (ready_on quote atoi list install l m found v).1
    unfolding ready_on pure stop
    ready_on-IsReady l byo none ds ns v e d h = cc
    ready_on-IsReady l byo (some inst) ds ns v e d h =
        elim (Bool-cases (is_adoptable inst.classification)) [
          | inr n ↦ cc
          | inl k ↦
              rw k (inl ((inst, d, ok-injective (rw k at h), detected_in_skew ds inst d k), refl))
        ]
    ready_on-IsReady l bundle none ds ns v e d h =
        let (named, ran, state) =
          installed_namespace l.has_manifests (install_namespace quote atoi list install l) ns v
            h in
        inr (e, d, named, (ran, state))
    ready_on-IsReady l bundle (some inst) ds ns v e d h =
        elim (Bool-cases (
          str_eq inst.namespace (install_namespace quote atoi list install l)
          && is_adoptable inst.classification)) [
            | inr n ↦ cc (rw n at h)
            | inl k ↦
                let (here, supported) = both _ _ k in
                rw k (
                  inl (
                    (
                      inst,
                      d,
                      str_eq_sound inst.namespace _ here ∙ ok-injective (rw k at h),
                      detected_in_skew ds inst d supported,
                    ),
                    refl,
                  ))
          ]

    detected :
        (inst : Option Installation) (w : W)
        → (detect quote atoi list install w).0 ≡ ok inst
        → (ds : List Deployment) × ((list w).0 ≡ ok ds)
          × (detect_in quote atoi ds ≡ ok inst)
          × ((detect quote atoi list install w).1 ≡ (list w).1)
    unfolding detect on_error lift ◌>>=◌
    detected inst w h = run (list w) h
      where
        run :
            (p : Outcome Str (List Deployment) × W)
            → (detect quote atoi (λ _. p) install w).0 ≡ ok inst
            → (ds : List Deployment) × (p.0 ≡ ok ds)
              × (detect_in quote atoi ds ≡ ok inst)
              × ((detect quote atoi (λ _. p) install w).1 ≡ p.1)
        run (ok ds, v) k = (ds, refl, k, refl)
        run (err e, v) k = cc

    -- EnsureReady yields the namespace of an installation within the skew policy, which it leaves
    -- alone; only in bundle mode, where no installation was found, it yields the configured namespace,
    -- after it installed the bundle there.
    pub ensure_ready-IsReady :
        (l : Lifecycle) (ns : Str) (w : W)
        → (ensure_ready quote atoi list install l w).0 ≡ ok ns
        → (ds : List Deployment) × ((list w).0 ≡ ok ds)
          × IsReady l ds ns (list w).1 (ensure_ready quote atoi list install l w).1
    unfolding ensure_ready
    ensure_ready-IsReady l ns w h =
        let (inst, got, rest) =
          bind-ok (detect quote atoi list install)
            (λ i. ready_on quote atoi list install l (mode_of l.mode) i) w ns h in
        let (ds, listed, there, quiet) = detected inst w got in
        let state : (ensure_ready quote atoi list install l w).1
            ≡ (ready_on quote atoi list install l (mode_of l.mode) inst (list w).1).1 =
          ap (λ p. p.1)
            (bind-run (detect quote atoi list install)
              (λ i. ready_on quote atoi list install l (mode_of l.mode) i) w inst got)
          ∙ ap (λ v. (ready_on quote atoi list install l (mode_of l.mode) inst v).1) quiet in
        (
          ds,
          listed,
          subst (IsReady l ds ns (list w).1) (sym state) (
              ready_on-IsReady l (mode_of l.mode) inst ds ns (list w).1 refl there (
                ap (λ v. (ready_on quote atoi list install l (mode_of l.mode) inst v).0) (sym quiet)
                ∙ rest)),
        )
