-- ===== src/Argocd/Apps/Ownership.antt =====
-- What an upsert does to the objects of its kind and namespace.
use inari_agent.Prelude.{
  Str, Bool, true, false, Bool-cases, some-injective, Option, none, some, Outcome, ok, err, ◌≡◌,
  ◌≢◌, ◌⊎◌, inl, inr, refl, sym, ap, ◌∙◌, str_eq,
}
use inari_agent.Prelude.Effect.{pure, stop, on_error, on_error-state, on_error-ok}
use inari_agent.Prelude.Docs.{Fields}
use inari_agent.Argocd.Objects.{
  ArgoKind, Object, KubeError, not_found, forbidden, other_error, ObjectApi, is_managed,
}
use inari_agent.Argocd.Apps.{adjust, upsert_on, upsert}

-- The API keeps the objects of one kind and namespace, as `view` shows them: a read changes nothing
-- and returns what is there; a write that succeeds leaves, under the object's name, the labels that it
-- was given and what the API server makes of the spec, `stored` (its defaults, its pruning, its numbers,
-- which need not be equal to what was written), and other names alone.
pub record IsObjectStore {W : Type 0} (api : ObjectApi W) (k : ArgoKind) (namespace : Str)
    (view : Str → W → Option Object) (stored : Option Fields → Option Fields) : Type 0 where
  pub get_reads : (n : Str) (w : W) → (api.get k namespace n w).1 ≡ w
  pub get_found :
      (n : Str) (w : W) (o : Object)
      → (api.get k namespace n w).0 ≡ ok o
      → (view n w ≡ some o) × (o.name ≡ n)
  pub get_missing :
      (n : Str) (w : W) (e : Str)
      → (api.get k namespace n w).0 ≡ err (not_found e)
      → view n w ≡ none
  pub create_others :
      (o : Object) (n : Str) (w : W)
      → str_eq o.name n ≡ false
      → view n (api.create k namespace o w).1 ≡ view n w
  pub create_done :
      (o : Object) (w : W)
      → (api.create k namespace o w).0 ≡ ok tt
      → (p : Object) × (view o.name (api.create k namespace o w).1 ≡ some p)
        × (p.labels ≡ o.labels)
        × (p.spec ≡ stored o.spec)
  pub update_others :
      (o : Object) (n : Str) (w : W)
      → str_eq o.name n ≡ false
      → view n (api.update k namespace o w).1 ≡ view n w
  pub update_done :
      (o : Object) (w : W)
      → (api.update k namespace o w).0 ≡ ok tt
      → (p : Object) × (view o.name (api.update k namespace o w).1 ≡ some p)
        × (p.labels ≡ o.labels)
        × (p.spec ≡ stored o.spec)

-- The object is there under its name, and it is Inari's. Its spec compares equal to the wanted one, or is
-- what the API server made of that.
abbrev pub IsInstalled :
    {W : Type 0}
    → (Option Fields → Option Fields → Bool)
    → (Option Fields → Option Fields)
    → (Str → W → Option Object)
    → Object
    → W
    → Type 0
IsInstalled deep_equal stored view obj w =
    (o : Object) × (view obj.name w ≡ some o)
    × (is_managed o.labels ≡ true)
    × ((deep_equal obj.spec o.spec ≡ true) ⊎ (o.spec ≡ stored obj.spec))

module _ {W : Type 0} (quote : Str → Str) (deep_equal : Option Fields → Option Fields → Bool)
    (api : ObjectApi W) (k : ArgoKind) (namespace : Str) (view : Str → W → Option Object)
    (stored : Option Fields → Option Fields)
    (store : IsObjectStore api k namespace view stored) where
  -- What a write left under the name of `o`, whose spec is `obj`'s, is installed.
  left-IsInstalled :
      (obj o p : Object) (w : W)
      → o.name ≡ obj.name
      → o.spec ≡ obj.spec
      → is_managed o.labels ≡ true
      → view o.name w ≡ some p
      → p.labels ≡ o.labels
      → p.spec ≡ stored o.spec
      → IsInstalled deep_equal stored view obj w
  left-IsInstalled obj o p w named spec managed there labels same = (
    p,
    ap (λ n. view n w) (sym named) ∙ there,
    ap is_managed labels ∙ managed,
    inr (same ∙ ap stored spec),
  )

  updated-IsInstalled :
      (obj old : Object) (f : KubeError → Str) (w : W)
      → old.name ≡ obj.name
      → is_managed old.labels ≡ true
      → (on_error f (api.update k namespace (record old { spec = obj.spec })) w).0 ≡ ok tt
      → IsInstalled deep_equal stored view obj
          (on_error f (api.update k namespace (record old { spec = obj.spec })) w).1
  updated-IsInstalled obj old f w named managed h =
      let (p, there, labels, spec) =
        store.update_done (record old { spec = obj.spec }) w
          (on_error-ok f (api.update k namespace (record old { spec = obj.spec })) w tt h) in
      rw (on_error-state f (api.update k namespace (record old { spec = obj.spec })) w) (
        left-IsInstalled obj (record old { spec = obj.spec }) p _ named refl managed there labels
          spec)

  adjust_installs :
      (obj old : Object) (w : W)
      → view obj.name w ≡ some old
      → old.name ≡ obj.name
      → (adjust quote deep_equal api k namespace obj old w).0 ≡ ok tt
      → IsInstalled deep_equal stored view obj (adjust quote deep_equal api k namespace obj old w).1
  unfolding adjust pure stop
  adjust_installs obj old w there named h = elim (Bool-cases (is_managed old.labels)) [
    | inr n ↦ cc (rw n at h)
    | inl m ↦ elim (Bool-cases (deep_equal obj.spec old.spec)) [
      | inl e ↦ rw (m, e) (old, there, m, inl e)
      | inr n ↦ rw (m, n) (updated-IsInstalled obj old _ w named m (rw (m, n) at h))
    ]
  ]

  created-IsInstalled :
      (obj : Object) (f : KubeError → Str) (w : W)
      → is_managed obj.labels ≡ true
      → (on_error f (api.create k namespace obj) w).0 ≡ ok tt
      → IsInstalled deep_equal stored view obj (on_error f (api.create k namespace obj) w).1
  created-IsInstalled obj f w managed h =
      let (p, there, labels, spec) =
        store.create_done obj w (on_error-ok f (api.create k namespace obj) w tt h) in
      rw (on_error-state f (api.create k namespace obj) w)
        (left-IsInstalled obj obj p _ refl refl managed there labels spec)

  upsert_on_installs :
      (obj : Object) (reply : Outcome KubeError Object) (w : W)
      → is_managed obj.labels ≡ true
      → ((o : Object) → reply ≡ ok o → (view obj.name w ≡ some o) × (o.name ≡ obj.name))
      → (upsert_on quote deep_equal api k namespace obj reply w).0 ≡ ok tt
      → IsInstalled deep_equal stored view obj
          (upsert_on quote deep_equal api k namespace obj reply w).1
  unfolding upsert_on stop
  upsert_on_installs obj (err (not_found e)) w managed found h =
      created-IsInstalled obj _ w managed h
  upsert_on_installs obj (err (forbidden e)) w managed found h = cc
  upsert_on_installs obj (err (other_error e)) w managed found h = cc
  upsert_on_installs obj (ok o) w managed found h =
      let (there, named) = found o refl in adjust_installs obj o w there named h

  adjust_others :
      (obj old : Object) (n : Str) (w : W)
      → old.name ≡ obj.name
      → str_eq obj.name n ≡ false
      → view n (adjust quote deep_equal api k namespace obj old w).1 ≡ view n w
  unfolding adjust pure stop
  adjust_others obj old n w named other = elim (Bool-cases (is_managed old.labels)) [
    | inr m ↦ rw m refl
    | inl m ↦ elim (Bool-cases (deep_equal obj.spec old.spec)) [
      | inl e ↦ rw (m, e) refl
      | inr d ↦
          rw (m, d)
            (ap (view n)
                (on_error-state _ (api.update k namespace (record old { spec = obj.spec })) w)
              ∙ store.update_others (record old { spec = obj.spec }) n w
                  (ap (λ s. str_eq s n) named ∙ other))
    ]
  ]

  upsert_on_others :
      (obj : Object) (reply : Outcome KubeError Object) (n : Str) (w : W)
      → ((o : Object) → reply ≡ ok o → o.name ≡ obj.name)
      → str_eq obj.name n ≡ false
      → view n (upsert_on quote deep_equal api k namespace obj reply w).1 ≡ view n w
  unfolding upsert_on stop
  upsert_on_others obj (err (not_found e)) n w found other =
      ap (view n) (on_error-state _ (api.create k namespace obj) w)
      ∙ store.create_others obj n w other
  upsert_on_others obj (err (forbidden e)) n w found other = refl
  upsert_on_others obj (err (other_error e)) n w found other = refl
  upsert_on_others obj (ok o) n w found other = adjust_others obj o n w (found o refl) other

  -- An object that is not Inari's stays as it is, and the upsert is an error.
  upsert_on_spares :
      (obj o : Object) (reply : Outcome KubeError Object) (w : W)
      → view obj.name w ≡ some o
      → is_managed o.labels ≡ false
      → ((p : Object) → reply ≡ ok p → view obj.name w ≡ some p)
      → ((e : Str) → reply ≡ err (not_found e) → view obj.name w ≡ none)
      → ((upsert_on quote deep_equal api k namespace obj reply w).1 ≡ w)
        × ((upsert_on quote deep_equal api k namespace obj reply w).0 ≢ ok tt)
  unfolding upsert_on adjust stop
  upsert_on_spares obj o (err (not_found e)) w there brown found missing = cc (missing e refl)
  upsert_on_spares obj o (err (forbidden e)) w there brown found missing = (refl, λ h. cc)
  upsert_on_spares obj o (err (other_error e)) w there brown found missing = (refl, λ h. cc)
  upsert_on_spares obj o (ok p) w there brown found missing =
      let same : o ≡ p = some-injective (sym there ∙ found p refl) in
      let unmanaged = ap (λ (q : Object). is_managed q.labels) (sym same) ∙ brown in
      rw unmanaged (refl, λ h. cc)

  -- An object of Inari's whose spec compares equal stays as it is.
  upsert_on_settled :
      (obj o : Object) (reply : Outcome KubeError Object) (w : W)
      → view obj.name w ≡ some o
      → is_managed o.labels ≡ true
      → deep_equal obj.spec o.spec ≡ true
      → ((p : Object) → reply ≡ ok p → view obj.name w ≡ some p)
      → ((e : Str) → reply ≡ err (not_found e) → view obj.name w ≡ none)
      → (upsert_on quote deep_equal api k namespace obj reply w).1 ≡ w
  unfolding upsert_on adjust stop pure
  upsert_on_settled obj o (err (not_found e)) w there m d found missing = cc (missing e refl)
  upsert_on_settled obj o (err (forbidden e)) w there m d found missing = refl
  upsert_on_settled obj o (err (other_error e)) w there m d found missing = refl
  upsert_on_settled obj o (ok p) w there m d found missing =
      let same : o ≡ p = some-injective (sym there ∙ found p refl) in
      let managed = ap (λ (q : Object). is_managed q.labels) (sym same) ∙ m in
      let equal = ap (λ (q : Object). deep_equal obj.spec q.spec) (sym same) ∙ d in
      rw (managed, equal) refl

  upsert-reads :
      (obj : Object) (w : W)
      → upsert quote deep_equal api k namespace obj w
        ≡ upsert_on quote deep_equal api k namespace obj (api.get k namespace obj.name w).0 w
  unfolding upsert
  upsert-reads obj w =
      ap (upsert_on quote deep_equal api k namespace obj (api.get k namespace obj.name w).0)
        (store.get_reads obj.name w)

  -- An upsert that succeeds leaves the object under its name, Inari's, with a spec that compares equal to
  -- the wanted one or that is what the API server made of it. No other object changes. An object that is
  -- not Inari's is neither changed nor adopted: the upsert is an error. An object of Inari's whose spec
  -- compares equal is not written, and nothing changes.
  pub upsert_installs :
      (obj : Object) (w : W)
      → is_managed obj.labels ≡ true
      → let r = upsert quote deep_equal api k namespace obj w in
        (r.0 ≡ ok tt → IsInstalled deep_equal stored view obj r.1)
        × ((n : Str) → str_eq obj.name n ≡ false → view n r.1 ≡ view n w)
        × ((o : Object)
            → view obj.name w ≡ some o
            → is_managed o.labels ≡ false
            → (view obj.name r.1 ≡ some o) × (r.0 ≢ ok tt))
        × ((o : Object)
            → view obj.name w ≡ some o
            → is_managed o.labels ≡ true
            → deep_equal obj.spec o.spec ≡ true
            → r.1 ≡ w)
  upsert_installs obj w managed = rw (upsert-reads obj w) (
    (λ h.
        upsert_on_installs obj (api.get k namespace obj.name w).0 w managed
          (store.get_found obj.name w) h),
    (λ n other.
        upsert_on_others obj (api.get k namespace obj.name w).0 n w
          (λ o got. (store.get_found obj.name w o got).1) other),
    (λ o there brown.
        let (same, failed) =
          upsert_on_spares obj o (api.get k namespace obj.name w).0 w there brown
            (λ p got. (store.get_found obj.name w p got).0) (store.get_missing obj.name w) in
        (ap (view obj.name) same ∙ there, failed)),
    (λ o there ours equal.
        upsert_on_settled obj o (api.get k namespace obj.name w).0 w there ours equal
          (λ p got. (store.get_found obj.name w p got).0) (store.get_missing obj.name w)),
  )
