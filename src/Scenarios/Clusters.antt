-- ===== src/Scenarios/Clusters.antt =====
-- internal/argocd: an upsert on a small cluster, and an installation of the bundle.
use inari_agent.Prelude.{
  ◌+◌, ◌*◌, ◌-◌, ◌&&◌, ◌||◌, split, has_prefix, ℕ, suc, Str, codes, Bool, true, false,
  if◌then◌else◌, Bool-cases, Option-cases, ok-injective, Option, none, some, Outcome, ok, err, Map,
  lookup, insert, lookup-insert, List, [], ◌∷◌, length, ◌≡◌, ◌≢◌, inl, inr, refl, sym, ap, ◌∙◌,
  str_eq, str_eq_refl, str_eq_sound,
}
use inari_agent.Prelude.Effect.{Effect, ◌>>=◌, ◌>>◌, on_error, lift, pure}
use inari_agent.Prelude.Docs.{text, Fields, end, field, get_field}
use inari_agent.Argocd.Objects.{
  applications, Object, KubeError, not_found, other_error, ObjectApi, is_managed,
}
use inari_agent.Argocd.Apps.{upsert}
use inari_agent.Argocd.Apps.Ownership.{IsObjectStore, IsInstalled, upsert_installs}
use inari_agent.Argocd.Skew.{in_skew}
use inari_agent.Argocd.Skew.Lines.{version, in_skew-lines}
use inari_agent.Argocd.Lifecycle.{Lifecycle, Deployment, ensure_ready}
use inari_agent.Argocd.Lifecycle.Adoption.{IsReady, ensure_ready-IsReady}

abbrev quoted : Str → Str
quoted s = b'"' ∷ s

-- The revision of a spec, by which specs are compared here.
abbrev revision : Option Fields → Str
revision none = []
revision (some fs) = elim (get_field (codes "revision") fs) [ some (text s) ↦ s | _ ↦ [] ]

abbrev same_revision : Option Fields → Option Fields → Bool
same_revision a b = str_eq (revision a) (revision b)

abbrev find_object : Str → Map Object → Outcome KubeError Object
find_object n w = elim (lookup n w) [
  | none ↦ err (not_found (codes "not found"))
  | some o ↦ if str_eq o.name n then ok o else err (other_error (codes "misplaced"))
]

-- This API server adds a default to every spec.
abbrev defaulted : Option Fields → Option Fields
defaulted none = none
defaulted (some fs) = some (field (codes "project") (text (codes "default")) fs)

abbrev as_stored : Object → Object
as_stored o = record o { spec = defaulted o.spec }

abbrev objects_api : ObjectApi (Map Object)
objects_api = record {
  get = λ k ns n w. (find_object n w, w);
  create = λ k ns o w. (ok tt, insert o.name (as_stored o) w);
  update = λ k ns o w. (ok tt, insert o.name (as_stored o) w);
}

inserted :
    (o : Object) (w : Map Object)
    → lookup o.name (insert o.name (as_stored o) w) ≡ some (as_stored o)
inserted o w = rw (lookup-insert o.name o.name (as_stored o) w, str_eq_refl o.name) refl

inserted_elsewhere :
    (o : Object) (n : Str) (w : Map Object)
    → str_eq o.name n ≡ false
    → lookup n (insert o.name (as_stored o) w) ≡ lookup n w
inserted_elsewhere o n w h = rw (lookup-insert o.name n (as_stored o) w, h) refl

found_object :
    (n : Str) (w : Map Object) (o : Object)
    → find_object n w ≡ ok o
    → (lookup n w ≡ some o) × (o.name ≡ n)
found_object n w o h = elim (Option-cases (lookup n w)) [
  | inl e ↦ cc (rw (e, find_object) at h)
  | inr (p, e) ↦ elim (Bool-cases (str_eq p.name n)) [
    | inr x ↦ cc (rw (e, x, find_object) at h)
    | inl t ↦
        let same : p ≡ o = ok-injective (rw (e, t, find_object) at h) in
        (e ∙ ap some same, ap (λ (q : Object). q.name) (sym same) ∙ str_eq_sound p.name n t)
  ]
]

missing_object :
    (n : Str) (w : Map Object) (x : Str) → find_object n w ≡ err (not_found x) → lookup n w ≡ none
missing_object n w x h = elim (Option-cases (lookup n w)) [
  | inl e ↦ e
  | inr (p, e) ↦ elim (Bool-cases (str_eq p.name n)) [
    | inr t ↦ cc (rw (e, t, find_object) at h)
    | inl t ↦ cc (rw (e, t, find_object) at h)
  ]
]

objects_api-IsObjectStore : IsObjectStore objects_api applications (codes "argocd") lookup defaulted
objects_api-IsObjectStore = record {
  get_reads = λ n w. refl;
  get_found = found_object;
  get_missing = missing_object;
  create_others = inserted_elsewhere;
  create_done = λ o w h. (as_stored o, inserted o w, refl, refl);
  update_others = inserted_elsewhere;
  update_done = λ o w h. (as_stored o, inserted o w, refl, refl);
}

abbrev at_revision : Str → Map Str → Object
at_revision r labels = record {
  kind = codes "Application";
  name = codes "shop";
  namespace = codes "argocd";
  labels = labels;
  spec = some (field (codes "revision") (text r) end);
  rest = end;
}

abbrev ours : Map Str
ours = (codes "inari.dev/managed-by", codes "inari-agent") ∷ []

abbrev wanted : Object
wanted = at_revision (codes "2") ours

abbrev deployed : Map Object
deployed = (codes "shop", at_revision (codes "1") ours) ∷ []

upsert_installs_example :
    let r = upsert quoted same_revision objects_api applications (codes "argocd") wanted deployed in
    (r.0 ≡ ok tt → IsInstalled same_revision defaulted lookup wanted r.1)
    × ((n : Str) → str_eq (codes "shop") n ≡ false → lookup n r.1 ≡ lookup n deployed)
    × ((o : Object)
        → lookup (codes "shop") deployed ≡ some o
        → is_managed o.labels ≡ false
        → (lookup (codes "shop") r.1 ≡ some o) × (r.0 ≢ ok tt))
    × ((o : Object)
        → lookup (codes "shop") deployed ≡ some o
        → is_managed o.labels ≡ true
        → same_revision wanted.spec o.spec ≡ true
        → r.1 ≡ deployed)
unfolding is_managed lookup str_eq
upsert_installs_example =
    upsert_installs quoted same_revision objects_api applications (codes "argocd") lookup defaulted
      objects_api-IsObjectStore wanted deployed refl

-- A cluster without ArgoCD, where installations are counted.
abbrev no_deployments : Effect ℕ Str (List Deployment)
no_deployments w = (ok [], w)

abbrev count_install : Str → Effect ℕ Str (Unit {0})
count_install ns w = (ok tt, suc w)

abbrev digit_count : Str → ℕ
digit_count s = length s

abbrev bundled : Lifecycle
bundled = record { mode = []; namespace = []; has_manifests = true }

ensure_ready-IsReady_example :
    (ds : List Deployment) × ((no_deployments 0).0 ≡ ok ds)
    × IsReady quoted digit_count no_deployments count_install bundled ds
        (codes "argocd")
        0
        (ensure_ready quoted digit_count no_deployments count_install bundled 0).1
unfolding ensure_ready ◌>>=◌ on_error lift str_eq ◌>>◌ pure
ensure_ready-IsReady_example =
    ensure_ready-IsReady quoted digit_count no_deployments count_install bundled (codes "argocd") 0
      refl

-- Decimal numbers
abbrev read_from : ℕ → Str → ℕ
read_from n [] = n
read_from n (c ∷ s) = read_from (n * 10 + (c - 48)) s

in_skew-lines_example :
    in_skew (read_from 0) (version (codes "2") (codes "14") (codes "11"))
    ≡ (str_eq (codes "2") (codes "3") && str_eq (codes "14") (codes "3"))
      || (str_eq (codes "2") (codes "2") && str_eq (codes "14") (codes "14"))
unfolding split has_prefix
in_skew-lines_example =
    in_skew-lines (read_from 0) (record { at_zero = refl; at_two = refl; at_three = refl })
      (codes "2") (codes "14") (codes "11") (refl, refl, refl) (refl, refl, refl) (refl, refl, refl)
