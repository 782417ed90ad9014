-- ===== src/Scenarios/Writes.antt =====
-- internal/git and internal/addonscan: the theorems at one repository and one release.
use inari_agent.Prelude.{
  ℕ, suc, ◌<◌, ◌⊎◌, Str, codes, Bool, true, none, some, Map, lookup, List, [], ◌∷◌, map, length,
  ◌≡◌, refl, str_eq,
}
use inari_agent.Git.Target.{File, Target}
use inari_agent.Git.Memory.{MemProvider}
use inari_agent.Addonscan.{
  KnownAddon, Addon, Tracked, Scanner, label, is_deployed, match_addon, apply_labels,
}
use inari_agent.Addonscan.Revisions.{HasRevision, key_of, apply_labels_keeps, apply_labels_tracks}

abbrev state_repo : Target
state_repo = record { repo = codes "acme/state"; path = codes "apps/"; branch = codes "main" }

abbrev path_hash : List File → Str
path_hash [] = []
path_hash (f ∷ fs) = f.path

abbrev holding : MemProvider
holding = record {
  commits = [];
  prs = [];
  deletes = [];
  present = (codes "apps/a", true) ∷ [];
  pending_error = none;
}

abbrev istio : KnownAddon
istio = record {
  release_name = codes "istiod";
  catalog_item = codes "platform:istio";
  chart = codes "istiod";
  repo_url = [];
}

abbrev labels_at : ℕ → Map Str
labels_at n =
    (codes "owner", codes "helm")
    ∷ (codes "status", codes "deployed")
    ∷ (codes "name", codes "istiod")
    ∷ (codes "version", n ∷ [])
    ∷ []

abbrev number : Str → ℕ
number [] = 0
number (n ∷ s) = n

abbrev item_sum : List Addon → Str
item_sum addons = 35 ∷ map (λ (a : Addon). length a.catalog_item) addons

abbrev line : List Addon → ℕ → Bool × ℕ
line addons n = (true, suc n)

abbrev tracked : Tracked
tracked = record {
  addon = record {
    catalog_item = codes "platform:istio";
    release_name = codes "istiod";
    namespace = codes "ns";
    chart = codes "istiod";
    repo_url = [];
  };
  revision = 9;
}

abbrev tracking : Scanner
tracking = record { known = istio ∷ []; current = (codes "ns/istiod", tracked) ∷ []; last_sum = [] }

apply_labels_keeps_example :
    let after =
      lookup
        (codes "ns/istiod")
        (apply_labels item_sum line number (codes "ns") (labels_at 7) tracking 0).0.current in
    (after ≡ some tracked)
    ⊎ ((b : Tracked) × (after ≡ some b)
        × (key_of (codes "ns") (labels_at 7) ≡ codes "ns/istiod")
        × (b.revision ≡ number (label (codes "version") (labels_at 7)))
        × (9 < b.revision))
unfolding lookup str_eq
apply_labels_keeps_example =
    apply_labels_keeps item_sum line number (codes "ns") (labels_at 7) tracking 0
      (codes "ns/istiod") tracked refl

apply_labels_tracks_example :
    HasRevision
      (codes "ns/istiod")
      11
      (apply_labels item_sum line number (codes "ns") (labels_at 11) tracking 0).0
unfolding label lookup str_eq is_deployed match_addon
apply_labels_tracks_example =
    apply_labels_tracks item_sum line number (codes "ns") (labels_at 11) tracking 0 istio refl refl
      refl

-- Another release of another item
abbrev cert_manager : Tracked
cert_manager = record {
  addon = record {
    catalog_item = codes "platform:certs";
    release_name = codes "cert-manager";
    namespace = codes "ns";
    chart = codes "cert-manager";
    repo_url = [];
  };
  revision = 1;
}

abbrev two_releases : Scanner
two_releases = record tracking {
  current = (codes "ns/istiod", tracked) ∷ (codes "ns/cert-manager", cert_manager) ∷ [];
}

abbrev other_order : Map Tracked
other_order = (codes "ns/cert-manager", cert_manager) ∷ (codes "ns/istiod", tracked) ∷ []
