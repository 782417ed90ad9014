-- ===== src/Addonscan.antt =====
-- internal/addonscan/scanner.go: the Scanner. strconv.Atoi (0 on an error), the checksum of a report
-- (encoding/json and crypto/sha256) and the sender are parameters; Helm's revisions are not negative.
pub mod Revisions
pub mod Order
pub mod Reports
use inari_agent.Prelude.{
  str_less, ℕ, Str, codes, Bool, true, false, not, ◌&&◌, ◌||◌, if◌then◌else◌, Option, none, some,
  Map, lookup, insert, delete, List, [], ◌∷◌, ◌++◌, str_eq, leb, is_empty,
}

pub record KnownAddon : Type 0 where
  pub release_name : Str
  pub catalog_item : Str
  pub chart : Str
  pub repo_url : Str

-- One entry of a report.
pub record Addon : Type 0 where
  pub catalog_item : Str
  pub release_name : Str
  pub namespace : Str
  pub chart : Str
  pub repo_url : Str

-- An entry of the snapshot, with its revision.
pub record Tracked : Type 0 where
  pub addon : Addon
  pub revision : ℕ

pub record Scanner : Type 0 where
  pub known : List KnownAddon
  pub current : Map Tracked
  pub last_sum : Str

-- labels[key], "" where it is missing
unfoldable pub label : Str → Map Str → Str
label key labels = elim (lookup key labels) [ none ↦ [] | some v ↦ v ]

unfoldable pub match_addon : Str → List KnownAddon → Option KnownAddon
match_addon release [] = none
match_addon release (k ∷ ks) =
    let rest = match_addon release ks in if str_eq k.release_name release then some k else rest

unfoldable pub is_deployed : Map Str → Bool
unfolding label
is_deployed labels =
    str_eq (label (codes "owner") labels) (codes "helm")
    && str_eq (label (codes "status") labels) (codes "deployed")

abbrev release_key : Str → Str → Str
release_key namespace release = namespace ++ (b'/' ∷ release)

-- Is a revision of the key at least this one already there?
unfoldable is_stale : Str → ℕ → Map Tracked → Bool
is_stale key rev current = elim (lookup key current) [ none ↦ false | some t ↦ leb rev t.revision ]

abbrev new_entry : KnownAddon → Str → Str → ℕ → Tracked
new_entry k release namespace rev = record {
  addon = record {
    catalog_item = k.catalog_item;
    release_name = release;
    namespace = namespace;
    chart = k.chart;
    repo_url = k.repo_url;
  };
  revision = rev;
}

-- applyLabels up to the report: the snapshot after it, or `none` for an early return.
unfoldable fold_labels : (Str → ℕ) → Str → Map Str → Scanner → Option Scanner
unfolding is_deployed match_addon is_stale
fold_labels atoi namespace labels s =
    let release = label (codes "name") labels in
    let rev = atoi (label (codes "version") labels) in
    let key = release_key namespace release in
    if not (is_deployed labels) || is_empty release
    then none
    else elim (match_addon release s.known) [
      | none ↦ none
      | some k ↦
          if is_stale key rev s.current
          then none
          else some
              (record s { current = insert key (new_entry k release namespace rev) s.current })
    ]

-- onDelete up to the report; `none` where nothing was there.
unfoldable drop_release : Str → Map Str → Scanner → Option Scanner
unfolding is_deployed
drop_release namespace labels s =
    let release = label (codes "name") labels in
    let key = release_key namespace release in
    if not (is_deployed labels) || is_empty release then none else elim (lookup key s.current) [
      | none ↦ none
      | some t ↦ some (record s { current = delete key s.current })
    ]

-- sort.Slice by catalog item; entries with the same item may come in any order, here the map's.
unfoldable insert_addon : Addon → List Addon → List Addon
insert_addon a [] = a ∷ []
insert_addon a (b ∷ bs) =
    let rest = insert_addon a bs in
    if str_less b.catalog_item a.catalog_item then b ∷ rest else a ∷ b ∷ bs

unfoldable pub sorted_addons : Map Tracked → List Addon
unfolding insert_addon
sorted_addons [] = []
sorted_addons ((k, t) ∷ m) = insert_addon t.addon (sorted_addons m)

abbrev no_addons : List Addon → Bool
no_addons [] = true
no_addons (a ∷ as') = false

module _ {W : Type 0} (checksum : List Addon → Str) (sender : List Addon → W → Bool × W) where
  -- report
  unfoldable pub report : Scanner → W → Scanner × W
  unfolding sorted_addons
  report s w =
      let addons = sorted_addons s.current in
      let sum = checksum addons in
      let (sent, w') = sender addons w in
      if no_addons addons
      then (s, w)
      else if str_eq sum s.last_sum
      then (s, w)
      else if sent
      then (record s { last_sum = sum }, w')
      else (s, w')

  abbrev report_change : Scanner → Option Scanner → W → Scanner × W
  report_change s none w = (s, w)
  report_change s (some t) w = report t w

  -- applyLabels
  unfoldable pub apply_labels : (Str → ℕ) → Str → Map Str → Scanner → W → Scanner × W
  unfolding fold_labels
  apply_labels atoi namespace labels s w = report_change s (fold_labels atoi namespace labels s) w

  -- onDelete
  unfoldable on_delete : Str → Map Str → Scanner → W → Scanner × W
  unfolding drop_release
  on_delete namespace labels s w = report_change s (drop_release namespace labels s) w

  -- Reset
  unfoldable pub reset_scanner : Scanner → W → Scanner × W
  unfolding report
  reset_scanner s w = report (record s { last_sum = [] }) w
