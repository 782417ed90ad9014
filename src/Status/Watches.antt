-- ===== src/Status/Watches.antt =====
-- internal/status/watch.go: ParseWatchResources, and streamer.go: filteredWatches. The syntax of label
-- selectors (metav1.ParseToLabelSelector) and the discovery of served APIs are parameters.
pub mod Entries
pub mod Filtered
use inari_agent.Prelude.{
  Str, Bool, false, ◌&&◌, ◌||◌, if◌then◌else◌, Option, none, some, Outcome, ok, err, ◌>>=◌, Map,
  lookup, insert, List, [], ◌∷◌, ◌++◌, str_eq, is_empty, split, cut, trim_space,
}

pub record WatchResource : Type 0 where
  pub group : Str
  pub version : Str
  pub resource : Str
  pub selector : Str

-- Errors of ParseWatchResources, each with the entry.
pub data WatchError : Type 0 where
  bad_resource : Str → WatchError
  empty_selector : Str → WatchError
  bad_selector : Str → WatchError

unfoldable same_watch : WatchResource → WatchResource → Bool
same_watch a b =
    str_eq a.group b.group
    && (str_eq a.version b.version
        && (str_eq a.resource b.resource && str_eq a.selector b.selector))

unfoldable seen_watch : WatchResource → List WatchResource → Bool
unfolding same_watch
seen_watch w [] = false
seen_watch w (v ∷ vs) = same_watch v w || seen_watch w vs

-- The selector behind '@': none without one.
unfoldable check_selector : (Str → Bool) → Str → Option Str → Outcome WatchError Str
check_selector valid entry none = ok []
check_selector valid entry (some []) = err (empty_selector entry)
check_selector valid entry (some (c ∷ s)) =
    if valid (c ∷ s) then ok (c ∷ s) else err (bad_selector entry)

unfoldable with_parts :
    (Str → Bool) → Str → List Str → Option Str → Outcome WatchError WatchResource
unfolding check_selector
with_parts valid entry (group ∷ version ∷ resource ∷ []) behind =
    if is_empty version || is_empty resource
    then err (bad_resource entry)
    else check_selector valid entry behind >>= λ selector.
        ok (record { group = group; version = version; resource = resource; selector = selector })
with_parts valid entry _ behind = err (bad_resource entry)

-- One entry that is trimmed and not empty
unfoldable pub parse_entry : (Str → Bool) → Str → Outcome WatchError WatchResource
unfolding with_parts
parse_entry valid entry =
    let parts = cut b'@' entry in with_parts valid entry (split b'/' parts.0) parts.1

-- The loop over the entries; `kept` is `out`, latest first, which `seen` mirrors.
unfoldable parse_entries :
    (Str → Bool) → List Str → List WatchResource → Outcome WatchError (List WatchResource)
unfolding parse_entry seen_watch
parse_entries valid [] kept = ok []
parse_entries valid (raw ∷ raws) kept =
    let entry = trim_space raw in
    let skipped = parse_entries valid raws kept in
    if is_empty entry
    then skipped
    else parse_entry valid entry >>= λ w.
        (if seen_watch w kept
          then skipped
          else parse_entries valid raws (w ∷ kept) >>= λ ws. ok (w ∷ ws))

-- ParseWatchResources
unfoldable parse_watch_resources : (Str → Bool) → Str → Outcome WatchError (List WatchResource)
unfolding parse_entries
parse_watch_resources valid input =
    let trimmed = trim_space input in
    if is_empty trimmed then ok [] else parse_entries valid (split b';' trimmed) []

-- The loop of filteredWatches with its cache, here from a key of the GVR to what discovery said.
unfoldable gvr_key : WatchResource → Str
gvr_key w = w.group ++ (b'/' ∷ (w.version ++ (b'/' ∷ w.resource)))

unfoldable filter_from : (Str → Bool) → Map Bool → List WatchResource → List WatchResource
unfolding gvr_key
filter_from served checked [] = []
filter_from served checked (w ∷ ws) =
    let key = gvr_key w in
    let avail : Bool = elim (lookup key checked) [ some known ↦ known | none ↦ served key ] in
    let rest = filter_from served (insert key avail checked) ws in if avail then w ∷ rest else rest

-- filteredWatches; `none` is a nil Discovery.
unfoldable pub filtered_watches : Option (Str → Bool) → List WatchResource → List WatchResource
unfolding filter_from
filtered_watches none ws = ws
filtered_watches (some served) ws = filter_from served [] ws
