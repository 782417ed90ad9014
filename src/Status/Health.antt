-- ===== src/Status/Health.antt =====
-- internal/status/streamer.go: healthOf, syncOf, comparisonErrorOf and mapStatus, over the fields of
-- an object's status that they read (`none` where NestedString or NestedSlice finds nothing).
pub mod Agreement
use inari_agent.Prelude.{
  ◌+◌, Str, codes, not, ◌&&◌, ◌||◌, if◌then◌else◌, Option, none, some, List, [], ◌∷◌, ◌++◌, str_eq,
  leb, is_empty, trim_space,
}
use inari_agent.Status.Streamer.{
  HealthStatus, healthy, progressing, degraded, suspended, missing, unknown, SyncState, synced,
  out_of_sync, sync_error, unspecified, StatusUpdate, Meta, ref_of, dedupe_key,
}

-- One entry of .status.conditions; a field that is absent or no string is "".
pub record Condition : Type 0 where
  pub type_name : Str
  pub status : Str
  pub reason : Str
  pub message : Str

pub record ObjectStatus : Type 0 where
  pub health_status : Option Str
  pub health_message : Str
  pub sync_status : Option Str
  pub conditions : Option (List Condition)

-- strings.ToLower, on ASCII text
unfoldable to_lower : Str → Str
to_lower [] = []
to_lower (c ∷ s) = (if leb b'A' c && leb c b'Z' then c + 32 else c) ∷ to_lower s

unfoldable health_named : Str → HealthStatus
unfolding to_lower
health_named hs =
    let l = to_lower hs in
    if str_eq l (codes "healthy")
    then healthy
    else if str_eq l (codes "progressing")
    then progressing
    else if str_eq l (codes "degraded")
    then degraded
    else if str_eq l (codes "suspended")
    then suspended
    else if str_eq l (codes "missing")
    then missing
    else unknown

-- The first condition of type Ready
unfoldable find_ready : List Condition → Option Condition
find_ready [] = none
find_ready (c ∷ cs) =
    let rest = find_ready cs in if str_eq c.type_name (codes "Ready") then some c else rest

unfoldable ready_health : Condition → HealthStatus × Str
ready_health c =
    if str_eq c.status (codes "True")
    then (healthy, c.message)
    else if is_empty c.reason
    then (degraded, c.message)
    else (progressing, c.message)

unfoldable conditions_health : Option (List Condition) → HealthStatus × Str
unfolding find_ready ready_health
conditions_health none = (unknown, [])
conditions_health (some cs) = elim (find_ready cs) [
  | none ↦ (unknown, [])
  | some c ↦ ready_health c
]

unfoldable pub health_of : ObjectStatus → HealthStatus × Str
unfolding health_named conditions_health
health_of u = elim u.health_status [
  | some hs ↦ (health_named hs, u.health_message)
  | none ↦ conditions_health u.conditions
]

unfoldable sync_named : Str → SyncState × Str
unfolding to_lower
sync_named ss =
    if str_eq (to_lower ss) (codes "synced")
    then (synced, [])
    else if str_eq (to_lower ss) (codes "outofsync")
    then (out_of_sync, [])
    else (sync_error, ss)

unfoldable conditions_sync : Option (List Condition) → SyncState
unfolding find_ready
conditions_sync none = unspecified
conditions_sync (some cs) = elim (find_ready cs) [
  | none ↦ unspecified
  | some c ↦ if str_eq c.status (codes "True") then synced else out_of_sync
]

unfoldable pub sync_of : ObjectStatus → SyncState × Str
unfolding sync_named conditions_sync
sync_of u = elim u.sync_status [
  | some ss ↦ sync_named ss
  | none ↦ (conditions_sync u.conditions, [])
]

-- The loop of comparisonErrorOf
unfoldable first_error : List Condition → Str
first_error [] = []
first_error (c ∷ cs) =
    let rest = first_error cs in
    if (str_eq c.type_name (codes "ComparisonError") || str_eq c.type_name (codes "SyncError"))
      && not (is_empty c.message)
    then c.type_name ++ (codes ": " ++ c.message)
    else rest

unfoldable comparison_error_of : ObjectStatus → Str
unfolding first_error
comparison_error_of u = elim u.conditions [ none ↦ [] | some cs ↦ first_error cs ]

-- The message of mapStatus
unfoldable status_message : Str → ObjectStatus → Str
unfolding health_of sync_of comparison_error_of
status_message kind u =
    let msg = trim_space ((health_of u).1 ++ (b' ' ∷ (sync_of u).1)) in
    if str_eq kind (codes "Application") && not (is_empty (comparison_error_of u))
    then trim_space (msg ++ (b' ' ∷ comparison_error_of u))
    else msg

-- mapStatus
unfoldable map_status : Meta → ObjectStatus → Str → StatusUpdate × Str
unfolding status_message ref_of dedupe_key
map_status m u kind = (
  record {
    resource = ref_of kind m;
    health = (health_of u).0;
    sync = (sync_of u).0;
    message = status_message m.kind u;
  },
  dedupe_key kind m,
)
