-- ===== src/Status/Streamer.antt =====
-- internal/status/streamer.go: emit, emitDelete and Reset. The update's hash and the sender are
-- parameters; the time of observation, which the hash leaves out, is not in the model.
pub mod Dedupe
use inari_agent.Prelude.{
  Str, codes, Bool, if◌then◌else◌, none, some, Map, lookup, insert, delete, [], ◌∷◌, ◌++◌, str_eq,
  is_empty,
}

pub data HealthStatus : Type 0 where
  healthy progressing degraded suspended missing unknown : HealthStatus

pub data SyncState : Type 0 where
  synced out_of_sync sync_error unspecified : SyncState

pub record ResourceRef : Type 0 where
  pub kind : Str
  pub name : Str
  pub namespace : Str
  pub uid : Str

pub record StatusUpdate : Type 0 where
  pub resource : ResourceRef
  pub health : HealthStatus
  pub sync : SyncState
  pub message : Str

-- The part of an informer's object that identifies it.
pub record Meta : Type 0 where
  pub kind : Str
  pub group : Str
  pub namespace : Str
  pub name : Str
  pub uid : Str

-- qualifiedKind
unfoldable qualified_kind : Meta → Str
qualified_kind u = if is_empty u.group then u.kind else u.kind ++ (b'.' ∷ u.group)

unfoldable pub kind_for : Meta → Bool → Str
unfolding qualified_kind
kind_for u qualify = if qualify then qualified_kind u else u.kind

-- The dedupe key kind/namespace/name/uid
unfoldable pub dedupe_key : Str → Meta → Str
dedupe_key kind u = kind ++ (b'/' ∷ (u.namespace ++ (b'/' ∷ (u.name ++ (b'/' ∷ u.uid)))))

unfoldable pub ref_of : Str → Meta → ResourceRef
ref_of kind u = record { kind = kind; name = u.name; namespace = u.namespace; uid = u.uid }

-- The streamer's lastSum beside the world of the sender; a missing entry reads as "".
module _ {W : Type 0} (checksum : StatusUpdate → Str) (sender : StatusUpdate → W → Bool × W) where
  unfoldable pub last_sum : Str → Map Str → Str
  last_sum key sums = elim (lookup key sums) [ none ↦ [] | some s ↦ s ]

  -- emit, from the mapped update on: the sums and the world after it.
  unfoldable pub emit : Str → StatusUpdate → Map Str → W → Map Str × W
  unfolding last_sum
  emit key upd sums w =
      let sum = checksum upd in
      let (sent, w') = sender upd w in
      if str_eq (last_sum key sums) sum
      then (sums, w)
      else if sent
      then (insert key sum sums, w')
      else (sums, w')

  unfoldable deletion_update : Str → Meta → StatusUpdate
  unfolding ref_of
  deletion_update kind u = record {
    resource = ref_of kind u;
    health = missing;
    sync = unspecified;
    message = codes "resource deleted";
  }

  -- emitDelete
  unfoldable pub emit_delete : Meta → Bool → Map Str → W → Map Str × W
  unfolding kind_for dedupe_key deletion_update
  emit_delete u qualify sums w =
      let kind = kind_for u qualify in
      let (sent, w') = sender (deletion_update kind u) w in (delete (dedupe_key kind u) sums, w')

  -- Reset
  unfoldable pub reset : Map Str → Map Str
  reset sums = []
