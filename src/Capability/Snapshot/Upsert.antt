-- ===== src/Capability/Snapshot/Upsert.antt =====
-- internal/capability/aggregate.go: the snapshot against the events, and the digest cache against
-- the snapshot.
use inari_agent.Prelude.{
  Str, Bool, false, ◌&&◌, if◌then◌else◌, Option, none, some, Map, lookup, delete, lookup-insert,
  lookup-delete, List, [], ◌∷◌, All, ◌≡◌, refl, ap, ◌∙◌, arith, str_eq, str_eq_iff, is_empty,
}
use inari_agent.Capability.Snapshot.{
  Capability, Snapshot, delete_where, matches_name, has_key, capability_key, apply_delete,
  apply_upsert, apply, apply_all, empty_snapshot,
}

pub lookup-delete_where {ℓ} :
    {V : Type ℓ} (p : Str → Bool) (k : Str) (m : Map V)
    → lookup k (delete_where p m) ≡ (if p k then none else lookup k m)
unfolding lookup delete_where
lookup-delete_where p k [] = ground arith
lookup-delete_where p k ((j, v) ∷ m) = ground (arith, lookup-delete_where p k m, str_eq_iff j k)

-- The cache holds exactly the digests of the snapshot.
abbrev pub summed : {B : Type 0} → (Capability B → Str) → Option (Capability B) → Option Str
summed dig none = none
summed dig (some c) = some (dig c)

module _ {B : Type 0} (digest : Capability B → Option Str) (dig : Capability B → Str) where
  abbrev IsSynced : Snapshot B → Type 0
  IsSynced s = (k : Str) → lookup k s.digests ≡ summed dig (lookup k s.snapshot)

  apply_upsert-IsSynced :
      ((c : Capability B) → digest c ≡ some (dig c))
      → (c : Capability B) (s : Snapshot B) → IsSynced s
      → IsSynced (apply_upsert digest c s)
  unfolding apply_upsert
  apply_upsert-IsSynced total c s h k = ground (
    arith,
    total c,
    h k,
    lookup-insert (capability_key c) k c s.snapshot,
    lookup-insert (capability_key c) k (dig c) s.digests,
  )

  has_key-lookup : (k : Str) (m : Map (Capability B)) → has_key k m ≡ false → lookup k m ≡ none
  unfolding has_key
  has_key-lookup k m h = ground arith

  apply_delete-IsSynced :
      (c : Capability B) (s : Snapshot B) → IsSynced s → IsSynced (apply_delete c s)
  unfolding apply_delete
  apply_delete-IsSynced c s h k = ground (
    arith,
    h k,
    lookup-delete (capability_key c) k s.snapshot,
    lookup-delete (capability_key c) k s.digests,
    has_key-lookup k (delete (capability_key c) s.snapshot),
    lookup-delete_where (matches_name c.kind c.name) k (delete (capability_key c) s.snapshot),
    lookup-delete_where
        (λ k. has_key k (delete (capability_key c) s.snapshot) && matches_name c.kind c.name k) k
        (delete (capability_key c) s.digests),
  )

  apply-IsSynced :
      ((c : Capability B) → digest c ≡ some (dig c))
      → (c : Capability B) (s : Snapshot B) → IsSynced s
      → IsSynced (apply digest c s)
  unfolding apply
  apply-IsSynced total c s h k =
      ground (arith, apply_delete-IsSynced c s h k, apply_upsert-IsSynced total c s h k)

  apply_all-IsSynced :
      ((c : Capability B) → digest c ≡ some (dig c))
      → (cs : List (Capability B)) (s : Snapshot B) → IsSynced s
      → IsSynced (apply_all digest cs s)
  unfolding apply_all
  apply_all-IsSynced total [] s h = h
  apply_all-IsSynced total (c ∷ cs) s h =
      apply_all-IsSynced total cs (apply digest c s) (apply-IsSynced total c s h)

  -- After any events, if every capability can be marshalled, the cached digest of every key is the
  -- digest of what the snapshot holds there, and a key that the snapshot lacks has no digest: the
  -- incremental checksum is over the same digests as one computed from the snapshot.
  pub digests_follow_snapshot :
      ((c : Capability B) → digest c ≡ some (dig c))
      → (cs : List (Capability B)) (k : Str)
      → lookup k (apply_all digest cs empty_snapshot).digests
        ≡ summed dig (lookup k (apply_all digest cs empty_snapshot).snapshot)
  unfolding lookup
  digests_follow_snapshot total cs k = apply_all-IsSynced total cs empty_snapshot (λ j. refl) k

-- What a key should hold after the events: the last one that names it decides.
abbrev pub latest :
    {B : Type 0} → Str → List (Capability B) → Option (Capability B) → Option (Capability B)
latest k [] o = o
latest k (c ∷ cs) o =
    latest k cs (if str_eq (capability_key c) k then (if c.is_delete then none else some c) else o)

module _ {B : Type 0} (digest : Capability B → Option Str) where
  -- Every event names its group.
  abbrev IsGrouped : Capability B → Type 0
  IsGrouped c = is_empty c.group ≡ false

  lookup-apply :
      (c : Capability B) (s : Snapshot B) (k : Str)
      → IsGrouped c
      → lookup k (apply digest c s).snapshot ≡ (
          if str_eq (capability_key c) k
          then (if c.is_delete then none else some c)
          else lookup k s.snapshot)
  unfolding apply apply_delete apply_upsert
  lookup-apply c s k g = ground (
    arith,
    lookup-delete (capability_key c) k s.snapshot,
    lookup-insert (capability_key c) k c s.snapshot,
  )

  apply_all-latest :
      (cs : List (Capability B)) (s : Snapshot B) (k : Str)
      → All IsGrouped cs
      → lookup k (apply_all digest cs s).snapshot ≡ latest k cs (lookup k s.snapshot)
  unfolding apply_all
  apply_all-latest [] s k g = refl
  apply_all-latest (c ∷ cs) s k g =
      apply_all-latest cs (apply digest c s) k g.1 ∙ ap (latest k cs) (lookup-apply c s k g.0)

  -- The snapshot is the last word of the events: where every event names its group, each key holds
  -- the capability of the last event with that key, or nothing if that was a deletion or there was
  -- none.
  pub snapshot_is_latest :
      (cs : List (Capability B)) (k : Str)
      → All IsGrouped cs
      → lookup k (apply_all digest cs empty_snapshot).snapshot ≡ latest k cs none
  unfolding lookup
  snapshot_is_latest cs k g = apply_all-latest cs empty_snapshot k g
