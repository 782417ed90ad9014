-- ===== src/Capability/Snapshot.antt =====
-- internal/capability/aggregate.go (apply) and checksum.go (capabilityKey). The digest of a
-- capability (deterministic proto marshalling, then SHA-256) is a parameter; `none` is a marshalling
-- error.
pub mod Upsert
pub mod Deletion
use inari_agent.Prelude.{
  ℕ, Str, Bool, true, false, ◌&&◌, if◌then◌else◌, Option, none, some, Map, lookup, insert, delete,
  List, [], ◌∷◌, ◌++◌, is_empty, has_prefix, contains,
}

-- agentv1.Capability: the fields that the aggregator reads (`kind` is the enum's name), and the rest.
pub record Capability (B : Type 0) : Type 0 where
  pub kind : Str
  pub group : Str
  pub name : Str
  pub version : Str
  pub is_delete : Bool
  pub body : B

abbrev slash : ℕ
slash = b'/'

pub record Snapshot (B : Type 0) : Type 0 where
  pub snapshot : Map (Capability B)
  pub digests : Map Str

-- delete(m, k) for every key that passes the test
unfoldable pub delete_where {ℓ} : {V : Type ℓ} → (Str → Bool) → Map V → Map V
delete_where p [] = []
delete_where p ((k, v) ∷ m) = let rest = delete_where p m in if p k then rest else (k, v) ∷ rest

-- The keys that a DELETE with an empty group removes from both maps: those of the snapshot with the
-- kind as prefix and the name between slashes.
unfoldable pub matches_name : Str → Str → Str → Bool
matches_name kind name k =
    has_prefix k (kind ++ (slash ∷ [])) && contains k (slash ∷ (name ++ (slash ∷ [])))

unfoldable has_key {ℓ} : {V : Type ℓ} → Str → Map V → Bool
has_key k m = elim (lookup k m) [ none ↦ false | some v ↦ true ]

module _ {B : Type 0} where
  unfoldable pub capability_key : Capability B → Str
  capability_key c = c.kind ++ (slash ∷ (c.group ++ (slash ∷ (c.name ++ (slash ∷ c.version)))))

  unfoldable pub apply_delete : Capability B → Snapshot B → Snapshot B
  unfolding capability_key delete_where matches_name has_key
  apply_delete c s =
      let t : Snapshot B = record {
        snapshot = delete (capability_key c) s.snapshot;
        digests = delete (capability_key c) s.digests;
      } in
      if is_empty c.group
      then record {
        snapshot = delete_where (matches_name c.kind c.name) t.snapshot;
        digests =
            delete_where (λ k. has_key k t.snapshot && matches_name c.kind c.name k) t.digests;
      }
      else t

  -- An upsert keeps the digest that is there where the new one cannot be computed.
  unfoldable pub apply_upsert : (Capability B → Option Str) → Capability B → Snapshot B → Snapshot B
  unfolding capability_key
  apply_upsert digest c s = record {
    snapshot = insert (capability_key c) c s.snapshot;
    digests = elim (digest c) [
      | none ↦ s.digests
      | some sum ↦ insert (capability_key c) sum s.digests
    ];
  }

  unfoldable pub apply : (Capability B → Option Str) → Capability B → Snapshot B → Snapshot B
  unfolding apply_delete apply_upsert
  apply digest c s = if c.is_delete then apply_delete c s else apply_upsert digest c s

  unfoldable pub apply_all :
      (Capability B → Option Str) → List (Capability B) → Snapshot B → Snapshot B
  unfolding apply
  apply_all digest [] s = s
  apply_all digest (c ∷ cs) s = apply_all digest cs (apply digest c s)

  abbrev pub empty_snapshot : Snapshot B
  empty_snapshot = record { snapshot = []; digests = [] }
