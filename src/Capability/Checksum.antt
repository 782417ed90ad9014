-- ===== src/Capability/Checksum.antt =====
-- internal/capability/checksum.go: StateChecksum and ChecksumDigests. The SHA-256 of the bytes is the
-- parameter `hash`, the digest of a capability the parameter `digest` (`none` where it cannot be
-- marshalled).
pub mod Order
pub mod Incremental
use inari_agent.Prelude.{
  Str, if◌then◌else◌, Option, none, some, Map, lookup, insert, List, [], ◌∷◌, ◌++◌, str_less,
}
use inari_agent.Capability.Snapshot.{Capability, capability_key}

-- sort.Strings, by insertion
unfoldable pub insert_key : Str → List Str → List Str
insert_key k [] = k ∷ []
insert_key k (j ∷ js) = let rest = insert_key k js in if str_less j k then j ∷ rest else k ∷ j ∷ js

unfoldable sorted_keys : Map Str → List Str
unfolding insert_key
sorted_keys [] = []
sorted_keys ((k, v) ∷ m) = insert_key k (sorted_keys m)

abbrev digest_or : Option Str → Str
digest_or none = []
digest_or (some sum) = sum

-- What is written to the hash.
unfoldable digest_bytes : Map Str → List Str → Str
digest_bytes m [] = []
digest_bytes m (k ∷ ks) = k ++ (digest_or (lookup k m) ++ digest_bytes m ks)

-- ChecksumDigests
unfoldable pub checksum_digests : (Str → Str) → Map Str → Str
unfolding sorted_keys digest_bytes
checksum_digests hash digests = hash (digest_bytes digests (sorted_keys digests))

-- The loop of StateChecksum
unfoldable collect_digests :
    {B : Type 0} → (Capability B → Option Str) → List (Capability B) → Map Str → Map Str
collect_digests digest [] m = m
collect_digests digest (c ∷ cs) m =
    collect_digests digest cs
      (elim (digest c) [ none ↦ m | some sum ↦ insert (capability_key c) sum m ])

-- StateChecksum
unfoldable pub state_checksum :
    {B : Type 0} → (Str → Str) → (Capability B → Option Str) → List (Capability B) → Str
unfolding collect_digests checksum_digests
state_checksum hash digest caps = checksum_digests hash (collect_digests digest caps [])
