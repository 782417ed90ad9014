-- ===== src/Capability/Checksum/Incremental.antt =====
-- internal/capability: the aggregator's incremental checksum is the checksum of its snapshot.
use inari_agent.Prelude.{
  Str, Bool, true, false, if◌then◌else◌, Bool-cases, Option-cases, some-injective, Option, none,
  some, Map, lookup, insert, delete, lookup-insert, lookup-delete, List, [], ◌∷◌, ◌≡◌, inl, inr,
  refl, sym, ap, ◌∙◌, arith, str_eq, str_eq_refl, str_eq_sound, is_empty, IsMap, insert-IsMap,
  delete-IsMap,
}
use inari_agent.Capability.Snapshot.{
  Capability, Snapshot, delete_where, matches_name, capability_key, apply_delete, apply_upsert,
  apply, apply_all, empty_snapshot,
}
use inari_agent.Capability.Snapshot.Upsert.{lookup-delete_where, summed, digests_follow_snapshot}
use inari_agent.Capability.Checksum.{checksum_digests, collect_digests, state_checksum}
use inari_agent.Capability.Checksum.Order.{checksum_digests_same}

-- The capabilities of a snapshot, as ReplayFullState collects them.
abbrev pub values : {B : Type 0} → Map (Capability B) → List (Capability B)
values [] = []
values ((k, c) ∷ m) = c ∷ values m

-- An order in which a map may be ranged over: distinct keys, and under every key what the map has.
abbrev pub IsRangeOf : {V : Type 0} → Map V → Map V → Type 0
IsRangeOf r m = IsMap r × ((k : Str) → lookup k r ≡ lookup k m)

delete_where-IsMap : {V : Type 0} (p : Str → Bool) (m : Map V) → IsMap m → IsMap (delete_where p m)
unfolding delete_where
delete_where-IsMap p [] d = tt
delete_where-IsMap p ((k, v) ∷ m) d = elim (Bool-cases (p k)) [
  | inl t ↦ rw t (delete_where-IsMap p m d.1)
  | inr n ↦ rw n (ground (arith, lookup-delete_where p k m, d.0), delete_where-IsMap p m d.1)
]

-- Keys are distinct in both maps, and a capability stands under its own key.
record IsTidy {B : Type 0} (s : Snapshot B) : Type 0 where
  tidy_snapshot : IsMap s.snapshot
  tidy_digests : IsMap s.digests
  own_key : (k : Str) (c : Capability B) → lookup k s.snapshot ≡ some c → capability_key c ≡ k

branches-IsTidy :
    {B : Type 0} (b : Bool) (s t : Snapshot B) → IsTidy s → IsTidy t → IsTidy (if b then s else t)
branches-IsTidy true s t h k = h
branches-IsTidy false s t h k = k

-- A digest of the snapshot over one that was there.
abbrev over : {B : Type 0} → (Capability B → Str) → Option (Capability B) → Option Str → Option Str
over dig none o = o
over dig (some c) o = some (dig c)

over-none :
    {B : Type 0} (dig : Capability B → Str) (o : Option (Capability B))
    → over dig o none ≡ summed dig o
over-none dig none = refl
over-none dig (some c) = refl

module _ {B : Type 0} (digest : Capability B → Option Str) where
  apply_delete-IsTidy : (c : Capability B) (s : Snapshot B) → IsTidy s → IsTidy (apply_delete c s)
  unfolding apply_delete
  apply_delete-IsTidy c s t = elim (Bool-cases (is_empty c.group)) [
    | inl e ↦ rw e (record {
      tidy_snapshot = delete_where-IsMap _ _ (delete-IsMap _ _ t.tidy_snapshot);
      tidy_digests = delete_where-IsMap _ _ (delete-IsMap _ _ t.tidy_digests);
      own_key = λ k d h. t.own_key k d (
          ground (
            arith,
            h,
            lookup-delete (capability_key c) k s.snapshot,
            lookup-delete_where (matches_name c.kind c.name) k
                (delete (capability_key c) s.snapshot),
          ));
    })
    | inr e ↦ rw e (record {
      tidy_snapshot = delete-IsMap _ _ t.tidy_snapshot;
      tidy_digests = delete-IsMap _ _ t.tidy_digests;
      own_key =
          λ k d h. t.own_key k d (ground (arith, h, lookup-delete (capability_key c) k s.snapshot));
    })
  ]

  apply_upsert-IsTidy :
      (c : Capability B) (s : Snapshot B) → IsTidy s → IsTidy (apply_upsert digest c s)
  unfolding apply_upsert
  apply_upsert-IsTidy c s t = record {
    tidy_snapshot = insert-IsMap _ _ _ t.tidy_snapshot;
    tidy_digests = elim (Option-cases (digest c)) [
      | inl e ↦ rw e t.tidy_digests
      | inr (sum, e) ↦ rw e (insert-IsMap _ _ _ t.tidy_digests)
    ];
    own_key = λ k d h. elim (Bool-cases (str_eq (capability_key c) k)) [
      | inl e ↦
          let same : c ≡ d = some-injective (rw (lookup-insert, e) at h) in
          ap capability_key (sym same) ∙ str_eq_sound (capability_key c) k e
      | inr n ↦ t.own_key k d (rw (lookup-insert, n) at h)
    ];
  }

  apply_all-IsTidy :
      (cs : List (Capability B)) (s : Snapshot B) → IsTidy s → IsTidy (apply_all digest cs s)
  unfolding apply_all apply
  apply_all-IsTidy [] s t = t
  apply_all-IsTidy (c ∷ cs) s t = apply_all-IsTidy cs (apply digest c s) (
      branches-IsTidy c.is_delete (apply_delete c s) (apply_upsert digest c s)
        (apply_delete-IsTidy c s t) (apply_upsert-IsTidy c s t))

  collect-IsMap :
      (cs : List (Capability B)) (m : Map Str) → IsMap m → IsMap (collect_digests digest cs m)
  unfolding collect_digests
  collect-IsMap [] m d = d
  collect-IsMap (c ∷ cs) m d = elim (Option-cases (digest c)) [
    | inl e ↦ rw e (collect-IsMap cs m d)
    | inr (sum, e) ↦
        rw e (collect-IsMap cs (insert (capability_key c) sum m) (insert-IsMap _ _ _ d))
  ]

  lookup-collect :
      (dig : Capability B → Str)
      → ((c : Capability B) → digest c ≡ some (dig c))
      → (s : Map (Capability B)) (m : Map Str) → IsMap s
      → ((k : Str) (c : Capability B) → lookup k s ≡ some c → capability_key c ≡ k)
      → (k : Str)
      → lookup k (collect_digests digest (values s) m) ≡ over dig (lookup k s) (lookup k m)
  unfolding collect_digests lookup
  lookup-collect dig total [] m d own k = refl
  lookup-collect dig total ((j, c) ∷ s) m d own k =
      rw (total c, collect_digests)
        (lookup-collect dig total s (insert (capability_key c) (dig c) m) d.1
            (λ i x h. own i x (below i x h)) k
          ∙ (elim (Bool-cases (str_eq j k)) [
            | inl t ↦
                let gone : lookup k s ≡ none = rw (← str_eq_sound j k t) d.0 in
                rw (gone, t, lookup-insert, own_here, t) refl
            | inr n ↦ rw (n, lookup-insert, own_here, n) refl
          ]))
    where
      own_here : capability_key c ≡ j
      own_here = own j c (rw (str_eq_refl j) refl)

      below :
          (i : Str) (x : Capability B)
          → lookup i s ≡ some x
          → (if str_eq j i then some c else lookup i s) ≡ some x
      below i x h = elim (Bool-cases (str_eq j i)) [
        | inl t ↦ cc (d.0, ap (λ (y : Str). lookup y s) (str_eq_sound j i t), h)
        | inr n ↦ rw n h
      ]

  -- After any events, if every capability can be marshalled, the checksum of the cached digests, which
  -- the aggregator reports, is StateChecksum of the capabilities of the snapshot; and that in whatever
  -- order the two maps are ranged over, `m` and `s`.
  pub incremental_checksum :
      (hash : Str → Str) (dig : Capability B → Str)
      → ((c : Capability B) → digest c ≡ some (dig c))
      → (cs : List (Capability B)) (m : Map Str) (s : Map (Capability B))
      → IsRangeOf m (apply_all digest cs empty_snapshot).digests
      → IsRangeOf s (apply_all digest cs empty_snapshot).snapshot
      → checksum_digests hash m ≡ state_checksum hash digest (values s)
  unfolding state_checksum lookup
  incremental_checksum hash dig total cs m s (distinct_m, same_m) (distinct_s, same_s) =
      let t = apply_all-IsTidy cs empty_snapshot (record {
        tidy_snapshot = tt;
        tidy_digests = tt;
        own_key = λ k c h. unfold lookup in cc h;
      }) in
      checksum_digests_same hash m (collect_digests digest (values s) []) distinct_m
        (collect-IsMap (values s) [] tt)
        (λ k.
          same_m k
          ∙ digests_follow_snapshot digest dig total cs k
          ∙ ap (summed dig) (sym (same_s k))
          ∙ sym (
              lookup-collect dig total s [] distinct_s (λ j c h. t.own_key j c (sym (same_s j) ∙ h))
                k
              ∙ over-none dig (lookup k s)))
