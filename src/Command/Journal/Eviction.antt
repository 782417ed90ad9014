-- ===== src/Command/Journal/Eviction.antt =====
-- internal/command/journal.go: the eviction loop of Record keeps the new entry and the size bound.
use inari_agent.Prelude.{
  ℕ, ◌≤◌, ◌<◌, Str, Bool, false, ◌||◌, if◌then◌else◌, Bool-cases, none, some, Map, lookup, insert,
  delete, lookup-insert, lookup-delete, List, [], ◌∷◌, length, ◌≡◌, ◌⊎◌, inl, inr, refl, arith,
  str_eq, str_eq_iff, str_eq_refl, leb, le→leb, IsMap, insert-IsMap, delete-IsMap,
}
use inari_agent.Command.Journal.{evict, keys, with_entry, max_journal_entries}

unfoldable member : Str → List Str → Bool
member k [] = false
member k (id ∷ ids) = str_eq id k || member k ids

-- Every key but `own` that is not among `ids` is gone.
abbrev Covered : Str → List Str → Map Str → Type 0
Covered own ids m = (k : Str) → member k ids ≡ false → str_eq own k ≡ false → lookup k m ≡ none

lookup-keys : (k : Str) (m : Map Str) → member k (keys m) ≡ false → lookup k m ≡ none
unfolding member keys lookup
lookup-keys k [] h = refl
lookup-keys k ((j, v) ∷ m) h = ground (arith, lookup-keys k m)

Covered-step :
    (own id : Str) (ids : List Str) (m : Map Str)
    → Covered own (id ∷ ids) m
    → Covered own ids (if str_eq id own then m else delete id m)
unfolding member
Covered-step own id ids m c k n o = elim (Bool-cases (str_eq id own)) [
  | inl e ↦ rw e (c k (ground (arith, n, str_eq_iff id own, str_eq_iff id k, str_eq_iff own k)) o)
  | inr e ↦ rw (e, lookup-delete) (ground (arith, c k, n, o))
]

only_own : (own : Str) (m : Map Str) → IsMap m → Covered own [] m → length m ≤ 1
unfolding member lookup
only_own own [] d c = omega arith
only_own own ((j, v) ∷ []) d c = omega arith
only_own own ((j, v) ∷ (k, u) ∷ m) d c = ground (
  arith,
  d.0,
  c j,
  c k,
  str_eq_iff own j,
  str_eq_iff own k,
  str_eq_iff k j,
  str_eq_refl j,
  str_eq_refl k,
)

evict-IsMap :
    (limit : ℕ) (own : Str) (ids : List Str) (m : Map Str) → IsMap m → IsMap (evict limit own ids m)
unfolding evict
evict-IsMap limit own [] m d = d
evict-IsMap limit own (id ∷ ids) m d = elim (Bool-cases (leb (length m) limit)) [
  | inl e ↦ rw e d
  | inr n ↦ rw n (
      evict-IsMap limit own ids _
        (elim (Bool-cases (str_eq id own)) [ inl o ↦ rw o d | inr o ↦ rw o (delete-IsMap id m d) ]))
]

length-evict-le :
    (limit : ℕ) (own : Str) (ids : List Str) (m : Map Str)
    → 0 < limit
    → IsMap m
    → Covered own ids m
    → length (evict limit own ids m) ≤ limit
unfolding evict
length-evict-le limit own [] m z d c = omega (arith, only_own own m d c)
length-evict-le limit own (id ∷ ids) m z d c = elim (Bool-cases (leb (length m) limit)) [
  | inl e ↦ rw e (ground arith)
  | inr n ↦ rw n (
      length-evict-le limit own ids _ z
        (elim (Bool-cases (str_eq id own)) [ inl o ↦ rw o d | inr o ↦ rw o (delete-IsMap id m d) ])
        (Covered-step own id ids m c))
]

-- The loop removes entries and changes none, and never its own.
lookup-evict :
    (limit : ℕ) (own k : Str) (ids : List Str) (m : Map Str)
    → (lookup k (evict limit own ids m) ≡ lookup k m)
      ⊎ ((str_eq own k ≡ false) × (lookup k (evict limit own ids m) ≡ none))
unfolding evict
lookup-evict limit own k [] m = inl refl
lookup-evict limit own k (id ∷ ids) m = ground (
  arith,
  lookup-evict limit own k ids (if str_eq id own then m else delete id m),
  lookup-delete id k m,
  str_eq_iff own k,
  str_eq_iff id k,
  str_eq_iff id own,
)

-- What is expected of the map that Record writes.
pub record Written (id raw : Str) (entries out : Map Str) : Type 0 where
  pub own : lookup id out ≡ some raw
  pub bounded : length out ≤ max_journal_entries
  pub distinct : IsMap out
  pub others :
      (k : Str)
      → (lookup k out ≡ lookup k (insert id raw entries))
        ⊎ ((str_eq id k ≡ false) × (lookup k out ≡ none))
  pub kept : length (insert id raw entries) ≤ max_journal_entries → out ≡ insert id raw entries

evict_idle :
    (limit : ℕ) (own : Str) (ids : List Str) (m : Map Str)
    → length m ≤ limit
    → evict limit own ids m ≡ m
unfolding evict
evict_idle limit own [] m h = refl
evict_idle limit own (id ∷ ids) m h = rw (le→leb _ _ h) refl

-- Where the keys of the ConfigMap are distinct, Record writes the new entry under its id, at most
-- `max_journal_entries` entries in all under distinct keys, for any other key what was there or
-- nothing, and all that was there if there is room.
pub with_entry-Written :
    (id raw : Str) (entries : Map Str)
    → IsMap entries
    → Written id raw entries (with_entry id raw entries)
unfolding with_entry
with_entry-Written id raw entries d =
    let m = insert id raw entries in
    record {
      own = ground (
        arith,
        lookup-evict max_journal_entries id id (keys m) m,
        lookup-insert id id raw entries,
        str_eq_refl id,
      );
      bounded =
          length-evict-le max_journal_entries id (keys m) m (omega arith)
            (insert-IsMap id raw entries d) (λ k n o. lookup-keys k m n);
      distinct = evict-IsMap max_journal_entries id (keys m) m (insert-IsMap id raw entries d);
      kept = λ room. evict_idle max_journal_entries id (keys m) m room;
      others = λ k. lookup-evict max_journal_entries id k (keys m) m;
    }
