-- ===== src/Addonscan/Revisions.antt =====
-- internal/addonscan/scanner.go: revisions of the snapshot.
use inari_agent.Prelude.{
  ℕ, ◌≤◌, ◌<◌, Str, codes, Bool, true, false, not, ◌||◌, Bool-cases, leb→le, leb-false→lt,
  Option-cases, none, some, Map, lookup, insert, lookup-insert, List, ◌≡◌, ◌⊎◌, inl, inr, refl,
  arith, str_eq, str_eq_refl, str_eq_sound, is_empty,
}
use inari_agent.Addonscan.{
  KnownAddon, Addon, Tracked, Scanner, label, match_addon, is_deployed, release_key, is_stale,
  new_entry, fold_labels, report, apply_labels,
}

-- The snapshot has the key at this revision or a later one.
abbrev pub HasRevision : Str → ℕ → Scanner → Type 0
HasRevision key rev s = (t : Tracked) × (lookup key s.current ≡ some t) × (rev ≤ t.revision)

report_current :
    {W : Type 0} (checksum : List Addon → Str) (sender : List Addon → W → Bool × W) (s : Scanner)
    (w : W)
    → (report checksum sender s w).0.current ≡ s.current
unfolding report
report_current checksum sender s w = ground arith

abbrev pub key_of : Str → Map Str → Str
key_of namespace labels = release_key namespace (label (codes "name") labels)

-- What a fold puts in: a new entry under its key, where none was or an older one.
record Folded (atoi : Str → ℕ) (namespace : Str) (labels : Map Str) (s : Scanner) : Type 0 where
  entry : Tracked
  is_folded :
      fold_labels atoi namespace labels s
      ≡ some (record s { current = insert (key_of namespace labels) entry s.current })
  is_numbered : entry.revision ≡ atoi (label (codes "version") labels)
  is_newer :
      is_stale (key_of namespace labels) (atoi (label (codes "version") labels)) s.current ≡ false

fold_labels_cases :
    (atoi : Str → ℕ) (namespace : Str) (labels : Map Str) (s : Scanner)
    → (fold_labels atoi namespace labels s ≡ none) ⊎ Folded atoi namespace labels s
unfolding fold_labels
fold_labels_cases atoi namespace labels s =
    elim (Bool-cases (not (is_deployed labels) || is_empty (label (codes "name") labels))) [
      | inl e ↦ inl (rw (e, fold_labels) refl)
      | inr n ↦ elim (Option-cases (match_addon (label (codes "name") labels) s.known)) [
        | inl e ↦ inl (rw (n, e, fold_labels) refl)
        | inr (k, e) ↦
            elim (Bool-cases (
              is_stale (key_of namespace labels) (atoi (label (codes "version") labels))
                s.current)) [
                  | inl c ↦ inl (rw (n, e, c, fold_labels) refl)
                  | inr c ↦ inr (record {
                    entry =
                        new_entry k (label (codes "name") labels) namespace
                          (atoi (label (codes "version") labels));
                    is_folded = rw (n, e, c, fold_labels) refl;
                    is_numbered = refl;
                    is_newer = c;
                  })
                ]
      ]
    ]

newer :
    (key : Str) (rev : ℕ) (m : Map Tracked) (a : Tracked)
    → is_stale key rev m ≡ false
    → lookup key m ≡ some a
    → a.revision < rev
unfolding is_stale
newer key rev m a c e = leb-false→lt rev a.revision (rw (e, is_stale) at c)

-- A Secret that is added or updated leaves every tracked release its entry, unless it is a Secret of
-- that very release with a strictly higher revision: then the entry has the revision of that Secret.
-- An old Secret that lingers, or one of the same revision, changes no entry. (A Secret that is deleted
-- removes the entry; that is onDelete, and not meant here.)
pub apply_labels_keeps :
    {W : Type 0} (checksum : List Addon → Str) (sender : List Addon → W → Bool × W) (atoi : Str → ℕ)
    (namespace : Str) (labels : Map Str) (s : Scanner) (w : W) (key : Str) (a : Tracked)
    → lookup key s.current ≡ some a
    → let after = lookup key (apply_labels checksum sender atoi namespace labels s w).0.current in
      (after ≡ some a)
      ⊎ ((b : Tracked) × (after ≡ some b)
          × (key_of namespace labels ≡ key)
          × (b.revision ≡ atoi (label (codes "version") labels))
          × (a.revision < b.revision))
unfolding apply_labels
apply_labels_keeps checksum sender atoi namespace labels s w key a h =
    elim (fold_labels_cases atoi namespace labels s) [
      | inl e ↦ rw (e, apply_labels) (inl h)
      | inr f ↦
          rw (f.is_folded, apply_labels)
            (rw
              (report_current checksum sender
                (record s { current = insert (key_of namespace labels) f.entry s.current }) w)
              (elim (Bool-cases (str_eq (key_of namespace labels) key)) [
                | inl t ↦ inr (
                  f.entry,
                  rw (lookup-insert, t) refl,
                  str_eq_sound _ _ t,
                  f.is_numbered,
                  omega
                      (arith, f.is_numbered, newer _ _ _ a f.is_newer (rw (str_eq_sound _ _ t) h)),
                )
                | inr n ↦ inl (rw (lookup-insert, n) h)
              ]))
    ]

stale_entry :
    (key : Str) (rev : ℕ) (m : Map Tracked)
    → is_stale key rev m ≡ true
    → (t : Tracked) × (lookup key m ≡ some t) × (rev ≤ t.revision)
unfolding is_stale
stale_entry key rev m c = elim (Option-cases (lookup key m)) [
  | inl e ↦ cc (rw (e, is_stale) at c)
  | inr (t, e) ↦ (t, e, leb→le rev t.revision (rw (e, is_stale) at c))
]

fold_labels_known :
    (atoi : Str → ℕ) (namespace : Str) (labels : Map Str) (s : Scanner) (k : KnownAddon)
    → is_deployed labels ≡ true
    → is_empty (label (codes "name") labels) ≡ false
    → match_addon (label (codes "name") labels) s.known ≡ some k
    → ((fold_labels atoi namespace labels s ≡ none)
        × HasRevision (key_of namespace labels) (atoi (label (codes "version") labels)) s)
      ⊎ (fold_labels atoi namespace labels s
          ≡ some (record s {
            current =
                insert
                  (key_of namespace labels)
                  (new_entry k
                    (label (codes "name") labels)
                    namespace
                    (atoi (label (codes "version") labels)))
                  s.current;
          }))
unfolding fold_labels
fold_labels_known atoi namespace labels s k d n m =
    elim (Bool-cases
      (is_stale (key_of namespace labels) (atoi (label (codes "version") labels)) s.current)) [
        | inl c ↦ inl (rw (d, n, m, c, fold_labels) refl, stale_entry _ _ s.current c)
        | inr c ↦ inr (rw (d, n, m, c, fold_labels) refl)
      ]

-- After a Secret that is deployed, names its release and is of a known addon was added or updated, the
-- snapshot has the release at the revision of the Secret or a later one.
pub apply_labels_tracks :
    {W : Type 0} (checksum : List Addon → Str) (sender : List Addon → W → Bool × W) (atoi : Str → ℕ)
    (namespace : Str) (labels : Map Str) (s : Scanner) (w : W) (k : KnownAddon)
    → is_deployed labels ≡ true
    → is_empty (label (codes "name") labels) ≡ false
    → match_addon (label (codes "name") labels) s.known ≡ some k
    → HasRevision
        (release_key namespace (label (codes "name") labels))
        (atoi (label (codes "version") labels))
        (apply_labels checksum sender atoi namespace labels s w).0
unfolding apply_labels
apply_labels_tracks checksum sender atoi namespace labels s w k d n m =
    elim (fold_labels_known atoi namespace labels s k d n m) [
      | inl (e, r) ↦ rw (e, apply_labels) r
      | inr e ↦
          rw (e, apply_labels)
            (rw
              (report_current checksum sender
                (record s {
                  current =
                      insert (key_of namespace labels)
                        (new_entry k (label (codes "name") labels) namespace
                          (atoi (label (codes "version") labels)))
                        s.current;
                })
                w)
              (
                new_entry k (label (codes "name") labels) namespace
                    (atoi (label (codes "version") labels)),
                rw (lookup-insert, str_eq_refl (key_of namespace labels)) refl,
                omega arith,
              ))
    ]
