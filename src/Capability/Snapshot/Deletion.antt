-- ===== src/Capability/Snapshot/Deletion.antt =====
-- internal/capability/aggregate.go: a DELETE event whose group is empty.
use mathlib.Core.List.{append_assoc}
use inari_agent.Prelude.{
  Str, Bool, true, ◌&&◌, ◌||◌, if◌then◌else◌, none, lookup, delete, lookup-delete, [], ◌∷◌, ◌++◌,
  ◌≡◌, refl, sym, ap, ◌∙◌, arith, str_eq, is_empty, has_prefix, contains, contains-append,
}
use inari_agent.Capability.Snapshot.{
  Capability, Snapshot, slash, matches_name, capability_key, apply_delete,
}
use inari_agent.Capability.Snapshot.Upsert.{lookup-delete_where}

prefix_kind : (kind rest : Str) → has_prefix (kind ++ (slash ∷ rest)) (kind ++ (slash ∷ [])) ≡ true
unfolding has_prefix
prefix_kind [] [] = refl
prefix_kind [] (c ∷ rest) = refl
prefix_kind (k ∷ kind) rest = ground (arith, prefix_kind kind rest)

contains_between :
    (a n b : Str)
    → contains (a ++ (slash ∷ (n ++ (slash ∷ b)))) (slash ∷ (n ++ (slash ∷ []))) ≡ true
contains_between a n b =
    ap (λ (s : Str). contains (a ++ (slash ∷ s)) (slash ∷ (n ++ (slash ∷ []))))
      (sym (append_assoc n (slash ∷ []) b))
    ∙ contains-append a (slash ∷ (n ++ (slash ∷ []))) b

and_true : (a b : Bool) → a ≡ true → b ≡ true → a && b ≡ true
and_true a b p q = ground arith

module _ {B : Type 0} where
  key_matches_name :
      (c e : Capability B)
      → c.kind ≡ e.kind
      → c.name ≡ e.name
      → matches_name c.kind c.name (capability_key e) ≡ true
  unfolding matches_name capability_key
  key_matches_name c e p q =
      rw (p, q)
        (and_true _ _ (prefix_kind e.kind _) (
          ap (λ (s : Str). contains s (slash ∷ (e.name ++ (slash ∷ []))))
            (sym (append_assoc e.kind (slash ∷ e.group) (slash ∷ (e.name ++ (slash ∷ e.version)))))
          ∙ contains_between (e.kind ++ (slash ∷ e.group)) e.name e.version))

  key_matches_group :
      (c e : Capability B)
      → c.kind ≡ e.kind
      → c.name ≡ e.group
      → matches_name c.kind c.name (capability_key e) ≡ true
  unfolding matches_name capability_key
  key_matches_group c e p q =
      rw (p, q)
        (and_true _ _ (prefix_kind e.kind _)
          (contains_between e.kind e.group (e.name ++ (slash ∷ e.version))))

  lookup-apply_delete_groupless :
      (c : Capability B) (s : Snapshot B) (k : Str)
      → is_empty c.group ≡ true
      → lookup k (apply_delete c s).snapshot ≡ (
          if str_eq (capability_key c) k || matches_name c.kind c.name k
          then none
          else lookup k s.snapshot)
  unfolding apply_delete
  lookup-apply_delete_groupless c s k e = ground (
    arith,
    lookup-delete (capability_key c) k s.snapshot,
    lookup-delete_where (matches_name c.kind c.name) k (delete (capability_key c) s.snapshot),
  )

  -- A DELETE event with an empty group removes every capability of its kind that has its name,
  -- whatever the group and version.
  groupless_delete_removes_name :
      (c e : Capability B) (s : Snapshot B)
      → is_empty c.group ≡ true
      → c.kind ≡ e.kind
      → c.name ≡ e.name
      → lookup (capability_key e) (apply_delete c s).snapshot ≡ none
  groupless_delete_removes_name c e s g p q =
      ground
        (arith, lookup-apply_delete_groupless c s (capability_key e) g, key_matches_name c e p q)

  -- It also removes every capability of its kind whose group is spelled like its name, whatever that
  -- capability's own name: the test finds the name between slashes in the group's place.
  pub groupless_delete_removes_group :
      (c e : Capability B) (s : Snapshot B)
      → is_empty c.group ≡ true
      → c.kind ≡ e.kind
      → c.name ≡ e.group
      → lookup (capability_key e) (apply_delete c s).snapshot ≡ none
  groupless_delete_removes_group c e s g p q =
      ground
        (arith, lookup-apply_delete_groupless c s (capability_key e) g, key_matches_group c e p q)
