-- ===== src/Capability/Checksum/Order.antt =====
-- internal/capability/checksum.go: the checksum does not depend on the order of the snapshot.
use inari_agent.Prelude.{
  Str, Bool, true, false, ◌||◌, Bool-cases, Option, none, some, Map, lookup, List, [], ◌∷◌, ◌++◌,
  ◌≡◌, inl, inr, refl, sym, ap, ◌∙◌, arith, str_eq, str_eq_iff, str_eq_refl, str_eq_sound, str_less,
  IsMap,
}
use mathlib.Core.Path.{subst, ap₂}
use inari_agent.Capability.Checksum.{
  insert_key, sorted_keys, digest_or, digest_bytes, checksum_digests,
}

pub str_less_irrefl : (a : Str) → str_less a a ≡ false
unfolding str_less
str_less_irrefl [] = refl
str_less_irrefl (x ∷ a) = ground (arith, str_less_irrefl a)

pub str_less_trans : (a b c : Str) → str_less a b ≡ true → str_less b c ≡ true → str_less a c ≡ true
unfolding str_less
str_less_trans [] [] c h k = cc
str_less_trans (x ∷ a) [] c h k = cc
str_less_trans a (y ∷ b) [] h k = cc
str_less_trans [] (y ∷ b) (z ∷ c) h k = refl
str_less_trans (x ∷ a) (y ∷ b) (z ∷ c) h k = ground (arith, str_less_trans a b c)

-- Of two different strings one is less.
pub str_less_total : (a b : Str) → str_less a b ≡ false → str_less b a ≡ false → a ≡ b
unfolding str_less
str_less_total [] [] h k = refl
str_less_total [] (y ∷ b) h k = cc
str_less_total (x ∷ a) [] h k = cc
str_less_total (x ∷ a) (y ∷ b) h k = ground (arith, str_less_total a b)

unfoldable occurs : Str → List Str → Bool
occurs k [] = false
occurs k (j ∷ js) = str_eq j k || occurs k js

-- Every element is above k.
abbrev Above : Str → List Str → Type 0
Above k [] = Unit
Above k (j ∷ js) = (str_less k j ≡ true) × Above k js

abbrev Ascending : List Str → Type 0
Ascending [] = Unit
Ascending (k ∷ ks) = Above k ks × Ascending ks

Above-trans : (j k : Str) (ks : List Str) → str_less j k ≡ true → Above k ks → Above j ks
Above-trans j k [] h a = tt
Above-trans j k (i ∷ ks) h a = (str_less_trans j k i h a.0, Above-trans j k ks h a.1)

occurs-Above : (k : Str) (ks : List Str) → Above k ks → occurs k ks ≡ false
unfolding occurs
occurs-Above k [] a = refl
occurs-Above k (j ∷ ks) a = ground (
  arith,
  occurs-Above k ks a.1,
  a.0,
  str_eq_iff j k,
  str_less_irrefl k,
  ap (str_less k) {x = j} {y = k},
)

Above-insert_key :
    (j k : Str) (ks : List Str) → str_less j k ≡ true → Above j ks → Above j (insert_key k ks)
unfolding insert_key
Above-insert_key j k [] h a = (h, tt)
Above-insert_key j k (i ∷ ks) h a = elim (Bool-cases (str_less i k)) [
  | inl t ↦ rw t (a.0, Above-insert_key j k ks h a.1)
  | inr n ↦ rw n (h, a)
]

less_of : (i k : Str) → str_less i k ≡ false → str_eq i k ≡ false → str_less k i ≡ true
less_of i k n d = elim (Bool-cases (str_less k i)) [
  | inl t ↦ t
  | inr f ↦ cc ((str_eq_iff i k).1 (str_less_total i k n f), d)
]

occurs_parts :
    (k i : Str) (ks : List Str)
    → occurs k (i ∷ ks) ≡ false
    → (str_eq i k ≡ false) × (occurs k ks ≡ false)
unfolding occurs
occurs_parts k i ks o = ground arith

insert_key-Ascending :
    (k : Str) (ks : List Str) → occurs k ks ≡ false → Ascending ks → Ascending (insert_key k ks)
unfolding insert_key occurs
insert_key-Ascending k [] o a = (tt, tt)
insert_key-Ascending k (i ∷ ks) o a = elim (Bool-cases (str_less i k)) [
  | inl t ↦
      rw t (Above-insert_key i k ks t a.0, insert_key-Ascending k ks (occurs_parts k i ks o).1 a.1)
  | inr n ↦
      let less : str_less k i ≡ true = less_of i k n (occurs_parts k i ks o).0 in
      rw n ((less, Above-trans k i ks less a.0), a)
]

occurs-insert_key :
    (j k : Str) (ks : List Str) → occurs j (insert_key k ks) ≡ str_eq k j || occurs j ks
unfolding insert_key occurs
occurs-insert_key j k [] = ground arith
occurs-insert_key j k (i ∷ ks) = ground (arith, occurs-insert_key j k ks)

occurs_head : (k : Str) (ks : List Str) → occurs k (k ∷ ks) ≡ true
unfolding occurs
occurs_head k ks = rw (str_eq_refl k) refl

same_tail :
    (k j : Str) (ks js : List Str)
    → k ≡ j
    → Above k ks
    → Above j js
    → ((i : Str) → occurs i (k ∷ ks) ≡ occurs i (j ∷ js))
    → (i : Str) → occurs i ks ≡ occurs i js
unfolding occurs
same_tail k j ks js e a b h i = elim (Bool-cases (str_eq k i)) [
  | inl t ↦
      rw (← str_eq_sound k i t)
        (occurs-Above k ks a ∙ sym (occurs-Above k js (subst (λ (x : Str). Above x js) (sym e) b)))
  | inr n ↦ ground (arith, h i, n, ap (λ (x : Str). str_eq x i) e)
]

-- An ascending list is determined by what occurs in it.
Ascending-unique :
    (ks js : List Str)
    → Ascending ks
    → Ascending js
    → ((i : Str) → occurs i ks ≡ occurs i js)
    → ks ≡ js
Ascending-unique [] [] a b h = refl
Ascending-unique [] (j ∷ js) a b h = cc (h j, occurs_head j js, occurs-Above j [] tt)
Ascending-unique (k ∷ ks) [] a b h = cc (h k, occurs_head k ks, occurs-Above k [] tt)
Ascending-unique (k ∷ ks) (j ∷ js) a b h = elim (Bool-cases (str_less k j)) [
  | inl t ↦ cc (h k, occurs_head k ks, occurs-Above k (j ∷ js) (t, Above-trans k j js t b.0))
  | inr n ↦ elim (Bool-cases (str_less j k)) [
    | inl t ↦ cc (h j, occurs_head j js, occurs-Above j (k ∷ ks) (t, Above-trans j k ks t a.0))
    | inr m ↦
        let e = str_less_total k j n m in
        ap₂ (λ (x : Str) (xs : List Str). x ∷ xs) e
          (Ascending-unique ks js a.1 b.1 (same_tail k j ks js e a.0 b.0 h))
  ]
]

abbrev is_there : {V : Type 0} → Option V → Bool
is_there none = false
is_there (some v) = true

occurs-sorted_keys : (k : Str) (m : Map Str) → occurs k (sorted_keys m) ≡ is_there (lookup k m)
unfolding occurs sorted_keys lookup
occurs-sorted_keys k [] = refl
occurs-sorted_keys k ((j, v) ∷ m) =
    ground (arith, occurs-insert_key k j (sorted_keys m), occurs-sorted_keys k m)

sorted_keys-Ascending : (m : Map Str) → IsMap m → Ascending (sorted_keys m)
unfolding sorted_keys
sorted_keys-Ascending [] d = tt
sorted_keys-Ascending ((k, v) ∷ m) d =
    insert_key-Ascending k (sorted_keys m) (occurs-sorted_keys k m ∙ ap is_there d.0)
      (sorted_keys-Ascending m d.1)

digest_bytes_same :
    (m n : Map Str) (ks : List Str)
    → ((k : Str) → lookup k m ≡ lookup k n)
    → digest_bytes m ks ≡ digest_bytes n ks
unfolding digest_bytes
digest_bytes_same m n [] h = refl
digest_bytes_same m n (k ∷ ks) h =
    ap₂ (λ (o : Option Str) (r : Str). k ++ (digest_or o ++ r)) (h k) (digest_bytes_same m n ks h)

-- The checksum depends on the keys and their digests alone: two maps with distinct keys that hold the
-- same digest under every key have the same checksum, in whatever order Go ranges over them.
pub checksum_digests_same :
    (hash : Str → Str) (m n : Map Str)
    → IsMap m
    → IsMap n
    → ((k : Str) → lookup k m ≡ lookup k n)
    → checksum_digests hash m ≡ checksum_digests hash n
unfolding checksum_digests
checksum_digests_same hash m n d e h =
    let same =
      Ascending-unique (sorted_keys m) (sorted_keys n) (sorted_keys-Ascending m d)
        (sorted_keys-Ascending n e)
        (λ k. occurs-sorted_keys k m ∙ ap is_there (h k) ∙ sym (occurs-sorted_keys k n)) in
    ap hash (ap (digest_bytes m) same ∙ digest_bytes_same m n (sorted_keys n) h)
