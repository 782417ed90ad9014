-- ===== src/Prelude/Values.antt =====
-- A predicate of all values of a map.
use mathlib.Core.Path.{◌≡◌, subst}
use mathlib.Core.Logic.{inl, inr}
use mathlib.Core.Option.{some}
use mathlib.Core.List.{[], ◌∷◌}
use inari_agent.Prelude.Base.{Bool-cases, some-injective}
use inari_agent.Prelude.Bytes.{Str, str_eq}
use inari_agent.Prelude.Assoc.{Map, lookup, insert, delete}

module _ {V : Type 0} where
  abbrev pub AllValues : (V → Type 0) → Map V → Type 0
  AllValues P [] = Unit
  AllValues P ((k, v) ∷ m) = P v × AllValues P m

  pub AllValues-insert :
      (P : V → Type 0) (k : Str) (v : V) (m : Map V)
      → AllValues P m
      → P v
      → AllValues P (insert k v m)
  unfolding insert
  AllValues-insert P k v [] h p = (p, tt)
  AllValues-insert P k v ((j, w) ∷ m) h p = elim (Bool-cases (str_eq j k)) [
    | inl e ↦ rw e (p, h.1)
    | inr n ↦ rw n (h.0, AllValues-insert P k v m h.1 p)
  ]

  pub AllValues-delete :
      (P : V → Type 0) (k : Str) (m : Map V) → AllValues P m → AllValues P (delete k m)
  unfolding delete
  AllValues-delete P k [] h = tt
  AllValues-delete P k ((j, w) ∷ m) h = elim (Bool-cases (str_eq j k)) [
    | inl e ↦ rw e (AllValues-delete P k m h.1)
    | inr n ↦ rw n (h.0, AllValues-delete P k m h.1)
  ]

  pub AllValues-lookup :
      (P : V → Type 0) (k : Str) (v : V) (m : Map V) → AllValues P m → lookup k m ≡ some v → P v
  unfolding lookup
  AllValues-lookup P k v [] h e = cc
  AllValues-lookup P k v ((j, w) ∷ m) h e = elim (Bool-cases (str_eq j k)) [
    | inl t ↦ let same : w ≡ v = some-injective (rw t at e) in subst P same h.0
    | inr t ↦ AllValues-lookup P k v m h.1 (rw t at e)
  ]
