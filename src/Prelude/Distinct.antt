-- ===== src/Prelude/Distinct.antt =====
-- The keys of a Go map are distinct, and the operations keep that.
use mathlib.Core.Path.{◌≡◌, refl, sym}
use mathlib.Core.Logic.{inl, inr}
use mathlib.Core.Option.{none}
use mathlib.Core.List.{[], ◌∷◌}
use native.Mathlib.Omega.{arith}
use inari_agent.Prelude.Base.{Bool-cases}
use inari_agent.Prelude.Bytes.{Str, str_eq, str_eq_iff, str_eq_sound}
use inari_agent.Prelude.Assoc.{Map, lookup, insert, delete, lookup-insert, lookup-delete}

abbrev pub IsMap {ℓ} : {V : Type ℓ} → Map V → Type ℓ
IsMap [] = Unit
IsMap ((k, v) ∷ m) = (lookup k m ≡ none) × IsMap m

module _ {ℓ} {V : Type ℓ} where
  pub insert-IsMap : (k : Str) (v : V) (m : Map V) → IsMap m → IsMap (insert k v m)
  unfolding insert lookup
  insert-IsMap k v [] h = (refl, tt)
  insert-IsMap k v ((j, w) ∷ m) h = elim (Bool-cases (str_eq j k)) [
    | inl e ↦ rw e (rw (sym (str_eq_sound j k e)) h.0, h.1)
    | inr n ↦ rw n (
      ground (arith, lookup-insert k j v m, str_eq_iff k j, str_eq_iff j k, h.0),
      insert-IsMap k v m h.1,
    )
  ]

  pub delete-IsMap : (k : Str) (m : Map V) → IsMap m → IsMap (delete k m)
  unfolding delete
  delete-IsMap k [] h = tt
  delete-IsMap k ((j, w) ∷ m) h = elim (Bool-cases (str_eq j k)) [
    | inl e ↦ rw e (delete-IsMap k m h.1)
    | inr n ↦ rw n (ground (arith, lookup-delete k j m, h.0), delete-IsMap k m h.1)
  ]
