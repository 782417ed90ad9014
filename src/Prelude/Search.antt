-- ===== src/Prelude/Search.antt =====
-- Laws of the searches in strings.
use mathlib.Core.Path.{◌≡◌, refl}
use mathlib.Core.Bool.{true}
use mathlib.Core.List.{[], ◌∷◌, ◌++◌}
use native.Mathlib.Omega.{arith}
use inari_agent.Prelude.Bytes.{Str, has_prefix, contains}

pub has_prefix-append : (s t : Str) → has_prefix (s ++ t) s ≡ true
unfolding has_prefix
has_prefix-append [] [] = refl
has_prefix-append [] (c ∷ t) = refl
has_prefix-append (c ∷ s) t = ground (arith, has_prefix-append s t)

pub contains_of_prefix : (s sub : Str) → has_prefix s sub ≡ true → contains s sub ≡ true
unfolding contains
contains_of_prefix [] sub h = h
contains_of_prefix (c ∷ s) sub h = ground arith

pub contains-append : (a s b : Str) → contains (a ++ (s ++ b)) s ≡ true
unfolding contains
contains-append [] s b = contains_of_prefix (s ++ b) s (has_prefix-append s b)
contains-append (c ∷ a) s b = ground (arith, contains-append a s b)
