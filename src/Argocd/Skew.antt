-- ===== src/Argocd/Skew.antt =====
-- internal/argocd/lifecycle.go: versions and the skew policy. strconv.Atoi, which yields 0 with its error,
-- is the parameter `atoi`; the parts of a version that ParseVersion returns are digits, so that no number is
-- negative.
pub mod Lines
use inari_agent.Prelude.{
  ℕ, Str, codes, Bool, true, false, not, ◌&&◌, ◌||◌, if◌then◌else◌, Option, none, some, Outcome, ok,
  err, List, [], ◌∷◌, ◌++◌, str_eq, ltb, leb, ◌==◌, is_empty, split,
}
use inari_agent.Prelude.Texts.{trim_prefix}

abbrev pub bundle_line : Str
bundle_line = codes "3.3"

abbrev pub previous_line : Str
previous_line = codes "2.14"

abbrev pub supported_min : Str
supported_min = codes "v2.14.0"

abbrev is_digit : ℕ → Bool
is_digit c = leb b'0' c && leb c b'9'

-- \d*: the digits at the front, and what is behind them.
unfoldable digits : Str → Str × Str
digits [] = ([], [])
digits (c ∷ s) = let rest = digits s in if is_digit c then (c ∷ rest.0, rest.1) else ([], c ∷ s)

-- \d+\. in front of the rest of a match
unfoldable number_dot : Str → Option (Str × Str)
unfolding digits
number_dot s =
    let (d, rest) = digits s in
    if is_empty d
    then none
    else elim rest [ [] ↦ none | c ∷ more ↦ if c == b'.' then some (d, more) else none ]

-- \d+\.\d+\.\d+ at the front
unfoldable triple : Str → Option Str
unfolding number_dot
triple s = elim (number_dot s) [
  | none ↦ none
  | some (a, s1) ↦ elim (number_dot s1) [
    | none ↦ none
    | some (b, s2) ↦
        let (c, rest) = digits s2 in
        if is_empty c then none else some (a ++ (b'.' ∷ (b ++ (b'.' ∷ c))))
  ]
]

-- The first match of :(v?\d+\.\d+\.\d+), without the colon and the v.
unfoldable find_version : Str → Option Str
unfolding triple trim_prefix
find_version [] = none
find_version (c ∷ s) =
    let rest = find_version s in
    if c == b':'
    then (elim (triple (trim_prefix (codes "v") s)) [ none ↦ rest | some v ↦ some v ])
    else rest

-- ParseVersion; `quote` is %q of fmt.
unfoldable pub parse_version : (Str → Str) → Str → Outcome Str Str
unfolding find_version
parse_version quote image = elim (find_version image) [
  | none ↦ err (codes "argocd: no version tag in image " ++ quote image)
  | some v ↦ ok v
]

-- minor
unfoldable pub minor : Str → Str
minor v = elim (split b'.' v) [
  | [] ↦ v
  | a ∷ rest ↦ elim rest [ [] ↦ v | b ∷ more ↦ a ++ (b'.' ∷ b) ]
]

module _ (atoi : Str → ℕ) where
  -- The loop of versionGE over the parts, and the comparison of the lengths behind it.
  unfoldable pub parts_ge : List Str → List Str → Bool
  parts_ge [] [] = true
  parts_ge [] (b ∷ bs) = false
  parts_ge (a ∷ rest_a) [] = true
  parts_ge (a ∷ rest_a) (b ∷ bs) =
      let rest = parts_ge rest_a bs in if atoi a == atoi b then rest else ltb (atoi b) (atoi a)

  -- versionGE
  unfoldable pub version_ge : Str → Str → Bool
  unfolding parts_ge trim_prefix
  version_ge a b =
      parts_ge (split b'.' (trim_prefix (codes "v") a)) (split b'.' (trim_prefix (codes "v") b))

  -- InSkew
  unfoldable pub in_skew : Str → Bool
  unfolding version_ge minor
  in_skew version =
      let v = trim_prefix (codes "v") version in
      if not (version_ge v supported_min)
      then false
      else str_eq (minor v) bundle_line || str_eq (minor v) previous_line
