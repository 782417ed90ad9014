-- ===== src/Git/Target.antt =====
-- internal/git/provider.go: Target.Validate, FullPath and ValidateFilePath.
pub mod Paths
pub mod Inside
use inari_agent.Prelude.{
  Str, codes, Bool, false, not, ◌&&◌, ◌||◌, if◌then◌else◌, Option, none, some, Outcome, ok, err,
  List, [], ◌∷◌, ◌++◌, str_eq, ◌==◌, is_empty, has_prefix, contains, split,
}

pub record File : Type 0 where
  pub path : Str
  pub content : Str

pub record Target : Type 0 where
  pub repo : Str
  pub path : Str
  pub branch : Str

pub data TargetError : Type 0 where
  no_repo : TargetError
  bad_repo : Str → TargetError
  escaping_path : Str → TargetError
  absolute_path : Str → TargetError
  bad_segment : Str → Str → TargetError

-- The repository is owner/name.
unfoldable pub is_owner_name : List Str → Bool
is_owner_name (owner ∷ name ∷ []) = not (is_empty owner) && not (is_empty name)
is_owner_name _ = false

abbrev pub or_default : Str → Str → Str
or_default s d = if is_empty s then d else s

-- Validate, once the repository is known.
unfoldable validate_in : Str → Target → Outcome TargetError Target
unfolding is_owner_name
validate_in repo t =
    if is_empty repo
    then err no_repo
    else if not (is_owner_name (split b'/' repo))
    then err (bad_repo repo)
    else if contains t.path (codes "..")
    then err (escaping_path t.path)
    else ok (record { repo = repo; path = t.path; branch = or_default t.branch (codes "main") })

-- Target.Validate
unfoldable pub validate : Str → Target → Outcome TargetError Target
unfolding validate_in
validate default_repo t = validate_in (or_default t.repo default_repo) t

-- strings.TrimSuffix(s, "/")
unfoldable trim_slash : Str → Str
trim_slash [] = []
trim_slash (c ∷ s) = let rest = trim_slash s in if is_empty s && c == b'/' then [] else c ∷ rest

-- Target.FullPath
unfoldable pub full_path : Target → Str → Str
unfolding trim_slash
full_path t p = if is_empty t.path then p else trim_slash t.path ++ (b'/' ∷ p)

abbrev is_bad_segment : Str → Bool
is_bad_segment s = is_empty s || str_eq s (codes "..") || str_eq s (codes ".")

-- The loop of ValidateFilePath
unfoldable first_bad : List Str → Option Str
first_bad [] = none
first_bad (s ∷ ss) = let rest = first_bad ss in if is_bad_segment s then some s else rest

-- ValidateFilePath: `none` is no error.
unfoldable pub validate_file_path : Str → Option TargetError
unfolding first_bad
validate_file_path p =
    if is_empty p || has_prefix p (codes "/")
    then some (absolute_path p)
    else elim (first_bad (split b'/' p)) [ none ↦ none | some s ↦ some (bad_segment p s) ]
