-- ===== src/Git/Target/Paths.antt =====
-- internal/git/provider.go: what Validate settles, and that checked paths stay checked below a directory.
use inari_agent.Prelude.{
  ℕ, Str, codes, true, false, ◌||◌, Bool-cases, none, ok, List, [], ◌∷◌, ◌++◌, ◌≡◌, ◌≢◌, inl, inr,
  refl, sym, ap, ◌∙◌, arith, ◌==◌, is_empty, has_prefix, contains, split,
}
use mathlib.Core.Path.{subst}
use inari_agent.Prelude.Bytes.{push_head}
use inari_agent.Git.Target.{
  Target, is_owner_name, or_default, validate_in, validate, first_bad, validate_file_path,
}

or_default_given : (s d : Str) → is_empty s ≡ false → or_default s d ≡ s
or_default_given s d h = rw h

or_default_nonempty : (s d : Str) → is_empty d ≡ false → is_empty (or_default s d) ≡ false
or_default_nonempty [] d h = h
or_default_nonempty (c ∷ s) d h = refl

-- What Validate returns: the repository it settled on, the same path, and a branch.
pub validate_in_lem :
    (r : Str) (t u : Target)
    → validate_in r t ≡ ok u
    → (is_empty r ≡ false)
      × (is_owner_name (split b'/' r) ≡ true)
      × (contains t.path (codes "..") ≡ false)
      × (record { repo = r; path = t.path; branch = or_default t.branch (codes "main") } ≡ u)
unfolding validate_in
validate_in_lem r t u h = ground arith

validate_in_ok :
    (r : Str) (t : Target)
    → is_empty r ≡ false
    → is_owner_name (split b'/' r) ≡ true
    → contains t.path (codes "..") ≡ false
    → validate_in r t
      ≡ ok (record { repo = r; path = t.path; branch = or_default t.branch (codes "main") })
unfolding validate_in
validate_in_ok r t a b c = rw (a, b, c) refl

validate_again : (r : Str) (t u : Target) (d : Str) → validate_in r t ≡ ok u → validate d u ≡ ok u
unfolding validate
validate_again r t u d h =
    let (a, b, c, e) = validate_in_lem r t u h in
    let again : validate d
          (record { repo = r; path = t.path; branch = or_default t.branch (codes "main") })
        ≡ ok (record { repo = r; path = t.path; branch = or_default t.branch (codes "main") }) =
      unfold validate in
      rw (or_default_given r d a) (
        validate_in_ok r
          (record { repo = r; path = t.path; branch = or_default t.branch (codes "main") }) a b c
        ∙ ap (λ (k : Str). ok (record { repo = r; path = t.path; branch = k }))
            (or_default_given _ (codes "main")
              (or_default_nonempty t.branch (codes "main") refl))) in
    subst (λ (v : Target). validate d v ≡ ok v) e again

-- A target that Validate returned is settled: its repository is an owner and a name, its path has no
-- "..", its branch is not empty, and validating it again under any tenant default returns it as it is.
pub validate_settles :
    (default_repo : Str) (t u : Target)
    → validate default_repo t ≡ ok u
    → (is_owner_name (split b'/' u.repo) ≡ true)
      × (contains u.path (codes "..") ≡ false)
      × (is_empty u.branch ≡ false)
      × ((d : Str) → validate d u ≡ ok u)
unfolding validate
validate_settles default_repo t u h =
    let (a, b, c, e) = validate_in_lem (or_default t.repo default_repo) t u h in
    (
      ap (λ (v : Target). is_owner_name (split b'/' v.repo)) (sym e) ∙ b,
      ap (λ (v : Target). contains v.path (codes "..")) (sym e) ∙ c,
      ap (λ (v : Target). is_empty v.branch) (sym e)
          ∙ or_default_nonempty t.branch (codes "main") refl,
      λ d. validate_again (or_default t.repo default_repo) t u d h,
    )

pub split-nonempty : (sep : ℕ) (a : Str) → split sep a ≢ []
unfolding split
split-nonempty sep [] h = cc
split-nonempty sep (c ∷ a) h = elim (Bool-cases (c == sep)) [
  | inl t ↦ cc (rw t at h)
  | inr n ↦ pushed (split sep a) (rw n at h)
]
  where
    pushed : (ps : List Str) → push_head c ps ≢ []
    pushed [] e = cc
    pushed (p ∷ ps) e = cc

-- The pieces of two texts with a separator between them.
pub split-append : (sep : ℕ) (a b : Str) → split sep (a ++ (sep ∷ b)) ≡ split sep a ++ split sep b
unfolding split
split-append sep [] b = ground arith
split-append sep (c ∷ a) b = elim (Bool-cases (c == sep)) [
  | inl t ↦ rw t (ap (λ (r : List Str). [] ∷ r) (split-append sep a b))
  | inr n ↦
      rw n (ap (push_head c) (split-append sep a b) ∙ pushed (split sep a) (split-nonempty sep a))
]
  where
    pushed :
        (ps : List Str) → ps ≢ [] → push_head c (ps ++ split sep b) ≡ push_head c ps ++ split sep b
    pushed [] h = absurd (h refl)
    pushed (p ∷ ps) h = refl

first_bad-append :
    (ss ts : List Str) → first_bad ss ≡ none → first_bad ts ≡ none → first_bad (ss ++ ts) ≡ none
unfolding first_bad
first_bad-append [] ts h k = k
first_bad-append (s ∷ ss) ts h k = ground (arith, first_bad-append ss ts)

pub checked_segments :
    (p : Str)
    → validate_file_path p ≡ none
    → (is_empty p || has_prefix p (codes "/") ≡ false) × (first_bad (split b'/' p) ≡ none)
unfolding validate_file_path
checked_segments p h = ground arith

-- A path below a directory passes ValidateFilePath if the directory and the path below it do.
pub validate_file_path-below :
    (dir p : Str)
    → validate_file_path dir ≡ none
    → validate_file_path p ≡ none
    → validate_file_path (dir ++ (b'/' ∷ p)) ≡ none
unfolding validate_file_path
validate_file_path-below dir p h k =
    let (a, b) = checked_segments dir h in
    let (c, d) = checked_segments p k in
    rw
      (
        relative dir a,
        split-append b'/' dir p,
        first_bad-append (split b'/' dir) (split b'/' p) b d,
      )
      refl
  where
    relative :
        (s : Str)
        → is_empty s || has_prefix s (codes "/") ≡ false
        → is_empty (s ++ (b'/' ∷ p)) || has_prefix (s ++ (b'/' ∷ p)) (codes "/") ≡ false
    relative [] e = cc
    relative (x ∷ s) e = unfold has_prefix in e
