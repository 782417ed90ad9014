-- ===== src/Git/Target/Inside.antt =====
-- internal/git/provider.go: what FullPath yields for a target and a file path that were checked.
use inari_agent.Prelude.{
  ℕ, Str, codes, Bool, true, false, ◌&&◌, ◌||◌, Bool-cases, none, List, [], ◌∷◌, All, All-append,
  ◌≡◌, ◌≢◌, inl, inr, refl, sym, ap, ◌∙◌, arith, str_eq, str_eq_sound, ◌==◌, is_empty, has_prefix,
  contains, split,
}
use mathlib.Core.Path.{subst}
use inari_agent.Prelude.Bytes.{push_head}
use inari_agent.Git.Target.{Target, trim_slash, full_path, first_bad, validate_file_path}
use inari_agent.Git.Target.Paths.{split-append, split-nonempty, checked_segments}

abbrev NotUp : Str → Type 0
NotUp s = str_eq s (codes "..") ≡ false

-- No segment of the path is "..".
abbrev pub IsInside : Str → Type 0
IsInside p = All NotUp (split b'/' p)

neither : (a b : Bool) → a || b ≡ false → (a ≡ false) × (b ≡ false)
neither a b h = ground arith

either : (a b : Bool) → a ≡ false → b ≡ false → a || b ≡ false
either a b h k = ground arith

both : (a b : Bool) → a && b ≡ true → (a ≡ true) × (b ≡ true)
both a b h = ground arith

and_true : (a b : Bool) → a ≡ true → b ≡ true → a && b ≡ true
and_true a b h k = ground arith

and_false : (a b c : Bool) → (b ≡ false → c ≡ false) → a && b ≡ false → a && c ≡ false
and_false true b c f h = f h
and_false false b c f h = refl

empty_piece :
    (p : Str) (ps qs : List Str) (x : ℕ) (sub : Str)
    → ◌≡◌ {A = List Str} ([] ∷ qs) (p ∷ ps)
    → has_prefix p (x ∷ sub) ≢ true
unfolding has_prefix
empty_piece [] ps qs x sub e h = cc
empty_piece (c ∷ p) ps qs x sub e h = cc

-- The first piece of a text is in front of it.
first_piece :
    (s p : Str) (ps : List Str) (sub : Str)
    → split b'/' s ≡ p ∷ ps
    → has_prefix p sub ≡ true
    → has_prefix s sub ≡ true
unfolding split has_prefix
first_piece s p ps [] e h = refl
first_piece [] p ps (x ∷ sub) e h = absurd (empty_piece p ps [] x sub e h)
first_piece (c ∷ s) p ps (x ∷ sub) e h = elim (Bool-cases (c == b'/')) [
  | inl t ↦ absurd (empty_piece p ps (split b'/' s) x sub (rw t at e) h)
  | inr n ↦ pushed (split b'/' s) refl (rw n at e) (λ q qs k. first_piece s q qs sub k)
]
  where
    pushed :
        (qs : List Str)
        → split b'/' s ≡ qs
        → push_head c qs ≡ p ∷ ps
        → ((q : Str) (rest : List Str)
            → split b'/' s ≡ q ∷ rest
            → has_prefix q sub ≡ true
            → has_prefix s sub ≡ true)
        → c == x && has_prefix s sub ≡ true
    pushed [] k e more = absurd (split-nonempty b'/' s k)
    pushed (q ∷ qs) k e more =
        let same : (c ∷ q) ≡ p = cc in
        let (a, b) =
          both (c == x) (has_prefix q sub)
            (subst (λ r. has_prefix r (x ∷ sub) ≡ true) (sym same) h) in
        and_true (c == x) (has_prefix s sub) a (more q qs k b)

no_up :
    (c : ℕ) (s p : Str) (ps : List Str)
    → split b'/' s ≡ p ∷ ps
    → has_prefix (c ∷ s) (codes "..") ≡ false
    → NotUp (c ∷ p)
unfolding has_prefix
no_up c s p ps e h = elim (Bool-cases (str_eq (c ∷ p) (codes ".."))) [
  | inr n ↦ n
  | inl t ↦
      let (a, b) =
        both (c == b'.') (has_prefix p (codes "."))
          (ap (λ r. has_prefix r (codes "..")) (str_eq_sound (c ∷ p) (codes "..") t)) in
      cc (
        sym h
        ∙ and_true (c == b'.') (has_prefix s (codes ".")) a (first_piece s p ps (codes ".") e b))
]

contained : (s : Str) → contains s (codes "..") ≡ false → IsInside s
unfolding contains split str_eq
contained [] h = (refl, tt)
contained (c ∷ s) h =
    let (front, back) = neither (has_prefix (c ∷ s) (codes "..")) (contains s (codes "..")) h in
    elim (Bool-cases (c == b'/')) [
      | inl t ↦ rw t (refl, contained s back)
      | inr n ↦ rw n (pushed (split b'/' s) refl (contained s back) front)
    ]
  where
    pushed :
        (ps : List Str)
        → split b'/' s ≡ ps
        → All NotUp ps
        → has_prefix (c ∷ s) (codes "..") ≡ false
        → All NotUp (push_head c ps)
    pushed [] e a f = absurd (split-nonempty b'/' s e)
    pushed (p ∷ ps) e (x, y) f = (no_up c s p ps e f, y)

-- What is not in front of a path is not in front of it once its last slash is cut.
trimmed_prefix : (s sub : Str) → has_prefix s sub ≡ false → has_prefix (trim_slash s) sub ≡ false
unfolding has_prefix trim_slash
trimmed_prefix s [] h = h
trimmed_prefix [] (x ∷ sub) h = h
trimmed_prefix (c ∷ s) (x ∷ sub) h = elim (Bool-cases (is_empty s && c == b'/')) [
  | inl t ↦ rw t refl
  | inr n ↦ rw n (
      and_false (c == x) (has_prefix s sub) (has_prefix (trim_slash s) sub) (trimmed_prefix s sub)
        h)
]

trimmed : (s : Str) → contains s (codes "..") ≡ false → contains (trim_slash s) (codes "..") ≡ false
unfolding contains trim_slash has_prefix
trimmed [] h = h
trimmed (c ∷ s) h =
    let (front, back) = neither (has_prefix (c ∷ s) (codes "..")) (contains s (codes "..")) h in
    elim (Bool-cases (is_empty s && c == b'/')) [
      | inl t ↦ rw t refl
      | inr n ↦ rw n (
          either (has_prefix (c ∷ trim_slash s) (codes "..")) (contains (trim_slash s) (codes ".."))
            (and_false (c == b'.') (has_prefix s (codes "."))
              (has_prefix (trim_slash s) (codes ".")) (trimmed_prefix s (codes ".")) front)
            (trimmed s back))
    ]

checked_inside : (ss : List Str) → first_bad ss ≡ none → All NotUp ss
unfolding first_bad
checked_inside [] h = tt
checked_inside (s ∷ ss) h = ground (arith, checked_inside ss)

-- Below a target whose path has no "..", a checked file path has no ".." segment.
pub full_path-IsInside :
    (t : Target) (p : Str)
    → contains t.path (codes "..") ≡ false
    → validate_file_path p ≡ none
    → IsInside (full_path t p)
unfolding full_path
full_path-IsInside t p h k =
    let below : IsInside p = checked_inside (split b'/' p) (checked_segments p k).1 in
    elim (Bool-cases (is_empty t.path)) [
      | inl e ↦ rw e below
      | inr n ↦
          rw (n, split-append b'/' (trim_slash t.path) p)
            (All-append NotUp (split b'/' (trim_slash t.path)) (split b'/' p)
              (contained (trim_slash t.path) (trimmed t.path h)) below)
    ]
