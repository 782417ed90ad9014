-- ===== src/Argocd/Skew/Lines.antt =====
-- Which full versions are within the skew policy.
use inari_agent.Prelude.{
  ℕ, Str, codes, Bool, true, false, not, ◌&&◌, ◌||◌, if◌then◌else◌, Bool-cases, List, [], ◌∷◌, ◌++◌,
  ◌≡◌, ◌⊎◌, inl, inr, refl, sym, ap, ◌∙◌, arith, str_eq, str_eq_iff, str_eq_sound, is_empty,
  has_prefix, split,
}
use inari_agent.Prelude.Texts.{trim_prefix}
use inari_agent.Git.Target.Paths.{split-append}
use inari_agent.Argocd.Skew.{minor, parts_ge, version_ge, in_skew, supported_min}

-- A part of a version: there is no dot in it, and no v at its front.
abbrev pub IsPart : Str → Type 0
IsPart s = (split b'.' s ≡ s ∷ []) × (has_prefix s (codes "v") ≡ false) × (is_empty s ≡ false)

abbrev pub version : Str → Str → Str → Str
version a b c = a ++ (b'.' ∷ (b ++ (b'.' ∷ c)))

split-version :
    (a b c : Str) → IsPart a → IsPart b → IsPart c → split b'.' (version a b c) ≡ a ∷ b ∷ c ∷ []
split-version a b c (x, _, _) (y, _, _) (z, _, _) =
    split-append b'.' a (b ++ (b'.' ∷ c))
    ∙ ap (λ r. split b'.' a ++ r) (split-append b'.' b c)
    ∙ parts
  where
    parts : split b'.' a ++ (split b'.' b ++ split b'.' c) ≡ a ∷ b ∷ c ∷ []
    parts = rw (x, y, z) refl

-- Whether a text begins with a v depends on its first byte.
not_v :
    (d : ℕ) (a r : Str)
    → has_prefix (d ∷ a) (codes "v") ≡ false
    → has_prefix (d ∷ r) (codes "v") ≡ false
unfolding has_prefix
not_v d a r h = ground arith

trim_other : (s : Str) → has_prefix s (codes "v") ≡ false → trim_prefix (codes "v") s ≡ s
unfolding trim_prefix
trim_other s h = rw h refl

trim-version : (a b c : Str) → IsPart a → trim_prefix (codes "v") (version a b c) ≡ version a b c
trim-version [] b c (x, y, z) = cc
trim-version (d ∷ a) b c (x, y, z) = trim_other (version (d ∷ a) b c) (not_v d a _ y)

minor-version :
    (a b c : Str) → IsPart a → IsPart b → IsPart c → minor (version a b c) ≡ a ++ (b'.' ∷ b)
unfolding minor
minor-version a b c x y z = rw (minor, split-version a b c x y z) refl

-- A line is spelled as another one if its two parts are.
line-eq :
    (a b x y : Str)
    → IsPart a
    → IsPart b
    → IsPart x
    → IsPart y
    → str_eq (a ++ (b'.' ∷ b)) (x ++ (b'.' ∷ y)) ≡ str_eq a x && str_eq b y
line-eq a b x y ha hb hx hy =
    by_cases (Bool-cases (str_eq a x && str_eq b y))
      (Bool-cases (str_eq (a ++ (b'.' ∷ b)) (x ++ (b'.' ∷ y))))
  where
    both : (p q : Bool) → p && q ≡ true → (p ≡ true) × (q ≡ true)
    both p q h = ground arith

    cut_line : (p q : Str) → IsPart p → IsPart q → split b'.' (p ++ (b'.' ∷ q)) ≡ p ∷ q ∷ []
    cut_line p q (hp, _, _) (hq, _, _) = split-append b'.' p q ∙ rw (hp, hq) refl

    parts_equal : a ++ (b'.' ∷ b) ≡ x ++ (b'.' ∷ y) → ◌≡◌ {A = List Str} (a ∷ b ∷ []) (x ∷ y ∷ [])
    parts_equal e = sym (cut_line a b ha hb) ∙ ap (split b'.') e ∙ cut_line x y hx hy

    heads_equal : ◌≡◌ {A = List Str} (a ∷ b ∷ []) (x ∷ y ∷ []) → (a ≡ x) × (b ≡ y)
    heads_equal e = (cc, cc)

    by_cases :
        (str_eq a x && str_eq b y ≡ true) ⊎ (str_eq a x && str_eq b y ≡ false)
        → (str_eq (a ++ (b'.' ∷ b)) (x ++ (b'.' ∷ y)) ≡ true)
          ⊎ (str_eq (a ++ (b'.' ∷ b)) (x ++ (b'.' ∷ y)) ≡ false)
        → str_eq (a ++ (b'.' ∷ b)) (x ++ (b'.' ∷ y)) ≡ str_eq a x && str_eq b y
    by_cases (inl h) (inl k) = k ∙ sym h
    by_cases (inr h) (inr k) = k ∙ sym h
    by_cases (inl h) (inr k) =
        let (p, q) = both _ _ h in
        let same =
          ap (λ s. s ++ (b'.' ∷ b)) (str_eq_sound a x p)
          ∙ ap (λ s. x ++ (b'.' ∷ s)) (str_eq_sound b y q) in
        cc (sym k ∙ (str_eq_iff (a ++ (b'.' ∷ b)) (x ++ (b'.' ∷ y))).1 same)
    by_cases (inr h) (inl k) =
        let (p, q) = heads_equal (parts_equal (str_eq_sound _ _ k)) in
        cc (sym h ∙ ap (λ s. s && str_eq b y) ((str_eq_iff a x).1 p) ∙ (str_eq_iff b y).1 q)

-- strconv.Atoi, at the numbers of the supported lines.
pub record ReadsLines (atoi : Str → ℕ) : Type 0 where
  pub at_zero : atoi (codes "0") ≡ 0
  pub at_two : atoi (codes "2") ≡ 2
  pub at_three : atoi (codes "3") ≡ 3

three : IsPart (codes "3")
unfolding split has_prefix
three = (refl, refl, refl)

two : IsPart (codes "2")
unfolding split has_prefix
two = (refl, refl, refl)

fourteen : IsPart (codes "14")
unfolding split has_prefix
fourteen = (refl, refl, refl)

module _ (atoi : Str → ℕ) (reads : ReadsLines atoi) where
  ge_minimum :
      (a b c : Str)
      → IsPart a
      → IsPart b
      → IsPart c
      → version_ge atoi (version a b c) supported_min
        ≡ parts_ge atoi (a ∷ b ∷ c ∷ []) (codes "2" ∷ codes "14" ∷ codes "0" ∷ [])
  unfolding version_ge trim_prefix has_prefix split
  ge_minimum a b c x y z =
      ap (λ r. parts_ge atoi r (codes "2" ∷ codes "14" ∷ codes "0" ∷ []))
        (ap (split b'.') (trim-version a b c x) ∙ split-version a b c x y z)

  bundle_ge :
      (b c : Str)
      → parts_ge atoi (codes "3" ∷ b ∷ c ∷ []) (codes "2" ∷ codes "14" ∷ codes "0" ∷ []) ≡ true
  unfolding parts_ge
  bundle_ge b c = rw (reads.at_three, reads.at_two) refl

  previous_ge :
      (c : Str)
      → parts_ge atoi (codes "2" ∷ codes "14" ∷ c ∷ []) (codes "2" ∷ codes "14" ∷ codes "0" ∷ [])
        ≡ true
  unfolding parts_ge
  previous_ge c = ground (arith, reads.at_zero)

  -- A full version is within the skew policy if it is of the bundled minor line or of the one
  -- before; the supported minimum never decides.
  pub in_skew-lines :
      (a b c : Str)
      → IsPart a
      → IsPart b
      → IsPart c
      → in_skew atoi (version a b c)
        ≡ (str_eq a (codes "3") && str_eq b (codes "3"))
          || (str_eq a (codes "2") && str_eq b (codes "14"))
  unfolding in_skew
  in_skew-lines a b c x y z =
      rw
        (
          trim-version a b c x,
          minor-version a b c x y z,
          line-eq a b (codes "3") (codes "3") x y three three,
          line-eq a b (codes "2") (codes "14") x y two fourteen,
        )
        (guard_idle (version_ge atoi (version a b c) supported_min)
          (str_eq a (codes "3") && str_eq b (codes "3"))
          (str_eq a (codes "2") && str_eq b (codes "14")) (λ h. ge_bundle h) (λ h. ge_previous h))
    where
      both : (p q : Bool) → p && q ≡ true → (p ≡ true) × (q ≡ true)
      both p q h = ground arith

      guard_idle :
          (g m n : Bool)
          → (m ≡ true → g ≡ true)
          → (n ≡ true → g ≡ true)
          → (if not g then false else m || n) ≡ m || n
      guard_idle true m n h k = refl
      guard_idle false true n h k = cc (h refl)
      guard_idle false false true h k = cc (k refl)
      guard_idle false false false h k = refl

      ge_bundle :
          str_eq a (codes "3") && str_eq b (codes "3") ≡ true
          → version_ge atoi (version a b c) supported_min ≡ true
      ge_bundle h =
          let (p, q) = both _ _ h in
          ge_minimum a b c x y z
          ∙ ap (λ s. parts_ge atoi (s ∷ b ∷ c ∷ []) (codes "2" ∷ codes "14" ∷ codes "0" ∷ []))
              (str_eq_sound a (codes "3") p)
          ∙ bundle_ge b c

      ge_previous :
          str_eq a (codes "2") && str_eq b (codes "14") ≡ true
          → version_ge atoi (version a b c) supported_min ≡ true
      ge_previous h =
          let (p, q) = both _ _ h in
          ge_minimum a b c x y z
          ∙ ap (λ s. parts_ge atoi (s ∷ b ∷ c ∷ []) (codes "2" ∷ codes "14" ∷ codes "0" ∷ []))
              (str_eq_sound a (codes "2") p)
          ∙ ap
              (λ s.
                parts_ge atoi (codes "2" ∷ s ∷ c ∷ []) (codes "2" ∷ codes "14" ∷ codes "0" ∷ []))
              (str_eq_sound b (codes "14") q)
          ∙ previous_ge c
