-- ===== src/Capability/Image/Tags.antt =====
-- internal/capability/metadata.go: splitImage is exact.
use mathlib.Core.List.{append_assoc, append-nil}
use mathlib.Core.Path.{ap₂}
use inari_agent.Prelude.{some-injective}
use inari_agent.Prelude.{
  Str, false, ◌&&◌, Option-cases, some, [], ◌∷◌, ◌++◌, ◌≡◌, ◌≢◌, inl, inr, refl, sym, ap, ◌∙◌,
  arith, is_empty,
}
use inari_agent.Capability.Image.{colon, scan_image, reverse_onto, split_image}

-- No colon, slash or at sign.
abbrev IsPlain : Str → Type 0
IsPlain [] = Unit
IsPlain (c ∷ s) = (c ≢ b':') × (c ≢ b'/') × (c ≢ b'@') × IsPlain s

reverse_onto-append :
    (s t out : Str) → reverse_onto (s ++ t) out ≡ reverse_onto t (reverse_onto s out)
unfolding reverse_onto
reverse_onto-append [] t out = refl
reverse_onto-append (c ∷ s) t out = reverse_onto-append s t (c ∷ out)

reverse_onto_lem : (s out : Str) → reverse_onto s out ≡ reverse_onto s [] ++ out
unfolding reverse_onto
reverse_onto_lem [] out = refl
reverse_onto_lem (c ∷ s) out =
    reverse_onto_lem s (c ∷ out)
    ∙ sym (append_assoc (reverse_onto s []) (c ∷ []) out)
    ∙ ap (λ (t : Str). t ++ out) (sym (reverse_onto_lem s (c ∷ [])))

reverse_onto-reverse_onto :
    (s out : Str) → reverse_onto (reverse_onto s out) [] ≡ reverse_onto out [] ++ s
unfolding reverse_onto
reverse_onto-reverse_onto [] out = sym (append-nil (reverse_onto out []))
reverse_onto-reverse_onto (c ∷ s) out =
    reverse_onto-reverse_onto s (c ∷ out)
    ∙ ap (λ (t : Str). t ++ s) (reverse_onto_lem out (c ∷ []))
    ∙ append_assoc (reverse_onto out []) (c ∷ []) s

-- What the loop gives back is what it read, with a colon between.
scan_image_sound :
    (tag before repo out : Str)
    → scan_image tag before ≡ some (repo, out)
    → reverse_onto before tag ≡ reverse_onto repo (colon ∷ out)
unfolding scan_image reverse_onto
scan_image_sound tag [] repo out h = cc
scan_image_sound tag (c ∷ before) repo out h =
    ground (arith, scan_image_sound (c ∷ tag) before repo out)

-- A result of splitImage puts the image back together: repository, colon, tag.
split_image_sound :
    (image repo tag : Str) → split_image image ≡ some (repo, tag) → repo ++ (colon ∷ tag) ≡ image
unfolding split_image
split_image_sound image repo tag h = elim (Option-cases (scan_image [] (reverse_onto image []))) [
  | inl q ↦ cc (rw (q, split_image) at h)
  | inr ((before, t), q) ↦
      let pair = some-injective (rw (q, split_image) at h) in
      ap₂ (λ (r t' : Str). r ++ (colon ∷ t')) (ap (λ (x : Str × Str). x.0) (sym pair))
        (ap (λ (x : Str × Str). x.1) (sym pair))
      ∙ sym (reverse_onto_lem before (colon ∷ t))
      ∙ sym (scan_image_sound [] (reverse_onto image []) before t q)
      ∙ reverse_onto-reverse_onto image []
]

scan_image_plain :
    (rt t r : Str)
    → IsPlain rt
    → is_empty (rt ++ t) ≡ false
    → scan_image t (rt ++ (colon ∷ r)) ≡ some (r, reverse_onto rt t)
unfolding scan_image reverse_onto
scan_image_plain [] t r h n = ground arith
scan_image_plain (c ∷ rt) t r (k, s, a, h) n =
    ground (arith, scan_image_plain rt (c ∷ t) r h (not_empty rt))
  where
    not_empty : (u : Str) → is_empty (u ++ (c ∷ t)) ≡ false
    not_empty [] = refl
    not_empty (x ∷ u) = refl

reverse_onto-IsPlain : (s out : Str) → IsPlain s → IsPlain out → IsPlain (reverse_onto s out)
unfolding reverse_onto
reverse_onto-IsPlain [] out h k = k
reverse_onto-IsPlain (c ∷ s) out (a, b, d, h) k = reverse_onto-IsPlain s (c ∷ out) h (a, b, d, k)

reverse_onto_nonempty :
    (s out : Str) → is_empty s && is_empty out ≡ false → is_empty (reverse_onto s out) ≡ false
unfolding reverse_onto
reverse_onto_nonempty [] out h = h
reverse_onto_nonempty (c ∷ s) out h = reverse_onto_nonempty s (c ∷ out) (ground arith)

-- Whatever stands before the last colon, a non-empty tag without colon, slash or at sign is split
-- off; so of an image given by digest, `repo@sha256:hex`, the hex digest comes back as the tag.
pub split_image_complete :
    (repo tag : Str)
    → IsPlain tag
    → is_empty tag ≡ false
    → split_image (repo ++ (colon ∷ tag)) ≡ some (repo, tag)
unfolding split_image
split_image_complete repo tag h n =
    let rt = reverse_onto tag [] in
    let scanned : scan_image [] (reverse_onto (repo ++ (colon ∷ tag)) [])
        ≡ some (reverse_onto repo [], reverse_onto rt []) =
      ap (scan_image []) (
        reverse_onto-append repo (colon ∷ tag) []
        ∙ (unfold reverse_onto in reverse_onto_lem tag (colon ∷ reverse_onto repo [])))
      ∙ scan_image_plain rt [] (reverse_onto repo []) (reverse_onto-IsPlain tag [] h tt)
          (ap is_empty (append-nil rt) ∙ reverse_onto_nonempty tag [] (ground arith)) in
    rw (scanned, split_image)
      (ap₂ (λ (a b : Str). some (a, b)) (reverse_onto-reverse_onto repo [])
        (reverse_onto-reverse_onto tag []))
