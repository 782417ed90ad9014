-- ===== src/Render/Bundle/Verified.antt =====
-- What is known of the files of a bundle that was fetched.
use inari_agent.Prelude.{
  ℕ, suc, Str, codes, Bool, true, false, not, ◌&&◌, ◌||◌, if◌then◌else◌, Bool-cases, ok-injective,
  Option, none, some, ok, List, [], ◌∷◌, All, ◌≡◌, inl, inr, refl, sym, ap, ◌∙◌, str_eq,
  str_eq_sound, is_empty,
}
use mathlib.Core.Path.{subst}
use inari_agent.Prelude.Effect.{Effect, pure, bind-ok, check-ok}
use inari_agent.Git.Target.{File, validate_file_path}
use inari_agent.Render.Bundle.{
  BundleRef, validate_ref, checksum_files, Layer, Registry, Nodes, layer_path, fetch_layers,
  fetch_oci, fetch_git, checksum_error, fetch,
}

abbrev pub IsChecked : List File → Type 0
IsChecked = All (λ (f : File). validate_file_path f.path ≡ none)

tested_first :
    (r : BundleRef) → validate_ref r ≡ none → is_empty r.oci_ref ≡ not (is_empty r.git_url)
unfolding validate_ref
tested_first r h = by_sources (is_empty r.oci_ref) (is_empty r.git_url) h
  where
    by_sources :
        (a b : Bool)
        → ◌≡◌ {A = Option Str}
            (if (a && b) || (not a && not b)
              then some (codes "render: bundle needs exactly one of oci_ref or git_url")
              else none)
            none
        → a ≡ not b
    by_sources true true e = cc
    by_sources true false e = refl
    by_sources false true e = refl
    by_sources false false e = cc

matched :
    (hex_sum : Str → Str) (want : Str) (files : List File)
    → checksum_error hex_sum want files ≡ none
    → is_empty want ≡ false
    → checksum_files hex_sum files ≡ want
unfolding checksum_error
matched hex_sum want files h full = elim (Bool-cases (str_eq (checksum_files hex_sum files) want)) [
  | inl e ↦ str_eq_sound (checksum_files hex_sum files) want e
  | inr n ↦ cc (rw (full, n) at h)
]

fetch_layers-IsChecked :
    {W : Type 0} (quote : Str → Str) (decimal : ℕ → Str) (registry : Registry W) (ref : Str) (i : ℕ)
    (ls : List Layer) (files : List File) (w : W)
    → (fetch_layers quote decimal registry ref i ls w).0 ≡ ok files
    → IsChecked files
unfolding fetch_layers pure
fetch_layers-IsChecked quote decimal registry ref i [] files w h =
    subst IsChecked (ok-injective h) tt
fetch_layers-IsChecked quote decimal registry ref i (l ∷ ls) files w h =
    let (valid, rest) =
      check-ok (validate_file_path (layer_path quote decimal registry i l)) _ _ w files h in
    let (blob, _, more) = bind-ok _ _ w files rest in
    let (others, got, last) =
      bind-ok (fetch_layers quote decimal registry ref (suc i) ls) _ _ files more in
    subst IsChecked (ok-injective last)
      (valid, fetch_layers-IsChecked quote decimal registry ref (suc i) ls others _ got)

module _ {W : Type 0} (quote : Str → Str) (decimal : ℕ → Str) (hex_sum : Str → Str)
    (registry : Registry W) (clone : Str → Effect W Str Nodes) where
  -- The files of an OCI bundle are checked.
  sourced :
      (oci_ref git_url : Str) (files : List File) (w : W)
      → ((if is_empty oci_ref
            then fetch_git quote clone git_url
            else fetch_oci quote decimal registry oci_ref)
          w).0
        ≡ ok files
      → is_empty oci_ref ≡ false
      → IsChecked files
  unfolding fetch_oci
  sourced [] git_url files w h full = cc
  sourced (c ∷ s) git_url files w h full =
      let (ls, _, got) = bind-ok _ _ w files h in
      fetch_layers-IsChecked quote decimal registry _ 0 ls files _ got

  -- A bundle is fetched only from a reference with exactly one source. Where the reference has a
  -- checksum, it is the checksum of the files that are returned; and the files of an OCI bundle have
  -- paths that ValidateFilePath accepts.
  pub fetch_verified :
      (r : BundleRef) (files : List File) (w : W)
      → (fetch quote decimal hex_sum registry clone r w).0 ≡ ok files
      → (is_empty r.oci_ref ≡ not (is_empty r.git_url))
        × (is_empty r.checksum ≡ false → checksum_files hex_sum files ≡ r.checksum)
        × (is_empty r.oci_ref ≡ false → IsChecked files)
  unfolding fetch pure
  fetch_verified r files w h =
      let (one, rest) = check-ok (validate_ref r) _ _ w files h in
      let (fs, got, more) = bind-ok _ _ w files rest in
      let (same_sum, last) = check-ok (checksum_error hex_sum r.checksum fs) _ _ _ files more in
      let same : fs ≡ files = ok-injective last in
      (
        tested_first r one,
        λ full.
            ap (checksum_files hex_sum) (sym same) ∙ matched hex_sum r.checksum fs same_sum full,
        λ full. subst IsChecked same (sourced r.oci_ref r.git_url fs w got full),
      )
