-- ===== src/Capability/Image.antt =====
-- internal/capability/metadata.go: splitImage and addonVersion.
pub mod Tags
use inari_agent.Prelude.{
  ℕ, Str, codes, Bool, not, ◌&&◌, ◌||◌, if◌then◌else◌, Option, none, some, Map, lookup, List, [],
  ◌∷◌, length, str_eq, ◌==◌, is_empty,
}

abbrev pub colon : ℕ
colon = b':'

-- The loop of splitImage, from the end of the image: what stands behind the place, reversed back,
-- and what is left to read, in reverse.
unfoldable scan_image : Str → Str → Option (Str × Str)
scan_image tag [] = none
scan_image tag (c ∷ before) =
    let further = scan_image (c ∷ tag) before in
    if c == colon && not (is_empty tag)
    then some (before, tag)
    else if c == b'/' || c == b'@'
    then none
    else further

unfoldable reverse_onto : Str → Str → Str
reverse_onto [] out = out
reverse_onto (c ∷ s) out = reverse_onto s (c ∷ out)

-- splitImage: the part before the last colon and the tag behind it.
unfoldable pub split_image : Str → Option (Str × Str)
unfolding scan_image reverse_onto
split_image image = elim (scan_image [] (reverse_onto image [])) [
  | none ↦ none
  | some (before, tag) ↦ some (reverse_onto before [], tag)
]

pub record Container : Type 0 where
  pub name : Str
  pub image : Str

-- The loop of addonVersion over the containers; `single` says that there is one.
unfoldable container_version : Str → Bool → List Container → Str
unfolding split_image
container_version deployment single [] = []
container_version deployment single (c ∷ cs) =
    let rest = container_version deployment single cs in
    if str_eq c.name deployment || single
    then (elim (split_image c.image) [ none ↦ rest | some (repo, tag) ↦ tag ])
    else rest

-- addonVersion: the version label, or the tag of the container that is named like the deployment or
-- is its only one.
unfoldable addon_version : Str → Map Str → List Container → Str
unfolding container_version
addon_version deployment labels containers =
    let label : Str = elim (lookup (codes "app.kubernetes.io/version") labels) [
      | none ↦ []
      | some v ↦ v
    ] in
    if is_empty label
    then container_version deployment (length containers == 1) containers
    else label
