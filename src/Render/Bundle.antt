-- ===== src/Render/Bundle.antt =====
-- internal/render/bundle.go: the bundles of apply-bundle commands. The registry client, the clone and the
-- hash are parameters; the file system of a clone is a tree.
pub mod Verified
use inari_agent.Prelude.{
  ℕ, suc, Str, codes, not, ◌&&◌, ◌||◌, if◌then◌else◌, Option, none, some, Outcome, ok, err, List,
  [], ◌∷◌, ◌++◌, str_eq, str_less, is_empty,
}
use inari_agent.Prelude.Effect.{Effect, pure, lift, on_error, check, ◌>>=◌, ◌>>◌}
use inari_agent.Prelude.Texts.{trim_prefix}
use inari_agent.Git.Target.{File, validate_file_path}
use inari_agent.Git.Provider.{target_error_text}

pub record BundleRef : Type 0 where
  pub oci_ref : Str
  pub git_url : Str
  pub checksum : Str

-- BundleRef.Validate: `none` is no error.
unfoldable pub validate_ref : BundleRef → Option Str
validate_ref r =
    if (is_empty r.oci_ref && is_empty r.git_url)
      || (not (is_empty r.oci_ref) && not (is_empty r.git_url))
    then some (codes "render: bundle needs exactly one of oci_ref or git_url")
    else none

-- sort.Slice by path
unfoldable insert_file : File → List File → List File
insert_file f [] = f ∷ []
insert_file f (g ∷ gs) =
    let rest = insert_file f gs in if str_less g.path f.path then g ∷ rest else f ∷ g ∷ gs

unfoldable pub sorted_files : List File → List File
unfolding insert_file
sorted_files [] = []
sorted_files (f ∷ fs) = insert_file f (sorted_files fs)

-- What is written to the hash.
unfoldable pub file_bytes : List File → Str
file_bytes [] = []
file_bytes (f ∷ fs) = f.path ++ (0 ∷ (f.content ++ (0 ∷ file_bytes fs)))

-- ChecksumFiles; `hex_sum` is SHA-256 in hexadecimal.
unfoldable pub checksum_files : (Str → Str) → List File → Str
unfolding sorted_files file_bytes
checksum_files hex_sum files = codes "sha256:" ++ hex_sum (file_bytes (sorted_files files))

-- A layer of an OCI manifest: its title annotation ("" where there is none) and its digest.
pub record Layer : Type 0 where
  pub title : Str
  pub digest : Str

-- oras-go: NewRepository with Resolve and FetchAll of the manifest with its decoding, and FetchAll of
-- a layer.
pub record Registry (W : Type 0) : Type 0 where
  pub fetch_manifest : Str → Effect W Str (List Layer)
  pub fetch_layer : Str → Layer → Effect W Str Str

-- What a name in a directory stands for; a file that cannot be read and a directory that cannot be
-- listed carry the error.
mutual
  pub data Node : Type 0 where
    regular : Outcome Str Str → Node
    symlink : Node
    folder : Nodes → Node

  pub data Nodes : Type 0 where
    no_more : Nodes
    unlisted : Str → Nodes
    entry : Str → Node → Nodes → Nodes

-- fsys.Join
abbrev join_path : Str → Str → Str
join_path dir name = if str_eq dir (codes "/") then dir ++ name else dir ++ (b'/' ∷ name)

-- walkBilly with the visit of fetchGit: the files in the order of the walk.
unfoldable mutual
  unfolding trim_prefix

  walk_node : Str → Str → Node → Outcome Str (List File)
  walk_node path name (regular (err e)) = err e
  walk_node path name (regular (ok bytes)) =
      ok (record { path = trim_prefix (codes "/") path; content = bytes } ∷ [])
  walk_node path name symlink = ok []
  walk_node path name (folder nodes) =
      let files = walk_nodes path nodes in if str_eq name (codes ".git") then ok [] else files

  walk_nodes : Str → Nodes → Outcome Str (List File)
  walk_nodes dir no_more = ok []
  walk_nodes dir (unlisted e) = err e
  walk_nodes dir (entry name node nodes) =
      let rest = walk_nodes dir nodes in
      elim (walk_node (join_path dir name) name node) [
        | err e ↦ err e
        | ok files ↦ elim rest [ err e ↦ err e | ok more ↦ ok (files ++ more) ]
      ]

-- `decimal` prints a number.
module _ {W : Type 0} (quote : Str → Str) (decimal : ℕ → Str) (registry : Registry W) where
  abbrev layer_path : ℕ → Layer → Str
  layer_path i l = if is_empty l.title then codes "layer-" ++ decimal i else l.title

  -- The loop of fetchOCI, from layer `i`.
  unfoldable pub fetch_layers : Str → ℕ → List Layer → Effect W Str (List File)
  fetch_layers ref i [] = pure []
  fetch_layers ref i (l ∷ ls) = do
    check (validate_file_path (layer_path i l)) (λ e.
        codes "render: OCI bundle "
        ++ (quote ref
            ++ (codes " layer " ++ (decimal i ++ (codes ": " ++ target_error_text quote e)))))
    blob ←
        on_error (λ e. codes "render: fetch OCI layer " ++ (l.digest ++ (codes ": " ++ e)))
          (registry.fetch_layer ref l)
    files ← fetch_layers ref (suc i) ls
    pure (record { path = layer_path i l; content = blob } ∷ files)

  unfoldable pub fetch_oci : Str → Effect W Str (List File)
  unfolding fetch_layers trim_prefix
  fetch_oci oci_ref = do
    let ref = trim_prefix (codes "oci://") oci_ref
    layers ← registry.fetch_manifest ref
    fetch_layers ref 0 layers

-- `clone` is the shallow clone into memory.
unfoldable pub fetch_git :
    {W : Type 0} → (Str → Str) → (Str → Effect W Str Nodes) → Str → Effect W Str (List File)
unfolding walk_nodes
fetch_git quote clone url = do
  root ←
      on_error (λ e. codes "render: clone bundle " ++ (quote url ++ (codes ": " ++ e))) (clone url)
  on_error (λ e. codes "render: read bundle " ++ (quote url ++ (codes ": " ++ e)))
      (lift (walk_nodes (codes "/") root))

-- The error of the checksum test of Fetch; `none` is no error.
unfoldable pub checksum_error : (Str → Str) → Str → List File → Option Str
unfolding checksum_files
checksum_error hex_sum want files =
    if is_empty want || str_eq (checksum_files hex_sum files) want
    then none
    else some (
        codes "render: bundle checksum mismatch: got "
        ++ (checksum_files hex_sum files ++ (codes ", want " ++ want)))

module _ {W : Type 0} (quote : Str → Str) (decimal : ℕ → Str) (hex_sum : Str → Str)
    (registry : Registry W) (clone : Str → Effect W Str Nodes) where
  -- Fetch
  unfoldable pub fetch : BundleRef → Effect W Str (List File)
  unfolding validate_ref fetch_oci fetch_git checksum_error
  fetch r = do
    check (validate_ref r) (λ e. e)
    files ←
        if is_empty r.oci_ref
        then fetch_git quote clone r.git_url
        else fetch_oci quote decimal registry r.oci_ref
    check (checksum_error hex_sum r.checksum files) (λ e. e)
    pure files
