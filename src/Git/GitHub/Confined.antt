-- ===== src/Git/GitHub/Confined.antt =====
-- Which repository and branches the GitHub provider touches.
use inari_agent.Prelude.{
  Str, codes, false, Option, none, some, Outcome, ok, err, ok-injective, List, [], ◌∷◌, All, ◌≡◌,
  sym, str_eq, contains,
}
use mathlib.Core.Path.{subst}
use inari_agent.Prelude.Effect.{
  Keeps, Keeps-bind, Keeps-known, bind-ok, Keeps-then, either-Keeps, Keeps-on_error, pure-Keeps,
  stop-Keeps, pure, on_error,
}
use inari_agent.Git.Target.{File, Target, validate_file_path}
use inari_agent.Git.Target.Inside.{IsInside, full_path-IsInside}
use inari_agent.Command.Handlers.GitOps.Containment.{IsChecked, KeepsWithin}
use inari_agent.Git.GitHub.{
  ApiError, CommitInfo, TreeEntry, PullRequest, GitHubApi, owner_name, create_blobs, commit_made,
  commit_tree, base_commit, commit_onto, move_branch, head_of, commit_files_github,
  delete_files_github, pr_error, topic_on, topic_of, move_topic, pr_for, open_pr_github,
  github_provider, heads, deletions,
}

-- The entries stay in the directory of the tree.
abbrev pub AreInside : List TreeEntry → Type 0
AreInside = All (λ (e : TreeEntry). IsInside e.path)

-- The API keeps a predicate of the world in every call on one repository, where the entries of a new
-- tree have no ".." in their paths.
pub record KeepsRepo {W : Type 0} (api : GitHubApi W) (repo : Str × Str) (I : W → Type 0)
    : Type 0 where
  pub on_get_ref : (ref : Str) → Keeps I (api.get_ref repo ref)
  pub on_create_ref : (ref sha : Str) → Keeps I (api.create_ref repo ref sha)
  pub on_update_ref : (ref sha : Str) → Keeps I (api.update_ref repo ref sha)
  pub on_get_commit : (sha : Str) → Keeps I (api.get_commit repo sha)
  pub on_create_blob : (content : Str) → Keeps I (api.create_blob repo content)
  pub on_create_tree :
      (base : Str) (es : List TreeEntry) → AreInside es → Keeps I (api.create_tree repo base es)
  pub on_create_commit :
      (message tree parent : Str) → Keeps I (api.create_commit repo message tree parent)
  pub on_list_prs : (head base : Str) → Keeps I (api.list_prs repo head base)
  pub on_create_pr : (pr : PullRequest) → Keeps I (api.create_pr repo pr)

module _ {W : Type 0} (api : GitHubApi W) (repo : Str × Str) (I : W → Type 0)
    (kept : KeepsRepo api repo I) where
  create_blobs-Keeps : (t : Target) (files : List File) → Keeps I (create_blobs api repo t files)
  unfolding create_blobs
  create_blobs-Keeps t [] = pure-Keeps _ I _
  create_blobs-Keeps t (f ∷ fs) =
      Keeps-bind I _ _ (Keeps-on_error I _ _ (kept.on_create_blob f.content))
        λ blob. Keeps-bind I _ _ (create_blobs-Keeps t fs) λ entries. pure-Keeps _ I _

  create_blobs-AreInside :
      (t : Target) (files : List File) (es : List TreeEntry) (w : W)
      → contains t.path (codes "..") ≡ false
      → IsChecked files
      → (create_blobs api repo t files w).0 ≡ ok es
      → AreInside es
  unfolding create_blobs pure
  create_blobs-AreInside t [] es w h c e = subst AreInside (ok-injective e) tt
  create_blobs-AreInside t (f ∷ fs) es w h (c, cs) e =
      let (blob, _, more) = bind-ok _ _ w es e in
      let (rest, got, last) = bind-ok (create_blobs api repo t fs) _ _ es more in
      subst AreInside (ok-injective last)
        (full_path-IsInside t f.path h c, create_blobs-AreInside t fs rest _ h cs got)

  commit_made-Keeps :
      (base : CommitInfo) (tree message : Str) → Keeps I (commit_made api repo base tree message)
  unfolding commit_made
  commit_made-Keeps base tree message =
      Keeps-bind I _ _ (Keeps-on_error I _ _ (kept.on_create_commit message tree base.sha))
        λ sha. pure-Keeps _ I _

  commit_tree-Keeps :
      (base : CommitInfo) (es : List TreeEntry) (message : Str)
      → AreInside es
      → Keeps I (commit_tree api repo base es message)
  unfolding commit_tree
  commit_tree-Keeps base es message c =
      Keeps-bind I _ _ (Keeps-on_error I _ _ (kept.on_create_tree base.tree es c)) λ tree.
        either-Keeps I (str_eq tree base.tree) _ _ (pure-Keeps _ I _)
          (commit_made-Keeps base tree message)

  base_commit-Keeps : (sha : Str) → Keeps I (base_commit api repo sha)
  unfolding base_commit
  base_commit-Keeps sha =
      Keeps-bind I _ _ (Keeps-on_error I _ _ (kept.on_get_commit sha)) λ c. pure-Keeps _ I _

  commit_onto-Keeps :
      (sha : Str) (t : Target) (files : List File) (message : Str)
      → contains t.path (codes "..") ≡ false
      → IsChecked files
      → Keeps I (commit_onto api repo sha t files message)
  unfolding commit_onto
  commit_onto-Keeps sha t files message h c = Keeps-bind I _ _ (base_commit-Keeps sha) λ base.
      Keeps-known I _ _ (create_blobs-Keeps t files)
        λ es w e. commit_tree-Keeps base es message (create_blobs-AreInside t files es w h c e)

  move_branch-Keeps :
      (t : Target) (head : Str) (made : Option Str) → Keeps I (move_branch api repo t head made)
  unfolding move_branch
  move_branch-Keeps t head none = pure-Keeps _ I _
  move_branch-Keeps t head (some sha) =
      Keeps-then I _ _ (Keeps-on_error I _ _ (kept.on_update_ref (heads t.branch) sha))
        (pure-Keeps _ I _)

  head_of-Keeps : (t : Target) → Keeps I (head_of api repo t)
  unfolding head_of
  head_of-Keeps t = Keeps-on_error I _ _ (kept.on_get_ref (heads t.branch))

  topic_on-Keeps :
      (branch base : Str) (reply : Outcome ApiError Str)
      → Keeps I (topic_on api repo branch base reply)
  unfolding topic_on
  topic_on-Keeps branch base (ok sha) = pure-Keeps _ I _
  topic_on-Keeps branch base (err e) =
      either-Keeps I _ _ _ (Keeps-on_error I _ _ (kept.on_create_ref _ base)) (stop-Keeps _ I _)

  topic_of-Keeps : (branch base : Str) → Keeps I (topic_of api repo branch base)
  unfolding topic_of
  topic_of-Keeps branch base w h =
      topic_on-Keeps branch base (api.get_ref repo (heads branch) w).0 _
        (kept.on_get_ref (heads branch) w h)

  move_topic-Keeps : (branch : Str) (made : Option Str) → Keeps I (move_topic api repo branch made)
  unfolding move_topic
  move_topic-Keeps branch none = pure-Keeps _ I _
  move_topic-Keeps branch (some sha) = Keeps-on_error I _ _ (kept.on_update_ref (heads branch) sha)

  pr_for-Keeps :
      (t : Target) (branch title body : Str) → Keeps I (pr_for api repo t branch title body)
  unfolding pr_for
  pr_for-Keeps t branch title body =
      Keeps-bind I _ _ (Keeps-on_error I _ _ (kept.on_list_prs _ t.branch)) λ prs. found prs
    where
      found :
          (prs : List Str)
          → Keeps I (elim prs [
            | url ∷ more ↦ pure url
            | [] ↦ on_error (pr_error api branch t.branch) (
                api.create_pr repo
                  (record { head = branch; base = t.branch; title = title; body = body }))
          ])
      found (url ∷ more) = pure-Keeps _ I _
      found [] = Keeps-on_error I _ _ (kept.on_create_pr _)

deletions-AreInside :
    (t : Target) (ps : List Str)
    → contains t.path (codes "..") ≡ false
    → All (λ p. validate_file_path p ≡ none) ps
    → AreInside (deletions t ps)
unfolding deletions
deletions-AreInside t [] h c = tt
deletions-AreInside t (p ∷ ps) h (c, cs) =
    (full_path-IsInside t p h c, deletions-AreInside t ps h cs)

module _ {W : Type 0} (api : GitHubApi W) (I : W → Type 0) (t : Target)
    (kept : KeepsRepo api (owner_name t.repo) I)
    (within : contains t.path (codes "..") ≡ false) where
  commit-Keeps :
      (files : List File) (message : Str)
      → IsChecked files
      → Keeps I (commit_files_github api t files message)
  unfolding commit_files_github
  commit-Keeps files message c =
      Keeps-bind I _ _ (head_of-Keeps api (owner_name t.repo) I kept t) λ head.
        Keeps-bind I _ _
          (commit_onto-Keeps api (owner_name t.repo) I kept head t files message within c)
          λ made. move_branch-Keeps api (owner_name t.repo) I kept t head made

  delete-Keeps :
      (paths : List Str) (message : Str)
      → All (λ p. validate_file_path p ≡ none) paths
      → Keeps I (delete_files_github api t paths message)
  unfolding delete_files_github
  delete-Keeps [] message c = pure-Keeps _ I _
  delete-Keeps (p ∷ ps) message c =
      Keeps-bind I _ _ (head_of-Keeps api (owner_name t.repo) I kept t) λ head.
        Keeps-bind I _ _ (base_commit-Keeps api (owner_name t.repo) I kept head) λ base.
          Keeps-bind I _ _
            (commit_tree-Keeps api (owner_name t.repo) I kept base (deletions t (p ∷ ps)) message
              (deletions-AreInside t (p ∷ ps) within c))
            λ made. move_branch-Keeps api (owner_name t.repo) I kept t head made

  pr-Keeps :
      (files : List File) (branch title body : Str)
      → IsChecked files
      → Keeps I (open_pr_github api t files branch title body)
  unfolding open_pr_github
  pr-Keeps files branch title body c =
      Keeps-bind I _ _ (Keeps-on_error I _ _ (kept.on_get_ref (heads t.branch))) λ base.
        Keeps-bind I _ _ (topic_of-Keeps api (owner_name t.repo) I kept branch base) λ topic.
          Keeps-bind I _ _
            (commit_onto-Keeps api (owner_name t.repo) I kept topic t files title within c)
            λ made.
              Keeps-then I _ _ (move_topic-Keeps api (owner_name t.repo) I kept branch made)
                (pr_for-Keeps api (owner_name t.repo) I kept t branch title body)

-- What the GitHub provider does for a checked target and checked file paths stays in the target's
-- repository, and no path that it puts into a tree or deletes has a ".." segment.
pub github-KeepsWithin :
    {W : Type 0} (api : GitHubApi W) (r : Str) (I : W → Type 0)
    → KeepsRepo api (owner_name r) I
    → KeepsWithin (github_provider api) r I
github-KeepsWithin api r I kept = record {
  on_commit = λ t files message h c. commit-Keeps api I t (here t h.0) h.1 files message c;
  on_pr =
      λ t files branch title body h c. pr-Keeps api I t (here t h.0) h.1 files branch title body c;
  on_delete = λ t p message h c. delete-Keeps api I t (here t h.0) h.1 (p ∷ []) message (c, tt);
}
  where
    here : (t : Target) → t.repo ≡ r → KeepsRepo api (owner_name t.repo) I
    here t e = subst (λ s. KeepsRepo api (owner_name s) I) (sym e) kept
