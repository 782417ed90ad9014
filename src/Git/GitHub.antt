-- ===== src/Git/GitHub.antt =====
-- internal/git/github.go: gitHubProvider, over the Git Data API of go-github as an interface. Blobs, trees and
-- commits are named by their SHA; a getter of a nil field reads "".
pub mod Confined
use inari_agent.Prelude.{
  ℕ, Str, codes, Bool, true, false, if◌then◌else◌, Option, none, some, Outcome, ok, err, List, [],
  ◌∷◌, ◌++◌, str_eq, ◌==◌, cut,
}
use inari_agent.Prelude.Effect.{Effect, pure, stop, on_error, ◌>>=◌, ◌>>◌}
use inari_agent.Git.Target.{File, Target, full_path}
use inari_agent.Git.Provider.{Provider}

-- A call's error: its text, and the status of an ErrorResponse.
pub record ApiError : Type 0 where
  pub message : Str
  pub status : Option ℕ

pub record CommitInfo : Type 0 where
  pub sha : Str
  pub tree : Str

-- An entry of a tree (mode 100644, type blob); `none` is the null SHA that deletes the path.
pub record TreeEntry : Type 0 where
  pub path : Str
  pub blob : Option Str

pub record PullRequest : Type 0 where
  pub head : Str
  pub base : Str
  pub title : Str
  pub body : Str

-- The calls, on a repository given by owner and name. A ref is answered by the SHA of its object.
pub record GitHubApi (W : Type 0) : Type 0 where
  pub get_ref : Str × Str → Str → Effect W ApiError Str
  pub create_ref : Str × Str → Str → Str → Effect W ApiError Str
  pub update_ref : Str × Str → Str → Str → Effect W ApiError (Unit {0})
  pub get_commit : Str × Str → Str → Effect W ApiError CommitInfo
  pub create_blob : Str × Str → Str → Effect W ApiError Str
  pub create_tree : Str × Str → Str → List TreeEntry → Effect W ApiError Str
  pub create_commit : Str × Str → Str → Str → Str → Effect W ApiError Str
  pub list_prs : Str × Str → Str → Str → Effect W ApiError (List Str)
  pub create_pr : Str × Str → PullRequest → Effect W ApiError Str

-- OwnerName: the repository is split at its first slash, which Validate has seen to be there.
unfoldable pub owner_name : Str → Str × Str
owner_name repo =
    let parts = cut b'/' repo in (parts.0, elim parts.1 [ none ↦ [] | some name ↦ name ])

abbrev heads : Str → Str
heads branch = codes "heads/" ++ branch

-- fmt.Errorf("git: …: %w")
abbrev failing : Str → ApiError → Str
failing what e = codes "git: " ++ (what ++ (codes ": " ++ e.message))

abbrev ref_in : Str → Str → Target → Str
ref_in verb branch t = verb ++ (codes " ref heads/" ++ (branch ++ (codes " in " ++ t.repo)))

abbrev has_status : ℕ → ApiError → Bool
has_status n e = elim e.status [ none ↦ false | some s ↦ s == n ]

unfoldable deletions : Target → List Str → List TreeEntry
deletions target [] = []
deletions target (p ∷ ps) = record { path = full_path target p; blob = none } ∷ deletions target ps

module _ {W : Type 0} (api : GitHubApi W) where
  -- The loop of commitOnto: a blob for each file.
  unfoldable create_blobs : Str × Str → Target → List File → Effect W Str (List TreeEntry)
  create_blobs repo target [] = pure []
  create_blobs repo target (f ∷ fs) = do
    blob ← on_error (failing (codes "create blob for " ++ f.path)) (api.create_blob repo f.content)
    entries ← create_blobs repo target fs
    pure (record { path = full_path target f.path; blob = some blob } ∷ entries)

  unfoldable commit_made : Str × Str → CommitInfo → Str → Str → Effect W Str (Option Str)
  commit_made repo base tree message = do
    sha ← on_error (failing (codes "create commit")) (api.create_commit repo message tree base.sha)
    pure (some sha)

  -- A tree over the base commit, and a commit of it, unless the tree is the base tree: `none`.
  unfoldable pub commit_tree :
      Str × Str → CommitInfo → List TreeEntry → Str → Effect W Str (Option Str)
  unfolding commit_made
  commit_tree repo base entries message = do
    tree ← on_error (failing (codes "create tree")) (api.create_tree repo base.tree entries)
    if str_eq tree base.tree then pure none else commit_made repo base tree message

  -- The base commit, under the SHA that was asked for.
  unfoldable base_commit : Str × Str → Str → Effect W Str CommitInfo
  base_commit repo sha = do
    c ← on_error (failing (codes "get commit " ++ sha)) (api.get_commit repo sha)
    pure (record c { sha = sha })

  -- commitOnto: `none` is an unchanged tree.
  unfoldable pub commit_onto :
      Str × Str → Str → Target → List File → Str → Effect W Str (Option Str)
  unfolding create_blobs commit_tree base_commit
  commit_onto repo base_sha target files message = do
    base ← base_commit repo base_sha
    entries ← create_blobs repo target files
    commit_tree repo base entries message

  -- What CommitFiles and DeleteFiles do with a new commit: the branch is moved to it.
  unfoldable pub move_branch : Str × Str → Target → Str → Option Str → Effect W Str (Str × Bool)
  move_branch repo target head none = pure (head, false)
  move_branch repo target head (some sha) = do
    on_error (failing (ref_in (codes "update") target.branch target))
        (api.update_ref repo (heads target.branch) sha)
    pure (sha, true)

  unfoldable head_of : Str × Str → Target → Effect W Str Str
  head_of repo target =
      on_error (failing (ref_in (codes "get") target.branch target))
        (api.get_ref repo (heads target.branch))

  -- CommitFiles
  unfoldable pub commit_files_github : Target → List File → Str → Effect W Str (Str × Bool)
  unfolding commit_onto move_branch head_of owner_name
  commit_files_github target files message = do
    head ← head_of (owner_name target.repo) target
    made ← commit_onto (owner_name target.repo) head target files message
    move_branch (owner_name target.repo) target head made

  -- DeleteFiles
  unfoldable pub delete_files_github : Target → List Str → Str → Effect W Str (Str × Bool)
  unfolding move_branch head_of owner_name base_commit commit_tree deletions
  delete_files_github target [] message = pure ([], false)
  delete_files_github target (p ∷ ps) message = do
    head ← head_of (owner_name target.repo) target
    base ← base_commit (owner_name target.repo) head
    made ← commit_tree (owner_name target.repo) base (deletions target (p ∷ ps)) message
    move_branch (owner_name target.repo) target head made

  -- The topic branch: it is created from the base where it is not found.
  unfoldable topic_on : Str × Str → Str → Str → Outcome ApiError Str → Effect W Str Str
  topic_on repo branch base (ok sha) = pure sha
  topic_on repo branch base (err e) =
      if has_status 404 e
      then on_error (failing (codes "create topic branch " ++ branch))
          (api.create_ref repo (codes "refs/heads/" ++ branch) base)
      else stop (failing (codes "get topic branch " ++ branch) e)

  unfoldable topic_of : Str × Str → Str → Str → Effect W Str Str
  unfolding topic_on
  topic_of repo branch base w =
      let (reply, w') = api.get_ref repo (heads branch) w in topic_on repo branch base reply w'

  -- The branch is moved to a new commit, if there is one.
  unfoldable move_topic : Str × Str → Str → Option Str → Effect W Str (Unit {0})
  move_topic repo branch none = pure tt
  move_topic repo branch (some sha) =
      on_error (failing (codes "update topic branch " ++ branch))
        (api.update_ref repo (heads branch) sha)

  abbrev pr_error : Str → Str → ApiError → Str
  pr_error branch base e =
      if has_status 422 e
      then failing (codes "open PR " ++ (branch ++ (codes " -> " ++ base))) e
        ++ codes " (a PR may already exist)"
      else failing (codes "open PR " ++ (branch ++ (codes " -> " ++ base))) e

  -- The open pull request of the branch, or a new one.
  unfoldable pr_for : Str × Str → Target → Str → Str → Str → Effect W Str Str
  pr_for repo target branch title body = do
    let head = repo.0 ++ (b':' ∷ branch)
    prs ← on_error (failing (codes "list PRs for " ++ head)) (api.list_prs repo head target.branch)
    elim prs [
      | url ∷ more ↦ pure url
      | [] ↦ on_error (pr_error branch target.branch) (
          api.create_pr repo
            (record { head = branch; base = target.branch; title = title; body = body }))
    ]

  -- OpenPR
  unfoldable pub open_pr_github : Target → List File → Str → Str → Str → Effect W Str Str
  unfolding commit_onto topic_of move_topic pr_for owner_name
  open_pr_github target files branch title body = do
    let repo = owner_name target.repo
    base ←
        on_error
          (failing
            (codes "get base ref heads/" ++ (target.branch ++ (codes " in " ++ target.repo))))
          (api.get_ref repo (heads target.branch))
    topic ← topic_of repo branch base
    made ← commit_onto repo topic target files title
    move_topic repo branch made
    pr_for repo target branch title body

  abbrev pub github_provider : Provider W
  github_provider = record {
    commit_files = commit_files_github;
    open_pr = open_pr_github;
    delete_files = delete_files_github;
  }
