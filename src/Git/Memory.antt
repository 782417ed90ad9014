-- ===== src/Git/Memory.antt =====
-- internal/git/mem.go: MemProvider. The hash of a file set (hashFiles, crypto/sha256) is a parameter.
pub mod Idempotence
use inari_agent.Prelude.{
  ℕ, ◌+◌, Str, codes, Bool, true, false, not, ◌&&◌, ◌||◌, if◌then◌else◌, Option, none, some,
  Outcome, ok, err, Map, lookup, insert, List, [], ◌∷◌, ◌++◌, length, str_eq, join,
}
use inari_agent.Git.Target.{File, Target, full_path}

pub record CommitRecord : Type 0 where
  pub target : Target
  pub files : List File
  pub message : Str
  pub sha : Str
  pub changed : Bool

pub record DeleteRecord : Type 0 where
  pub target : Target
  pub paths : List Str
  pub message : Str
  pub sha : Str
  pub changed : Bool

pub record PrRecord : Type 0 where
  pub target : Target
  pub files : List File
  pub branch : Str
  pub title : Str
  pub body : Str
  pub url : Str

-- Commits and deletes are latest first, pull requests in order; a missing path of `present` is absent.
pub record MemProvider : Type 0 where
  pub commits : List CommitRecord
  pub prs : List PrRecord
  pub deletes : List DeleteRecord
  pub present : Map Bool
  pub pending_error : Option Str

unfoldable same_target : Target → Target → Bool
same_target a b = str_eq a.repo b.repo && (str_eq a.path b.path && str_eq a.branch b.branch)

-- Does the last commit have this target and this hash?
unfoldable repeats : Target → Str → List CommitRecord → Bool
unfolding same_target
repeats target sum [] = false
repeats target sum (c ∷ cs) = same_target c.target target && str_eq c.sha sum

unfoldable mark_present : Target → List File → Map Bool → Map Bool
mark_present target [] present = present
mark_present target (f ∷ fs) present =
    mark_present target fs (insert (full_path target f.path) true present)

abbrev is_present : Str → Map Bool → Bool
is_present k present = elim (lookup k present) [ none ↦ false | some b ↦ b ]

-- The loop of DeleteFiles: whether a path was there, and what is left.
unfoldable delete_paths : Target → List Str → Map Bool → Bool × Map Bool
delete_paths target [] present = (false, present)
delete_paths target (p ∷ ps) present =
    let k = full_path target p in
    let there = is_present k present in
    let rest = delete_paths target ps (if there then insert k false present else present) in
    (there || rest.0, rest.1)

-- The URL of the first pull request with the target and the branch.
unfoldable find_pr : Target → Str → List PrRecord → Option Str
unfolding same_target
find_pr target branch [] = none
find_pr target branch (pr ∷ prs) =
    let rest = find_pr target branch prs in
    if same_target pr.target target && str_eq pr.branch branch then some pr.url else rest

-- `hash` is hashFiles; `decimal` prints a number.
module _ (hash : List File → Str) (decimal : ℕ → Str) where
  unfoldable pub commit_files :
      Target → List File → Str → MemProvider → Outcome Str (Str × Bool) × MemProvider
  unfolding repeats mark_present
  commit_files target files message m = elim m.pending_error [
    | some e ↦ (err e, record m { pending_error = none })
    | none ↦
        let sum = hash files in
        let changed = not (repeats target sum m.commits) in
        (
          ok (sum, changed),
          record m {
            commits =
                record {
                  target = target;
                  files = files;
                  message = message;
                  sha = sum;
                  changed = changed;
                }
                ∷ m.commits;
            present = mark_present target files m.present;
          },
        )
  ]

  unfoldable pub delete_files :
      Target → List Str → Str → MemProvider → Outcome Str (Str × Bool) × MemProvider
  unfolding delete_paths
  delete_files target paths message m = elim m.pending_error [
    | some e ↦ (err e, record m { pending_error = none })
    | none ↦
        let removed = delete_paths target paths m.present in
        let sum = hash (record { path = codes "delete:" ++ join b',' paths; content = [] } ∷ []) in
        (
          ok (sum, removed.0),
          record m {
            deletes =
                record {
                  target = target;
                  paths = paths;
                  message = message;
                  sha = sum;
                  changed = removed.0;
                }
                ∷ m.deletes;
            present = removed.1;
          },
        )
  ]

  abbrev pr_url : Target → ℕ → Str
  pr_url target n =
      codes "https://example.invalid/" ++ (target.repo ++ (codes "/pull/" ++ decimal n))

  -- The end of OpenPR, by the pull request that was found.
  unfoldable open_pr_in :
      Option Str
      → Target
      → List File
      → Str
      → Str
      → Str
      → MemProvider
      → Outcome Str Str × MemProvider
  open_pr_in (some url) target files branch title body m = (ok url, m)
  open_pr_in none target files branch title body m =
      let url = pr_url target (length m.prs + 1) in
      (
        ok url,
        record m {
          prs =
              m.prs
              ++ (record {
                target = target;
                files = files;
                branch = branch;
                title = title;
                body = body;
                url = url;
              }
                  ∷ []);
        },
      )

  -- OpenPR, by the pending error.
  unfoldable open_pr_from :
      Option Str
      → Target
      → List File
      → Str
      → Str
      → Str
      → MemProvider
      → Outcome Str Str × MemProvider
  unfolding open_pr_in find_pr
  open_pr_from (some e) target files branch title body m =
      (err e, record m { pending_error = none })
  open_pr_from none target files branch title body m =
      open_pr_in (find_pr target branch m.prs) target files branch title body m

  unfoldable pub open_pr :
      Target → List File → Str → Str → Str → MemProvider → Outcome Str Str × MemProvider
  unfolding open_pr_from
  open_pr target files branch title body m =
      open_pr_from m.pending_error target files branch title body m
