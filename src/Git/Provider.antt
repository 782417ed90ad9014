-- ===== src/Git/Provider.antt =====
-- internal/git/provider.go: the interface Provider, with the errors' texts; `quote` is %q of fmt.
use inari_agent.Prelude.{ℕ, Str, codes, Bool, List, ◌++◌}
use inari_agent.Prelude.Effect.{Effect}
use inari_agent.Git.Target.{
  File, Target, TargetError, no_repo, bad_repo, escaping_path, absolute_path, bad_segment,
}
use inari_agent.Git.Memory.{MemProvider}
use inari_agent.Git.Memory

pub record Provider (W : Type 0) : Type 0 where
  pub commit_files : Target → List File → Str → Effect W Str (Str × Bool)
  pub open_pr : Target → List File → Str → Str → Str → Effect W Str Str
  pub delete_files : Target → List Str → Str → Effect W Str (Str × Bool)

unfoldable pub target_error_text : (Str → Str) → TargetError → Str
target_error_text quote no_repo = codes "git: no target repo and no tenant default configured"
target_error_text quote (bad_repo r) =
    codes "git: repo " ++ (quote r ++ codes " must be owner/name")
target_error_text quote (escaping_path p) =
    codes "git: path " ++ (quote p ++ codes " must not escape the repository")
target_error_text quote (absolute_path p) =
    codes "git: file path " ++ (quote p ++ codes " must be relative and non-empty")
target_error_text quote (bad_segment p s) =
    codes "git: file path " ++ (quote p ++ (codes " contains invalid segment " ++ quote s))

-- MemProvider as a Provider
abbrev pub mem_provider : (List File → Str) → (ℕ → Str) → Provider MemProvider
mem_provider hash decimal = record {
  commit_files = Memory.commit_files hash decimal;
  open_pr = Memory.open_pr hash decimal;
  delete_files = Memory.delete_files hash decimal;
}
