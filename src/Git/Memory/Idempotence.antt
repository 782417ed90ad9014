-- ===== src/Git/Memory/Idempotence.antt =====
-- internal/git/mem.go: what a repeated write reports.
use inari_agent.Prelude.{
  ℕ, ◌+◌, Str, codes, Bool, true, false, ◌&&◌, if◌then◌else◌, Option-cases, ok-injective, Option,
  none, some, Outcome, ok, Map, insert, lookup-insert, List, [], ◌∷◌, ◌++◌, length, All, ◌≡◌, inl,
  inr, refl, sym, ap, ◌∙◌, arith, str_eq, str_eq_refl, join,
}
use inari_agent.Git.Target.{File, Target, full_path}
use inari_agent.Git.Memory.{
  PrRecord, MemProvider, same_target, is_present, delete_paths, find_pr, delete_files, pr_url,
  open_pr, open_pr_from, open_pr_in,
}

same_target_refl : (t : Target) → same_target t t ≡ true
unfolding same_target
same_target_refl t = ground (arith, str_eq_refl t.repo, str_eq_refl t.path, str_eq_refl t.branch)

-- A path that is absent stays absent.
delete_paths_absent :
    (t : Target) (k : Str) (ps : List Str) (m : Map Bool)
    → is_present k m ≡ false
    → is_present k (delete_paths t ps m).1 ≡ false
unfolding delete_paths
delete_paths_absent t k [] m h = h
delete_paths_absent t k (p ∷ ps) m h =
    delete_paths_absent t k ps
      (if is_present (full_path t p) m then insert (full_path t p) false m else m)
      (ground (arith, lookup-insert (full_path t p) k false m))

-- Deleting absent paths changes nothing.
delete_paths_none :
    (t : Target) (ps : List Str) (m : Map Bool)
    → All (λ (p : Str). is_present (full_path t p) m ≡ false) ps
    → delete_paths t ps m ≡ (false, m)
unfolding delete_paths
delete_paths_none t [] m h = refl
delete_paths_none t (p ∷ ps) m h = rw (h.0) (rw (delete_paths_none t ps m h.1) refl)

deleted_absent :
    (t : Target) (ps : List Str) (m : Map Bool)
    → All (λ (p : Str). is_present (full_path t p) (delete_paths t ps m).1 ≡ false) ps
unfolding delete_paths
deleted_absent t [] m = tt
deleted_absent t (p ∷ ps) m = (
  delete_paths_absent t (full_path t p) ps
      (if is_present (full_path t p) m then insert (full_path t p) false m else m)
      (ground (
        arith,
        lookup-insert (full_path t p) (full_path t p) false m,
        str_eq_refl (full_path t p),
      )),
  deleted_absent t ps (if is_present (full_path t p) m then insert (full_path t p) false m else m),
)

module _ (hash : List File → Str) (decimal : ℕ → Str) where
  delete_files_step :
      (t : Target) (ps : List Str) (msg : Str) (m : MemProvider)
      → m.pending_error ≡ none
      → ((delete_files hash decimal t ps msg m).1.present ≡ (delete_paths t ps m.present).1)
        × ((delete_files hash decimal t ps msg m).1.pending_error ≡ none)
        × ((delete_files hash decimal t ps msg m).0
            ≡ ok (
              hash (record { path = codes "delete:" ++ join b',' ps; content = [] } ∷ []),
              (delete_paths t ps m.present).0,
            ))
  unfolding delete_files
  delete_files_step t ps msg m h = rw h (refl, refl, refl)

  -- Deletion is idempotent: after a deletion with no pending error, deleting the same paths of the
  -- same target again reports that nothing changed, and leaves the presence of every path as it was.
  pub delete_files_again :
      (t : Target) (ps : List Str) (msg : Str) (m : MemProvider)
      → m.pending_error ≡ none
      → let m' = (delete_files hash decimal t ps msg m).1 in
        let again = delete_files hash decimal t ps msg m' in
        (again.0
          ≡ ok (hash (record { path = codes "delete:" ++ join b',' ps; content = [] } ∷ []), false))
        × (again.1.present ≡ m'.present)
  delete_files_again t ps msg m h =
      let (p, e, r) = delete_files_step t ps msg m h in
      let m' = (delete_files hash decimal t ps msg m).1 in
      let (p', e', r') = delete_files_step t ps msg m' e in
      let same : delete_paths t ps m'.present ≡ (false, m'.present) =
        delete_paths_none t ps m'.present (rw p (deleted_absent t ps m.present)) in
      (
        r'
            ∙ ap
                (λ (x : Bool × Map Bool). ok (
                  hash (record { path = codes "delete:" ++ join b',' ps; content = [] } ∷ []),
                  x.0,
                ))
                same,
        p' ∙ ap (λ (x : Bool × Map Bool). x.1) same,
      )

  find_pr-append :
      (t : Target) (branch : Str) (pr : PrRecord) (prs : List PrRecord)
      → find_pr t branch prs ≡ none
      → same_target pr.target t && str_eq pr.branch branch ≡ true
      → find_pr t branch (prs ++ (pr ∷ [])) ≡ some pr.url
  unfolding find_pr
  find_pr-append t branch pr [] h s = rw s
  find_pr-append t branch pr (q ∷ qs) h s = ground (arith, find_pr-append t branch pr qs)

  open_pr_found :
      (t : Target) (files : List File) (branch title body url : Str) (m : MemProvider)
      → m.pending_error ≡ none
      → find_pr t branch m.prs ≡ some url
      → open_pr hash decimal t files branch title body m ≡ (ok url, m)
  unfolding open_pr
  open_pr_found t files branch title body url m h e =
      ap (λ (o : Option Str). open_pr_from hash decimal o t files branch title body m) h
      ∙ (unfold open_pr_from in
          ap (λ (o : Option Str). open_pr_in hash decimal o t files branch title body m) e)

  open_pr_new :
      (t : Target) (files : List File) (branch title body : Str) (m : MemProvider)
      → m.pending_error ≡ none
      → find_pr t branch m.prs ≡ none
      → let pr : PrRecord = record {
        target = t;
        files = files;
        branch = branch;
        title = title;
        body = body;
        url = pr_url hash decimal t (length m.prs + 1);
      } in
        open_pr hash decimal t files branch title body m
        ≡ (ok pr.url, record m { prs = m.prs ++ (pr ∷ []) })
  unfolding open_pr
  open_pr_new t files branch title body m h e =
      ap (λ (o : Option Str). open_pr_from hash decimal o t files branch title body m) h
      ∙ (unfold open_pr_from in
          ap (λ (o : Option Str). open_pr_in hash decimal o t files branch title body m) e)

  -- Opening a pull request for a target and a branch a second time, whatever the files, the title and
  -- the body, returns the URL that the first call returned, and adds no pull request.
  open_pr_again :
      (t : Target) (files files' : List File) (branch title title' body body' url : Str)
      (m : MemProvider)
      → m.pending_error ≡ none
      → (open_pr hash decimal t files branch title body m).0 ≡ ok url
      → let m' = (open_pr hash decimal t files branch title body m).1 in
        open_pr hash decimal t files' branch title' body' m' ≡ (ok url, m')
  open_pr_again t files files' branch title title' body body' url m h q =
      elim (Option-cases (find_pr t branch m.prs)) [
        | inr (u, e) ↦
            let step = open_pr_found t files branch title body u m h e in
            let same =
              ok-injective (sym (ap (λ (r : Outcome Str Str × MemProvider). r.0) step) ∙ q) in
            rw step (open_pr_found t files' branch title' body' url m h (e ∙ ap some same))
        | inl n ↦
            let pr : PrRecord = record {
              target = t;
              files = files;
              branch = branch;
              title = title;
              body = body;
              url = pr_url hash decimal t (length m.prs + 1);
            } in
            let step = open_pr_new t files branch title body m h n in
            let same =
              ok-injective (sym (ap (λ (r : Outcome Str Str × MemProvider). r.0) step) ∙ q) in
            rw step (
              open_pr_found t files' branch title' body' url (record m { prs = m.prs ++ (pr ∷ []) })
                h
                (find_pr-append t branch pr m.prs n
                    (rw (same_target_refl t, str_eq_refl branch) refl)
                  ∙ ap some same))
      ]
