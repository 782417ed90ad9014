-- ===== src/Command/Handlers/GitOps/Containment.antt =====
-- What the handlers that write to git may do to the world.
use inari_agent.Prelude.{
  Str, codes, false, not, ◌&&◌, Bool-cases, Option, none, Outcome, ok, List, [], ◌∷◌, All, ◌≡◌, inl,
  inr, refl, sym, ap, ◌∙◌, arith, str_eq, str_eq_sound, is_empty, contains,
}
use inari_agent.Prelude.Effect.{
  Effect, Keeps, Keeps-bind, Keeps-on_error, check-Keeps, lift-Keeps, pure-Keeps, step-Keeps, ◌>>=◌,
}
use inari_agent.Prelude.Docs.{Doc, Fields}
use inari_agent.Git.Target.{File, Target, validate, validate_file_path, or_default}
use inari_agent.Git.Target.Paths.{validate_settles, validate_in_lem}
use inari_agent.Git.Provider.{Provider}
use inari_agent.Render.Instance.{Rgd, render_rgd_instance}
use inari_agent.Render.Bundle.{BundleRef}
use inari_agent.Command.Handlers.Kept.{IsBound, outside-Keeps, answered-Keeps}
use inari_agent.Command.Handlers.{Agent, Answer, refused, Body, answered}
use inari_agent.Command.Handlers.Messages.{
  CommitPolicy, pull_request, other_policy, ApplyBundle, RenderRgdInstance, SecretStoreApply,
  SecretStoreDelete,
}
use inari_agent.Command.Handlers.GitOps.{
  target_of, validate_files, resolve_target, commit, decoded, targeted, write, apply_bundle_body,
  render_rgd_instance_body, secret_store_apply_body, secret_store_delete_body,
}

-- A target that lies in the repository `r`: its path has no ".." and its branch is not empty.
abbrev pub IsWithin : Str → Target → Type 0
IsWithin r t = (t.repo ≡ r) × (contains t.path (codes "..") ≡ false) × (is_empty t.branch ≡ false)

abbrev pub IsChecked : List File → Type 0
IsChecked = All (λ (f : File). validate_file_path f.path ≡ none)

-- A provider keeps a predicate of the world in every call that stays within the repository `r` and
-- whose file paths are checked.
pub record KeepsWithin {W : Type 0} (git : Provider W) (r : Str) (I : W → Type 0) : Type 0 where
  pub on_commit :
      (t : Target) (files : List File) (message : Str)
      → IsWithin r t
      → IsChecked files
      → Keeps I (git.commit_files t files message)
  pub on_pr :
      (t : Target) (files : List File) (branch title body : Str)
      → IsWithin r t
      → IsChecked files
      → Keeps I (git.open_pr t files branch title body)
  pub on_delete :
      (t : Target) (p message : Str)
      → IsWithin r t
      → validate_file_path p ≡ none
      → Keeps I (git.delete_files t (p ∷ []) message)

validate_files-IsChecked : (files : List File) → validate_files files ≡ none → IsChecked files
unfolding validate_files
validate_files-IsChecked [] h = tt
validate_files-IsChecked (f ∷ fs) h = ground (arith, validate_files-IsChecked fs)

validate-IsWithin :
    (r : Str) (t u : Target) → or_default t.repo r ≡ r → validate r t ≡ ok u → IsWithin r u
unfolding validate
validate-IsWithin r t u same h =
    let (a, b, c, e) = validate_in_lem (or_default t.repo r) t u h in
    let (x, y, z, k) = validate_settles r t u (unfold validate in h) in
    (sym (ap (λ (v : Target). v.repo) e) ∙ same, y, z)

resolve_target-IsWithin :
    (quote : Str → Str) (r : Str) (t : Option Target) (u : Target)
    → resolve_target quote r t ≡ ok u
    → IsWithin r u
unfolding resolve_target
resolve_target-IsWithin quote r t u h =
    validate-IsWithin r (target_of t) u (settled (target_of t).repo (allowed h)) (validated h)
  where
    allowed :
        resolve_target quote r t ≡ ok u
        → not (is_empty (target_of t).repo) && not (str_eq (target_of t).repo r) ≡ false
    allowed h = ground arith

    validated : resolve_target quote r t ≡ ok u → validate r (target_of t) ≡ ok u
    validated h = ground arith

    settled : (s : Str) → not (is_empty s) && not (str_eq s r) ≡ false → or_default s r ≡ r
    settled [] k = refl
    settled (c ∷ s) k = elim (Bool-cases (str_eq (c ∷ s) r)) [
      | inl e ↦ str_eq_sound (c ∷ s) r e
      | inr n ↦ cc (rw n at k)
    ]

-- RenderRGDInstance only reads the world through the getter.
rendering-Keeps :
    {W : Type 0} (I : W → Type 0) (quote : Str → Str) (marshal : Doc → Outcome Str Str)
    (get_rgd : Str → Effect W Str Rgd) (ref name namespace : Str) (params : Fields)
    → ((n : Str) → Keeps I (get_rgd n))
    → Keeps I (render_rgd_instance quote marshal get_rgd ref name namespace params)
unfolding render_rgd_instance
rendering-Keeps I quote marshal get_rgd ref name namespace params h = check-Keeps I _ _ _ λ _.
    check-Keeps I _ _ _ λ _. check-Keeps I _ _ _ λ _.
      Keeps-bind I _ _ (Keeps-on_error I _ _ (h ref)) λ rgd.
        check-Keeps I _ _ _ λ _. check-Keeps I _ _ _ λ _. lift-Keeps I _ _ _ λ _ _. pure-Keeps _ I _

module _ {W : Type 0} (quote : Str → Str) (git : Provider W) (r : Str) (I : W → Type 0)
    (kept : KeepsWithin git r I) where
  commit-Keeps :
      (t : Target) (files : List File) (policy : CommitPolicy) (id message : Str)
      → IsWithin r t
      → IsChecked files
      → Keeps I (commit quote git t files policy id message)
  unfolding commit
  commit-Keeps t files pull_request id message h c =
      Keeps-bind I _ _ (kept.on_pr t files _ _ _ h c) (λ _. pure-Keeps _ I _)
  commit-Keeps t files (other_policy n) id message h c =
      Keeps-bind I _ _ (kept.on_commit t files message h c) (λ _. pure-Keeps _ I _)

  write-Keeps :
      (t : Target) (files : List File) (policy : CommitPolicy) (id message : Str)
      → IsWithin r t
      → Keeps (IsBound r I) (write quote git t files policy id message)
  unfolding write
  write-Keeps t files policy id message h =
      check-Keeps (IsBound r I) (validate_files files) _ _ λ none_bad.
        Keeps-bind (IsBound r I) _ _
          (Keeps-on_error (IsBound r I) _ _ (
            outside-Keeps r I _
              (commit-Keeps t files policy id message h (validate_files-IsChecked files none_bad))))
          (λ _. pure-Keeps _ (IsBound r I) _)

  decoded-Keeps :
      {M : Type 0} (p : Outcome Str M) (f : M → Body (Agent W) Answer)
      → ((m : M) → Keeps (IsBound r I) (f m))
      → Keeps (IsBound r I) (decoded quote git p >>= f)
  unfolding decoded
  decoded-Keeps p f h = lift-Keeps (IsBound r I) p _ f (λ m _. h m)

  targeted-Keeps :
      (t : Option Target) (f : Target → Body (Agent W) Answer)
      → ((u : Target) → IsWithin r u → Keeps (IsBound r I) (f u))
      → Keeps (IsBound r I) (targeted quote git t >>= f)
  unfolding targeted ◌>>=◌
  targeted-Keeps t f h a k =
      lift-Keeps (IsBound r I) (resolve_target quote a.default_state_repo t) refused f
        (λ u e.
          h u (
            resolve_target-IsWithin quote r t u (ap (λ s. resolve_target quote s t) (sym k.0) ∙ e)))
        a k

  apply_bundle-Keeps :
      (fetch : BundleRef → Effect W Str (List File)) (p : Outcome Str ApplyBundle)
      → ((b : BundleRef) → Keeps I (fetch b))
      → Keeps (IsBound r I) (apply_bundle_body quote git fetch p)
  unfolding apply_bundle_body
  apply_bundle-Keeps fetch p h = decoded-Keeps p _ λ m. targeted-Keeps m.target _ λ u inside.
      Keeps-bind (IsBound r I) _ _ (Keeps-on_error (IsBound r I) _ _ (outside-Keeps r I _ (h _)))
        (λ files. write-Keeps u files _ _ _ inside)

  render_rgd_instance-Keeps :
      (marshal : Doc → Outcome Str Str) (get_rgd : Str → Effect W Str Rgd)
      (p : Outcome Str RenderRgdInstance)
      → ((n : Str) → Keeps I (get_rgd n))
      → Keeps (IsBound r I) (render_rgd_instance_body quote git marshal get_rgd p)
  unfolding render_rgd_instance_body
  render_rgd_instance-Keeps marshal get_rgd p h = decoded-Keeps p _ λ m.
      targeted-Keeps m.target _ λ u inside.
        Keeps-bind (IsBound r I) _ _
          (Keeps-on_error (IsBound r I) _ _
            (outside-Keeps r I _ (rendering-Keeps I quote marshal get_rgd _ _ _ _ h)))
          (λ files. write-Keeps u files _ _ _ inside)

  secret_store_apply-Keeps :
      (marshal : Doc → Outcome Str Str) (p : Outcome Str SecretStoreApply)
      → Keeps (IsBound r I) (secret_store_apply_body quote git marshal p)
  unfolding secret_store_apply_body
  secret_store_apply-Keeps marshal p = decoded-Keeps p _ λ m. targeted-Keeps m.target _ λ u inside.
      Keeps-bind (IsBound r I) _ _ (step-Keeps (IsBound r I) _)
        λ provider. lift-Keeps (IsBound r I) _ _ _ λ files _. write-Keeps u files _ _ _ inside

  secret_store_delete-Keeps :
      (p : Outcome Str SecretStoreDelete)
      → Keeps (IsBound r I) (secret_store_delete_body quote git p)
  unfolding secret_store_delete_body
  secret_store_delete-Keeps p = decoded-Keeps p _ λ m. targeted-Keeps m.target _ λ u inside.
      check-Keeps (IsBound r I) _ _ _ λ none_bad. check-Keeps (IsBound r I) _ _ _ λ _.
        Keeps-bind (IsBound r I) _ _
          (Keeps-on_error (IsBound r I) _ _
            (outside-Keeps r I _ (kept.on_delete u _ _ inside none_bad)))
          (λ _. pure-Keeps _ (IsBound r I) _)

-- The handlers that write to git write to the state repository that the agent is bound to, on a
-- branch, in a directory without ".." and at file paths that ValidateFilePath accepts: whatever their
-- payload, a predicate of the world is kept that every such write of the provider keeps, and every
-- read of RGDs and bundles. The binding itself does not change.
pub writes_contained :
    {W : Type 0} (quote : Str → Str) (git : Provider W) (marshal : Doc → Outcome Str Str)
    (get_rgd : Str → Effect W Str Rgd) (fetch : BundleRef → Effect W Str (List File)) (r : Str)
    (I : W → Type 0) (a : Agent W)
    → KeepsWithin git r I
    → ((n : Str) → Keeps I (get_rgd n))
    → ((b : BundleRef) → Keeps I (fetch b))
    → IsBound r I a
    → ((p : Outcome Str ApplyBundle)
        → IsBound r I (answered (apply_bundle_body quote git fetch p) a).1)
      × ((p : Outcome Str RenderRgdInstance)
          → IsBound r I (answered (render_rgd_instance_body quote git marshal get_rgd p) a).1)
      × ((p : Outcome Str SecretStoreApply)
          → IsBound r I (answered (secret_store_apply_body quote git marshal p) a).1)
      × ((p : Outcome Str SecretStoreDelete)
          → IsBound r I (answered (secret_store_delete_body quote git p) a).1)
writes_contained quote git marshal get_rgd fetch r I a kept reads fetches bound = (
  λ p.
      answered-Keeps (IsBound r I) _ (apply_bundle-Keeps quote git r I kept fetch p fetches) a
        bound,
  λ p.
      answered-Keeps (IsBound r I) _
        (render_rgd_instance-Keeps quote git r I kept marshal get_rgd p reads) a bound,
  λ p.
      answered-Keeps (IsBound r I) _ (secret_store_apply-Keeps quote git r I kept marshal p) a
        bound,
  λ p. answered-Keeps (IsBound r I) _ (secret_store_delete-Keeps quote git r I kept p) a bound,
)
