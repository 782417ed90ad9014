-- ===== src/Scenarios/Handlers.antt =====
-- internal/command: the handlers on a git host and an ArgoCD API that record what is asked of them.
use inari_agent.Prelude.{
  ℕ, suc, not, is_empty, err, false, has_prefix, split, Str, codes, true, ok-injective,
  some-injective, none, some, Outcome, ok, List, [], ◌∷◌, ◌++◌, All, All-append, ◌≡◌, inl, inr,
  refl, sym, ap, ◌∙◌, str_eq,
}
use mathlib.Core.Path.{subst}
use inari_agent.Prelude.Effect.{Effect, ◌>>◌, ◌>>=◌, check, on_error, pure}
use inari_agent.Prelude.Docs.{Doc, Fields}
use inari_agent.Prelude.Texts.{lower}
use inari_agent.Git.Target.{File, validate_file_path}
use inari_agent.Git.Provider.{Provider}
use inari_agent.Git.GitHub.{GitHubApi, TreeEntry, github_provider, owner_name}
use inari_agent.Git.GitHub.Confined.{AreInside, github-KeepsWithin}
use inari_agent.Render.Instance.{Rgd}
use inari_agent.Render.Bundle.{BundleRef, Registry, Nodes, checksum_files, fetch}
use inari_agent.Render.Bundle.Verified.{IsChecked, fetch_verified}
use inari_agent.Argocd.Objects.{Object}
use inari_agent.Argocd.Api.{ApiRequest, authorization_for}
use inari_agent.Command.Handlers.{Agent, answered}
use inari_agent.Command.Handlers.Kept.{IsBound}
use inari_agent.Command.Handlers.Messages.{
  ApplyBundle, RenderRgdInstance, SecretStoreApply, SecretStoreDelete, InvokeAction,
}
use inari_agent.Command.Handlers.GitOps.{
  apply_bundle_body, render_rgd_instance_body, secret_store_apply_body, secret_store_delete_body,
}
use inari_agent.Command.Handlers.GitOps.Containment.{KeepsWithin, writes_contained}
use inari_agent.Command.Handlers.Redeem.{RedeemFailure}
use inari_agent.Command.Handlers.Action.{ActionDeps, invoke_action_body}
use inari_agent.Command.Handlers.Action.Credentials.{IsRedeemed, invoke_action_in_scope}

abbrev quoted : Str → Str
quoted s = b'"' ∷ s

abbrev state_name : Str
state_name = codes "acme/state"

-- A host that notes the repository of every write.
abbrev noting : Provider (List Str)
noting = record {
  commit_files = λ t files message w. (ok (codes "abc", true), t.repo ∷ w);
  open_pr = λ t files branch title body w. (ok (codes "url"), t.repo ∷ w);
  delete_files = λ t paths message w. (ok (codes "abc", true), t.repo ∷ w);
}

abbrev IsHome : List Str → Type 0
IsHome = All (λ (s : Str). s ≡ state_name)

noting-KeepsWithin : KeepsWithin noting state_name IsHome
noting-KeepsWithin = record {
  on_commit = λ t files message (here, _, _) c w i. (here, i);
  on_pr = λ t files branch title body (here, _, _) c w i. (here, i);
  on_delete = λ t p message (here, _, _) c w i. (here, i);
}

abbrev plain_doc : Doc → Outcome Str Str
plain_doc d = ok (codes "yaml")

abbrev one_rgd : Str → Effect (List Str) Str Rgd
one_rgd n w = (ok (record { api_version = codes "v1"; kind = codes "Db"; required = [] }), w)

abbrev one_file : BundleRef → Effect (List Str) Str (List File)
one_file b w = (ok (record { path = codes "a.yaml"; content = codes "x" } ∷ []), w)

abbrev bound_agent : Agent (List Str)
bound_agent = record { default_state_repo = state_name; outside = [] }

writes_contained_example :
    ((p : Outcome Str ApplyBundle)
      → IsBound state_name IsHome
          (answered (apply_bundle_body quoted noting one_file p) bound_agent).1)
    × ((p : Outcome Str RenderRgdInstance)
        → IsBound state_name IsHome
            (answered (render_rgd_instance_body quoted noting plain_doc one_rgd p) bound_agent).1)
    × ((p : Outcome Str SecretStoreApply)
        → IsBound state_name IsHome
            (answered (secret_store_apply_body quoted noting plain_doc p) bound_agent).1)
    × ((p : Outcome Str SecretStoreDelete)
        → IsBound state_name IsHome
            (answered (secret_store_delete_body quoted noting p) bound_agent).1)
writes_contained_example =
    writes_contained quoted noting plain_doc one_rgd one_file state_name IsHome bound_agent
      noting-KeepsWithin (λ n w i. i) (λ b w i. i) (refl, tt)

-- What a GitHub was asked: the repository of every call, and the entries of every tree.
record Asked : Type 0 where
  repos : List (Str × Str)
  entries : List TreeEntry

abbrev asked : Str × Str → Asked → Asked
asked r w = record w { repos = r ∷ w.repos }

abbrev asked_tree : Str × Str → List TreeEntry → Asked → Asked
asked_tree r es w = record { repos = r ∷ w.repos; entries = es ++ w.entries }

abbrev noting_api : GitHubApi Asked
noting_api = record {
  get_ref = λ r ref w. (ok (codes "c0"), asked r w);
  create_ref = λ r ref sha w. (ok sha, asked r w);
  update_ref = λ r ref sha w. (ok tt, asked r w);
  get_commit = λ r sha w. (ok (record { sha = sha; tree = codes "t0" }), asked r w);
  create_blob = λ r content w. (ok (codes "b1"), asked r w);
  create_tree = λ r base es w. (ok (codes "t1"), asked_tree r es w);
  create_commit = λ r message tree parent w. (ok (codes "c1"), asked r w);
  list_prs = λ r head base w. (ok [], asked r w);
  create_pr = λ r pr w. (ok (codes "url"), asked r w);
}

abbrev IsOurs : Asked → Type 0
IsOurs w = All (λ (r : Str × Str). r ≡ owner_name state_name) w.repos × AreInside w.entries

github-KeepsWithin_example : KeepsWithin (github_provider noting_api) state_name IsOurs
github-KeepsWithin_example = github-KeepsWithin noting_api state_name IsOurs (record {
  on_get_ref = λ ref w (i, j). ((refl, i), j);
  on_create_ref = λ ref sha w (i, j). ((refl, i), j);
  on_update_ref = λ ref sha w (i, j). ((refl, i), j);
  on_get_commit = λ sha w (i, j). ((refl, i), j);
  on_create_blob = λ content w (i, j). ((refl, i), j);
  on_create_tree = λ base es c w (i, j). ((refl, i), All-append _ es w.entries c j);
  on_create_commit = λ message tree parent w (i, j). ((refl, i), j);
  on_list_prs = λ head base w (i, j). ((refl, i), j);
  on_create_pr = λ pr w (i, j). ((refl, i), j);
})

-- An ArgoCD whose one application is Inari's, and which notes its requests.
abbrev shop : Object
shop = record {
  kind = codes "Application";
  name = codes "shop";
  namespace = codes "argocd";
  labels = (codes "inari.dev/managed-by", codes "inari-agent") ∷ [];
  spec = none;
  rest = Fields.end;
}

abbrev redeem_token : Str → Effect (List ApiRequest) RedeemFailure Str
redeem_token ref w = (ok (codes "user-token"), w)

abbrev action_deps : ActionDeps (List ApiRequest)
action_deps = record {
  api = record {
    base_url = codes "https://argocd/";
    token = codes "own-token";
    http = λ req w. (ok (record { status_code = 200; status = codes "OK"; payload = [] }), req ∷ w);
    marshal = λ fs. ok (codes "{}");
  };
  objects = record {
    get = λ k ns n w. (ok shop, w);
    create = λ k ns o w. (ok tt, w);
    update = λ k ns o w. (ok tt, w);
  };
  namespace = codes "argocd";
  resolve_namespace = none;
  redeemer = some redeem_token;
}

abbrev sync_shop : InvokeAction
sync_shop = record {
  action = codes "Sync";
  resource = some (record { kind = codes "Application"; name = codes "shop" });
  user_credential_ref = codes "ref-1";
  parameters = none;
}

abbrev IsUsers : ApiRequest → Type 0
IsUsers req = req.authorization ≡ some (codes "Bearer user-token")

-- A bearer that was redeemed is the user's.
redeemed_users :
    (bearer : Str) → IsRedeemed action_deps (codes "ref-1") bearer → bearer ≡ codes "user-token"
redeemed_users bearer (inl (empty, e)) = cc
redeemed_users bearer (inr (redeem, e, full, v, got)) = sym (
    ok-injective (
      subst
        (λ (f : Str → Effect (List ApiRequest) RedeemFailure Str).
          (f (codes "ref-1") v).0 ≡ ok bearer)
        (sym (some-injective e)) got))

invoke_action_in_scope_example :
    All IsUsers
      (answered
        (invoke_action_body quoted lower str_eq (λ s. s) (λ s. some s) action_deps (ok sync_shop))
        []).1
unfolding authorization_for
invoke_action_in_scope_example =
    invoke_action_in_scope quoted lower str_eq (λ s. s) (λ s. some s) action_deps (All IsUsers)
      sync_shop [] (λ ns name w i. i) (λ resolve e. cc)
      (λ redeem e w i. subst (λ f. All IsUsers (f (codes "ref-1") w).1) (some-injective e) i)
      (λ req
          (
            action, name, target, u, ns, placed, v, app, held, got, managed, bearer, redeemed,
            method, rest, body, call, made,
          )
          w i.
        (made.3 ∙ ap (authorization_for (codes "own-token")) (redeemed_users bearer redeemed), i))
      tt

-- A registry with one bundle of one layer.
abbrev one_layer : Registry ℕ
one_layer = record {
  fetch_manifest =
      λ ref w. (ok (record { title = codes "a.yaml"; digest = codes "sha256:1" } ∷ []), w);
  fetch_layer = λ ref l w. (ok (codes "x"), suc w);
}

abbrev no_clone : Str → Effect ℕ Str Nodes
no_clone url w = (err (codes "no network"), w)

abbrev plain_sum : Str → Str
plain_sum s = s

abbrev bundle_files : List File
bundle_files = record { path = codes "a.yaml"; content = codes "x" } ∷ []

abbrev pinned : BundleRef
pinned = record {
  oci_ref = codes "oci://r/b";
  git_url = [];
  checksum = checksum_files plain_sum bundle_files;
}

fetch_verified_example :
    (is_empty pinned.oci_ref ≡ not (is_empty pinned.git_url))
    × (is_empty pinned.checksum ≡ false → checksum_files plain_sum bundle_files ≡ pinned.checksum)
    × (is_empty pinned.oci_ref ≡ false → IsChecked bundle_files)
unfolding fetch ◌>>◌ ◌>>=◌ check validate_file_path has_prefix split str_eq on_error pure
fetch_verified_example =
    fetch_verified quoted (λ n. n ∷ []) plain_sum one_layer no_clone pinned bundle_files 0 refl
