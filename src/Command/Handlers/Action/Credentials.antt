-- ===== src/Command/Handlers/Action/Credentials.antt =====
-- Which requests an action makes, and with which credentials.
use inari_agent.Prelude.{
  Str, codes, Bool, true, false, if◌then◌else◌, ok-injective, Option, none, some, ok, [], ◌∷◌, ◌++◌,
  ◌≡◌, ◌⊎◌, inl, inr, refl, sym, ap, ◌∙◌, arith, leb, is_empty,
}
use mathlib.Core.Path.{subst}
use inari_agent.Prelude.Effect.{
  Effect, Keeps, Keeps-bind, Keeps-known, Keeps-since, lift, Keeps-then, Keeps-on_error, bind-ok,
  either-Keeps, on_error-ok, check-Keeps, lift-Keeps, pure-Keeps, stop-Keeps, step-Keeps, pure,
  stop, on_error, check, ◌>>=◌, ◌>>◌,
}
use inari_agent.Prelude.Docs.{Fields, field, end, text, number, flag, get_field}
use inari_agent.Argocd.Objects.{applications, Object, is_managed}
use inari_agent.Argocd.Api.{
  with_fields, body_of, ApiRequest, ApiResponse, ApiClient, without_slash, call_api, answer_of,
  application_path, authorization_for, sync, refresh, rollback,
}
use inari_agent.Command.Handlers.Kept.{answered-Keeps}
use inari_agent.Command.Handlers.{Answer, refused, answered}
use inari_agent.Command.Handlers.Messages.{InvokeAction}
use inari_agent.Command.Handlers.Redeem.{RedeemFailure}
use inari_agent.Command.Handlers.Action.{
  to_int64, target_action, fields_or_empty, ActionDeps, Action, sync_action, refresh_action,
  rollback_action, namespace_with, redeem_with, unmanaged_error, bearer_for, action_call,
  run_action, invoke_action_on, invoke_action_body, rollback_with, redeem_answer,
}

-- The bearer that goes with a reference: none without one, else a token that the redeemer returned
-- for it and that is not empty.
abbrev pub IsRedeemed : {W : Type 0} → ActionDeps W → Str → Str → Type 0
IsRedeemed {W = W} deps ref bearer =
    ((is_empty ref ≡ true) × (bearer ≡ []))
    ⊎ ((redeem : Str → Effect W RedeemFailure Str) × (deps.redeemer ≡ some redeem)
        × (is_empty bearer ≡ false)
        × (v : W) × ((redeem ref v).0 ≡ ok bearer))

-- What an action asks of the ArgoCD API for an application: the method, what stands behind the
-- application's name in the URL, and the body.
abbrev pub IsCallOf : Action → Str → Fields → Str → Str → Option Fields → Type 0
IsCallOf sync_action name params method rest body =
    (method ≡ codes "POST")
    × (rest ≡ codes "/sync")
    × (body ≡ some (with_fields params (field (codes "name") (text name) end)))
IsCallOf refresh_action name params method rest body =
    (method ≡ codes "GET")
    × ((rest ≡ codes "?refresh=hard") ⊎ (rest ≡ codes "?refresh=normal"))
    × (body ≡ none)
IsCallOf rollback_action name params method rest body =
    (method ≡ codes "POST")
    × (rest ≡ codes "/rollback")
    × (id : Str) × (dry_run : Bool) × (body
        ≡ some (
            field (codes "name") (text name)
              (field (codes "id") (number id) (field (codes "dryRun") (flag dry_run) end))))

-- A request is a call: its method, its URL, its payload and its authorization.
abbrev pub IsRequest :
    {W : Type 0} → ApiClient W → Str → Str → Str → Option Fields → ApiRequest → Type 0
IsRequest c bearer method path body req =
    (req.method ≡ method)
    × (req.url ≡ without_slash c.base_url ++ path)
    × (body_of c bearer body ≡ ok req.payload)
    × (req.authorization ≡ authorization_for c.token bearer)

call_api-Keeps :
    {W : Type 0} (I : W → Type 0) (c : ApiClient W) (bearer method path : Str)
    (body : Option Fields)
    → ((req : ApiRequest) → IsRequest c bearer method path body req → Keeps I (c.http req))
    → Keeps I (call_api c bearer method path body)
unfolding call_api answer_of lift
call_api-Keeps I c bearer method path body h =
    Keeps-known I (lift (body_of c bearer body)) _ (step-Keeps {E = Str} I (body_of c bearer body))
      λ raw w same. Keeps-bind I _ _ (h _ (refl, refl, same, refl)) λ resp. answer resp
  where
    answer : (resp : ApiResponse) → Keeps I (answer_of c bearer method path resp)
    answer resp =
        either-Keeps I (leb 300 resp.status_code) _ _ (stop-Keeps _ I _) (pure-Keeps _ I _)

-- A predicate is kept by the requests of an action on an application.
abbrev KeptBy : {W : Type 0} → (W → Type 0) → ApiClient W → Str → Action → Str → Fields → Type 0
KeptBy I c bearer action name params =
    (method rest : Str) (body : Option Fields) (req : ApiRequest)
    → IsCallOf action name params method rest body
    → IsRequest c bearer method (application_path name rest) body req
    → Keeps I (c.http req)

module _ {W : Type 0} (I : W → Type 0) (c : ApiClient W) (bearer name : Str) (params : Fields) where
  sync-Keeps : KeptBy I c bearer sync_action name params → Keeps I (sync c bearer name params)
  unfolding sync
  sync-Keeps h =
      call_api-Keeps I c bearer (codes "POST") (application_path name (codes "/sync"))
        (some (with_fields params (field (codes "name") (text name) end)))
        λ req. h (codes "POST") (codes "/sync") _ req (refl, refl, refl)

  refresh-Keeps :
      (hard : Bool)
      → KeptBy I c bearer refresh_action name params
      → Keeps I (refresh c bearer name hard)
  unfolding refresh
  refresh-Keeps true h =
      call_api-Keeps I c bearer (codes "GET") (application_path name (codes "?refresh=hard")) none
        λ req. h (codes "GET") (codes "?refresh=hard") none req (refl, inl refl, refl)
  refresh-Keeps false h =
      call_api-Keeps I c bearer (codes "GET") (application_path name (codes "?refresh=normal")) none
        λ req. h (codes "GET") (codes "?refresh=normal") none req (refl, inr refl, refl)

  rollback-Keeps :
      (id : Str) (dry_run : Bool)
      → KeptBy I c bearer rollback_action name params
      → Keeps I (rollback c bearer name id dry_run)
  unfolding rollback
  rollback-Keeps id dry_run h =
      call_api-Keeps I c bearer (codes "POST") (application_path name (codes "/rollback"))
        (some (
          field (codes "name") (text name)
            (field (codes "id") (number id) (field (codes "dryRun") (flag dry_run) end))))
        λ req. h (codes "POST") (codes "/rollback") _ req (refl, refl, id, dry_run, refl)

-- The bearer that passed the test is not empty.
kept_bearer :
    {W : Type 0} (got bearer : Str) (v : W)
    → ((check
            (if is_empty got
              then some (codes "user credential redemption returned no token")
              else none)
            refused
          >> pure {E = Answer} got)
        v).0
      ≡ ok bearer
    → (got ≡ bearer) × (is_empty got ≡ false)
unfolding check ◌>>◌ ◌>>=◌ pure
kept_bearer [] bearer v e = cc
kept_bearer (c ∷ s) bearer v e = (ok-injective e, refl)

module _ {W : Type 0} (quote to_lower : Str → Str) (equal_fold : Str → Str → Bool)
    (truncated : Str → Str) (scan : Str → Option Str) (deps : ActionDeps W) (I : W → Type 0) where
  -- A request of the command's own action on the command's own application, which was read, in the
  -- agent's namespace and where the predicate held, as managed by Inari; with the authorization that
  -- goes with the command's reference.
  abbrev pub IsInScope : InvokeAction → ApiRequest → Type 0
  IsInScope m req =
      (action : Action) × (name : Str) × (target_action quote to_lower equal_fold truncated scan
          deps m
        ≡ ok (action, name))
      × (u : W) × (ns : Str) × ((namespace_with quote to_lower equal_fold truncated scan deps
            deps.resolve_namespace u).0
          ≡ ok ns)
      × (v : W) × (app : Object) × I v
      × ((deps.objects.get applications ns name v).0 ≡ ok app)
      × (is_managed app.labels ≡ true)
      × (bearer : Str) × IsRedeemed deps m.user_credential_ref bearer
      × (method : Str) × (rest : Str) × (body : Option Fields) × IsCallOf action name
          (fields_or_empty m.parameters) method rest body
      × IsRequest deps.api bearer method (application_path name rest) body req

  redeem_with-Keeps :
      (o : Option (Str → Effect W RedeemFailure Str)) (ref : Str)
      → ((redeem : Str → Effect W RedeemFailure Str) → o ≡ some redeem → Keeps I (redeem ref))
      → Keeps I (redeem_with quote to_lower equal_fold truncated scan deps o ref)
  unfolding redeem_with
  redeem_with-Keeps none ref h = stop-Keeps _ I _
  redeem_with-Keeps (some redeem) ref h =
      Keeps-bind I _ _ (Keeps-on_error I _ _ (h redeem refl))
        λ bearer. check-Keeps I _ _ _ λ _. pure-Keeps _ I _

  redeem_with-ok :
      (o : Option (Str → Effect W RedeemFailure Str)) (ref bearer : Str) (w : W)
      → (redeem_with quote to_lower equal_fold truncated scan deps o ref w).0 ≡ ok bearer
      → (redeem : Str → Effect W RedeemFailure Str) × (o ≡ some redeem)
        × (is_empty bearer ≡ false)
        × (v : W) × ((redeem ref v).0 ≡ ok bearer)
  unfolding redeem_with stop
  redeem_with-ok none ref bearer w h = cc
  redeem_with-ok (some redeem) ref bearer w h =
      let (got, first, rest) = bind-ok (on_error redeem_answer (redeem ref)) _ w bearer h in
      let (same, full) = kept_bearer got bearer _ rest in
      (
        redeem,
        refl,
        ap is_empty (sym same) ∙ full,
        w,
        on_error-ok redeem_answer (redeem ref) w got first ∙ ap ok same,
      )

  bearer_for-Keeps :
      (ref : Str)
      → ((redeem : Str → Effect W RedeemFailure Str)
          → deps.redeemer ≡ some redeem
          → Keeps I (redeem ref))
      → Keeps I (bearer_for quote to_lower equal_fold truncated scan deps ref)
  unfolding bearer_for
  bearer_for-Keeps ref h =
      either-Keeps I (is_empty ref) _ _ (pure-Keeps _ I _) (redeem_with-Keeps deps.redeemer ref h)

  bearer_for-IsRedeemed :
      (ref bearer : Str) (w : W)
      → (bearer_for quote to_lower equal_fold truncated scan deps ref w).0 ≡ ok bearer
      → IsRedeemed deps ref bearer
  unfolding bearer_for pure
  bearer_for-IsRedeemed [] bearer w h = inl (refl, sym (ok-injective h))
  bearer_for-IsRedeemed (c ∷ ref) bearer w h =
      inr (redeem_with-ok deps.redeemer (c ∷ ref) bearer w h)

  -- The namespace is resolved, and the predicate is kept.
  namespace_with-Keeps :
      (o : Option (Effect W Str Str))
      → ((resolve : Effect W Str Str) → o ≡ some resolve → Keeps I resolve)
      → Keeps I (namespace_with quote to_lower equal_fold truncated scan deps o)
  unfolding namespace_with
  namespace_with-Keeps none h = pure-Keeps _ I _
  namespace_with-Keeps (some resolve) h = Keeps-on_error I _ _ (h resolve refl)

  called-Keeps :
      (action : Action) (name : Str) (call : Effect W Str (Unit {0}))
      → Keeps I call
      → Keeps I (run_action quote to_lower equal_fold truncated scan deps action name (some call))
  unfolding run_action
  called-Keeps action name call h = Keeps-then I _ _ (Keeps-on_error I _ _ h) (pure-Keeps _ I _)

  refusal-Keeps :
      (action : Action) (name : Str)
      → Keeps I (run_action quote to_lower equal_fold truncated scan deps action name none)
  unfolding run_action
  refusal-Keeps action name = stop-Keeps _ I _

  run_action-Keeps :
      (action : Action) (bearer name : Str) (params : Fields)
      → KeptBy I deps.api bearer action name params
      → Keeps I (
          run_action quote to_lower equal_fold truncated scan deps action name
            (action_call quote to_lower equal_fold truncated scan deps action bearer name params))
  unfolding action_call rollback_with
  run_action-Keeps sync_action bearer name params h =
      called-Keeps sync_action name (sync deps.api bearer name params)
        (sync-Keeps I deps.api bearer name params h)
  run_action-Keeps refresh_action bearer name params h =
      called-Keeps refresh_action name _ (refresh-Keeps I deps.api bearer name params _ h)
  run_action-Keeps rollback_action bearer name params h =
      rollback_with-Keeps
        (to_int64 quote to_lower equal_fold truncated scan deps (get_field (codes "id") params))
    where
      rollback_with-Keeps :
          (id : Option Str)
          → Keeps I (
              run_action quote to_lower equal_fold truncated scan deps rollback_action name
                (rollback_with quote to_lower equal_fold truncated scan deps id bearer name params))
      rollback_with-Keeps none = refusal-Keeps rollback_action name
      rollback_with-Keeps (some id) =
          called-Keeps rollback_action name _ (rollback-Keeps I deps.api bearer name params id _ h)

  unmanaged_error-none :
      (name : Str) (app : Object)
      → unmanaged_error quote to_lower equal_fold truncated scan deps name app ≡ none
      → is_managed app.labels ≡ true
  unfolding unmanaged_error
  unmanaged_error-none name app h = ground arith

  invoke_action_on-Keeps :
      (m : InvokeAction)
      → ((ns name : Str) → Keeps I (deps.objects.get applications ns name))
      → ((resolve : Effect W Str Str) → deps.resolve_namespace ≡ some resolve → Keeps I resolve)
      → ((redeem : Str → Effect W RedeemFailure Str)
          → deps.redeemer ≡ some redeem
          → Keeps I (redeem m.user_credential_ref))
      → ((req : ApiRequest) → IsInScope m req → Keeps I (deps.api.http req))
      → Keeps I (invoke_action_on quote to_lower equal_fold truncated scan deps m)
  unfolding invoke_action_on lift
  invoke_action_on-Keeps m reads resolves redeems requests =
      Keeps-known I (lift (target_action quote to_lower equal_fold truncated scan deps m)) _
        (step-Keeps {E = Answer} I (target_action quote to_lower equal_fold truncated scan deps m))
        λ (action, name) _ target.
          Keeps-known I _ _ (namespace_with-Keeps deps.resolve_namespace resolves) λ ns u placed.
            Keeps-since I _ _ (Keeps-on_error I _ _ (reads ns name)) λ app v held got.
              check-Keeps I _ _ _ λ managed.
                Keeps-known I _ _ (bearer_for-Keeps m.user_credential_ref redeems)
                  λ bearer x redeemed.
                    run_action-Keeps action bearer name _ λ method rest body req call made.
                      requests req (
                        action,
                        name,
                        target,
                        u,
                        ns,
                        placed,
                        v,
                        app,
                        held,
                        on_error-ok _ (deps.objects.get applications ns name) v app got,
                        unmanaged_error-none name app managed,
                        bearer,
                        bearer_for-IsRedeemed m.user_credential_ref bearer x redeemed,
                        method,
                        rest,
                        body,
                        call,
                        made,
                      )

  -- An action makes API requests of three forms only: the sync, the refresh or the rollback of the one
  -- application that the command names, whichever the command asks for, with the method, the URL and the
  -- body of that call; after that application was read, in the agent's namespace, as managed by Inari;
  -- and with the credentials of the command: where it carries a credential reference, with a token that
  -- the redeemer returned for it and that is not empty, never with the agent's own; and no other
  -- reference is redeemed. That is, the handler keeps every predicate of the world that is kept by the
  -- reads of applications and of the namespace, by the redemptions of the command's reference, and
  -- by those requests. (The body of a sync has the command's parameters over its `name`.)
  pub invoke_action_in_scope :
      (m : InvokeAction) (w : W)
      → ((ns name : Str) → Keeps I (deps.objects.get applications ns name))
      → ((resolve : Effect W Str Str) → deps.resolve_namespace ≡ some resolve → Keeps I resolve)
      → ((redeem : Str → Effect W RedeemFailure Str)
          → deps.redeemer ≡ some redeem
          → Keeps I (redeem m.user_credential_ref))
      → ((req : ApiRequest) → IsInScope m req → Keeps I (deps.api.http req))
      → I w
      → I (answered (invoke_action_body quote to_lower equal_fold truncated scan deps (ok m)) w).1
  unfolding invoke_action_body
  invoke_action_in_scope m w reads resolves redeems requests =
      answered-Keeps I _
        (lift-Keeps I (ok m) _ _ λ k same.
          subst (λ n. Keeps I (invoke_action_on quote to_lower equal_fold truncated scan deps n))
            (ok-injective same) (invoke_action_on-Keeps m reads resolves redeems requests))
        w
