-- ===== src/Command/Handlers/Register.antt =====
-- internal/command/handlers_argocd.go, with DecodeBridgeManifest of bridge.go. The gate and the ArgoCD
-- client are parameters, as the interface and the constructor that the handlers take.
use inari_agent.Prelude.{
  Str, codes, Bool, not, ◌&&◌, if◌then◌else◌, Option, none, some, Outcome, ok, err, ◌∷◌, ◌++◌,
  str_eq, is_empty,
}
use inari_agent.Prelude.Effect.{Effect, pure, lift, on_error, ◌>>=◌, ◌>>◌}
use inari_agent.Wire.{Decoder}
use inari_agent.Argocd.Apps.{RegisterArgoCdApp}
use inari_agent.Command.Handlers.{Answer, refused, done, transient, Body}

-- What the handlers call of argocd.Client, bound to a namespace.
pub record ArgoClient (W : Type 0) : Type 0 where
  pub ensure_app_project : Str → Str → Effect W Str (Unit {0})
  pub ensure_application : Str → RegisterArgoCdApp → Effect W Str (Unit {0})
  pub ensure_application_set : Str → Str → Str → Effect W Str (Unit {0})
  pub ensure_application_manifest : Str → Str → Str → Effect W Str (Unit {0})

-- DecodeBridgeManifest: the name and the manifest, which are what the handlers use.
unfoldable pub bridge_fields : (Str → Str) → Outcome Str (Str × Str)
bridge_fields get =
    if is_empty (get (codes "commandId"))
    then err (codes "command: bridge payload missing commandId")
    else if is_empty (get (codes "name"))
    then err (codes "command: bridge payload missing name")
    else if is_empty (get (codes "manifest"))
    then err (codes "command: bridge payload missing manifest")
    else ok (get (codes "name"), get (codes "manifest"))

module _ {P : Type 0} (dec : Decoder P) where
  unfoldable pub decode_bridge_manifest : Option P → Outcome Str (Str × Str)
  unfolding bridge_fields
  decode_bridge_manifest none = err (codes "command: bridge payload is not a struct")
  decode_bridge_manifest (some p) =
      if not (dec.is_struct p)
      then err (codes "command: bridge payload is not a struct")
      else elim (dec.struct_field p) [
        | err e ↦ err (codes "command: decode bridge payload: " ++ e)
        | ok get ↦ bridge_fields get
      ]

module _ {W : Type 0} (gate : Effect W Str Str) (client : ArgoClient W) where
  abbrev needs_project : Str → Bool
  needs_project s = not (is_empty s) && not (str_eq s (codes "default"))

  -- RegisterArgoCDAppHandler
  unfoldable pub register_argocd_app_body : Outcome Str RegisterArgoCdApp → Body W Answer
  register_argocd_app_body payload = do
    m ← on_error (λ e. transient (codes "decode: " ++ e)) (lift payload)
    ns ← on_error refused gate
    on_error refused
        (if needs_project m.project then client.ensure_app_project ns m.project else pure tt)
    on_error refused (client.ensure_application ns m)
    pure (done (codes "application " ++ (m.name ++ (codes " registered in namespace " ++ ns))))

  -- registerManifestHandler
  unfoldable pub register_manifest_body :
      Str → (Str → Str → Str → Effect W Str (Unit {0})) → Outcome Str (Str × Str) → Body W Answer
  register_manifest_body kind apply payload = do
    (name, manifest) ← on_error refused (lift payload)
    ns ← on_error refused gate
    on_error refused (apply ns name manifest)
    pure (done (kind ++ (b' ' ∷ (name ++ (codes " registered in namespace " ++ ns)))))
