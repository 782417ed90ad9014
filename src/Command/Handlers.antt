-- ===== src/Command/Handlers.antt =====
-- internal/command: the handlers that the dispatcher calls, and what they share. They run on the
-- agent's binding to a state repository (the GitOpsDeps that they share by pointer) and on the
-- outside world `W`: the cluster, the git host, the ArgoCD API.
pub mod Messages
pub mod Kept
pub mod GitOps
pub mod Rebind
pub mod Redeem
pub mod Action
pub mod Register
use inari_agent.Prelude.{Str, Outcome, ok, err}
use inari_agent.Prelude.Effect.{Effect}
use inari_agent.Wire.{CommandResult, failed, applied}

pub record Agent (W : Type 0) : Type 0 where
  pub default_state_repo : Str
  pub outside : W

-- What a handler returns: a result with its message, or an error that may be transient.
abbrev pub Answer : Type 0
Answer = Outcome Str (CommandResult × Str)

-- The answers, by how dispatching goes on: recorded and acked, or an error for redelivery.
abbrev pub refused : Str → Answer
refused message = ok (failed, message)

abbrev pub done : Str → Answer
done message = ok (applied, message)

abbrev pub transient : Str → Answer
transient e = err e

-- A handler's body: it returns an answer early, or at its end.
abbrev pub Body : Type 0 → Type 0 → Type 0
Body W A = Effect W Answer A

unfoldable pub answered : {W : Type 0} → Body W Answer → W → Answer × W
answered m w = let (r, w') = m w in elim r [ ok a ↦ (a, w') | err a ↦ (a, w') ]

-- A call of the outside world.
unfoldable pub outside {ℓ} : {W E : Type 0} {A : Type ℓ} → Effect W E A → Effect (Agent W) E A
outside m a = let (r, w') = m a.outside in (r, record a { outside = w' })
