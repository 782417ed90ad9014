-- ===== src/Command/Handlers/Kept.antt =====
-- A predicate of the world through the handlers' shared steps.
use inari_agent.Prelude.{Str, Outcome, ok, err, ◌≡◌}
use inari_agent.Prelude.Effect.{Effect, Keeps}
use inari_agent.Command.Handlers.{Agent, Answer, Body, answered, outside}

-- The agent is bound to the repository `r`, and the world satisfies `I`.
abbrev pub IsBound : {W : Type 0} → Str → (W → Type 0) → Agent W → Type 0
IsBound r I a = (a.default_state_repo ≡ r) × I a.outside

pub outside-Keeps :
    {W E A : Type 0} (r : Str) (I : W → Type 0) (m : Effect W E A)
    → Keeps I m
    → Keeps (IsBound r I) (outside m)
unfolding outside
outside-Keeps r I m h a k = (k.0, h a.outside k.1)

pub answered-Keeps :
    {W : Type 0} (I : W → Type 0) (m : Body W Answer)
    → Keeps I m
    → (w : W) → I w
    → I (answered m w).1
unfolding answered
answered-Keeps I m h w k = after (m w) (h w k)
  where
    after : (p : Outcome Answer Answer × _) → I p.1 → I (answered (λ _. p) w).1
    after (ok a, w') i = i
    after (err a, w') i = i
