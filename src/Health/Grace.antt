-- ===== src/Health/Grace.antt =====
-- internal/health: how long a disconnected agent stays ready.
use inari_agent.Prelude.{ℕ, ◌+◌, Bool, true, false, List, [], ◌∷◌, ◌≡◌, refl, ap, ltb}
use inari_agent.Health.{
  StreamTracker, new_stream_tracker, store_armed, store_connected, store_disconnect,
  set_stream_connected, is_ready,
}

-- The tracker after a list of transitions, latest first: each a time and whether the stream is up.
unfoldable pub after_transitions : ℕ → List (ℕ × Bool) → StreamTracker
after_transitions grace [] = new_stream_tracker grace
after_transitions grace ((t, up) ∷ earlier) =
    set_stream_connected t up (after_transitions grace earlier)

-- What readiness should be: before any transition, and while connected, the agent is ready; after a
-- disconnect at the time `t` it is ready until the grace is over.
unfoldable pub expected : ℕ → ℕ → List (ℕ × Bool) → Bool
expected grace now [] = true
expected grace now ((t, true) ∷ earlier) = true
expected grace now ((t, false) ∷ earlier) = ltb now (t + grace)

grace_kept : (grace : ℕ) (ts : List (ℕ × Bool)) → (after_transitions grace ts).grace ≡ grace
unfolding after_transitions set_stream_connected store_armed store_connected store_disconnect
    new_stream_tracker
grace_kept grace [] = refl
grace_kept grace ((t, true) ∷ ts) = grace_kept grace ts
grace_kept grace ((t, false) ∷ ts) = grace_kept grace ts

-- The readiness probe answers, after any transitions that are complete, by the last one alone: ready before any, ready
-- while connected, and ready after a disconnect for less than the grace period since that disconnect.
pub ready_within_grace :
    (grace now : ℕ) (ts : List (ℕ × Bool))
    → is_ready now (after_transitions grace ts) ≡ expected grace now ts
unfolding after_transitions expected is_ready set_stream_connected store_armed store_connected
    store_disconnect new_stream_tracker
ready_within_grace grace now [] = refl
ready_within_grace grace now ((t, true) ∷ ts) = refl
ready_within_grace grace now ((t, false) ∷ ts) = ap (λ g. ltb now (t + g)) (grace_kept grace ts)
