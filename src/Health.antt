-- ===== src/Health.antt =====
-- internal/health/health.go: StreamTracker, with the clock as an argument (in nanoseconds).
use inari_agent.Prelude.{ℕ, ◌+◌, Bool, true, false, not, ◌||◌, if◌then◌else◌, ltb}
pub mod Grace

pub record StreamTracker : Type 0 where
  pub grace : ℕ
  pub armed : Bool
  pub connected : Bool
  pub last_disconnect : ℕ

-- NewStreamTracker
unfoldable pub new_stream_tracker : ℕ → StreamTracker
new_stream_tracker grace = record {
  grace = grace;
  armed = false;
  connected = false;
  last_disconnect = 0;
}

-- The three atomic stores of SetConnected.
unfoldable store_armed : StreamTracker → StreamTracker
store_armed t = record t { armed = true }

unfoldable store_connected : Bool → StreamTracker → StreamTracker
store_connected v t = record t { connected = v }

unfoldable store_disconnect : ℕ → Bool → StreamTracker → StreamTracker
store_disconnect now true t = t
store_disconnect now false t = record t { last_disconnect = now }

-- SetConnected at the time `now`, once all its stores are done. A Check that runs between them sees what
-- the stores before it left.
unfoldable pub set_stream_connected : ℕ → Bool → StreamTracker → StreamTracker
unfolding store_armed store_connected store_disconnect
set_stream_connected now v t = store_disconnect now v (store_connected v (store_armed t))

-- Check at the time `now`: is the agent ready?
unfoldable pub is_ready : ℕ → StreamTracker → Bool
is_ready now t = if not t.armed || t.connected then true else ltb now (t.last_disconnect + t.grace)
