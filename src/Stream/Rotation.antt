-- ===== src/Stream/Rotation.antt =====
-- internal/stream/client_connect.go: when session rotates a session before its token expires.
use inari_agent.Prelude.{
  ℕ, ◌+◌, ◌-◌, ◌*◌, ◌/◌, ◌≤◌, ◌<◌, min, if◌then◌else◌, Bool-cases, ltb→lt, ltb-false→le, ◌≡◌, ◌⊎◌,
  inl, inr, arith, ltb,
}
use inari_agent.Stream.Backoff.{second}

-- time.Until(expiry), in nanoseconds: the expiry is ahead, or this far in the past.
pub data Until : Type 0 where
  ahead : ℕ → Until
  past : ℕ → Until

-- The margin min(30s, ttl/4) is taken off; at or past the expiry what is left is not positive
-- (integer division truncates towards zero), and the session rotates at once.
unfoldable pub rotate_after : Until → ℕ
rotate_after (ahead ttl) = let d = ttl - min (30 * second) (ttl / 4) in if ltb 0 d then d else 0
rotate_after (past n) = 0

rotate_after_ahead : (ttl : ℕ) → rotate_after (ahead ttl) ≡ ttl - min (30 * second) (ttl / 4)
unfolding rotate_after
rotate_after_ahead ttl = ground arith

quarter_left : (ttl : ℕ) → (ttl < 4) ⊎ (ttl - min (30 * second) (ttl / 4) < ttl)
quarter_left ttl = elim (Bool-cases (ltb ttl 4)) [
  | inl e ↦ inl (ltb→lt ttl 4 e)
  | inr e ↦ inr (omega (arith, ltb-false→le ttl 4 e))
]

-- With a token that expires in the future, the session rotates no later than the expiry, at most 30
-- seconds before it, and when at least three quarters of the remaining lifetime have passed; with at
-- least 4 nanoseconds left, it rotates strictly before the expiry.
pub rotate_after_bounds :
    (ttl : ℕ)
    → (rotate_after (ahead ttl) ≤ ttl)
      × (ttl ≤ rotate_after (ahead ttl) + 30 * second)
      × (3 * ttl ≤ 4 * rotate_after (ahead ttl))
      × ((ttl < 4) ⊎ (rotate_after (ahead ttl) < ttl))
rotate_after_bounds ttl =
    rw (rotate_after_ahead ttl) (omega arith, omega arith, omega arith, quarter_left ttl)
