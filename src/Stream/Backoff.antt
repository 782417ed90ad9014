-- ===== src/Stream/Backoff.antt =====
-- internal/stream/client.go (Backoff, DefaultBackoff) and client_connect.go (nextDelay). Durations
-- are nanoseconds; a negative duration, which the code treats as 0, is 0. Go's float64 is the
-- parameter `Floats`.
use inari_agent.Prelude.{
  ℕ, ◌*◌, ◌≤◌, min, Bool, if◌then◌else◌, Bool-cases, ltb→lt, ltb-false→le, ◌≡◌, inl, inr, arith,
  ltb, ◌==◌,
}

-- `times d f` is time.Duration(float64(d) * f); `at_most_one` is f <= 1.
pub record Floats (F : Type 0) : Type 0 where
  pub times : ℕ → F → ℕ
  pub at_most_one : F → Bool
  pub two : F

pub record Backoff (F : Type 0) : Type 0 where
  pub initial_interval : ℕ
  pub max_interval : ℕ
  pub multiplier : F

abbrev pub second : ℕ
second = 1000000000

abbrev pub minute : ℕ
minute = 60000000000

module _ {F : Type 0} (floats : Floats F) where
  unfoldable pub default_backoff : Backoff F
  default_backoff = record {
    initial_interval = second;
    max_interval = 5 * minute;
    multiplier = floats.two;
  }

  -- The limit that nextDelay applies.
  unfoldable pub effective_max : Backoff F → ℕ
  unfolding default_backoff
  effective_max b = if b.max_interval == 0 then (default_backoff).max_interval else b.max_interval

  unfoldable pub effective_multiplier : Backoff F → F
  effective_multiplier b = if floats.at_most_one b.multiplier then floats.two else b.multiplier

  unfoldable pub next_delay : ℕ → Backoff F → ℕ
  unfolding effective_max effective_multiplier
  next_delay current b =
      let next = floats.times current (effective_multiplier b) in
      if ltb (effective_max b) next then effective_max b else next

  pub next_delay-le-max : (current : ℕ) (b : Backoff F) → next_delay current b ≤ effective_max b
  unfolding next_delay
  next_delay-le-max current b = ground arith

  -- With a multiplier of two the delay doubles up to the limit.
  pub next_delay_doubles :
      (current : ℕ) (b : Backoff F)
      → ((d : ℕ) → floats.times d floats.two ≡ 2 * d)
      → effective_multiplier b ≡ floats.two
      → next_delay current b ≡ min (2 * current) (effective_max b)
  unfolding next_delay
  next_delay_doubles current b exact m =
      rw (m, exact current)
        (elim (Bool-cases (ltb (effective_max b) (2 * current))) [
          | inl e ↦ rw e (omega (arith, ltb→lt _ _ e))
          | inr e ↦ rw e (omega (arith, ltb-false→le _ _ e))
        ])
