-- ===== src/Stream/Supervisor.antt =====
-- internal/stream/client_connect.go: the loop of Run. A session ends with an error or none, or the
-- context is done; the run is a function of the sessions' ends, in order.
use inari_agent.Prelude.{
  ℕ, zero, suc, ◌*◌, ◌≤◌, min, Bool, true, false, if◌then◌else◌, Bool-cases, Option, none, some,
  List, [], ◌∷◌, All, ◌≡◌, inl, inr, ◌==◌,
}
use Prim.Native.Nat.{◌^◌}
use inari_agent.Stream.Backoff.{
  Floats, Backoff, default_backoff, effective_max, next_delay, next_delay-le-max,
}
use inari_agent.Stream.Cause.{SessionError, is_rotation}

-- How one session ended, and whether ctx was done then or during the wait that follows.
pub data SessionEnd : Type 0 where
  context_done : SessionEnd
  returned : Option SessionError → SessionEnd
  done_while_waiting : Option SessionError → SessionEnd

-- What Run does after a session: stop, reconnect at once, or wait for a jittered delay.
pub data Move : Type 0 where
  stop : Move
  reconnect : Move
  wait : ℕ → Move

abbrev rotates : Option SessionError → Bool
rotates none = false
rotates (some e) = is_rotation e

module _ {F : Type 0} (floats : Floats F) where
  unfoldable pub effective_backoff : Backoff F → Backoff F
  unfolding default_backoff
  effective_backoff b = if b.initial_interval == 0 then default_backoff floats else b

  -- One round: the move, and the delay for the next round.
  unfoldable round : Backoff F → ℕ → SessionEnd → Move × ℕ
  unfolding next_delay
  round b delay context_done = (stop, delay)
  round b delay (returned e) =
      if rotates e then (reconnect, b.initial_interval) else (wait delay, next_delay floats delay b)
  round b delay (done_while_waiting e) =
      if rotates e then (reconnect, b.initial_interval) else (stop, delay)

  abbrev continues : Move → Bool
  continues stop = false
  continues reconnect = true
  continues (wait d) = true

  -- The moves of Run from a delay on; nothing follows a stop.
  unfoldable pub run_from : Backoff F → ℕ → List SessionEnd → List Move
  unfolding round
  run_from b delay [] = []
  run_from b delay (e ∷ es) =
      let r = round b delay e in
      let rest = run_from b r.1 es in r.0 ∷ (if continues r.0 then rest else [])

  unfoldable pub run : Backoff F → List SessionEnd → List Move
  unfolding run_from effective_backoff
  run b es = run_from (effective_backoff b) (effective_backoff b).initial_interval es

  abbrev pub WaitsWithin : ℕ → Move → Type 0
  WaitsWithin bound (wait d) = d ≤ bound
  WaitsWithin bound _ = Unit

  round_within :
      (b : Backoff F) (delay : ℕ) (e : SessionEnd)
      → b.initial_interval ≤ effective_max floats b
      → delay ≤ effective_max floats b
      → WaitsWithin (effective_max floats b) (round b delay e).0
        × ((round b delay e).1 ≤ effective_max floats b)
  unfolding round
  round_within b delay context_done i h = (tt, h)
  round_within b delay (returned e) i h = elim (Bool-cases (rotates e)) [
    | inl t ↦ rw t (tt, i)
    | inr t ↦ rw t (h, next_delay-le-max floats delay b)
  ]
  round_within b delay (done_while_waiting e) i h = elim (Bool-cases (rotates e)) [
    | inl t ↦ rw t (tt, i)
    | inr t ↦ rw t (tt, h)
  ]

  run_from_within :
      (b : Backoff F) (delay : ℕ) (es : List SessionEnd)
      → b.initial_interval ≤ effective_max floats b
      → delay ≤ effective_max floats b
      → All (WaitsWithin (effective_max floats b)) (run_from b delay es)
  unfolding run_from
  run_from_within b delay [] i h = tt
  run_from_within b delay (e ∷ es) i h =
      let (here, next) = round_within b delay e i h in
      (
        here,
        elim (Bool-cases (continues (round b delay e).0)) [
          | inl t ↦ rw t (run_from_within b (round b delay e).1 es i next)
          | inr t ↦ rw t tt
        ],
      )

  -- Whatever the sessions do, no delay before a reconnect exceeds the configured limit (of the
  -- default policy, where the configured initial interval is 0), if the initial interval is within
  -- it.
  pub run_waits_bounded :
      (b : Backoff F) (es : List SessionEnd)
      → (effective_backoff b).initial_interval ≤ effective_max floats (effective_backoff b)
      → All (WaitsWithin (effective_max floats (effective_backoff b))) (run b es)
  unfolding run
  run_waits_bounded b es i = run_from_within (effective_backoff b) _ es i i

-- A session that ended with an error other than a rotation, or with none.
abbrev IsFailure : SessionEnd → Type 0
IsFailure (returned e) = rotates e ≡ false
IsFailure _ = ⊥

-- The waits of n rounds from the k-th: 2 ^ k times the first delay, up to the limit.
abbrev pub doubled : ℕ → ℕ → ℕ → ℕ → List Move
doubled limit d k zero = []
doubled limit d k (suc n) = wait (min (2 ^ k * d) limit) ∷ doubled limit d (suc k) n
