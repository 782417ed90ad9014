-- ===== src/Stream/Liveness.antt =====
-- internal/stream/client_connect.go: the select loop of session, with its receive dead-man switch.
-- Time is nanoseconds since the loop began. What the loop selects, in order, is a list of events; when the
-- receive goroutine reports activity, which it does not while it waits in emit, is the list's.
use inari_agent.Prelude.{
  ℕ, ◌+◌, ◌*◌, ◌≤◌, ◌<◌, codes, false, if◌then◌else◌, le→leb, Option, none, some, List, [], ◌∷◌,
  ◌++◌, ◌≡◌, ap, ◌∙◌, arith, leb, ◌==◌,
}
use inari_agent.Stream.Backoff.{minute}
use inari_agent.Stream.Cause.{SessionError, deadman, send_pump, token_rotation, wrapped}

pub data LoopEvent : Type 0 where
  done : SessionError → LoopEvent
  receive_failed : SessionError → LoopEvent
  send_done : LoopEvent
  rotate : LoopEvent
  activity : LoopEvent

-- recvTimeout; a negative one counts as 0.
unfoldable receive_timeout : ℕ → ℕ
receive_timeout configured = if configured == 0 then 2 * minute else configured

-- How the loop ended: the error, at what time.
pub record Ended : Type 0 where
  pub error : SessionError
  pub at : ℕ

-- One event: an error ends the session; activity resets the timer.
unfoldable react : LoopEvent → Option SessionError
react (done e) = some e
react (receive_failed e) = some (wrapped (codes "stream: receive") e)
react send_done = some send_pump
react rotate = some token_rotation
react activity = none

-- The loop from a time at which the timer was reset; each event comes with the time since the one
-- before it. At the moment at which the timer runs out it is the timer that is selected. With no events left the
-- timer runs out.
unfoldable pub session_loop : ℕ → ℕ → List (ℕ × LoopEvent) → Ended
unfolding react
session_loop timeout now [] = record { error = deadman; at = now + timeout }
session_loop timeout now ((gap, e) ∷ es) =
    let rest = session_loop timeout (now + gap) es in
    if leb timeout gap
    then record { error = deadman; at = now + timeout }
    else elim (react e) [ some why ↦ record { error = why; at = now + gap } | none ↦ rest ]

-- Activity only, at times less than the timeout apart.
abbrev IsAlive : ℕ → List (ℕ × LoopEvent) → Type 0
IsAlive timeout [] = Unit
IsAlive timeout ((gap, e) ∷ es) = (gap < timeout) × (e ≡ activity) × IsAlive timeout es

abbrev pub elapsed : List (ℕ × LoopEvent) → ℕ
elapsed [] = 0
elapsed ((gap, e) ∷ es) = gap + elapsed es

-- While the loop's activity channel has something less than a timeout apart, however often, the session
-- goes on: the loop stands where it would stand had it begun after that. The receive goroutine puts
-- activity there for a message that it takes from the stream; while it waits in emit for a stalled
-- consumer it takes none, so that messages which then arrive are no activity.
pub alive_continues :
    (timeout now : ℕ) (es rest : List (ℕ × LoopEvent))
    → IsAlive timeout es
    → session_loop timeout now (es ++ rest) ≡ session_loop timeout (now + elapsed es) rest
unfolding session_loop
alive_continues timeout now [] rest h = ap (λ (t : ℕ). session_loop timeout t rest) (omega arith)
alive_continues timeout now ((gap, e) ∷ es) rest (g, a, h) = rw (a) (
    let not_late : leb timeout gap ≡ false = ground arith in
    rw not_late (
      alive_continues timeout (now + gap) es rest h
      ∙ ap (λ (t : ℕ). session_loop timeout t rest) (omega arith)))

-- A silence of at least the timeout after live traffic ends the session by the dead-man switch, one
-- timeout after the last activity, whatever would have come then.
pub silence_ends :
    (timeout now gap : ℕ) (e : LoopEvent) (es rest : List (ℕ × LoopEvent))
    → IsAlive timeout es
    → timeout ≤ gap
    → session_loop timeout now (es ++ ((gap, e) ∷ rest))
      ≡ record { error = deadman; at = now + elapsed es + timeout }
silence_ends timeout now gap e es rest h g =
    alive_continues timeout now es ((gap, e) ∷ rest) h
    ∙ (unfold session_loop in rw (le→leb timeout gap g))
