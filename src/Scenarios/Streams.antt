-- ===== src/Scenarios/Streams.antt =====
-- internal/stream: the theorems at small policies, tokens and traffic.
use inari_agent.Prelude.{
  ℕ, ◌+◌, ◌*◌, codes, true, some, List, [], ◌∷◌, ◌++◌, All, ◌≡◌, refl, arith, leb,
}
use inari_agent.Stream.Backoff.{Floats, Backoff, effective_max}
use inari_agent.Stream.Cause.{deadman, text}
use inari_agent.Stream.Supervisor.{
  SessionEnd, returned, run, effective_backoff, WaitsWithin, run_waits_bounded,
}
use inari_agent.Stream.Liveness.{
  LoopEvent, activity, rotate, session_loop, elapsed, alive_continues, silence_ends,
}
use inari_agent.Stream.Sequence.{
  SendState, initial, stamp, holds, enqueue, pump, here, next, take_number, put, transmit,
}
use inari_agent.Stream.Sequence.Numbers.{occurrences, expected, numbers_accounted}

-- Exact multipliers
abbrev whole : Floats ℕ
whole = record { times = λ d f. d * f; at_most_one = λ f. leb f 1; two = 2 }

abbrev policy : Backoff ℕ
policy = record { initial_interval = 3; max_interval = 10; multiplier = 2 }

abbrev failure : SessionEnd
failure = returned (some (text (codes "unavailable")))

run_waits_bounded_example :
    All
      (WaitsWithin whole (effective_max whole (effective_backoff whole policy)))
      (run whole policy (failure ∷ failure ∷ failure ∷ []))
unfolding effective_backoff effective_max
run_waits_bounded_example =
    run_waits_bounded whole policy (failure ∷ failure ∷ failure ∷ []) (omega arith)

abbrev traffic : List (ℕ × LoopEvent)
traffic = (5, activity) ∷ (9, activity) ∷ []

alive_continues_example :
    session_loop 10 0 (traffic ++ ((2, rotate) ∷ []))
    ≡ session_loop 10 (0 + elapsed traffic) ((2, rotate) ∷ [])
alive_continues_example =
    alive_continues 10 0 traffic ((2, rotate) ∷ []) (omega arith, refl, (omega arith, refl, tt))

silence_ends_example :
    session_loop 10 0 (traffic ++ ((12, activity) ∷ []))
    ≡ record { error = deadman; at = 0 + elapsed traffic + 10 }
silence_ends_example =
    silence_ends 10 0 12 activity traffic [] (omega arith, refl, (omega arith, refl, tt))
      (omega arith)

-- One event taken, queued and sent.
abbrev taken : SendState
taken = stamp initial

abbrev queued : SendState
queued = enqueue 1 taken

numbers_accounted_example :
    occurrences 1 (pump true queued.queue queued) ≡ expected (pump true queued.queue queued).seq 1
unfolding stamp holds
numbers_accounted_example =
    numbers_accounted 1 (next (next (next here take_number) (put 1 refl (omega arith))) transmit)
