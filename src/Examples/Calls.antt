-- ===== src/Examples/Calls.antt =====
-- Tests of the circuit breaker and the backoff.
use lang_stream.Prelude.{◌+◌, ◌≡◌, true, false, List, [], ◌∷◌, arith, leb}
use lang_stream.Prelude.Int.{pos, ◌≤ℤ◌}
use lang_stream.Breaker.{
  CircuitBreaker, new_circuit_breaker, run, allows, fails, aborts, answers, Call,
}
use lang_stream.Breaker.Phases.{phase, last, admissions, run_refines}
use lang_stream.Breaker.Trips.{trips_at_threshold, failures}
use lang_stream.Backoff.{reconnect_backoff}
use lang_stream.Backoff.Bounds.{reconnect_backoff_bounds}

-- Two failures trip it, and it cools down for ten.
abbrev two_fails : CircuitBreaker
two_fails = new_circuit_breaker (pos 2) (pos 10)

abbrev some_calls : List Call
some_calls = allows 1 ∷ fails 2 ∷ aborts ∷ fails 3 ∷ allows 4 ∷ allows 14 ∷ []

abbrev tripped : CircuitBreaker
tripped = record {
  threshold = 2;
  cooldown = 10;
  is_open = true;
  consecutive_fails = 2;
  open_until = 13;
  probe_in_flight = false;
}

run_refines_example :
    (phase (run two_fails some_calls)
      ≡ last two_fails.threshold two_fails.cooldown (phase two_fails) some_calls)
    × (answers two_fails some_calls
        ≡ admissions two_fails.threshold two_fails.cooldown (phase two_fails) some_calls)
run_refines_example = run_refines two_fails some_calls

trips_at_threshold_example :
    (run tripped (allows 14 ∷ aborts ∷ [])).is_open ≡ leb 2 (2 + failures (allows 14 ∷ aborts ∷ []))
trips_at_threshold_example =
    trips_at_threshold tripped (allows 14 ∷ aborts ∷ []) (ground arith) ((λ e. cc), ((λ e. cc), tt))

reconnect_backoff_bounds_example :
    (pos 0 ≤ℤ reconnect_backoff (λ n. 0) (pos 3) (pos 200) (pos 1000))
    × (reconnect_backoff (λ n. 0) (pos 3) (pos 200) (pos 1000) ≤ℤ pos 1200)
reconnect_backoff_bounds_example =
    reconnect_backoff_bounds (λ n. 0) (pos 3) (pos 200) 1000 (omega arith) (λ n h. h)
