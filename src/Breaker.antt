-- ===== src/Breaker.antt =====
-- pkg/asr/circuitbreaker.go: the fail-fast breaker in front of a vendor. pkg/translate and pkg/tts
-- hold copies of the same code. A method that mutates `*circuitBreaker` returns the new record; the
-- mutex makes each method one step. Times are nanoseconds of the clock that `now` reads, passed in.
pub mod Phases
pub mod Trips
pub mod Probes
use lang_stream.Prelude.{
  ℕ, ◌+◌, ◌≤◌, ◌<◌, ◌≡◌, Bool, true, false, ◌||◌, Option, none, some, List, [], ◌∷◌, arith, ltb,
  leb, if◌then◌else◌,
}
use lang_stream.Prelude.Int.{ℤ, pos, pos_part, leb_ℤ}

-- `mu` and the clock `now` are not state: the clock is an argument of the methods that read it.
pub record CircuitBreaker : Type 0 where
  pub threshold : ℕ
  pub cooldown : ℕ
  pub is_open : Bool
  pub consecutive_fails : ℕ
  pub open_until : ℕ
  pub probe_in_flight : Bool

abbrev pub default_breaker_failure_threshold : ℕ
default_breaker_failure_threshold = 5

-- 10 s.
abbrev pub default_breaker_cooldown : ℕ
default_breaker_cooldown = 10_000_000_000

unfoldable pub new_circuit_breaker : ℤ → ℤ → CircuitBreaker
new_circuit_breaker threshold cooldown = record {
  threshold =
      if leb_ℤ threshold (pos 0) then default_breaker_failure_threshold else pos_part threshold;
  cooldown = if leb_ℤ cooldown (pos 0) then default_breaker_cooldown else pos_part cooldown;
  is_open = false;
  consecutive_fails = 0;
  open_until = 0;
  probe_in_flight = false;
}

unfoldable pub allow : CircuitBreaker → ℕ → CircuitBreaker × Bool
allow b now =
    if b.is_open
    then (if ltb now b.open_until
        then (b, false)
        else (if b.probe_in_flight
            then (b, false)
            else (record b { probe_in_flight = true }, true)))
    else (b, true)

unfoldable pub record_success : CircuitBreaker → CircuitBreaker
record_success b = record b { consecutive_fails = 0; is_open = false; probe_in_flight = false }

unfoldable pub record_failure : CircuitBreaker → ℕ → CircuitBreaker
record_failure b now =
    let counted = record b {
      probe_in_flight = false;
      consecutive_fails = b.consecutive_fails + 1;
    } in
    if b.is_open || leb b.threshold (b.consecutive_fails + 1)
    then record counted { is_open = true; open_until = now + b.cooldown }
    else counted

unfoldable pub abort : CircuitBreaker → CircuitBreaker
abort b = record b { probe_in_flight = false }

-- One method call, with the time that its clock reads.
pub data Call : Type 0 where
  allows : ℕ → Call
  succeeds : Call
  fails : ℕ → Call
  aborts : Call

unfoldable pub step : CircuitBreaker → Call → CircuitBreaker
step b (allows now) = (allow b now).0
step b succeeds = record_success b
step b (fails now) = record_failure b now
step b aborts = abort b

-- What `allow` returns; the other methods return nothing.
unfoldable pub answer : CircuitBreaker → Call → Option Bool
answer b (allows now) = some (allow b now).1
answer b _ = none

unfoldable pub run : CircuitBreaker → List Call → CircuitBreaker
run b [] = b
run b (c ∷ cs) = run (step b c) cs

unfoldable pub answers : CircuitBreaker → List Call → List (Option Bool)
answers b [] = []
answers b (c ∷ cs) = answer b c ∷ answers (step b c) cs

-- What holds between two method calls, whatever callers made them and in whatever order.
pub record IsValid (b : CircuitBreaker) : Type 0 where
  pub threshold_pos : 0 < b.threshold
  pub cooldown_pos : 0 < b.cooldown
  pub closed_below : b.is_open ≡ false → b.consecutive_fails < b.threshold
  pub open_above : b.is_open ≡ true → b.threshold ≤ b.consecutive_fails
  pub probe_open : b.probe_in_flight ≡ true → b.is_open ≡ true

pub new_circuit_breaker-IsValid : (t c : ℤ) → IsValid (new_circuit_breaker t c)
unfolding new_circuit_breaker
new_circuit_breaker-IsValid t c = ground arith

pub step-IsValid : (b : CircuitBreaker) (c : Call) → IsValid b → IsValid (step b c)
unfolding step allow record_success record_failure abort
step-IsValid b (allows now) v = ground arith
step-IsValid b succeeds v = ground arith
step-IsValid b (fails now) v = ground arith
step-IsValid b aborts v = ground arith

pub run-IsValid : (b : CircuitBreaker) (cs : List Call) → IsValid b → IsValid (run b cs)
unfolding run
run-IsValid b [] v = v
run-IsValid b (c ∷ cs) v = run-IsValid (step b c) cs (step-IsValid b c v)

-- Whatever calls are made, by any callers and in any order, a breaker made by
-- `new_circuit_breaker` with any parameters has a positive threshold and cooldown, is open exactly
-- when its count of failures has reached the threshold, and has a probe in flight only when open.
pub run-new_circuit_breaker-IsValid :
    (t c : ℤ) (cs : List Call) → IsValid (run (new_circuit_breaker t c) cs)
run-new_circuit_breaker-IsValid t c cs = run-IsValid _ cs (new_circuit_breaker-IsValid t c)
