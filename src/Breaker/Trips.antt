-- ===== src/Breaker/Trips.antt =====
-- When the breaker of pkg/asr/circuitbreaker.go trips, and what it lets through while it cools down.
use lang_stream.Prelude.{
  ℕ, suc, ◌+◌, ◌<◌, ◌≡◌, ◌≢◌, ◌∙◌, refl, Bool, true, Option, some, List, [], ◌∷◌, arith, leb, All,
}
use lang_stream.Breaker.{
  CircuitBreaker, Call, allows, succeeds, fails, aborts, allow, record_success, record_failure,
  abort, step, answer, run, answers, IsValid, step-IsValid,
}

-- Failures that a sequence of calls reports.
pub failures : List Call → ℕ
failures [] = 0
failures (fails now ∷ cs) = suc (failures cs)
failures (c ∷ cs) = failures cs

abbrev pub IsNoSuccess : Call → Type 0
IsNoSuccess c = c ≢ succeeds

fails_step :
    (b : CircuitBreaker) (c : Call) (cs : List Call)
    → c ≢ succeeds
    → (step b c).consecutive_fails + failures cs ≡ b.consecutive_fails + failures (c ∷ cs)
unfolding step failures allow record_failure abort
fails_step b (allows now) cs h = ground arith
fails_step b succeeds cs h = absurd (h refl)
fails_step b (fails now) cs h = ground arith
fails_step b aborts cs h = ground arith

step-threshold : (b : CircuitBreaker) (c : Call) → (step b c).threshold ≡ b.threshold
unfolding step allow record_success record_failure abort
step-threshold b (allows now) = ground arith
step-threshold b succeeds = ground arith
step-threshold b (fails now) = ground arith
step-threshold b aborts = ground arith

-- From a valid breaker, along any calls that report no success, the breaker is open at the end
-- exactly when its failures before and along the way add up to the threshold or more. Admissions
-- and aborted calls in between do not count.
pub trips_at_threshold :
    (b : CircuitBreaker) (cs : List Call)
    → IsValid b
    → All IsNoSuccess cs
    → (run b cs).is_open ≡ leb b.threshold (b.consecutive_fails + failures cs)
unfolding run failures
trips_at_threshold b [] v h = ground arith
trips_at_threshold b (c ∷ cs) v h = ground (
  arith,
  trips_at_threshold (step b c) cs (step-IsValid b c v) h.1,
  fails_step b c cs h.0,
  step-threshold b c,
)

-- A call that reports no outcome: an `allow` before the given time, or an aborted call.
abbrev pub IsQuiet : ℕ → Call → Type 0
IsQuiet until (allows now) = now < until
IsQuiet until aborts = Unit {0}
IsQuiet until _ = ⊥

abbrev pub IsRejected : Option Bool → Type 0
IsRejected a = a ≢ some true

quiet_step :
    (b : CircuitBreaker) (c : Call)
    → b.is_open ≡ true
    → IsQuiet b.open_until c
    → ((step b c).is_open ≡ true) × ((step b c).open_until ≡ b.open_until) × IsRejected (answer b c)
unfolding step answer allow abort
quiet_step b (allows now) o q = ground arith
quiet_step b succeeds o q = absurd q
quiet_step b (fails now) o q = absurd q
quiet_step b aborts o q = ground arith

quiet-IsRejected :
    (b : CircuitBreaker) (until : ℕ) (cs : List Call)
    → b.is_open ≡ true
    → b.open_until ≡ until
    → All (IsQuiet until) cs
    → All IsRejected (answers b cs)
unfolding answers
quiet-IsRejected b until [] o u q = tt
quiet-IsRejected b until (c ∷ cs) o u q =
    let s = quiet_step b c o (rw u q.0) in
    (s.2, quiet-IsRejected (step b c) until cs s.0 (s.1 ∙ u) q.1)

open_until-record_failure :
    (b : CircuitBreaker) (now : ℕ)
    → (record_failure b now).is_open ≡ true
    → (record_failure b now).open_until ≡ now + b.cooldown
unfolding record_failure
open_until-record_failure b now o = ground arith

-- Once a failure at time `now` has left the breaker open, every `allow` before `now + cooldown` is
-- refused, as long as no outcome of an earlier call is reported in between.
pub cooldown_rejects :
    (b : CircuitBreaker) (now : ℕ) (cs : List Call)
    → (record_failure b now).is_open ≡ true
    → All (IsQuiet (now + b.cooldown)) cs
    → All IsRejected (answers (record_failure b now) cs)
cooldown_rejects b now cs o q =
    quiet-IsRejected (record_failure b now) (now + b.cooldown) cs o
      (open_until-record_failure b now o) q
