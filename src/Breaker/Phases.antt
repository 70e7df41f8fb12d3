-- ===== src/Breaker/Phases.antt =====
-- The breaker of pkg/asr/circuitbreaker.go against the three states that its comment describes.
use lang_stream.Prelude.{
  ℕ, ◌+◌, ◌≡◌, refl, Bool, true, false, Option, none, some, List, [], ◌∷◌, arith, ltb, leb,
  if◌then◌else◌,
}
use lang_stream.Breaker.{
  CircuitBreaker, Call, allows, succeeds, fails, aborts, allow, record_success, record_failure,
  abort, step, answer, run, answers,
}

-- The states of the comment. A closed breaker keeps its count of consecutive failures, an open one
-- the end of its cooldown; `probing` has its probe in flight.
pub data Phase : Type 0 where
  closed : ℕ → Phase
  cooling : ℕ → Phase
  probing : ℕ → Phase

unfoldable pub phase : CircuitBreaker → Phase
phase b =
    if b.is_open
    then (if b.probe_in_flight then probing b.open_until else cooling b.open_until)
    else closed b.consecutive_fails

module _ (threshold cooldown : ℕ) where
  -- How each call moves the phases.
  pub next : Phase → Call → Phase
  next (closed n) (allows now) = closed n
  next (cooling until) (allows now) = if ltb now until then cooling until else probing until
  next (probing until) (allows now) = probing until
  next p succeeds = closed 0
  next (closed n) (fails now) =
      if leb threshold (n + 1) then cooling (now + cooldown) else closed (n + 1)
  next (cooling until) (fails now) = cooling (now + cooldown)
  next (probing until) (fails now) = cooling (now + cooldown)
  next (closed n) aborts = closed n
  next (cooling until) aborts = cooling until
  next (probing until) aborts = cooling until

  -- Whom the phases let through.
  pub admits : Phase → Call → Option Bool
  admits (closed n) (allows now) = some true
  admits (cooling until) (allows now) = some (leb until now)
  admits (probing until) (allows now) = some false
  admits p succeeds = none
  admits p (fails now) = none
  admits p aborts = none

  pub last : Phase → List Call → Phase
  last p [] = p
  last p (c ∷ cs) = last (next p c) cs

  pub admissions : Phase → List Call → List (Option Bool)
  admissions p [] = []
  admissions p (c ∷ cs) = admits p c ∷ admissions (next p c) cs

phase-step :
    (b : CircuitBreaker) (c : Call) → phase (step b c) ≡ next b.threshold b.cooldown (phase b) c
unfolding phase step next allow record_success record_failure abort
phase-step b (allows now) = ground arith
phase-step b succeeds = ground arith
phase-step b (fails now) = ground arith
phase-step b aborts = ground arith

answer-admits :
    (b : CircuitBreaker) (c : Call) → answer b c ≡ admits b.threshold b.cooldown (phase b) c
unfolding phase answer admits allow
answer-admits b (allows now) = ground arith
answer-admits b succeeds = ground arith
answer-admits b (fails now) = ground arith
answer-admits b aborts = ground arith

step_parameters :
    (b : CircuitBreaker) (c : Call)
    → ((step b c).threshold ≡ b.threshold) × ((step b c).cooldown ≡ b.cooldown)
unfolding step allow record_success record_failure abort
step_parameters b (allows now) = ground arith
step_parameters b succeeds = ground arith
step_parameters b (fails now) = ground arith
step_parameters b aborts = ground arith

-- After every sequence of calls the breaker is in the phase that the three-state machine reaches,
-- and each `allow` on the way has answered as that machine answers.
pub run_refines :
    (b : CircuitBreaker) (cs : List Call)
    → (phase (run b cs) ≡ last b.threshold b.cooldown (phase b) cs)
      × (answers b cs ≡ admissions b.threshold b.cooldown (phase b) cs)
unfolding run answers last admissions
run_refines b [] = (refl, refl)
run_refines b (c ∷ cs) =
    let same = step_parameters b c in
    let rest = run_refines (step b c) cs in
    ground (arith, phase-step b c, answer-admits b c, same, rest)
