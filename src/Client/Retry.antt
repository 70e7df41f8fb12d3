-- ===== src/Client/Retry.antt =====
-- What a call of a vendor's client comes to, whatever happens: the number of requests, and when a
-- success or a failure is counted (Translate in pkg/translate/gpt4o.go and pkg/translate/gemini.go,
-- SynthesizeStream in pkg/tts/cartesia.go and pkg/tts/elevenlabs.go).
use lang_stream.Prelude.{
  ℕ, zero, suc, ◌+◌, ◌≤◌, ◌<◌, ◌≡◌, refl, inl, inr, Bool, true, false, ◌&&◌, arith, ltb,
  if◌then◌else◌, if_cases,
}
use lang_stream.Client.{
  Failure, true, false, Bool, Attempted, Round, Request, answers, fails, unprepared, attempts,
  after_error, request_once, vendor, canceled, stopped, failed, succeeded, aborted,
}

-- What a call comes to, whatever the vendor and the caller do: at most so many requests; a success is
-- counted exactly with an answer; a failure is counted only with the error of the last of all the
-- requests, and that error is worth another one.
pub record IsSettled {R E : Type 0} (retryable : E → Bool) (max_attempts : ℕ) (made : Attempted R E)
    : Type 0 where
  pub bounded : made.requests ≤ max_attempts
  pub answered : (r : R) → made.result ≡ inl r → made.settlement ≡ succeeded
  pub counted : made.settlement ≡ succeeded → (r : R) × (made.result ≡ inl r)
  pub exhausted :
      made.settlement ≡ failed
      → (made.requests ≡ max_attempts)
        × (err : E) × (made.result ≡ inr (vendor err))
        × (retryable err ≡ true)

module _ {R E : Type 0} (retryable : E → Bool) (max_attempts : ℕ) where
  stopped-aborted :
      (n : ℕ) (f : Failure E)
      → n ≤ max_attempts
      → IsSettled retryable max_attempts (stopped {R = R} n aborted (inr f))
  stopped-aborted n f le = ground arith

  stopped-failed :
      (n : ℕ) (err : E)
      → n ≡ max_attempts
      → retryable err ≡ true
      → IsSettled retryable max_attempts (stopped {R = R} n failed (inr (vendor err)))
  stopped-failed n err eq worth = ground arith

  stopped-succeeded :
      (n : ℕ) (r : R)
      → n ≤ max_attempts
      → IsSettled retryable max_attempts (stopped {E = E} n succeeded (inl r))
  stopped-succeeded n r le = ground arith

  stopped-IsSettled :
      (n : ℕ) (err : E) (worth : Bool)
      → retryable err ≡ worth
      → n ≤ max_attempts
      → (worth ≡ true → n ≡ max_attempts)
      → IsSettled retryable max_attempts
          (stopped {R = R} n (if worth then failed else aborted) (inr (vendor err)))
  stopped-IsSettled n err true e le last = stopped-failed n err (last refl) e
  stopped-IsSettled n err false e le last = stopped-aborted n _ le

  after_error-IsSettled :
      (attempt : ℕ) (err : E) (ended : Bool) (rest : Attempted R E)
      → attempt < max_attempts
      → IsSettled retryable max_attempts rest
      → IsSettled retryable max_attempts (after_error retryable max_attempts attempt err ended rest)
  unfolding after_error
  after_error-IsSettled attempt err true rest lt settled = stopped-aborted _ _ (omega arith)
  after_error-IsSettled attempt err false rest lt settled =
      if_cases (IsSettled retryable max_attempts) _ _ _
        (λ e. stopped-IsSettled (attempt + 1) err (retryable err) refl (omega arith) (ground arith))
        (λ _. settled)

  request_once-IsSettled :
      (attempt : ℕ) (request : Request R E) (rest : Attempted R E)
      → attempt < max_attempts
      → IsSettled retryable max_attempts rest
      → IsSettled retryable max_attempts (request_once retryable max_attempts attempt request rest)
  unfolding request_once
  request_once-IsSettled attempt (answers r) rest lt settled = stopped-succeeded _ r (omega arith)
  request_once-IsSettled attempt (unprepared err) rest lt settled =
      stopped-aborted _ _ (omega arith)
  request_once-IsSettled attempt (fails err ended) rest lt settled =
      after_error-IsSettled attempt err ended rest lt settled

  attempts-IsSettled :
      (round : ℕ → Round R E) (left attempt : ℕ)
      → attempt + left ≡ max_attempts
      → IsSettled retryable max_attempts (attempts retryable max_attempts round left attempt)
  unfolding attempts
  attempts-IsSettled round zero attempt eq = stopped-aborted _ _ (omega arith)
  attempts-IsSettled round (suc left) attempt eq =
      let rest = attempts retryable max_attempts round left (attempt + 1) in
      if_cases (IsSettled retryable max_attempts) (ltb 0 attempt && (round attempt).wait_cut) _
        (request_once retryable max_attempts attempt (round attempt).request rest)
        (λ _. stopped-aborted attempt canceled (omega arith))
        (λ _.
          request_once-IsSettled attempt (round attempt).request rest (omega arith)
            (attempts-IsSettled round left (attempt + 1) (omega arith)))

-- Whatever the vendor and the caller do, a call makes at most so many requests as the limit, counts a
-- success exactly when it has an answer, and counts a failure only after as many requests as the
-- limit, with the error of the last one, and only if that error is worth another request.
pub attempts_settle :
    {R E : Type 0} (retryable : E → Bool) (max_attempts : ℕ) (round : ℕ → Round R E)
    → IsSettled retryable max_attempts (attempts retryable max_attempts round max_attempts 0)
attempts_settle retryable max_attempts round =
    attempts-IsSettled retryable max_attempts round max_attempts 0 (omega arith)
