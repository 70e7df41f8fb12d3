-- ===== src/Client/Lost.antt =====
-- What the retry loop of a vendor's client returns after rounds that are worth another one: an
-- answer, an error that is not, or the last error (Translate in pkg/translate/gpt4o.go and
-- pkg/translate/gemini.go, SynthesizeStream in pkg/tts/cartesia.go and pkg/tts/elevenlabs.go).
use lang_stream.Prelude.{
  ℕ, zero, suc, ◌+◌, ◌-◌, ◌<◌, ◌≡◌, ap, ap₂, ◌∙◌, inl, inr, Bool, true, false, ◌&&◌, arith,
  if◌then◌else◌,
}
use lang_stream.Client.{
  true, false, Bool, Attempted, Round, Request, answers, fails, attempts, after_error, request_once,
  vendor, stopped, failed, succeeded, aborted,
}

-- A round whose wait passes and whose request brings an error that is worth another one.
unfoldable pub IsLost : {R E : Type 0} → (E → Bool) → Round R E → E → Type 0
IsLost retryable round err =
    (round.wait_cut ≡ false) × (round.request ≡ fails err false) × (retryable err ≡ true)

module _ {R E : Type 0} (retryable : E → Bool) (max_attempts : ℕ) (round : ℕ → Round R E) where
  not_cut :
      (b : Bool) (x y : Attempted R E) (cut : Bool) → cut ≡ false → (if b && cut then x else y) ≡ y
  not_cut b x y cut e = ground arith

  after_lost :
      (attempt : ℕ) (err : E) (rest : Attempted R E)
      → retryable err ≡ true
      → attempt + 1 < max_attempts
      → after_error retryable max_attempts attempt err false rest ≡ rest
  unfolding after_error
  after_lost attempt err rest e lt = ground arith

  after_last :
      (attempt : ℕ) (err : E) (rest : Attempted R E)
      → retryable err ≡ true
      → attempt + 1 ≡ max_attempts
      → after_error retryable max_attempts attempt err false rest
        ≡ stopped (attempt + 1) failed (inr (vendor err))
  unfolding after_error
  after_last attempt err rest e eq = ground arith

  after_permanent :
      (attempt : ℕ) (err : E) (rest : Attempted R E)
      → retryable err ≡ false
      → after_error retryable max_attempts attempt err false rest
        ≡ stopped (attempt + 1) aborted (inr (vendor err))
  unfolding after_error
  after_permanent attempt err rest e = ground arith

  -- A round that is not cut is its request.
  attempts_uncut :
      (left attempt : ℕ)
      → (round attempt).wait_cut ≡ false
      → attempts retryable max_attempts round (suc left) attempt
        ≡ request_once retryable max_attempts attempt
            (round attempt).request
            (attempts retryable max_attempts round left (attempt + 1))
  unfolding attempts
  attempts_uncut left attempt e = not_cut _ _ _ _ e

  -- A lost round that is not the last leads to the next one.
  attempts_lost :
      (left attempt : ℕ) (err : E)
      → IsLost retryable (round attempt) err
      → attempt + 1 < max_attempts
      → attempts retryable max_attempts round (suc left) attempt
        ≡ attempts retryable max_attempts round left (attempt + 1)
  unfolding request_once IsLost
  attempts_lost left attempt err (uncut, brings, worth) lt =
      attempts_uncut left attempt uncut
      ∙ ap
          (λ r.
            request_once retryable max_attempts attempt r
              (attempts retryable max_attempts round left (attempt + 1)))
          brings
      ∙ after_lost attempt err _ worth lt

  -- The d rounds from `attempt` to before k are lost.
  skip_lost :
      (errs : ℕ → E) (d left attempt k : ℕ)
      → attempt + d ≡ k
      → k < max_attempts
      → ((i : ℕ) → i < k → IsLost retryable (round i) (errs i))
      → attempts retryable max_attempts round (d + left) attempt
        ≡ attempts retryable max_attempts round left k
  skip_lost errs zero left attempt k eq lt lost =
      ap₂ (attempts retryable max_attempts round) (omega arith) (omega arith)
  skip_lost errs (suc d) left attempt k eq lt lost =
      ap (λ n. attempts retryable max_attempts round n attempt) (omega arith)
      ∙ attempts_lost (d + left) attempt (errs attempt) (lost attempt (omega arith)) (omega arith)
      ∙ skip_lost errs d left (attempt + 1) k (omega arith) lt lost

  -- When the first k rounds are lost, fewer than the limit, and the next one is not cut, the loop
  -- comes to the request of that one.
  attempts_reach :
      (errs : ℕ → E) (k : ℕ) (request : Request R E)
      → k < max_attempts
      → ((i : ℕ) → i < k → IsLost retryable (round i) (errs i))
      → (round k).wait_cut ≡ false
      → (round k).request ≡ request
      → attempts retryable max_attempts round max_attempts 0
        ≡ request_once retryable max_attempts k request
            (attempts retryable max_attempts round (max_attempts - k - 1) (k + 1))
  attempts_reach errs k request lt lost uncut brings =
      let left = max_attempts - k - 1 in
      let here : max_attempts ≡ k + suc left = omega arith in
      ap (λ n. attempts retryable max_attempts round n 0) here
      ∙ skip_lost errs k (suc left) 0 k (omega arith) lt lost
      ∙ attempts_uncut left k uncut
      ∙ ap
          (λ q.
            request_once retryable max_attempts k q
              (attempts retryable max_attempts round left (k + 1)))
          brings

  -- When the first k rounds are lost, fewer than the limit, and the next one, not cut, brings an
  -- answer, the loop returns the answer after k + 1 requests and counts a success.
  pub attempts_recover :
      (errs : ℕ → E) (k : ℕ) (r : R)
      → k < max_attempts
      → ((i : ℕ) → i < k → IsLost retryable (round i) (errs i))
      → (round k).wait_cut ≡ false
      → (round k).request ≡ answers r
      → attempts retryable max_attempts round max_attempts 0
        ≡ record { settlement = succeeded; result = inl r; requests = k + 1 }
  unfolding request_once
  attempts_recover errs k r lt lost uncut brings =
      attempts_reach errs k (answers r) lt lost uncut brings

  -- When the first k rounds are lost, fewer than the limit, and the next one, not cut, brings an
  -- error that is not worth another request, the loop returns that error after k + 1 requests, and
  -- counts neither a success nor a failure.
  pub attempts_give_up :
      (errs : ℕ → E) (k : ℕ) (err : E)
      → k < max_attempts
      → ((i : ℕ) → i < k → IsLost retryable (round i) (errs i))
      → (round k).wait_cut ≡ false
      → (round k).request ≡ fails err false
      → retryable err ≡ false
      → attempts retryable max_attempts round max_attempts 0
        ≡ record { settlement = aborted; result = inr (vendor err); requests = k + 1 }
  unfolding request_once
  attempts_give_up errs k err lt lost uncut brings permanent =
      attempts_reach errs k (fails err false) lt lost uncut brings
      ∙ after_permanent k err _ permanent

  -- When every round up to the limit is lost, the loop returns the error of the last one after as
  -- many requests as the limit, and counts one failure.
  pub attempts_exhaust :
      (errs : ℕ → E) (k : ℕ)
      → k + 1 ≡ max_attempts
      → ((i : ℕ) → i < max_attempts → IsLost retryable (round i) (errs i))
      → attempts retryable max_attempts round max_attempts 0
        ≡ record { settlement = failed; result = inr (vendor (errs k)); requests = max_attempts }
  unfolding request_once IsLost
  attempts_exhaust errs k eq lost =
      let (uncut, brings, worth) = lost k (omega arith) in
      attempts_reach errs k (fails (errs k) false) (omega arith) (λ i h. lost i (omega arith)) uncut
        brings
      ∙ after_last k (errs k) _ worth eq
      ∙ ap (λ n. record { settlement = failed; result = inr (vendor (errs k)); requests = n }) eq
