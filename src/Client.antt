-- ===== src/Client.antt =====
-- The clients of the vendors: how pkg/translate/gpt4o.go, pkg/translate/gemini.go,
-- pkg/tts/cartesia.go and pkg/tts/elevenlabs.go try a request again and settle their circuit breaker.
-- The four retry loops are the same but for what a request is. The network is the environment.
pub mod Retry
pub mod Lost
pub mod Sse
pub mod Translate
pub mod Gpt4o
pub mod Synthesize
pub mod Cartesia
pub mod ElevenLabs
pub mod Gemini
pub mod Settled
use lang_stream.Prelude.{
  inl, inr, ◌⊎◌, ℕ, zero, suc, ◌+◌, ◌-◌, Bool, true, false, not, ◌&&◌, ◌||◌, Option, none, some,
  List, ltb, ◌==◌, if◌then◌else◌,
}
use lang_stream.Breaker.{CircuitBreaker, allow, record_success, record_failure, abort}

-- An error that a caller gets, beside those of the request itself.
pub data Failure (E : Type 0) : Type 0 where
  canceled : Failure E
  unsupported : Failure E
  empty_text : Failure E
  circuit_open : Failure E
  vendor : E → Failure E

-- One round of the loop, as the environment has it: whether the context ends during the wait before
-- it, and what the request brings. `unprepared` is an error before any request (newCartesiaContextID);
-- with an error comes whether the context has ended by then.
pub data Request (R E : Type 0) : Type 0 where
  answers : R → Request R E
  fails : E → (context_ended : Bool) → Request R E
  unprepared : E → Request R E

pub record Round (R E : Type 0) : Type 0 where
  pub wait_cut : Bool
  pub request : Request R E

-- The breaker's method that the loop calls, or that the deferred function calls in its place.
pub data Settlement : Type 0 where
  succeeded failed aborted : Settlement

-- The result of a loop, and how many requests it has made.
pub record Attempted (R E : Type 0) : Type 0 where
  pub settlement : Settlement
  pub result : R ⊎ Failure E
  pub requests : ℕ

abbrev pub stopped : {R E : Type 0} → ℕ → Settlement → R ⊎ Failure E → Attempted R E
stopped made settlement result = record {
  settlement = settlement;
  result = result;
  requests = made;
}

module _ {R E : Type 0} (retryable : E → Bool) (max_attempts : ℕ) where
  -- A request that has brought an error; `rest` are the rounds after it.
  unfoldable pub after_error : ℕ → E → Bool → Attempted R E → Attempted R E
  after_error attempt err context_ended rest =
      if context_ended
      then stopped (attempt + 1) aborted (inr canceled)
      else if not (retryable err) || attempt == max_attempts - 1
      then stopped (attempt + 1) (if retryable err then failed else aborted) (inr (vendor err))
      else rest

  -- The round number `attempt`, its wait over.
  unfoldable pub request_once : ℕ → Request R E → Attempted R E → Attempted R E
  unfolding after_error
  request_once attempt (answers r) rest = stopped (attempt + 1) succeeded (inl r)
  request_once attempt (unprepared err) rest = stopped attempt aborted (inr (vendor err))
  request_once attempt (fails err context_ended) rest = after_error attempt err context_ended rest

  -- The loop from the round number `attempt` on, with `left` rounds to go. After its last round it
  -- is not reached: that round returns.
  unfoldable pub attempts : (ℕ → Round R E) → (left attempt : ℕ) → Attempted R E
  unfolding request_once
  attempts round zero attempt = stopped attempt aborted (inr canceled)
  attempts round (suc left) attempt =
      let rest = attempts round left (attempt + 1) in
      if ltb 0 attempt && (round attempt).wait_cut
      then stopped attempt aborted (inr canceled)
      else request_once attempt (round attempt).request rest

-- What becomes of the breaker, at the time `now`.
unfoldable pub settle : CircuitBreaker → Settlement → ℕ → CircuitBreaker
settle b succeeded now = record_success b
settle b failed now = record_failure b now
settle b aborted now = abort b

-- A call after the breaker's answer: the breaker, the result, and the requests made. A call that the
-- breaker refuses makes none. `later` is the time of the clock at the end.
unfoldable pub after_allow :
    {R E : Type 0}
    → (later : ℕ) → Attempted R E
    → CircuitBreaker × Bool
    → CircuitBreaker × (R ⊎ Failure E) × ℕ
unfolding settle
after_allow later made (b, true) = (settle b made.settlement later, made.result, made.requests)
after_allow later made (b, false) = (b, inr circuit_open, 0)

-- The same, with what the breaker answers at the time `now`.
unfoldable pub guarded :
    {R E : Type 0}
    → CircuitBreaker
    → (now later : ℕ) → Attempted R E
    → CircuitBreaker × (R ⊎ Failure E) × ℕ
unfolding after_allow
guarded b now later made = after_allow later made (allow b now)
