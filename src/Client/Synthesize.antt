-- ===== src/Client/Synthesize.antt =====
-- What SynthesizeStream of pkg/tts/cartesia.go and of pkg/tts/elevenlabs.go have in common: they differ
-- in the vendor's name, in the price, and in what a request and its errors are.
use lang_stream.Prelude.{ℕ, ◌⊎◌, inl, inr, Bool, not, ◌||◌, Option, none, some, if◌then◌else◌}
use Prim.Native.String.{String, count}
use text.Mathlib.Text.{◌==◌ as str_eq}
use lang_stream.Prelude.Int.{pos, ℤ}
use lang_stream.Floats.{Floats}
use lang_stream.Audio.{Persona}
use lang_stream.Backoff.{ConnErr, is_retryable_conn_err, is_retryable_status_code}
use lang_stream.Breaker.{CircuitBreaker, allow}
use lang_stream.Metrics.{LatencyRecorder, record_cost, record_error_reason}
use lang_stream.Client.{Failure, unsupported, empty_text, Round, attempts, guarded}

-- An error of a request: the vendor's status (wsHandshakeStatusError, elevenlabsStatusError), or one of
-- the connection.
pub data VendorError : Type 0 where
  status_error : ℤ → VendorError
  conn_error : ConnErr → VendorError

-- isRetryableDialErr and isRetryableElevenLabsErr.
unfoldable pub is_retryable_vendor_err : VendorError → Bool
is_retryable_vendor_err (status_error code) = is_retryable_status_code code
is_retryable_vendor_err (conn_error err) = is_retryable_conn_err err

-- The language of a persona, or English.
unfoldable pub language_of : Persona → String
language_of persona = if str_eq persona.language "" then "en" else persona.language

-- English and Hindi.
unfoldable pub supports : String → Bool
supports lang = str_eq "en" lang || str_eq "hi" lang

abbrev pub max_attempts : ℕ
max_attempts = 3

-- The clock at `allow` and at the end, and the rounds of the call.
pub record Weather (R : Type 0) : Type 0 where
  pub now : ℕ
  pub later : ℕ
  pub round : ℕ → Round R VendorError

module _ (F : Floats) (vendor : String) where
  open F use {Float}

  -- The recorder is there, or not (`if c.metrics != nil`).
  unfoldable pub refused : Option (LatencyRecorder Float) → Option (LatencyRecorder Float)
  refused none = none
  refused (some m) = some (record_error_reason m "tts" vendor "circuit_open")

module _ (F : Floats) (vendor : String) (cost_per_char_usd : F.Float) {R : Type 0} where
  open F use {Float, of_int, mul}

  -- The cost of a text whose request has been answered.
  unfoldable pub charged :
      Option (LatencyRecorder Float)
      → String
      → R ⊎ Failure VendorError
      → Option (LatencyRecorder Float)
  charged m text (inr failure) = m
  charged none text (inl stream) = none
  charged (some m) text (inl stream) =
      some (record_cost F m vendor (mul (of_int (pos (count text))) cost_per_char_usd))

  -- The breaker, the recorder, the answer that is then read, and the number of requests.
  unfoldable pub synthesize_stream :
      CircuitBreaker
      → Option (LatencyRecorder Float)
      → Weather R
      → String
      → Persona
      → CircuitBreaker × Option (LatencyRecorder Float) × (R ⊎ Failure VendorError) × ℕ
  unfolding charged refused
  synthesize_stream b m w text persona =
      if str_eq text ""
      then (b, m, inr empty_text, 0)
      else if not (supports (language_of persona))
      then (b, m, inr unsupported, 0)
      else let made = attempts is_retryable_vendor_err max_attempts w.round max_attempts 0 in
        let (b', result, requests) = guarded b w.now w.later made in
        (
          b',
          charged (if (allow b w.now).1 then m else refused F vendor m) text result,
          result,
          requests,
        )
