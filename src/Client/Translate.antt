-- ===== src/Client/Translate.antt =====
-- What Translate, translateOnce and recordCost of pkg/translate/gpt4o.go and of pkg/translate/gemini.go
-- have in common: they differ in the vendor's name, in how they read the response, and in the prices.
pub mod Charged
use lang_stream.Prelude.{
  ℕ, zero, suc, ◌+◌, ◌-◌, ◌*◌, ◌/◌, ◌%◌, ◌^◌, ◌≤◌, ◌<◌, ◌≡◌, refl, sym, ap, ap₂, subst, ◌∙◌, ◌≢◌,
  ◌↔◌, ◌⊎◌, inl, inr, Bool, true, false, not, ◌&&◌, ◌||◌, Option, none, some, List, [], ◌∷◌, ◌++◌,
  map, arith, ltb, leb, ◌==◌, if◌then◌else◌, if_cases,
}
use Prim.Native.String.{String}
use text.Mathlib.Text.{◌==◌ as str_eq}
use lang_stream.Floats.{Floats}
use lang_stream.Audio.{Chunk}
use lang_stream.Breaker.{CircuitBreaker, allow}
use lang_stream.Metrics.{LatencyRecorder, record_cost, record_error_reason}
use lang_stream.Client.{
  Failure, canceled, unsupported, Request, answers, fails, Round, Attempted, attempts, guarded,
}
use lang_stream.Client.Sse.{Line}

-- The errors, by the message they carry.
pub data Reason : Type 0 where
  encode_request build_request request_failed context_done reading_stream : Reason
  api_error : (status : ℕ) (message : String) → Reason
  unexpected_status : (status : ℕ) → Reason
  malformed_chunk : List ℕ → Reason
  prompt_blocked : String → Reason
  unsafe_finish : String → Reason

-- `transient` is whether it is wrapped as a transientTranslateError.
pub record TranslateError : Type 0 where
  pub transient : Bool
  pub reason : Reason

unfoldable pub is_retryable_translate_err : TranslateError → Bool
is_retryable_translate_err err = err.transient

abbrev pub permanent : Reason → TranslateError
permanent reason = record { transient = false; reason = reason }

abbrev pub passing : Reason → TranslateError
passing reason = record { transient = true; reason = reason }

-- One HTTP exchange, as the network has it. An answer has its status, the message of its JSON error
-- body (none, or an empty one, when there is none), its lines, and whether reading them breaks off.
pub data Exchange : Type 0 where
  not_encoded not_built : Exchange
  unanswered : (context_ended : Bool) → Exchange
  answered : (status : ℕ) (message : String) (lines : List Line) (broken : Bool) → Exchange

-- The error of an answer that is not 200.
unfoldable pub status_error : ℕ → String → TranslateError
status_error status message = record {
  transient = status == 429 || leb 500 status;
  reason = if str_eq message "" then unexpected_status status else api_error status message;
}

-- One round trip; `read_stream` reads the lines of a 200.
unfoldable pub translate_once :
    {R : Type 0} → (List Line → Bool → R ⊎ TranslateError) → Exchange → R ⊎ TranslateError
unfolding status_error
translate_once read_stream not_encoded = inr (permanent encode_request)
translate_once read_stream not_built = inr (permanent build_request)
translate_once read_stream (unanswered true) = inr (permanent context_done)
translate_once read_stream (unanswered false) = inr (passing request_failed)
translate_once read_stream (answered status message lines broken) =
    if status == 200 then read_stream lines broken else inr (status_error status message)

-- The language pairs that a translator takes; an empty source stands for any.
unfoldable pub supports : List (String × String) → String → String → Bool
supports [] source target = false
supports ((from, to) ∷ pairs) source target =
    (str_eq from source || str_eq from "") && str_eq to target || supports pairs source target

-- What a call meets: the context at its start, the clock at `allow` and at the end, and for each
-- attempt the wait before it, its exchange, and the context after it.
pub record Weather : Type 0 where
  pub ended_at_start : Bool
  pub now : ℕ
  pub later : ℕ
  pub wait_cut : ℕ → Bool
  pub exchange : ℕ → Exchange
  pub ended_after : ℕ → Bool

unfoldable pub outcome : {R : Type 0} → R ⊎ TranslateError → Bool → Request R TranslateError
outcome (inl r) ended = answers r
outcome (inr err) ended = fails err ended

abbrev pub gpt4o_max_attempts : ℕ
gpt4o_max_attempts = 3

-- The rounds of a call.
abbrev pub rounds :
    {R : Type 0} → (List Line → Bool → R ⊎ TranslateError) → Weather → ℕ → Round R TranslateError
rounds read_stream w i = record {
  wait_cut = w.wait_cut i;
  request = outcome (translate_once read_stream (w.exchange i)) (w.ended_after i);
}

module _ (F : Floats) {Usage : Type 0} (vendor cost_vendor : String)
    (read_stream : List Line → Bool → (String × Option Usage) ⊎ TranslateError)
    (cost : String → String → Option Usage → F.Float) where
  open F use {Float}

  -- The recorder is there, or not (`if g.metrics != nil`).
  unfoldable pub refused : Option (LatencyRecorder Float) → Option (LatencyRecorder Float)
  refused none = none
  refused (some m) = some (record_error_reason m "translate" vendor "circuit_open")

  unfoldable pub charged :
      Option (LatencyRecorder Float)
      → String
      → String
      → Option Usage
      → Option (LatencyRecorder Float)
  charged none text translated usage = none
  charged (some m) text translated usage =
      some (record_cost F m cost_vendor (cost text translated usage))

  -- The recorder and the result, by the result of the loop.
  unfoldable pub reported :
      Option (LatencyRecorder Float)
      → (text source target : String) → (is_final : Bool)
      → (String × Option Usage) ⊎ Failure TranslateError
      → Option (LatencyRecorder Float) × (Chunk ⊎ Failure TranslateError)
  unfolding charged
  reported m text source target is_final (inl (translated, usage)) = (
    charged m text translated usage,
    inl (record {
      text = translated;
      source_lang = source;
      target_lang = target;
      is_final = is_final;
    }),
  )
  reported m text source target is_final (inr failure) = (m, inr failure)

  -- The breaker, the recorder, the result, and the number of requests.
  unfoldable pub translate :
      List (String × String)
      → CircuitBreaker
      → Option (LatencyRecorder Float)
      → Weather
      → (text source target : String) → (is_final : Bool)
      → CircuitBreaker × Option (LatencyRecorder Float) × (Chunk ⊎ Failure TranslateError) × ℕ
  unfolding reported refused
  translate pairs b m w text source target is_final =
      if w.ended_at_start
      then (b, m, inr canceled, 0)
      else if not (supports pairs source target)
      then (b, m, inr unsupported, 0)
      else let made =
          attempts is_retryable_translate_err gpt4o_max_attempts (rounds read_stream w)
            gpt4o_max_attempts 0 in
        let (b', result, requests) = guarded b w.now w.later made in
        let (m', out) =
          reported (if (allow b w.now).1 then m else refused m) text source target is_final
            result in
        (b', m', out, requests)
