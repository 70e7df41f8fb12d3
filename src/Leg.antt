-- ===== src/Leg.antt =====
-- pkg/langstream/session.go: the values of one leg of a call and what it does with one of them: its
-- configuration, what its environment answers, its state, the helpers that record a failure or a
-- success under a vendor's label, and the two ways it sends audio: the passthrough of what is
-- buffered and the forwarding of a synthesis under the stall guard.
use lang_stream.Prelude.{
  ℕ, ◌⊎◌, Bool, true, false, Option, none, some, List, [], ◌∷◌, if◌then◌else◌, take,
}
use Prim.Native.String.{String}
use text.Mathlib.Text.{◌==◌ as str_eq}
use lang_stream.Prelude.Int.{ℤ}
use lang_stream.Floats.{Floats}
use lang_stream.Audio.{AudioChunk, Chunk, Persona}
use lang_stream.Fallback.{FallbackConfig, BufferedFrame, LegState, build_passthrough_chunks}
use lang_stream.Metrics.{
  LatencyRecorder, record_sample, record_event, record_error, record_error_reason,
}

-- What session.go reads off an error: `isFatal(err)` and whether it wraps ErrCircuitOpen.
pub record BackendError : Type 0 where
  pub fatal : Bool
  pub circuit_open : Bool

-- What the leg meets on the synthesizer's channel: it is closed before a chunk; the deadline passes
-- or the session ends before one; or a chunk comes, is sent on or not (`none`: the session ends
-- instead), and the others follow. A cut of `some n`: the session ends after n more are sent.
pub data TtsStream : Type 0 where
  closed : TtsStream
  silent : (session_ended : Bool) → TtsStream
  first_unsent : AudioChunk → TtsStream
  first_sent : AudioChunk → List AudioChunk → Option ℕ → TtsStream

-- `completed`, `stalled` and `shutting_down` are the three results.
pub data Forwarded : Type 0 where
  completed : Forwarded
  stalled : Forwarded
  shutting_down : Forwarded

pub record Environment (Float : Type 0) : Type 0 where
  pub translate : String → String → String → Bool → Chunk ⊎ BackendError
  pub synthesize : String → Persona → TtsStream ⊎ BackendError
  pub passthrough_cut : Option ℕ
  pub asr_ms : Float
  pub mt_ms : Float
  pub tts_ms : Float
  pub total_ms : Float

-- The fields of a session that a leg reads.
pub record SessionConfig (Float : Type 0) : Type 0 where
  pub asr_name : String
  pub translator_name : String
  pub tts_name : String
  pub fallback : FallbackConfig Float
  pub personas : String → Persona
  pub src_lang : String
  pub dst_lang : String
  pub degrade_tone : ℤ → List ℕ

-- What the leg's goroutine is: `runLeg`, `drainDeadLeg`, or over.
pub data Mode : Type 0 where
  listening : Mode
  draining : Mode
  over : Mode

pub record Leg (Float : Type 0) : Type 0 where
  pub mode : Mode
  pub state : LegState
  pub metrics : LatencyRecorder Float

-- forwardAudio: the chunks sent, and whether the channel was closed normally.
unfoldable pub forward_audio : List AudioChunk → Option ℕ → List AudioChunk × Bool
forward_audio chunks none = (chunks, true)
forward_audio chunks (some n) = (take n chunks, false)

-- `if vendor == "" { vendor = "unknown" }`.
unfoldable pub vendor_label : String → String
vendor_label vendor = if str_eq vendor "" then "unknown" else vendor

module _ (F : Floats) where
  open F use {Float, of_int, lt}

  unfoldable pub record_fallback : LatencyRecorder Float → String → String → LatencyRecorder Float
  record_fallback m stage vendor = record_error m stage (vendor_label vendor)

  unfoldable pub record_fallback_reason :
      LatencyRecorder Float → String → String → String → LatencyRecorder Float
  record_fallback_reason m stage vendor reason =
      record_error_reason m stage (vendor_label vendor) reason

  unfoldable pub record_fallback_err :
      LatencyRecorder Float → String → String → BackendError → LatencyRecorder Float
  record_fallback_err m stage vendor err =
      record_error_reason m stage (vendor_label vendor)
        (if err.circuit_open then "circuit_open" else "")

  unfoldable pub record_success_metric :
      LatencyRecorder Float → String → String → LatencyRecorder Float
  record_success_metric m stage vendor = record_event m stage (vendor_label vendor)

  -- recordTotalIfStarted, and the sample of "asr_first_chunk" in the same way.
  unfoldable pub record_if_started :
      LatencyRecorder Float → String → Option ℕ → Float → LatencyRecorder Float
  record_if_started m stage none ms = m
  record_if_started m stage (some _) ms = record_sample m stage ms

  -- emitPassthroughTimed: the chunks sent, whether the leg goes on, and the recorder.
  unfoldable pub emit_passthrough_timed :
      SessionConfig Float
      → Environment Float
      → LatencyRecorder Float
      → List BufferedFrame
      → Option ℕ
      → List AudioChunk × Bool × LatencyRecorder Float
  unfolding forward_audio record_if_started
  emit_passthrough_timed cfg env m frames utterance_start =
      let (sent, ok) =
        forward_audio
          (build_passthrough_chunks cfg.degrade_tone frames cfg.fallback.degrade_tone_enabled)
          env.passthrough_cut in
      (sent, ok, if ok then record_if_started m "total" utterance_start env.total_ms else m)

  -- forwardTTSWithStallGuard: the chunks sent, the result and the recorder.
  unfoldable pub forward_tts_with_stall_guard :
      TtsStream
      → Float
      → LatencyRecorder Float
      → List AudioChunk × Forwarded × LatencyRecorder Float
  forward_tts_with_stall_guard closed ms m = ([], completed, m)
  forward_tts_with_stall_guard (silent session_ended) ms m =
      ([], if session_ended then shutting_down else stalled, m)
  forward_tts_with_stall_guard (first_unsent chunk) ms m =
      ([], shutting_down, record_sample m "tts_first_chunk" ms)
  forward_tts_with_stall_guard (first_sent chunk rest cut) ms m =
      let timed = record_sample m "tts_first_chunk" ms in
      if chunk.is_final
      then (chunk ∷ [], completed, timed)
      else (let (sent, ok) = forward_audio rest cut in
          (chunk ∷ sent, if ok then completed else shutting_down, timed))
