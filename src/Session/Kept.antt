-- ===== src/Session/Kept.antt =====
-- What every event of a leg keeps: a property of the leg's state and its recorder that each of the
-- calls of pkg/langstream/session.go on them keeps.
pub mod Events
use Prim.Native.String.{String}
use text.Mathlib.Text.{◌==◌ as str_eq}
use lang_stream.Prelude.{
  ℕ, ◌≡◌, Bool, true, false, not, ◌⊎◌, inl, inr, Option, none, some, List, [], ◌∷◌, refl, ◌∙◌, ◌==◌,
  length, Bool-cases, if◌then◌else◌,
}
use lang_stream.Prelude.Int.{ℤ, pos}
use lang_stream.Floats.{Floats}
use lang_stream.Audio.{AudioChunk, Transcript, Chunk}
use lang_stream.Fallback.{
  LegState, AudioRingBuffer, BufferedFrame, drain, record_failure, record_success,
}
use lang_stream.Metrics.{
  LatencyRecorder, record_sample, record_event, record_error, record_error_reason,
}
use lang_stream.Leg.{
  SessionConfig, Environment, Leg, Mode, listening, draining, over, BackendError, TtsStream, closed,
  silent, first_unsent, first_sent, Forwarded, completed, stalled, shutting_down,
  forward_tts_with_stall_guard, emit_passthrough_timed, record_if_started, record_fallback,
  record_fallback_err, record_fallback_reason, record_success_metric, vendor_label, forward_audio,
}
use lang_stream.Session.{
  on_transcript, on_end, on_tick, on_cancelled, passed_through, failed, after_tts, synthesize_step,
  translate_step, flush_dead_leg_audio, low_confidence,
}
use lang_stream.Session.Run.{Event, pushed, transcript, ended, tick, cancelled, step, step_in, run}

module _ (F : Floats) where
  open F use {Float}

  pub record IsKept (max : ℤ) (P : LegState → LatencyRecorder Float → Type 0) : Type 0 where
    pub audio :
        (s : LegState) (m : LatencyRecorder Float) (a : AudioRingBuffer)
        → P s m
        → P (record s { audio = a }) m
    pub success : (s : LegState) (m : LatencyRecorder Float) → P s m → P (record_success s) m
    pub failure :
        (s : LegState) (m : LatencyRecorder Float) (fatal : Bool)
        → P s m
        → P (record_failure s fatal max).0 (
            if (record_failure s fatal max).1 then record_fallback F m "leg_degraded" s.name else m)
    pub death :
        (s : LegState) (m : LatencyRecorder Float) (reason : String)
        → P s m
        → P
            (record_failure s true (pos 0)).0
            (record_error_reason m "leg_degraded" (vendor_label s.name) reason)
    pub noted :
        (s : LegState) (m : LatencyRecorder Float) (reason : String)
        → s.degraded ≡ true
        → P s m
        → P s (record_error_reason m "leg_degraded" (vendor_label s.name) reason)
    pub sample :
        (s : LegState) (m : LatencyRecorder Float) (stage : String) (ms : Float)
        → P s m
        → P s (record_sample m stage ms)
    pub event :
        (s : LegState) (m : LatencyRecorder Float) (stage vendor : String)
        → P s m
        → P s (record_event m stage vendor)
    pub err :
        (s : LegState) (m : LatencyRecorder Float) (stage vendor reason : String)
        → str_eq stage "leg_degraded" ≡ false
        → P s m
        → P s (record_error_reason m stage vendor reason)

  -- A leg whose goroutine is `drainDeadLeg` is degraded.
  pub record IsSound (P : LegState → LatencyRecorder Float → Type 0) (leg : Leg Float)
      : Type 0 where
    pub kept : P leg.state leg.metrics
    pub dead : leg.mode ≡ draining → leg.state.degraded ≡ true

  module _ (cfg : SessionConfig Float) (P : LegState → LatencyRecorder Float → Type 0)
      (keep : IsKept cfg.fallback.max_consecutive_failures P) where
    pub started-kept :
        (s : LegState) (m : LatencyRecorder Float) (stage : String) (start : Option ℕ) (ms : Float)
        → P s m
        → P s (record_if_started F m stage start ms)
    unfolding record_if_started
    started-kept s m stage none ms h = h
    started-kept s m stage (some t) ms h = keep.sample s m stage ms h

    passed_through-cut :
        (env : Environment Float) (cut : Option ℕ) (s : LegState) (m : LatencyRecorder Float)
        (frames : List BufferedFrame) (start : Option ℕ)
        → P s m
        → IsSound P (passed_through F cfg (record env { passthrough_cut = cut }) s m frames start).0
    unfolding passed_through emit_passthrough_timed forward_audio
    passed_through-cut env none s m frames start h = record {
      kept = started-kept s m "total" start env.total_ms h;
      dead = λ e. cc;
    }
    passed_through-cut env (some n) s m frames start h = record { kept = h; dead = λ e. cc }

    pub passed_through-kept :
        (env : Environment Float) (s : LegState) (m : LatencyRecorder Float)
        (frames : List BufferedFrame) (start : Option ℕ)
        → P s m
        → IsSound P (passed_through F cfg env s m frames start).0
    passed_through-kept env s m frames start h =
        passed_through-cut env env.passthrough_cut s m frames start h

    failed-kept :
        (env : Environment Float) (s : LegState) (fatal : Bool) (m : LatencyRecorder Float)
        (frames : List BufferedFrame) (start : Option ℕ)
        → P s m
        → IsSound P (failed F cfg env s fatal m frames start).0
    unfolding failed
    failed-kept env s fatal m frames start h =
        passed_through-kept env _ _ frames start (keep.failure s m fatal h)

    after_tts-kept :
        (env : Environment Float) (s : LegState) (frames : List BufferedFrame) (start : Option ℕ)
        (sent : List AudioChunk) (result : Forwarded) (m : LatencyRecorder Float)
        → P s m
        → IsSound P (after_tts F cfg env s frames start (sent, result, m)).0
    unfolding after_tts record_fallback record_error record_success_metric
    after_tts-kept env s frames start sent shutting_down m h = record { kept = h; dead = λ e. cc }
    after_tts-kept env s frames start sent stalled m h =
        failed-kept env s false _ frames start
          (keep.err s m "tts" (vendor_label cfg.tts_name) "" refl h)
    after_tts-kept env s frames start sent completed m h = record {
      kept =
          started-kept _ _ "total" start env.total_ms
            (keep.event _ _ "tts" (vendor_label cfg.tts_name) (keep.success s m h));
      dead = λ e. cc;
    }

    guard-kept :
        (stream : TtsStream) (s : LegState) (ms : Float) (m : LatencyRecorder Float)
        → P s m
        → P s (forward_tts_with_stall_guard F stream ms m).2
    unfolding forward_tts_with_stall_guard
    guard-kept closed s ms m h = h
    guard-kept (silent session_ended) s ms m h = h
    guard-kept (first_unsent chunk) s ms m h = keep.sample s m "tts_first_chunk" ms h
    guard-kept (first_sent chunk rest cut) s ms m h = elim (Bool-cases chunk.is_final) [
      | inl e ↦ rw e (keep.sample s m "tts_first_chunk" ms h)
      | inr e ↦ rw e (keep.sample s m "tts_first_chunk" ms h)
    ]

    synthesize_step-kept :
        (env : Environment Float) (s : LegState) (frames : List BufferedFrame) (start : Option ℕ)
        (m : LatencyRecorder Float) (result : TtsStream ⊎ BackendError)
        → P s m
        → IsSound P (synthesize_step F cfg env s frames start m result).0
    unfolding synthesize_step record_fallback_err
    synthesize_step-kept env s frames start m (inr err) h =
        failed-kept env s err.fatal _ frames start
          (keep.err s m "tts" (vendor_label cfg.tts_name) _ refl h)
    synthesize_step-kept env s frames start m (inl stream) h =
        after_tts-kept env s frames start _ _ _ (guard-kept stream s env.tts_ms m h)

    pub translate_step-kept :
        (env : Environment Float) (s : LegState) (frames : List BufferedFrame) (start : Option ℕ)
        (m : LatencyRecorder Float) (result : Chunk ⊎ BackendError)
        → P s m
        → IsSound P (translate_step F cfg env s frames start m result).0
    unfolding translate_step record_fallback_err record_success_metric
    translate_step-kept env s frames start m (inr err) h =
        failed-kept env s err.fatal _ frames start
          (keep.err s m "translate" (vendor_label cfg.translator_name) _ refl h)
    translate_step-kept env s frames start m (inl chunk) h =
        let ok =
          keep.event _ _ "translate" (vendor_label cfg.translator_name) (keep.success s m h) in
        elim (Bool-cases (str_eq chunk.text "")) [
          | inl e ↦ rw e (record { kept = ok; dead = λ f. cc })
          | inr e ↦ rw e (synthesize_step-kept env _ frames start _ _ ok)
        ]
