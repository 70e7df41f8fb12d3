-- ===== src/Session.antt =====
-- pkg/langstream/session.go: one leg of a call. `runLeg` is a state that reads one event at a time:
-- a final transcript, the end of the transcripts, the end of the session. What the translator, the
-- synthesizer, the clock and the cancellation of the session's context do is the environment of an
-- event, an argument of it. Each event is one step: the goroutine of a leg is the only one that
-- changes the leg, but for the pushes of audio, which are steps of their own.
pub mod Run
pub mod Start
pub mod Both
pub mod Shutdown
pub mod Kept
pub mod Degraded
pub mod Failing
pub mod Failures
pub mod Heard
pub mod DeadLeg
use lang_stream.Prelude.{
  ℕ, zero, suc, ◌+◌, ◌-◌, ◌*◌, ◌/◌, ◌%◌, ◌^◌, ◌≤◌, ◌<◌, ◌≡◌, refl, sym, ap, ap₂, subst, ◌∙◌, ◌≢◌,
  ◌↔◌, ◌⊎◌, inl, inr, Bool, Bool-cases, Option-cases, true, false, not, ◌&&◌, ◌||◌, Option, none,
  some, List, [], ◌∷◌, ◌++◌, map, arith, ltb, leb, ◌==◌, if◌then◌else◌, if_cases, length, take,
  ==_iff,
}
use Prim.Native.String.{String}
use text.Mathlib.Text.{◌==◌ as str_eq}
use lang_stream.Prelude.Int.{ℤ, pos}
use lang_stream.Floats.{Floats}
use lang_stream.Audio.{AudioChunk, Transcript, Chunk, Persona}
use lang_stream.Fallback.{
  FallbackConfig, AudioRingBuffer, BufferedFrame, LegState, record_failure, record_success, push,
  drain, build_passthrough_chunks,
}
use lang_stream.Metrics.{
  LatencyRecorder, record_sample, record_event, record_error, record_error_reason,
}
use lang_stream.Leg.{
  BackendError, TtsStream, Forwarded, Environment, SessionConfig, Mode, Leg, forward_audio,
  vendor_label, record_fallback, record_fallback_reason, record_fallback_err, record_success_metric,
  record_if_started, emit_passthrough_timed, forward_tts_with_stall_guard, closed, silent,
  first_unsent, first_sent, completed, stalled, shutting_down, listening, draining, over,
}

module _ (F : Floats) where
  open F use {Float, of_int, lt}

  -- The leg after a passthrough: it goes on, or the goroutine returns.
  unfoldable pub passed_through :
      SessionConfig Float
      → Environment Float
      → LegState
      → LatencyRecorder Float
      → List BufferedFrame
      → Option ℕ
      → Leg Float × List AudioChunk
  unfolding emit_passthrough_timed
  passed_through cfg env leg m frames utterance_start =
      let (sent, ok, timed) = emit_passthrough_timed F cfg env m frames utterance_start in
      (record { mode = if ok then listening else over; state = leg; metrics = timed }, sent)

  -- `if leg.recordFailure(...) { recordFallback(stageLegDegraded) }` and the passthrough after it.
  unfoldable pub failed :
      SessionConfig Float
      → Environment Float
      → LegState
      → Bool
      → LatencyRecorder Float
      → List BufferedFrame
      → Option ℕ
      → Leg Float × List AudioChunk
  unfolding passed_through record_fallback
  failed cfg env leg fatal m frames utterance_start =
      let (after, newly) = record_failure leg fatal cfg.fallback.max_consecutive_failures in
      passed_through cfg env after
        (if newly then record_fallback F m "leg_degraded" leg.name else m) frames utterance_start

  -- What follows forwardTTSWithStallGuard.
  unfoldable pub after_tts :
      SessionConfig Float
      → Environment Float
      → LegState
      → List BufferedFrame
      → Option ℕ
      → List AudioChunk × Forwarded × LatencyRecorder Float
      → Leg Float × List AudioChunk
  unfolding failed record_fallback record_success_metric record_if_started
  after_tts cfg env leg frames start (sent, shutting_down, m) =
      (record { mode = over; state = leg; metrics = m }, sent)
  after_tts cfg env leg frames start (sent, stalled, m) =
      let (after, more) =
        failed cfg env leg false (record_fallback F m "tts" cfg.tts_name) frames start in
      (after, sent ++ more)
  after_tts cfg env leg frames start (sent, completed, m) = (
    record {
      mode = listening;
      state = record_success leg;
      metrics =
          record_if_started F (record_success_metric F m "tts" cfg.tts_name) "total" start
            env.total_ms;
    },
    sent,
  )

  unfoldable pub synthesize_step :
      SessionConfig Float
      → Environment Float
      → LegState
      → List BufferedFrame
      → Option ℕ
      → LatencyRecorder Float
      → TtsStream ⊎ BackendError
      → Leg Float × List AudioChunk
  unfolding failed record_fallback_err forward_tts_with_stall_guard after_tts
  synthesize_step cfg env leg frames start m (inr err) =
      failed cfg env leg err.fatal (record_fallback_err F m "tts" cfg.tts_name err) frames start
  synthesize_step cfg env leg frames start m (inl stream) =
      after_tts cfg env leg frames start (forward_tts_with_stall_guard F stream env.tts_ms m)

  unfoldable pub translate_step :
      SessionConfig Float
      → Environment Float
      → LegState
      → List BufferedFrame
      → Option ℕ
      → LatencyRecorder Float
      → Chunk ⊎ BackendError
      → Leg Float × List AudioChunk
  unfolding failed record_fallback_err record_success_metric synthesize_step
  translate_step cfg env leg frames start m (inr err) =
      failed cfg env leg err.fatal (record_fallback_err F m "translate" cfg.translator_name err)
        frames start
  translate_step cfg env leg frames start m (inl chunk) =
      let ok = record_success leg in
      let counted = record_success_metric F m "translate" cfg.translator_name in
      if str_eq chunk.text ""
      then (record { mode = listening; state = ok; metrics = counted }, [])
      else synthesize_step cfg env ok frames start counted
          (env.synthesize chunk.text (cfg.personas cfg.dst_lang))

  -- `tr.Confidence > 0 && tr.Confidence < s.fallback.ConfidenceThreshold`.
  unfoldable pub low_confidence : SessionConfig Float → Transcript Float → Bool
  low_confidence cfg tr =
      lt (of_int (pos 0)) tr.confidence && lt tr.confidence cfg.fallback.confidence_threshold

  -- A transcript received while the leg listens.
  unfoldable pub on_transcript :
      SessionConfig Float
      → Environment Float
      → LegState
      → LatencyRecorder Float
      → Transcript Float
      → Leg Float × List AudioChunk
  unfolding passed_through record_fallback record_success_metric record_if_started translate_step
      low_confidence
  on_transcript cfg env leg m tr =
      let start = leg.audio.utterance_at in
      let frames = leg.audio.frames in
      let drained = record leg { audio = drain leg.audio } in
      if not tr.is_final
      then (record { mode = listening; state = leg; metrics = m }, [])
      else if drained.degraded
      then passed_through cfg env drained (record_fallback F m "leg_degraded" leg.name) frames start
      else if low_confidence cfg tr
      then passed_through cfg env drained (record_fallback F m "asr_confidence" cfg.asr_name) frames
          start
      else (let timed =
            record_sample
              (record_if_started F (record_success_metric F m "asr_confidence" cfg.asr_name)
                "asr_first_chunk" start env.asr_ms)
              "mt" env.mt_ms in
          translate_step cfg env drained frames start timed
            (env.translate tr.text cfg.src_lang cfg.dst_lang tr.is_final))

  -- The transcripts end. The goroutine of `runLeg` returns, and where the session is not closing
  -- `drainDeadLeg` takes over: also when the session's context is cancelled by then, which that
  -- goroutine sees for itself.
  unfoldable pub on_end :
      SessionConfig Float
      → Environment Float
      → LegState
      → LatencyRecorder Float
      → Bool
      → Leg Float × List AudioChunk
  unfolding emit_passthrough_timed record_fallback_reason
  on_end cfg env leg m closing =
      if closing
      then (record { mode = over; state = leg; metrics = m }, [])
      else (let (dead, _) = record_failure leg true (pos 0) in
          let noted = record_fallback_reason F m "leg_degraded" leg.name "asr_stream_closed" in
          let (sent, _, timed) =
            emit_passthrough_timed F cfg env noted leg.audio.frames leg.audio.utterance_at in
          (
            record {
              mode = draining;
              state = record dead { audio = drain leg.audio };
              metrics = timed;
            },
            sent,
          ))

  -- flushDeadLegAudio: the leg, the recorder, the chunks sent and whether to go on.
  unfoldable pub flush_dead_leg_audio :
      SessionConfig Float
      → Environment Float
      → LegState
      → LatencyRecorder Float
      → LegState × LatencyRecorder Float × List AudioChunk × Bool
  unfolding emit_passthrough_timed record_fallback_reason
  flush_dead_leg_audio cfg env leg m =
      let drained = record leg { audio = drain leg.audio } in
      if length leg.audio.frames == 0
      then (drained, m, [], true)
      else (let noted =
            record_fallback_reason F m "leg_degraded" leg.name "asr_stream_closed_passthrough" in
          let (sent, ok, timed) =
            emit_passthrough_timed F cfg env noted leg.audio.frames leg.audio.utterance_at in
          (drained, timed, sent, ok))

  -- A tick of `drainDeadLeg`, with `s.closing` as it is then.
  unfoldable pub on_tick :
      SessionConfig Float
      → Environment Float
      → LegState
      → LatencyRecorder Float
      → Bool
      → Leg Float × List AudioChunk
  unfolding flush_dead_leg_audio
  on_tick cfg env leg m closing =
      let (after, timed, sent, ok) = flush_dead_leg_audio cfg env leg m in
      (
        record {
          mode = if ok && not closing then draining else over;
          state = after;
          metrics = timed;
        },
        sent,
      )

  -- `ctx.Done()` while `drainDeadLeg` waits: one more flush.
  unfoldable pub on_cancelled :
      SessionConfig Float
      → Environment Float
      → LegState
      → LatencyRecorder Float
      → Leg Float × List AudioChunk
  unfolding flush_dead_leg_audio
  on_cancelled cfg env leg m =
      let (after, timed, sent, _) = flush_dead_leg_audio cfg env leg m in
      (record { mode = over; state = after; metrics = timed }, sent)
