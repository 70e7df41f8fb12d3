-- ===== src/Session/Kept/Events.antt =====
-- What each event of a leg of pkg/langstream/session.go keeps, and so a run of them.
use lang_stream.Prelude.{
  ℕ, ◌≡◌, Bool, true, false, not, inl, inr, Option, none, some, List, [], ◌∷◌, refl, ◌∙◌, ◌==◌,
  length, Bool-cases, if◌then◌else◌,
}
use lang_stream.Floats.{Floats}
use lang_stream.Audio.{AudioChunk, Transcript}
use lang_stream.Fallback.{LegState, BufferedFrame, drain, record_failure}
use lang_stream.Metrics.{LatencyRecorder, record_error}
use lang_stream.Leg.{
  SessionConfig, Environment, Leg, Mode, listening, draining, over, emit_passthrough_timed,
  record_fallback, record_fallback_reason, record_success_metric, vendor_label, forward_audio,
}
use lang_stream.Session.{
  on_transcript, on_end, on_tick, on_cancelled, flush_dead_leg_audio, low_confidence,
}
use lang_stream.Session.Run.{Event, pushed, transcript, ended, tick, cancelled, step, step_in, run}
use lang_stream.Session.Kept.{
  IsKept, IsSound, started-kept, passed_through-kept, translate_step-kept,
}

module _ (F : Floats) where
  open F use {Float}

  module _ (cfg : SessionConfig Float) (P : LegState → LatencyRecorder Float → Type 0)
      (keep : IsKept F cfg.fallback.max_consecutive_failures P) where
    if-kept :
        (b : Bool) (x y : Leg Float × List AudioChunk)
        → (b ≡ true → IsSound F P x.0)
        → (b ≡ false → IsSound F P y.0)
        → IsSound F P (if b then x else y).0
    if-kept true x y h k = h refl
    if-kept false x y h k = k refl

    on_transcript-kept :
        (env : Environment Float) (s : LegState) (m : LatencyRecorder Float)
        (said : Transcript Float)
        → P s m
        → IsSound F P (on_transcript F cfg env s m said).0
    unfolding on_transcript record_fallback record_error record_success_metric
    on_transcript-kept env s m said h =
        let drained = keep.audio s m (drain s.audio) h in
        let start = s.audio.utterance_at in
        let frames = s.audio.frames in
        if-kept (not said.is_final) _ _ (λ _. record { kept = h; dead = λ f. cc })
          (λ _.
            if-kept s.degraded _ _
              (λ d.
                passed_through-kept F cfg P keep env _ _ frames start (keep.noted _ m "" d drained))
              (λ _.
                if-kept (low_confidence F cfg said) _ _
                  (λ _.
                    passed_through-kept F cfg P keep env _ _ frames start
                      (keep.err _ m "asr_confidence" (vendor_label cfg.asr_name) "" refl drained))
                  (λ _.
                    translate_step-kept F cfg P keep env _ frames start _
                      (env.translate said.text cfg.src_lang cfg.dst_lang said.is_final)
                      (keep.sample _ _ "mt" env.mt_ms (
                        started-kept F cfg P keep _ _ "asr_first_chunk" start env.asr_ms
                          (keep.event _ m "asr_confidence" (vendor_label cfg.asr_name) drained))))))

    emit-kept :
        (env : Environment Float) (cut : Option ℕ) (s : LegState) (m : LatencyRecorder Float)
        (frames : List BufferedFrame) (start : Option ℕ)
        → P s m
        → P s (emit_passthrough_timed F cfg (record env { passthrough_cut = cut }) m frames start).2
    unfolding emit_passthrough_timed forward_audio
    emit-kept env none s m frames start h =
        started-kept F cfg P keep s m "total" start env.total_ms h
    emit-kept env (some n) s m frames start h = h

    on_end-kept :
        (env : Environment Float) (s : LegState) (m : LatencyRecorder Float) (closing : Bool)
        → P s m
        → IsSound F P (on_end F cfg env s m closing).0
    unfolding on_end record_fallback_reason record_failure
    on_end-kept env s m true h = record { kept = h; dead = λ e. cc }
    on_end-kept env s m false h = record {
      kept =
          emit-kept env env.passthrough_cut _ _ s.audio.frames s.audio.utterance_at
            (keep.audio _ _ (drain s.audio) (keep.death s m "asr_stream_closed" h));
      dead = λ e. refl;
    }

    flush-kept :
        (env : Environment Float) (s : LegState) (m : LatencyRecorder Float)
        → s.degraded ≡ true
        → P s m
        → P (flush_dead_leg_audio F cfg env s m).0 (flush_dead_leg_audio F cfg env s m).1
    unfolding flush_dead_leg_audio record_fallback_reason
    flush-kept env s m d h =
        let drained = keep.audio s m (drain s.audio) h in
        elim (Bool-cases (length s.audio.frames == 0)) [
          | inl e ↦ rw e drained
          | inr e ↦ rw e (
              emit-kept env env.passthrough_cut _ _ s.audio.frames s.audio.utterance_at
                (keep.noted _ m "asr_stream_closed_passthrough" d drained))
        ]

    flush-degraded :
        (env : Environment Float) (s : LegState) (m : LatencyRecorder Float)
        → (flush_dead_leg_audio F cfg env s m).0.degraded ≡ s.degraded
    unfolding flush_dead_leg_audio
    flush-degraded env s m = elim (Bool-cases (length s.audio.frames == 0)) [
      | inl e ↦ rw e refl
      | inr e ↦ rw e refl
    ]

    pub step-kept :
        (leg : Leg Float) (e : Event Float) → IsSound F P leg → IsSound F P (step F cfg leg e).0
    unfolding step step_in on_tick on_cancelled
    step-kept leg e h = go leg.mode e refl
      where
        go :
            (mode : Mode) (event : Event Float)
            → leg.mode ≡ mode
            → IsSound F P (step_in F mode cfg leg event).0
        go mode (pushed pcm rate now) _ = record {
          kept = keep.audio leg.state leg.metrics _ h.kept;
          dead = h.dead;
        }
        go listening (transcript said env) _ =
            on_transcript-kept env leg.state leg.metrics said h.kept
        go listening (ended closing env) _ = on_end-kept env leg.state leg.metrics closing h.kept
        go listening (tick closing env) _ = h
        go listening (cancelled env) _ = record { kept = h.kept; dead = λ f. cc }
        go draining (transcript said env) _ = h
        go draining (ended closing env) _ = h
        go draining (tick closing env) m = record {
          kept = flush-kept env leg.state leg.metrics (h.dead m) h.kept;
          dead = λ _. flush-degraded env leg.state leg.metrics ∙ h.dead m;
        }
        go draining (cancelled env) m = record {
          kept = flush-kept env leg.state leg.metrics (h.dead m) h.kept;
          dead = λ _. flush-degraded env leg.state leg.metrics ∙ h.dead m;
        }
        go over (transcript said env) _ = h
        go over (ended closing env) _ = h
        go over (tick closing env) _ = h
        go over (cancelled env) _ = h

    pub run-kept :
        (leg : Leg Float) (es : List (Event Float))
        → IsSound F P leg
        → IsSound F P (run F cfg leg es)
    unfolding run
    run-kept leg [] h = h
    run-kept leg (e ∷ es) h = run-kept (step F cfg leg e).0 es (step-kept leg e h)
