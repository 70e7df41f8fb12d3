-- ===== src/Session/Failing.antt =====
-- runLeg of pkg/langstream/session.go on one final transcript whose translation or synthesis fails
-- with an error that is not fatal.
use lang_stream.Prelude.{
  ℕ, ◌≡◌, Bool, true, false, not, ◌⊎◌, inl, inr, Option, none, List, refl, ap, ◌∙◌, if◌then◌else◌,
}
use text.Mathlib.Text.{◌==◌ as str_eq}
use lang_stream.Floats.{Floats}
use lang_stream.Audio.{AudioChunk, Transcript, Chunk}
use lang_stream.Fallback.{LegState, BufferedFrame, record_failure, record_success, drain}
use lang_stream.Metrics.{LatencyRecorder}
use lang_stream.Leg.{
  record_fallback_err, record_success_metric, SessionConfig, Environment, Leg, listening,
  BackendError, emit_passthrough_timed, forward_audio,
}
use lang_stream.Session.{
  passed_through, failed, synthesize_step, translate_step, low_confidence, on_transcript,
}

module _ (F : Floats) where
  open F use {Float}

  -- A final transcript and its environment: confident enough, and the passthrough audio, if any, is
  -- sent to its end.
  abbrev pub IsHeard : SessionConfig Float → Transcript Float × Environment Float → Type 0
  IsHeard cfg (said, env) =
      (said.is_final ≡ true) × (low_confidence F cfg said ≡ false) × (env.passthrough_cut ≡ none)

  -- The translator returns an error that is not fatal.
  abbrev pub TranslatorFails : SessionConfig Float → Transcript Float × Environment Float → Type 0
  TranslatorFails cfg (said, env) =
      (err : BackendError) × (err.fatal ≡ false)
      × (env.translate said.text cfg.src_lang cfg.dst_lang said.is_final ≡ inr err)

  -- The translator returns a text, and the synthesizer an error that is not fatal.
  abbrev pub SynthesizerFails : SessionConfig Float → Transcript Float × Environment Float → Type 0
  SynthesizerFails cfg (said, env) =
      (chunk : Chunk) × (err : BackendError) × (err.fatal ≡ false)
      × (env.translate said.text cfg.src_lang cfg.dst_lang said.is_final ≡ inl chunk)
      × (str_eq chunk.text "" ≡ false)
      × (env.synthesize chunk.text (cfg.personas cfg.dst_lang) ≡ inr err)

  failed-listening :
      (cfg : SessionConfig Float) (env : Environment Float) (s : LegState) (fatal : Bool)
      (m : LatencyRecorder Float) (frames : List BufferedFrame) (start : Option ℕ)
      → env.passthrough_cut ≡ none
      → (failed F cfg env s fatal m frames start).0.mode ≡ listening
  unfolding failed passed_through emit_passthrough_timed forward_audio
  failed-listening cfg env s fatal m frames start e = rw e refl

  failed-state :
      (cfg : SessionConfig Float) (env : Environment Float) (s : LegState) (fatal : Bool)
      (m : LatencyRecorder Float) (frames : List BufferedFrame) (start : Option ℕ)
      → (failed F cfg env s fatal m frames start).0.state
        ≡ (record_failure s fatal cfg.fallback.max_consecutive_failures).0
  unfolding failed passed_through
  failed-state cfg env s fatal m frames start = refl

  abbrev pub drained : LegState → LegState
  drained s = record s { audio = drain s.audio }

  -- The state of a leg after a transcript, and that its goroutine goes on.
  abbrev pub GoesOn : Leg Float × List AudioChunk → LegState → Type 0
  GoesOn after s = (after.0.mode ≡ listening) × (after.0.state ≡ s)

  if_GoesOn :
      (b : Bool) (x y : Leg Float × List AudioChunk) (s : LegState)
      → b ≡ false
      → GoesOn y s
      → GoesOn (if b then x else y) s
  if_GoesOn true x y s e h = cc
  if_GoesOn false x y s e h = h

  failed-GoesOn :
      (cfg : SessionConfig Float) (env : Environment Float) (s : LegState) (fatal : Bool)
      (m : LatencyRecorder Float) (frames : List BufferedFrame) (start : Option ℕ)
      → env.passthrough_cut ≡ none
      → fatal ≡ false
      → GoesOn
          (failed F cfg env s fatal m frames start)
          (record_failure s false cfg.fallback.max_consecutive_failures).0
  failed-GoesOn cfg env s fatal m frames start uncut mild = (
    failed-listening cfg env s fatal m frames start uncut,
    failed-state cfg env s fatal m frames start
        ∙ ap (λ b. (record_failure s b cfg.fallback.max_consecutive_failures).0) mild,
  )

  translate_step-GoesOn :
      (cfg : SessionConfig Float) (env : Environment Float) (s : LegState)
      (frames : List BufferedFrame) (start : Option ℕ) (m : LatencyRecorder Float)
      (result : Chunk ⊎ BackendError) (err : BackendError)
      → env.passthrough_cut ≡ none
      → err.fatal ≡ false
      → result ≡ inr err
      → GoesOn
          (translate_step F cfg env s frames start m result)
          (record_failure s false cfg.fallback.max_consecutive_failures).0
  unfolding translate_step
  translate_step-GoesOn cfg env s frames start m result err uncut mild fails = rw fails (
      failed-GoesOn cfg env s err.fatal
        (record_fallback_err F m "translate" cfg.translator_name err) frames start uncut mild)

  pub translator_fails-step :
      (cfg : SessionConfig Float) (s : LegState) (m : LatencyRecorder Float)
      (said : Transcript Float) (env : Environment Float) (err : BackendError)
      → s.degraded ≡ false
      → IsHeard cfg (said, env)
      → err.fatal ≡ false
      → env.translate said.text cfg.src_lang cfg.dst_lang said.is_final ≡ inr err
      → GoesOn
          (on_transcript F cfg env s m said)
          (record_failure (drained s) false cfg.fallback.max_consecutive_failures).0
  unfolding on_transcript
  translator_fails-step cfg s m said env err d (final, sure, uncut) mild fails =
      if_GoesOn (not said.is_final) _ _ _ (ap not final) (
        if_GoesOn s.degraded _ _ _ d (
          if_GoesOn (low_confidence F cfg said) _ _ _ sure
            (translate_step-GoesOn cfg env _ _ _ _ _ err uncut mild fails)))

  synthesizer_fails-translate :
      (cfg : SessionConfig Float) (env : Environment Float) (s : LegState)
      (frames : List BufferedFrame) (start : Option ℕ) (m : LatencyRecorder Float)
      (result : Chunk ⊎ BackendError) (chunk : Chunk) (err : BackendError)
      → env.passthrough_cut ≡ none
      → err.fatal ≡ false
      → result ≡ inl chunk
      → str_eq chunk.text "" ≡ false
      → env.synthesize chunk.text (cfg.personas cfg.dst_lang) ≡ inr err
      → GoesOn
          (translate_step F cfg env s frames start m result)
          (record_failure (record_success s) false cfg.fallback.max_consecutive_failures).0
  unfolding translate_step synthesize_step
  synthesizer_fails-translate cfg env s frames start m result chunk err uncut mild done some_text
        fails =
      rw done (
        if_GoesOn (str_eq chunk.text "") _ _ _ some_text (
          rw fails (
            failed-GoesOn cfg env _ err.fatal
              (record_fallback_err F (record_success_metric F m "translate" cfg.translator_name)
                "tts" cfg.tts_name err)
              frames start uncut mild)))

  pub synthesizer_fails-step :
      (cfg : SessionConfig Float) (s : LegState) (m : LatencyRecorder Float)
      (said : Transcript Float) (env : Environment Float) (chunk : Chunk) (err : BackendError)
      → s.degraded ≡ false
      → IsHeard cfg (said, env)
      → err.fatal ≡ false
      → env.translate said.text cfg.src_lang cfg.dst_lang said.is_final ≡ inl chunk
      → str_eq chunk.text "" ≡ false
      → env.synthesize chunk.text (cfg.personas cfg.dst_lang) ≡ inr err
      → GoesOn
          (on_transcript F cfg env s m said)
          (record_failure
            (record_success (drained s))
            false
            cfg.fallback.max_consecutive_failures).0
  unfolding on_transcript
  synthesizer_fails-step cfg s m said env chunk err d (final, sure, uncut) mild done some_text
        fails =
      if_GoesOn (not said.is_final) _ _ _ (ap not final) (
        if_GoesOn s.degraded _ _ _ d (
          if_GoesOn (low_confidence F cfg said) _ _ _ sure (
            synthesizer_fails-translate cfg env _ _ _ _ _ chunk err uncut mild done some_text
              fails)))
