-- ===== src/Session/Heard.antt =====
-- What the listening party hears for one transcript in runLeg of pkg/langstream/session.go.
use Prim.Native.String.{String}
use text.Mathlib.Text.{◌==◌ as str_eq}
use text.Mathlib.TextEquality.{eq_iff}
use lang_stream.Prelude.{
  ℕ, ◌≡◌, Bool, true, false, not, ◌⊎◌, inl, inr, Option, none, some, List, [], ◌∷◌, refl, arith, ap,
  ◌≢◌, ◌∙◌, if◌then◌else◌, if_cases,
}
use lang_stream.Floats.{Floats}
use lang_stream.Audio.{AudioChunk, Transcript, Chunk}
use lang_stream.Fallback.{
  LegState, BufferedFrame, record_failure, drain, build_passthrough_chunks, record_success,
}
use lang_stream.Metrics.{record_sample, LatencyRecorder}
use lang_stream.Leg.{
  SessionConfig, Environment, Leg, listening, completed, shutting_down, BackendError, TtsStream,
  closed, silent, first_unsent, first_sent, emit_passthrough_timed, forward_audio,
  forward_tts_with_stall_guard, record_fallback_err, record_success_metric, record_fallback,
}
use lang_stream.Session.{
  passed_through, failed, after_tts, synthesize_step, translate_step, low_confidence, on_transcript,
}

-- The session does not end while the leg waits for the synthesizer or sends its audio.
abbrev pub IsLive : TtsStream → Type 0
IsLive closed = Unit
IsLive (silent session_ended) = session_ended ≡ false
IsLive (first_unsent c) = ⊥
IsLive (first_sent c rest cut) = cut ≡ none

module _ (F : Floats) (cfg : SessionConfig F.Float) (env : Environment F.Float) where
  open F use {Float}

  -- The passthrough audio of a leg's buffer.
  abbrev pub passthrough : LegState → List AudioChunk
  passthrough s =
      build_passthrough_chunks cfg.degrade_tone s.audio.frames cfg.fallback.degrade_tone_enabled

  -- What the translator and the synthesizer are asked, and answer.
  abbrev pub Translates : Transcript Float → Chunk ⊎ BackendError → Type 0
  Translates said result = env.translate said.text cfg.src_lang cfg.dst_lang said.is_final ≡ result

  abbrev pub Synthesizes : Chunk → TtsStream ⊎ BackendError → Type 0
  Synthesizes chunk result = env.synthesize chunk.text (cfg.personas cfg.dst_lang) ≡ result

  -- A chunk with a text, which the leg takes to the synthesizer.
  abbrev pub IsTranslated : LegState → Transcript Float → Chunk → Type 0
  IsTranslated s said chunk =
      (s.degraded ≡ false)
      × (low_confidence F cfg said ≡ false)
      × Translates said (inl chunk)
      × (chunk.text ≢ "")

  -- The audio for a final transcript, case by case; the conditions of the cases exclude each other.
  pub data IsTold (s : LegState) (said : Transcript Float) : List AudioChunk → Type 0 where
    given_up : s.degraded ≡ true → IsTold s said (passthrough s)
    unsure : s.degraded ≡ false → low_confidence F cfg said ≡ true → IsTold s said (passthrough s)
    untranslated :
        (err : BackendError)
        → s.degraded ≡ false
        → low_confidence F cfg said ≡ false
        → Translates said (inr err)
        → IsTold s said (passthrough s)
    wordless :
        (chunk : Chunk)
        → s.degraded ≡ false
        → low_confidence F cfg said ≡ false
        → Translates said (inl chunk)
        → chunk.text ≡ ""
        → IsTold s said []
    refused :
        (chunk : Chunk) (err : BackendError)
        → IsTranslated s said chunk
        → Synthesizes chunk (inr err)
        → IsTold s said (passthrough s)
    timed_out :
        (chunk : Chunk)
        → IsTranslated s said chunk
        → Synthesizes chunk (inl (silent false))
        → IsTold s said (passthrough s)
    voiceless :
        (chunk : Chunk)
        → IsTranslated s said chunk
        → Synthesizes chunk (inl closed)
        → IsTold s said []
    spoken :
        (chunk : Chunk) (c : AudioChunk) (rest : List AudioChunk)
        → IsTranslated s said chunk
        → Synthesizes chunk (inl (first_sent c rest none))
        → IsTold s said (c ∷ (if c.is_final then [] else rest))

  -- The leg goes on with an empty buffer, and what is sent is so.
  abbrev pub IsDone : (List AudioChunk → Type 0) → Leg Float × List AudioChunk → Type 0
  IsDone Told after = (after.0.mode ≡ listening) × (after.0.state.audio.frames ≡ []) × Told after.1

  passed_through-IsDone :
      (Told : List AudioChunk → Type 0) (s : LegState) (m : LatencyRecorder Float)
      (frames : List BufferedFrame) (start : Option ℕ)
      → env.passthrough_cut ≡ none
      → s.audio.frames ≡ []
      → Told (build_passthrough_chunks cfg.degrade_tone frames cfg.fallback.degrade_tone_enabled)
      → IsDone Told (passed_through F cfg env s m frames start)
  unfolding passed_through emit_passthrough_timed forward_audio
  passed_through-IsDone Told s m frames start uncut e told = rw uncut (refl, e, told)

  failure-audio :
      (s : LegState) (fatal : Bool)
      → (record_failure s fatal cfg.fallback.max_consecutive_failures).0.audio ≡ s.audio
  unfolding record_failure
  failure-audio s fatal = ground arith

  failed-IsDone :
      (Told : List AudioChunk → Type 0) (s : LegState) (fatal : Bool) (m : LatencyRecorder Float)
      (frames : List BufferedFrame) (start : Option ℕ)
      → env.passthrough_cut ≡ none
      → s.audio.frames ≡ []
      → Told (build_passthrough_chunks cfg.degrade_tone frames cfg.fallback.degrade_tone_enabled)
      → IsDone Told (failed F cfg env s fatal m frames start)
  unfolding failed
  failed-IsDone Told s fatal m frames start uncut e told =
      let (t, newly) = record_failure s fatal cfg.fallback.max_consecutive_failures in
      passed_through-IsDone Told t (if newly then record_fallback F m "leg_degraded" s.name else m)
        frames start uncut (ap (λ a. a.frames) (failure-audio s fatal) ∙ e) told

  spoken-IsDone :
      (Told : List AudioChunk → Type 0) (s : LegState) (m : LatencyRecorder Float)
      (frames : List BufferedFrame) (start : Option ℕ) (c : AudioChunk) (rest : List AudioChunk)
      (is_final : Bool)
      → s.audio.frames ≡ []
      → Told (c ∷ (if is_final then [] else rest))
      → IsDone Told (
          after_tts F cfg env s frames start (
            if is_final then (c ∷ [], completed, m) else (
              c ∷ (forward_audio rest none).0,
              if (forward_audio rest none).1 then completed else shutting_down,
              m,
            )))
  unfolding after_tts record_success forward_audio
  spoken-IsDone Told s m frames start c rest true e told = (refl, e, told)
  spoken-IsDone Told s m frames start c rest false e told = (refl, e, told)

  -- In what follows `s` is the leg as the transcript finds it, `t` the leg with its buffer drained.
  stream-IsDone :
      (s : LegState) (said : Transcript Float) (t : LegState) (m : LatencyRecorder Float)
      (start : Option ℕ) (chunk : Chunk) (stream : TtsStream)
      → env.passthrough_cut ≡ none
      → t.audio.frames ≡ []
      → IsTranslated s said chunk
      → Synthesizes chunk (inl stream)
      → IsLive stream
      → IsDone (IsTold s said) (
          after_tts F cfg env t s.audio.frames start
            (forward_tts_with_stall_guard F stream env.tts_ms m))
  unfolding after_tts forward_tts_with_stall_guard record_success forward_audio
  stream-IsDone s said t m start chunk closed uncut e done speaks live =
      (refl, e, voiceless chunk done speaks)
  stream-IsDone s said t m start chunk (silent true) uncut e done speaks live = absurd cc
  stream-IsDone s said t m start chunk (silent false) uncut e done speaks live =
      failed-IsDone (IsTold s said) t false (record_fallback F m "tts" cfg.tts_name) s.audio.frames
        start uncut e (timed_out chunk done speaks)
  stream-IsDone s said t m start chunk (first_unsent c) uncut e done speaks live = absurd live
  stream-IsDone s said t m start chunk (first_sent c rest none) uncut e done speaks live =
      spoken-IsDone (IsTold s said) t (record_sample m "tts_first_chunk" env.tts_ms) s.audio.frames
        start c rest c.is_final e (spoken chunk c rest done speaks)
  stream-IsDone s said t m start chunk (first_sent c rest (some n)) uncut e done speaks live =
      absurd cc

  synthesize-IsDone :
      (s : LegState) (said : Transcript Float) (t : LegState) (m : LatencyRecorder Float)
      (start : Option ℕ) (chunk : Chunk) (result : TtsStream ⊎ BackendError)
      → env.passthrough_cut ≡ none
      → t.audio.frames ≡ []
      → IsTranslated s said chunk
      → Synthesizes chunk result
      → ((stream : TtsStream) → result ≡ inl stream → IsLive stream)
      → IsDone (IsTold s said) (synthesize_step F cfg env t s.audio.frames start m result)
  unfolding synthesize_step
  synthesize-IsDone s said t m start chunk (inl stream) uncut e done speaks live =
      stream-IsDone s said t m start chunk stream uncut e done speaks (live stream refl)
  synthesize-IsDone s said t m start chunk (inr err) uncut e done speaks live =
      failed-IsDone (IsTold s said) t err.fatal (record_fallback_err F m "tts" cfg.tts_name err)
        s.audio.frames start uncut e (refused chunk err done speaks)

  translate-IsDone :
      (s : LegState) (said : Transcript Float) (t : LegState) (m : LatencyRecorder Float)
      (start : Option ℕ) (result : Chunk ⊎ BackendError)
      → env.passthrough_cut ≡ none
      → t.audio.frames ≡ []
      → s.degraded ≡ false
      → low_confidence F cfg said ≡ false
      → Translates said result
      → ((text : String) (stream : TtsStream)
          → env.synthesize text (cfg.personas cfg.dst_lang) ≡ inl stream
          → IsLive stream)
      → IsDone (IsTold s said) (translate_step F cfg env t s.audio.frames start m result)
  unfolding translate_step record_success
  translate-IsDone s said t m start (inr err) uncut e healthy sure done live =
      failed-IsDone (IsTold s said) t err.fatal
        (record_fallback_err F m "translate" cfg.translator_name err) s.audio.frames start uncut e
        (untranslated err healthy sure done)
  translate-IsDone s said t m start (inl chunk) uncut e healthy sure done live =
      if_cases (IsDone (IsTold s said)) (str_eq chunk.text "") _ _
        (λ b. (refl, e, wordless chunk healthy sure done ((eq_iff chunk.text "").0 b)))
        (λ b.
          synthesize-IsDone s said (record_success t)
            (record_success_metric F m "translate" cfg.translator_name) start chunk _ uncut e
            (healthy, sure, done, λ empty. absurd (cc (b, (eq_iff chunk.text "").1 empty))) refl
            (live chunk.text))

  -- A final transcript, in a session that does not end meanwhile: the leg goes on with an empty buffer,
  -- and the listening party hears the passthrough audio of all that was buffered if the leg is degraded,
  -- the recognizer is not confident, the translator or the synthesizer returns an error, or the
  -- synthesizer stays silent for too long; nothing if the translation has no text, or if the
  -- synthesizer's channel is closed without a chunk, which the code takes for a complete synthesis; and
  -- otherwise all the synthesizer's audio, the first chunk alone if that is marked as the last one.
  pub transcript_is_told :
      (s : LegState) (m : LatencyRecorder Float) (said : Transcript Float)
      → said.is_final ≡ true
      → env.passthrough_cut ≡ none
      → ((text : String) (stream : TtsStream)
          → env.synthesize text (cfg.personas cfg.dst_lang) ≡ inl stream
          → IsLive stream)
      → IsDone (IsTold s said) (on_transcript F cfg env s m said)
  unfolding on_transcript drain
  transcript_is_told s m said final uncut live =
      let drained = record s { audio = drain s.audio } in
      let frames = s.audio.frames in
      let start = s.audio.utterance_at in
      let Q = IsDone (IsTold s said) in
      if_cases Q (not said.is_final) _ _ (λ b. absurd (ground (arith, b, final)))
        (λ _.
          if_cases Q s.degraded _ _
            (λ gone.
              passed_through-IsDone (IsTold s said) drained
                (record_fallback F m "leg_degraded" s.name) frames start uncut refl (given_up gone))
            (λ healthy.
              if_cases Q (low_confidence F cfg said) _ _
                (λ low.
                  passed_through-IsDone (IsTold s said) drained
                    (record_fallback F m "asr_confidence" cfg.asr_name) frames start uncut refl
                    (unsure healthy low))
                (λ sure.
                  translate-IsDone s said drained _ start _ uncut refl healthy sure refl live)))
