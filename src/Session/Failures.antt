-- ===== src/Session/Failures.antt =====
-- Which failures in a row make runLeg of pkg/langstream/session.go give a leg up.
use lang_stream.Prelude.{
  map, ℕ, ◌+◌, ◌≤◌, ◌<◌, ◌≡◌, true, false, ◌⊎◌, inl, inr, List, [], ◌∷◌, arith, ap, ◌∙◌, sym,
  Bool-cases, length, subst, All,
}
use lang_stream.Prelude.Int.{pos}
use lang_stream.Floats.{Floats}
use lang_stream.Audio.{Transcript}
use lang_stream.Fallback.{LegState, record_failure, record_success}
use lang_stream.Leg.{SessionConfig, Environment, Leg, listening}
use lang_stream.Session.{on_transcript}
use lang_stream.Session.Run.{Event, transcript, step, step_in, run}
use lang_stream.Session.Degraded.{stays_degraded}
use lang_stream.Session.Failing.{
  IsHeard, TranslatorFails, SynthesizerFails, drained, GoesOn, translator_fails-step,
  synthesizer_fails-step,
}

module _ (F : Floats) where
  open F use {Float}

  -- The transcripts, received one after the other.
  abbrev pub received : List (Transcript Float × Environment Float) → List (Event Float)
  received us = map (λ u. transcript u.0 u.1) us

  transcript-step :
      (cfg : SessionConfig Float) (leg : Leg Float) (said : Transcript Float)
      (env : Environment Float)
      → leg.mode ≡ listening
      → step F cfg leg (transcript said env) ≡ on_transcript F cfg env leg.state leg.metrics said
  unfolding step step_in
  transcript-step cfg leg said env e = ap (λ mode. step_in F mode cfg leg (transcript said env)) e

  -- What holds of the leg after a transcript holds of the leg that reads it.
  goes_on :
      (cfg : SessionConfig Float) (max : ℕ) (leg : Leg Float) (said : Transcript Float)
      (env : Environment Float) (s : LegState)
      → cfg.fallback.max_consecutive_failures ≡ pos max
      → leg.mode ≡ listening
      → GoesOn F
          (on_transcript F cfg env leg.state leg.metrics said)
          (record_failure s false cfg.fallback.max_consecutive_failures).0
      → GoesOn F (step F cfg leg (transcript said env)) (record_failure s false (pos max)).0
  goes_on cfg max leg said env s e l on =
      subst (λ x. GoesOn F x (record_failure s false (pos max)).0)
        (sym (transcript-step cfg leg said env l))
        (subst
          (λ z.
            GoesOn F (on_transcript F cfg env leg.state leg.metrics said)
              (record_failure s false z).0)
          e on)

  -- Two states of a leg: a failure more, and degraded when that reaches the limit.
  one_more :
      (s : LegState) (max : ℕ)
      → s.degraded ≡ false
      → 0 < max
      → let t = (record_failure (drained F s) false (pos max)).0 in
        (t.degraded ≡ true)
        ⊎ ((t.degraded ≡ false)
            × (s.consecutive_failures + 1 < max)
            × (t.consecutive_failures ≡ s.consecutive_failures + 1))
  unfolding record_failure
  one_more s max d positive = ground arith

  never_more :
      (s : LegState) (max : ℕ)
      → s.degraded ≡ false
      → 2 ≤ max
      → let t = (record_failure (record_success (drained F s)) false (pos max)).0 in
        t.degraded ≡ false
  unfolding record_failure record_success
  never_more s max d several = ground arith

  -- Translation errors in a row that are not fatal, as many as the limit on consecutive failures,
  -- degrade a listening leg, whatever state it was in.
  pub translator_failures_degrade :
      (cfg : SessionConfig Float) (max : ℕ) (leg : Leg Float)
      (us : List (Transcript Float × Environment Float))
      → cfg.fallback.max_consecutive_failures ≡ pos max
      → 0 < max
      → leg.mode ≡ listening
      → All (IsHeard F cfg) us
      → All (TranslatorFails F cfg) us
      → max ≤ length us
      → (run F cfg leg (received us)).state.degraded ≡ true
  unfolding run
  translator_failures_degrade cfg max leg us e positive listens heard fails enough =
      go leg us listens heard fails (omega arith) (omega arith)
    where
      go :
          (leg : Leg Float) (us : List (Transcript Float × Environment Float))
          → leg.mode ≡ listening
          → All (IsHeard F cfg) us
          → All (TranslatorFails F cfg) us
          → max ≤ leg.state.consecutive_failures + length us
          → 0 < length us
          → (run F cfg leg (received us)).state.degraded ≡ true
      go leg [] l hs fs n some_left = absurd (omega arith)
      go leg ((said, env) ∷ us) l (h, hs) ((err, mild, f), fs) n some_left =
          elim (Bool-cases leg.state.degraded) [
            | inl d ↦ stays_degraded F cfg leg (received ((said, env) ∷ us)) d
            | inr d ↦
                let after = step F cfg leg (transcript said env) in
                let on =
                  goes_on cfg max leg said env (drained F leg.state) e l
                    (translator_fails-step F cfg leg.state leg.metrics said env err d h mild f) in
                elim (one_more leg.state max d positive) [
                  | inl gone ↦
                      stays_degraded F cfg after.0 (received us) (ap (λ s. s.degraded) on.1 ∙ gone)
                  | inr (_, below, more) ↦
                      let counted = ap (λ s. s.consecutive_failures) on.1 ∙ more in
                      go after.0 us on.0 hs fs (omega arith) (omega arith)
                ]
          ]

  -- Synthesis errors in a row that are not fatal, however many, never degrade a leg whose limit on
  -- consecutive failures is two or more: each success of the translator resets the count.
  pub synthesizer_failures_never_degrade :
      (cfg : SessionConfig Float) (max : ℕ) (leg : Leg Float)
      (us : List (Transcript Float × Environment Float))
      → cfg.fallback.max_consecutive_failures ≡ pos max
      → 2 ≤ max
      → leg.mode ≡ listening
      → leg.state.degraded ≡ false
      → All (IsHeard F cfg) us
      → All (SynthesizerFails F cfg) us
      → (run F cfg leg (received us)).state.degraded ≡ false
  unfolding run
  synthesizer_failures_never_degrade cfg max leg [] e several l d hs fs = d
  synthesizer_failures_never_degrade cfg max leg ((said, env) ∷ us) e several l d (h, hs)
        ((chunk, err, mild, done, some_text, f), fs) =
      let after = step F cfg leg (transcript said env) in
      let on = goes_on cfg max leg said env (record_success (drained F leg.state)) e l (
        synthesizer_fails-step F cfg leg.state leg.metrics said env chunk err d h mild done
          some_text f) in
      synthesizer_failures_never_degrade cfg max after.0 us e several on.0
        (ap (λ s. s.degraded) on.1 ∙ never_more leg.state max d several) hs fs
