-- ===== src/Session/Start.antt =====
-- NewSession of pkg/langstream/session.go: the checks, the streams that it opens and what it does with
-- them when it fails, and the two legs that it starts.
pub mod Released
use lang_stream.Prelude.{
  ℕ, zero, suc, ◌+◌, ◌-◌, ◌*◌, ◌/◌, ◌%◌, ◌^◌, ◌≤◌, ◌<◌, ◌≡◌, refl, sym, ap, ap₂, subst, ◌∙◌, ◌≢◌,
  ◌↔◌, ◌⊎◌, inl, inr, Bool, Bool-cases, Option-cases, true, false, not, ◌&&◌, ◌||◌, Option, none,
  some, List, [], ◌∷◌, ◌++◌, map, arith, ltb, leb, ◌==◌, if◌then◌else◌, if_cases, length, take,
  ==_iff,
}
use Prim.Native.String.{String}
use text.Mathlib.Text.{◌==◌ as str_eq}
use lang_stream.Prelude.Int.{ℤ, pos}
use lang_stream.Floats.{Floats}
use lang_stream.Audio.{Persona}
use lang_stream.Fallback.{
  FallbackConfig, LegState, default_fallback_config, with_defaults, new_leg_state,
  audio_buffer_frames,
}
use lang_stream.Metrics.{LatencyRecorder, new_latency_recorder}
use lang_stream.Personas.{PersonaManager, new_persona_manager, get, set}
use lang_stream.Leg.{SessionConfig, Mode, listening}

-- SessionConfig as the caller gives it. Of a backend only the name is read here; `none` is nil.
-- `metrics` is the field Fallback.Metrics. The logger is left out.
pub record Settings (Float : Type 0) : Type 0 where
  pub caller_language : String
  pub agent_language : String
  pub asr : Option String
  pub translator : Option String
  pub tts : Option String
  pub voice_persona : Option Persona
  pub code_switching : Bool
  pub fallback : FallbackConfig Float
  pub metrics : Option (LatencyRecorder Float)

pub data StartError : Type 0 where
  no_caller_language no_agent_language no_asr no_translator no_tts : StartError
  caller_stream_failed agent_stream_failed : StartError

-- What NewSession does outside of its own memory: streams opened with a hint, or not; a stream closed;
-- the session's context cancelled.
pub data Effect : Type 0 where
  opened : (hint : String) → Effect
  not_opened : (hint : String) → Effect
  stream_closed : Effect
  context_cancelled : Effect

-- A session: for each leg its configuration, what its goroutine is, and its state; the recorder is
-- one for both.
pub record Session (Float : Type 0) : Type 0 where
  pub caller_config : SessionConfig Float
  pub agent_config : SessionConfig Float
  pub caller_mode : Mode
  pub agent_mode : Mode
  pub caller_leg : LegState
  pub agent_leg : LegState
  pub metrics : LatencyRecorder Float

abbrev is_zero : ℤ → Bool
is_zero (pos zero) = true
is_zero _ = false

abbrev is_nil {ℓ} : {A : Type ℓ} → Option A → Bool
is_nil none = true
is_nil (some _) = false

abbrev name_of : Option String → String
name_of none = ""
name_of (some name) = name

module _ {Float : Type 0} where
  unfoldable pub validate : Settings Float → Option StartError
  validate s =
      if str_eq s.caller_language ""
      then some no_caller_language
      else if str_eq s.agent_language ""
      then some no_agent_language
      else if is_nil s.asr
      then some no_asr
      else if is_nil s.translator
      then some no_translator
      else if is_nil s.tts
      then some no_tts
      else none

  unfoldable pub start_personas : Settings Float → PersonaManager
  start_personas s = elim s.voice_persona [
    | none ↦ new_persona_manager
    | some p ↦ set new_persona_manager p.language p
  ]

  unfoldable pub start_metrics : Settings Float → LatencyRecorder Float
  start_metrics s = elim s.metrics [ none ↦ new_latency_recorder | some m ↦ m ]

  -- The hints that the two streams are asked for with.
  unfoldable pub hint_of : Settings Float → String → String
  hint_of s language = if s.code_switching then "" else language

module _ (F : Floats) where
  open F use {Float, of_int, le}

  -- `fallback == (FallbackConfig{})`; a float64 is 0 when it is neither below nor above.
  unfoldable pub is_untouched : Settings Float → Bool
  is_untouched s =
      let f = s.fallback in
      le f.confidence_threshold (of_int (pos 0))
      && (le (of_int (pos 0)) f.confidence_threshold
          && (not f.degrade_tone_enabled
              && (is_zero f.translate_timeout
                  && (is_zero f.synthesize_timeout
                      && (is_zero f.max_consecutive_failures
                          && (is_zero f.dead_leg_drain_interval && is_nil s.metrics))))))

  unfoldable pub start_fallback : Settings Float → FallbackConfig Float
  unfolding is_untouched
  start_fallback s =
      if is_untouched s then default_fallback_config F else with_defaults F s.fallback

  -- What a leg reads; the samples of the degrade tone are a parameter.
  unfoldable pub leg_config :
      (degrade_tone : ℤ → List ℕ) → Settings Float → (src dst : String) → SessionConfig Float
  unfolding start_fallback start_personas
  leg_config degrade_tone s src dst = record {
    asr_name = name_of s.asr;
    translator_name = name_of s.translator;
    tts_name = name_of s.tts;
    fallback = start_fallback s;
    personas = get (start_personas s);
    src_lang = src;
    dst_lang = dst;
    degrade_tone = degrade_tone;
  }

  unfoldable pub made : (degrade_tone : ℤ → List ℕ) → Settings Float → Session Float
  unfolding leg_config start_metrics
  made degrade_tone s = record {
    caller_config = leg_config degrade_tone s s.caller_language s.agent_language;
    agent_config = leg_config degrade_tone s s.agent_language s.caller_language;
    caller_mode = listening;
    agent_mode = listening;
    caller_leg = new_leg_state "caller" (pos audio_buffer_frames);
    agent_leg = new_leg_state "agent" (pos audio_buffer_frames);
    metrics = start_metrics s;
  }

  -- NewSession behind `validate`. Whether the recognizer opens the first and the second stream is its
  -- affair.
  unfoldable pub open_streams :
      (degrade_tone : ℤ → List ℕ)
      → Settings Float
      → Option StartError
      → (caller_opens agent_opens : Bool) → (StartError ⊎ Session Float) × List Effect
  unfolding hint_of made
  open_streams tone s (some err) _ _ = (inl err, [])
  open_streams tone s none false _ =
      (inl caller_stream_failed, not_opened (hint_of s s.caller_language) ∷ context_cancelled ∷ [])
  open_streams tone s none true false = (
    inl agent_stream_failed,
    opened (hint_of s s.caller_language)
        ∷ not_opened (hint_of s s.agent_language)
        ∷ stream_closed
        ∷ context_cancelled
        ∷ [],
  )
  open_streams tone s none true true = (
    inr (made tone s),
    opened (hint_of s s.caller_language) ∷ opened (hint_of s s.agent_language) ∷ [],
  )

  unfoldable pub new_session :
      (degrade_tone : ℤ → List ℕ)
      → Settings Float
      → (caller_opens agent_opens : Bool) → (StartError ⊎ Session Float) × List Effect
  unfolding validate open_streams
  new_session degrade_tone s caller_opens agent_opens =
      open_streams degrade_tone s (validate s) caller_opens agent_opens
