-- ===== src/Command.antt =====
-- cmd/langstream: how the program chooses its backends, builds a session and the two legs' transport,
-- and runs them until a signal. Flags, printing and HTTP are left out; what the media sessions and the
-- noise suppressors of clearstream do is the environment.
pub mod Build
use lang_stream.Prelude.{
  ℕ, zero, suc, ◌+◌, ◌-◌, ◌*◌, ◌/◌, ◌%◌, ◌^◌, ◌≤◌, ◌<◌, ◌≡◌, refl, sym, ap, ap₂, subst, ◌∙◌, ◌≢◌,
  ◌↔◌, ◌⊎◌, inl, inr, Bool, Bool-cases, Option-cases, true, false, not, ◌&&◌, ◌||◌, Option, none,
  some, List, [], ◌∷◌, ◌++◌, map, arith, ltb, leb, ◌==◌, if◌then◌else◌, if_cases, length, take,
  ==_iff,
}
use Prim.Native.String.{String}
use text.Mathlib.Text.{◌==◌ as str_eq}
use lang_stream.Prelude.Int.{ℤ}
use lang_stream.Floats.{Floats}
use lang_stream.Fallback.{FallbackConfig}
use lang_stream.Registry.{BackendRegistry, backend_mock, new_asr, new_translator, new_tts}
use lang_stream.Session.Start.{Settings, Session, StartError, Effect, stream_closed, new_session}
use lang_stream.Duplex.{Media, absent, BuildError, DuplexSession, new_duplex_session}

-- The flag, if it is given, else the environment variable, if it is set, else the mock.
unfoldable pub resolve_backend : (flag_value env_value : String) → String
resolve_backend flag_value env_value =
    if not (str_eq flag_value "")
    then flag_value
    else if not (str_eq env_value "")
    then env_value
    else backend_mock

-- What a factory returns: a backend, by its name, or an error.
abbrev pub Made : Type 0
Made = String ⊎ String

abbrev pub Backends : Type 0
Backends = BackendRegistry Made Made Made

-- A backend that is not registered, with the names of those that are, or an error of its factory.
pub data SelectError : Type 0 where
  unknown : List String → SelectError
  not_made : String → SelectError

unfoldable pub selected : Made ⊎ List String → String ⊎ SelectError
selected (inl (inl name)) = inl name
selected (inl (inr err)) = inr (not_made err)
selected (inr names) = inr (unknown names)

pub data CommandError : Type 0 where
  selecting_asr selecting_mt selecting_tts : SelectError → CommandError
  creating_session : StartError → CommandError
  caller_suppressor agent_suppressor : CommandError
  duplex_failed : BuildError → CommandError

module _ (F : Floats) where
  open F use {Float}

  -- The settings that newSession fills in; `untouched` is FallbackConfig{}.
  unfoldable pub settings_for :
      (untouched : FallbackConfig Float) → (asr mt tts caller agent : String) → Settings Float
  settings_for untouched asr mt tts caller agent = record {
    caller_language = caller;
    agent_language = agent;
    asr = some asr;
    translator = some mt;
    tts = some tts;
    voice_persona = none;
    code_switching = false;
    fallback = untouched;
    metrics = none;
  }

  unfoldable pub session_or_error :
      (StartError ⊎ Session Float) × List Effect → (CommandError ⊎ Session Float) × List Effect
  session_or_error (inl err, effects) = (inl (creating_session err), effects)
  session_or_error (inr session, effects) = (inr session, effects)

  -- newSession behind the three lookups.
  unfoldable pub session_of :
      (degrade_tone : ℤ → List ℕ)
      → FallbackConfig Float
      → (asr mt tts : String ⊎ SelectError) → (caller agent : String)
      → (caller_opens agent_opens : Bool) → (CommandError ⊎ Session Float) × List Effect
  unfolding settings_for session_or_error
  session_of tone z (inr err) mt tts caller agent c a = (inl (selecting_asr err), [])
  session_of tone z (inl asr) (inr err) tts caller agent c a = (inl (selecting_mt err), [])
  session_of tone z (inl asr) (inl mt) (inr err) caller agent c a = (inl (selecting_tts err), [])
  session_of tone z (inl asr) (inl mt) (inl tts) caller agent c a =
      session_or_error (new_session F tone (settings_for z asr mt tts caller agent) c a)

  -- newSession.
  unfoldable pub command_session :
      (degrade_tone : ℤ → List ℕ)
      → FallbackConfig Float
      → Backends
      → (asr_name mt_name tts_name caller agent : String) → (caller_opens agent_opens : Bool)
      → (CommandError ⊎ Session Float) × List Effect
  unfolding selected session_of
  command_session tone z backends asr_name mt_name tts_name caller agent c a =
      session_of tone z (selected (new_asr backends asr_name))
        (selected (new_translator backends mt_name)) (selected (new_tts backends tts_name)) caller
        agent c a

  -- What buildDuplexSession leaves: its result, the recognizer's streams, and the two media sessions.
  pub record Built : Type 0 where
    pub result : CommandError ⊎ (DuplexSession × Session Float)
    pub effects : List Effect
    pub caller_media : Media
    pub agent_media : Media

  -- `sess.Close()` closes both streams.
  abbrev pub closed : List Effect → List Effect
  closed effects = effects ++ (stream_closed ∷ stream_closed ∷ [])

  unfoldable pub with_duplex :
      Session Float → List Effect → Media × Media × (BuildError ⊎ DuplexSession) → Built
  with_duplex session effects (caller, agent, inl err) = record {
    result = inl (duplex_failed err);
    effects = closed effects;
    caller_media = caller;
    agent_media = agent;
  }
  with_duplex session effects (caller, agent, inr duplex) = record {
    result = inr (duplex, session);
    effects = effects;
    caller_media = caller;
    agent_media = agent;
  }

  abbrev without_media : CommandError → List Effect → Built
  without_media err effects = record {
    result = inl err;
    effects = effects;
    caller_media = absent;
    agent_media = absent;
  }

  -- buildDuplexSession behind newSession: whether the suppressors and the media sessions can be made.
  unfoldable pub build_duplex_session :
      (CommandError ⊎ Session Float) × List Effect
      → (caller_suppressed agent_suppressed : Bool) → (caller_made agent_made : Bool) → Built
  unfolding with_duplex
  build_duplex_session (inl err, effects) caller_ok agent_ok cm am = without_media err effects
  build_duplex_session (inr session, effects) false _ cm am =
      without_media caller_suppressor (closed effects)
  build_duplex_session (inr session, effects) true false cm am =
      without_media agent_suppressor (closed effects)
  build_duplex_session (inr session, effects) true true cm am =
      with_duplex session effects (new_duplex_session true cm am)
