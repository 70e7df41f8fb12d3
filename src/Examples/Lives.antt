-- ===== src/Examples/Lives.antt =====
-- Tests of how sessions start and end.
use lang_stream.Prelude.{
  ℕ, ◌<◌, ◌≡◌, refl, ◌≢◌, ◌↔◌, ◌⊎◌, inl, inr, true, false, none, some, List, [], ◌∷◌,
}
use lang_stream.Prelude.Int.{ℤ, pos, ltb_ℤ}
use lang_stream.Fallback.{FallbackConfig}
use lang_stream.Metrics.{error_count}
use lang_stream.Leg.{draining, vendor_label}
use lang_stream.Session.Start.{Settings, Session, made, new_session, validate, open_streams}
use lang_stream.Session.Run.{Event, transcript, ended}
use lang_stream.Session.Both.{Side, caller, agent, leg_of, config_of, step_side, run_both}
use lang_stream.Session.Both.Quiet.{name_of}
use lang_stream.Session.Both.Apart.{legs_degrade_apart}
use lang_stream.Session.Shutdown
use lang_stream.Session.Shutdown.{System, returned, both_ended, Reach, begins, give_up, begin_close}
use lang_stream.Session.Shutdown.Order.{close_in_order}
use lang_stream.Session.Shutdown.Returns.{OwnReach, OwnReach-Reach, close_returns}
use lang_stream.Registry.{new_backend_registry}
use lang_stream.Duplex
use lang_stream.Duplex.{
  DuplexSession, Media, absent, bound, stopped, new_duplex_session, unstopped, start,
}
use lang_stream.Duplex.Order.{stop_in_order}
use lang_stream.Command.{Backends, build_duplex_session, command_session}
use lang_stream.Command.Build.{BuiltWell, build_leaks_nothing}
use lang_stream.Recognizer.Languages.{Models}
use lang_stream.Recognizer.Languages.Hints.{asked, english, hindi, code_switching_is_english}
use lang_stream.Examples.Voice.{numbers}
use lang_stream.Examples.Legs.{works, no_translation, utterance}

abbrev untouched : FallbackConfig ℕ
untouched = record {
  confidence_threshold = 0;
  degrade_tone_enabled = false;
  translate_timeout = pos 0;
  synthesize_timeout = pos 0;
  max_consecutive_failures = pos 0;
  dead_leg_drain_interval = pos 0;
}

abbrev settings : Settings ℕ
settings = record {
  caller_language = "hi";
  agent_language = "en";
  asr = some "mock";
  translator = some "mock";
  tts = some "mock";
  voice_persona = none;
  code_switching = false;
  fallback = untouched;
  metrics = none;
}

abbrev tone : ℤ → List ℕ
tone rate = 7 ∷ []

abbrev session : Session ℕ
session = made numbers tone settings

session_started : (new_session numbers tone settings true true).0 ≡ inr session
unfolding new_session validate open_streams
session_started = refl

-- The agent's translations fail while the caller's stream dies.
abbrev both : List (Side × Event ℕ)
both =
    (agent, transcript utterance no_translation)
    ∷ (caller, ended false works)
    ∷ (agent, transcript utterance no_translation)
    ∷ []

legs_degrade_apart_example :
    let after = run_both numbers session both in
    let leg = leg_of agent after in
    (leg.state.degraded ≡ false
      → ltb_ℤ
          (pos leg.state.consecutive_failures)
          (config_of agent session).fallback.max_consecutive_failures
        ≡ true)
    × (leg.mode ≡ draining → leg.state.degraded ≡ true)
    × ((leg.state.degraded ≡ true)
        ↔ (0 < error_count after.metrics "leg_degraded" (vendor_label (name_of agent))))
legs_degrade_apart_example =
    legs_degrade_apart numbers tone settings true true session both agent refl session_started

abbrev fresh : System ℕ
fresh = Shutdown.opened session

close_returns_example : (z : System ℕ) × OwnReach numbers fresh z × (z.phase ≡ returned)
close_returns_example = close_returns numbers session fresh works Shutdown.here

-- The state in which Close has returned behind its timeout.
abbrev end : (z : System ℕ) × OwnReach numbers fresh z × (z.phase ≡ returned)
end = close_returns numbers session fresh works Shutdown.here

close_in_order_example :
    (end.0.outs_closed ≡ true
      → (end.0.phase ≡ returned)
        × (both_ended end.0 ≡ true)
        × ((side : Side) (e : Event ℕ) → (step_side numbers end.0.session side e).1 ≡ []))
    × (end.0.ctx_done ≡ true
        → (end.0.timed_out ≡ true) ⊎ (end.0.parent_done ≡ true) ⊎ (both_ended end.0 ≡ true))
close_in_order_example = close_in_order numbers session end.0 (OwnReach-Reach numbers end.1)

abbrev bridge : DuplexSession
bridge = record {
  caller_media = bound;
  agent_media = bound;
  started_flag = false;
  stopped_flag = false;
  ctx_done = false;
  running = 0;
  phase = unstopped;
  timed_out = false;
}

bridge_made : (new_duplex_session true true true).2 ≡ inr bridge
unfolding new_duplex_session
bridge_made = refl

abbrev running : DuplexSession
running = start bridge

stop_in_order_example :
    (running.started_flag ≡ false
      → (running.running ≡ 0) × (running.caller_media ≡ bound) × (running.agent_media ≡ bound))
    × (running.started_flag ≡ true
        → running.ctx_done ≡ true
        → (running.caller_media ≡ stopped) × (running.agent_media ≡ stopped))
    × (running.phase ≢ unstopped → start running ≡ running)
    × (running.phase ≡ Duplex.returned → running.timed_out ≡ false → running.running ≡ 0)
stop_in_order_example =
    stop_in_order true true true bridge running bridge_made
      (Duplex.next Duplex.here (Duplex.starts bridge))

abbrev backends : Backends
backends = new_backend_registry (inl "mock") (inl "mock") (inl "mock")

-- The agent's media session cannot be made.
build_leaks_nothing_example : BuiltWell numbers (
    build_duplex_session numbers
      (command_session numbers tone untouched backends "mock" "mock" "mock" "hi" "en" true true)
      true
      true
      true
      false)
build_leaks_nothing_example =
    build_leaks_nothing numbers tone untouched backends "mock" "mock" "mock" "hi" "en" true true
      true true true false

abbrev models : Models
models = record { model = "nova-2"; hindi_model = "nova-3" }

abbrev switching : Settings ℕ
switching = record settings { code_switching = true }

code_switching_is_english_example :
    (switching.code_switching ≡ true
      → asked numbers tone models switching ≡ english models ∷ english models ∷ [])
    × (switching.code_switching ≡ false
        → switching.caller_language ≡ "hi"
        → switching.agent_language ≡ "en"
        → asked numbers tone models switching ≡ hindi models ∷ english models ∷ [])
    × (switching.code_switching ≡ false
        → switching.caller_language ≡ "en"
        → switching.agent_language ≡ "hi"
        → asked numbers tone models switching ≡ english models ∷ hindi models ∷ [])
unfolding validate
code_switching_is_english_example = code_switching_is_english numbers tone models switching refl
