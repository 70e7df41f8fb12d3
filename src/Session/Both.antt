-- ===== src/Session/Both.antt =====
-- The two legs of a session of pkg/langstream/session.go together: their goroutines run in any order
-- and share the recorder.
pub mod Quiet
pub mod Apart
use lang_stream.Prelude.{
  ℕ, zero, suc, ◌+◌, ◌-◌, ◌*◌, ◌/◌, ◌%◌, ◌^◌, ◌≤◌, ◌<◌, ◌≡◌, refl, sym, ap, ap₂, subst, ◌∙◌, ◌≢◌,
  ◌↔◌, ◌⊎◌, inl, inr, Bool, Bool-cases, Option-cases, true, false, not, ◌&&◌, ◌||◌, Option, none,
  some, List, [], ◌∷◌, ◌++◌, map, arith, ltb, leb, ◌==◌, if◌then◌else◌, if_cases, length, take,
  ==_iff,
}
use lang_stream.Floats.{Floats}
use lang_stream.Audio.{AudioChunk}
use lang_stream.Leg.{SessionConfig, Leg, Mode, over}
use lang_stream.Session.Start.{Session}
use lang_stream.Session.Run.{Event, step}

pub data Side : Type 0 where
  caller : Side
  agent : Side

module _ {Float : Type 0} where
  unfoldable pub config_of : Side → Session Float → SessionConfig Float
  config_of caller s = s.caller_config
  config_of agent s = s.agent_config

  unfoldable pub leg_of : Side → Session Float → Leg Float
  leg_of caller s = record { mode = s.caller_mode; state = s.caller_leg; metrics = s.metrics }
  leg_of agent s = record { mode = s.agent_mode; state = s.agent_leg; metrics = s.metrics }

  unfoldable pub with_leg : Side → Leg Float → Session Float → Session Float
  with_leg caller leg s = record s {
    caller_mode = leg.mode;
    caller_leg = leg.state;
    metrics = leg.metrics;
  }
  with_leg agent leg s = record s {
    agent_mode = leg.mode;
    agent_leg = leg.state;
    metrics = leg.metrics;
  }

module _ (F : Floats) where
  open F use {Float}

  -- An event of one leg, with what its listener is sent.
  unfoldable pub step_side : Session Float → Side → Event Float → Session Float × List AudioChunk
  unfolding config_of leg_of with_leg
  step_side s side e =
      let stepped = step F (config_of side s) (leg_of side s) e in
      (with_leg side stepped.0 s, stepped.1)

  unfoldable pub run_both : Session Float → List (Side × Event Float) → Session Float
  unfolding step_side
  run_both s [] = s
  run_both s ((side, e) ∷ es) = run_both (step_side s side e).0 es
