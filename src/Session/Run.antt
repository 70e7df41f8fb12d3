-- ===== src/Session/Run.antt =====
-- The life of a leg of pkg/langstream/session.go: the events of `runLeg` and `drainDeadLeg` and the
-- pushes of PushCallerAudio and PushAgentAudio, in the order in which they happen.
use lang_stream.Prelude.{ℕ, Bool, List, [], ◌∷◌, ◌++◌}
use lang_stream.Prelude.Int.{ℤ}
use lang_stream.Floats.{Floats}
use lang_stream.Audio.{AudioChunk, Transcript}
use lang_stream.Fallback.{push}
use lang_stream.Leg.{SessionConfig, Environment, Leg, Mode, listening, draining, over}
use lang_stream.Session.{on_transcript, on_end, on_tick, on_cancelled}

pub data Event (Float : Type 0) : Type 0 where
  pushed : List ℕ → ℤ → ℕ → Event Float
  transcript : Transcript Float → Environment Float → Event Float
  ended : Bool → Environment Float → Event Float
  tick : Bool → Environment Float → Event Float
  cancelled : Environment Float → Event Float

module _ (F : Floats) where
  open F use {Float}

  -- In a mode that does not wait for an event, the event changes nothing.
  unfoldable pub step_in :
      Mode → SessionConfig Float → Leg Float → Event Float → Leg Float × List AudioChunk
  step_in mode cfg leg (pushed pcm rate now) =
      (record leg { state = record leg.state { audio = push leg.state.audio pcm rate now } }, [])
  step_in listening cfg leg (transcript said env) =
      on_transcript F cfg env leg.state leg.metrics said
  step_in listening cfg leg (ended closing env) = on_end F cfg env leg.state leg.metrics closing
  step_in listening cfg leg (cancelled env) = (record leg { mode = over }, [])
  step_in draining cfg leg (tick closing env) = on_tick F cfg env leg.state leg.metrics closing
  step_in draining cfg leg (cancelled env) = on_cancelled F cfg env leg.state leg.metrics
  step_in mode cfg leg event = (leg, [])

  unfoldable pub step : SessionConfig Float → Leg Float → Event Float → Leg Float × List AudioChunk
  unfolding step_in
  step cfg leg event = step_in leg.mode cfg leg event

  unfoldable pub run : SessionConfig Float → Leg Float → List (Event Float) → Leg Float
  run cfg leg [] = leg
  run cfg leg (e ∷ es) = run cfg (step cfg leg e).0 es

  -- What the listening party is sent.
  unfoldable pub heard : SessionConfig Float → Leg Float → List (Event Float) → List AudioChunk
  heard cfg leg [] = []
  heard cfg leg (e ∷ es) = (step cfg leg e).1 ++ heard cfg (step cfg leg e).0 es
