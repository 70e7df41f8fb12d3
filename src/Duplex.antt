-- ===== src/Duplex.antt =====
-- pkg/rtp/duplex.go: the life of a DuplexSession, which bridges the two legs' media sessions (of the
-- module clearstream) to a session. Of a media session only what it holds of its socket is seen here.
-- A step is what Start or Stop does between two waits; a call of Start is one step under lifecycleMu.
pub mod Order
pub mod Clean
use lang_stream.Prelude.{
  ℕ, zero, suc, ◌+◌, ◌-◌, ◌*◌, ◌/◌, ◌%◌, ◌^◌, ◌≤◌, ◌<◌, ◌≡◌, refl, sym, ap, ap₂, subst, ◌∙◌, ◌≢◌,
  ◌↔◌, ◌⊎◌, inl, inr, Bool, Bool-cases, Option-cases, true, false, not, ◌&&◌, ◌||◌, Option, none,
  some, List, [], ◌∷◌, ◌++◌, map, arith, ltb, leb, ◌==◌, if◌then◌else◌, if_cases, length, take,
  ==_iff,
}
use lang_stream.Audio.{AudioFrame}
use lang_stream.Prelude.Int.{ℤ, pos}
use lang_stream.Pcm.{int16_pcm_to_bytes}

-- A media session: not made, made (its socket is bound), started, stopped (its socket is released).
pub data Media : Type 0 where
  absent bound started stopped : Media

pub data BuildError : Type 0 where
  nil_session caller_failed agent_failed : BuildError

-- How far the first call of Stop is; the flag is what it has read of startedFlag.
pub data StopPhase : Type 0 where
  unstopped : StopPhase
  stopping_caller stopping_agent cancelling : (was_started : Bool) → StopPhase
  waiting : StopPhase
  returned : StopPhase

-- `running` is the counter of wg; `timed_out` says that stopErr is set.
pub record DuplexSession : Type 0 where
  pub caller_media : Media
  pub agent_media : Media
  pub started_flag : Bool
  pub stopped_flag : Bool
  pub ctx_done : Bool
  pub running : ℕ
  pub phase : StopPhase
  pub timed_out : Bool

-- NewDuplexSession, with the two media sessions as it leaves them: a caller session that must go is
-- started and stopped, the only way to release its socket. Whether they can be made is their affair.
unfoldable pub new_duplex_session :
    (has_session caller_made agent_made : Bool) → Media × Media × (BuildError ⊎ DuplexSession)
new_duplex_session false _ _ = (absent, absent, inl nil_session)
new_duplex_session true false _ = (absent, absent, inl caller_failed)
new_duplex_session true true false = (stopped, absent, inl agent_failed)
new_duplex_session true true true = (
  bound,
  bound,
  inr (record {
    caller_media = bound;
    agent_media = bound;
    started_flag = false;
    stopped_flag = false;
    ctx_done = false;
    running = 0;
    phase = unstopped;
    timed_out = false;
  }),
)

unfoldable pub start : DuplexSession → DuplexSession
start d = if d.started_flag || d.stopped_flag then d else record d {
  started_flag = true;
  caller_media = started;
  agent_media = started;
  running = d.running + 6;
}

-- The section of Stop under lifecycleMu.
unfoldable pub begin_stop : DuplexSession → DuplexSession
begin_stop d = record d { stopped_flag = true; phase = stopping_caller d.started_flag }

-- stopLocked, by its sections: the two media sessions, if they were started, and the context.
unfoldable pub stop_caller : (was_started : Bool) → DuplexSession → DuplexSession
stop_caller was_started d = record d {
  caller_media = if was_started then stopped else d.caller_media;
  phase = stopping_agent was_started;
}

unfoldable pub stop_agent : (was_started : Bool) → DuplexSession → DuplexSession
stop_agent was_started d = record d {
  agent_media = if was_started then stopped else d.agent_media;
  phase = cancelling was_started;
}

unfoldable pub cancel : DuplexSession → DuplexSession
cancel d = record d { ctx_done = true; phase = waiting }

unfoldable pub return_stop : (timed_out : Bool) → DuplexSession → DuplexSession
return_stop timed_out d = record d { timed_out = timed_out; phase = returned }

-- One of the six goroutines returns.
unfoldable pub exit : DuplexSession → DuplexSession
exit d = record d { running = d.running - 1 }

pub data Step : DuplexSession → DuplexSession → Type 0 where
  starts : (d : DuplexSession) → Step d (start d)
  exits : (d : DuplexSession) → 0 < d.running → Step d (exit d)
  stops : (d : DuplexSession) → d.phase ≡ unstopped → Step d (begin_stop d)
  stops_caller :
      (d : DuplexSession) (was : Bool) → d.phase ≡ stopping_caller was → Step d (stop_caller was d)
  stops_agent :
      (d : DuplexSession) (was : Bool) → d.phase ≡ stopping_agent was → Step d (stop_agent was d)
  cancels : (d : DuplexSession) (was : Bool) → d.phase ≡ cancelling was → Step d (cancel d)
  waited : (d : DuplexSession) → d.phase ≡ waiting → d.running ≡ 0 → Step d (return_stop false d)
  times_out : (d : DuplexSession) → d.phase ≡ waiting → Step d (return_stop true d)

pub data Reach (d : DuplexSession) : DuplexSession → Type 0 where
  here : Reach d d
  next : {e f : DuplexSession} → Reach d e → Step e f → Reach d f

abbrev pub clean_audio_sample_rate : ℤ
clean_audio_sample_rate = pos 16000

-- What bridgeCleanAudio meets in its select: a frame, with its samples and the time in milliseconds; the
-- end of the channel; the end of the context.
pub data Incoming : Type 0 where
  frame : (pcm : List ℤ) (now : ℤ) → Incoming
  channel_closed : Incoming
  context_done : Incoming

-- The frames that are pushed to the session. An error of a push is logged and changes nothing.
unfoldable pub bridge_clean_audio : List Incoming → List AudioFrame
bridge_clean_audio [] = []
bridge_clean_audio (frame pcm now ∷ rest) =
    record {
      pcm = int16_pcm_to_bytes pcm;
      sample_rate = clean_audio_sample_rate;
      timestamp_ms = now;
    }
    ∷ bridge_clean_audio rest
bridge_clean_audio (channel_closed ∷ rest) = []
bridge_clean_audio (context_done ∷ rest) = []
