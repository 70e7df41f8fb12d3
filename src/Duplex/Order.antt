-- ===== src/Duplex/Order.antt =====
-- In what order a DuplexSession of pkg/rtp/duplex.go starts and stops.
use lang_stream.Prelude.{◌≡◌, ◌≢◌, inl, inr, Bool, Bool-cases, true, false, arith}
use lang_stream.Duplex.{
  Media, bound, started, stopped, StopPhase, unstopped, stopping_caller, stopping_agent, cancelling,
  waiting, returned, DuplexSession, new_duplex_session, start, begin_stop, stop_caller, stop_agent,
  cancel, return_stop, exit, Step, starts, exits, stops, stops_caller, stops_agent, cancels, waited,
  times_out, Reach, here, next,
}

-- The flag that a running Stop has read is still the flag.
abbrev HasRead : StopPhase → Bool → Type 0
HasRead (stopping_caller was) flag = was ≡ flag
HasRead (stopping_agent was) flag = was ≡ flag
HasRead (cancelling was) flag = was ≡ flag
HasRead _ flag = Unit

-- Where the media sessions are in each phase, once they are started.
abbrev MediaAt : StopPhase → Media → Media → Type 0
MediaAt unstopped c a = (c ≡ started) × (a ≡ started)
MediaAt (stopping_caller _) c a = (c ≡ started) × (a ≡ started)
MediaAt (stopping_agent _) c a = (c ≡ stopped) × (a ≡ started)
MediaAt _ c a = (c ≡ stopped) × (a ≡ stopped)

abbrev HasCancelled : StopPhase → Bool → Type 0
HasCancelled waiting done = done ≡ true
HasCancelled returned done = done ≡ true
HasCancelled _ done = done ≡ false

record IsOrdered (d : DuplexSession) : Type 0 where
  unflagged : d.stopped_flag ≡ false → d.phase ≡ unstopped
  flagged : d.phase ≡ unstopped → d.stopped_flag ≡ false
  has_read : HasRead d.phase d.started_flag
  idle :
      d.started_flag ≡ false → (d.running ≡ 0) × (d.caller_media ≡ bound) × (d.agent_media ≡ bound)
  busy : d.started_flag ≡ true → MediaAt d.phase d.caller_media d.agent_media
  cancelled : HasCancelled d.phase d.ctx_done
  empty : d.phase ≡ returned → d.timed_out ≡ false → d.running ≡ 0

Step-IsOrdered : {d e : DuplexSession} → Step d e → IsOrdered d → IsOrdered e
unfolding start begin_stop stop_caller stop_agent cancel return_stop exit
Step-IsOrdered (starts d) o = ground arith
Step-IsOrdered (exits d n) o = ground arith
Step-IsOrdered (stops d p) o = ground arith
Step-IsOrdered (stops_caller d was p) o = ground arith
Step-IsOrdered (stops_agent d was p) o = ground arith
Step-IsOrdered (cancels d was p) o = ground arith
Step-IsOrdered (waited d p n) o = ground arith
Step-IsOrdered (times_out d p) o = ground arith

Reach-IsOrdered : {d e : DuplexSession} → Reach d e → IsOrdered d → IsOrdered e
Reach-IsOrdered here o = o
Reach-IsOrdered (next r st) o = Step-IsOrdered st (Reach-IsOrdered r o)

made-IsOrdered :
    (has_session caller_made agent_made : Bool) (d : DuplexSession)
    → (new_duplex_session has_session caller_made agent_made).2 ≡ inr d
    → IsOrdered d
unfolding new_duplex_session
made-IsOrdered false c a d e = cc
made-IsOrdered true false a d e = cc
made-IsOrdered true true false d e = cc
made-IsOrdered true true true d e = ground (arith, e)

stopped_before_end :
    (p : StopPhase) (c a : Media) (done : Bool)
    → HasCancelled p done
    → MediaAt p c a
    → done ≡ true
    → (c ≡ stopped) × (a ≡ stopped)
stopped_before_end unstopped c a done h m e = cc
stopped_before_end (stopping_caller was) c a done h m e = cc
stopped_before_end (stopping_agent was) c a done h m e = cc
stopped_before_end (cancelling was) c a done h m e = cc
stopped_before_end waiting c a done h m e = m
stopped_before_end returned c a done h m e = m

start_ignored : (d : DuplexSession) → d.stopped_flag ≡ true → start d ≡ d
unfolding start
start_ignored d e = ground (arith, e)

-- However Start, Stop and the six goroutines of a DuplexSession interleave: no goroutine runs that
-- Start has not started, and without Start both media sessions stay bound; the context ends only when
-- both media sessions are stopped, if they were started; once Stop has begun Start does nothing; and
-- when Stop has returned without its timeout, no goroutine runs.
pub stop_in_order :
    (has_session caller_made agent_made : Bool) (made d : DuplexSession)
    → (new_duplex_session has_session caller_made agent_made).2 ≡ inr made
    → Reach made d
    → (d.started_flag ≡ false
        → (d.running ≡ 0) × (d.caller_media ≡ bound) × (d.agent_media ≡ bound))
      × (d.started_flag ≡ true
          → d.ctx_done ≡ true
          → (d.caller_media ≡ stopped) × (d.agent_media ≡ stopped))
      × (d.phase ≢ unstopped → start d ≡ d)
      × (d.phase ≡ returned → d.timed_out ≡ false → d.running ≡ 0)
stop_in_order h c a made d e r =
    let o = Reach-IsOrdered r (made-IsOrdered h c a made e) in
    (
      o.idle,
      (λ s x.
          stopped_before_end d.phase d.caller_media d.agent_media d.ctx_done o.cancelled (o.busy s)
            x),
      (λ begun. elim (Bool-cases d.stopped_flag) [
        | inl s ↦ start_ignored d s
        | inr s ↦ absurd (begun (o.unflagged s))
      ]),
      o.empty,
    )
