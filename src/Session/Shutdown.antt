-- ===== src/Session/Shutdown.antt =====
-- Session.Close of pkg/langstream/session.go, among the goroutines of the two legs. A section of Close
-- between two waits is a step, and so is an event of a leg.
pub mod Order
pub mod Returns
use lang_stream.Prelude.{
  ℕ, zero, suc, ◌+◌, ◌-◌, ◌*◌, ◌/◌, ◌%◌, ◌^◌, ◌≤◌, ◌<◌, ◌≡◌, refl, sym, ap, ap₂, subst, ◌∙◌, ◌≢◌,
  ◌↔◌, ◌⊎◌, inl, inr, Bool, Bool-cases, Option-cases, true, false, not, ◌&&◌, ◌||◌, Option, none,
  some, List, [], ◌∷◌, ◌++◌, map, arith, ltb, leb, ◌==◌, if◌then◌else◌, if_cases, length, take,
  ==_iff,
}
use lang_stream.Floats.{Floats}
use lang_stream.Leg.{Mode, over}
use lang_stream.Session.Start.{Session}
use lang_stream.Session.Run.{Event, pushed, transcript, ended, tick, cancelled}
use lang_stream.Session.Both.{Side, caller, agent, step_side}

-- How far the first call of Close is. `forced` is the wait behind its timeout.
pub data Phase : Type 0 where
  unclosed closing_caller closing_agent waiting forced returned : Phase

-- `closing` is the flag, `ctx_done` says that the session's context has ended, `outs_closed` that the
-- two outbound channels are closed, `errors` is the list that closeErr joins: the sides whose stream
-- did not close well. `parent_done` and `timed_out` say why the context can have ended.
pub record System (Float : Type 0) : Type 0 where
  pub session : Session Float
  pub phase : Phase
  pub closing : Bool
  pub ctx_done : Bool
  pub outs_closed : Bool
  pub errors : List Side
  pub parent_done : Bool
  pub timed_out : Bool

abbrev pub has_ended : Mode → Bool
has_ended over = true
has_ended _ = false

module _ {Float : Type 0} where
  -- A session as NewSession returns it.
  unfoldable pub opened : Session Float → System Float
  opened s = record {
    session = s;
    phase = unclosed;
    closing = false;
    ctx_done = false;
    outs_closed = false;
    errors = [];
    parent_done = false;
    timed_out = false;
  }

  -- `wg.Wait()` returns.
  unfoldable pub both_ended : System Float → Bool
  both_ended x = has_ended x.session.caller_mode && has_ended x.session.agent_mode

  unfoldable pub begin_close : System Float → System Float
  begin_close x = record x { closing = true; phase = closing_caller }

  unfoldable pub close_caller : (failed : Bool) → System Float → System Float
  close_caller failed x = record x {
    errors = if failed then x.errors ++ caller ∷ [] else x.errors;
    phase = closing_agent;
  }

  unfoldable pub close_agent : (failed : Bool) → System Float → System Float
  close_agent failed x = record x {
    errors = if failed then x.errors ++ agent ∷ [] else x.errors;
    phase = waiting;
  }

  -- finalFlushTimeout passes first.
  unfoldable pub give_up : System Float → System Float
  give_up x = record x { ctx_done = true; timed_out = true; phase = forced }

  unfoldable pub finish : System Float → System Float
  finish x = record x { ctx_done = true; outs_closed = true; phase = returned }

  -- Whether an event of a leg can happen: it reads the flag as it is, and the end of the context only
  -- when there is one.
  unfoldable pub fits : System Float → Event Float → Bool
  fits x (pushed pcm rate now) = true
  fits x (transcript said env) = true
  fits x (ended closing env) = if closing then x.closing else not x.closing
  fits x (tick closing env) = if closing then x.closing else not x.closing
  fits x (cancelled env) = x.ctx_done

module _ (F : Floats) where
  open F use {Float}

  unfoldable pub leg_moves : System Float → Side → Event Float → System Float
  leg_moves x side e = record x { session = (step_side F x.session side e).0 }

  pub data Step : System Float → System Float → Type 0 where
    moves :
        (x : System Float) (side : Side) (e : Event Float)
        → fits x e ≡ true
        → Step x (leg_moves x side e)
    parent_ends : (x : System Float) → Step x (record x { ctx_done = true; parent_done = true })
    begins : (x : System Float) → x.phase ≡ unclosed → Step x (begin_close x)
    closes_caller :
        (x : System Float) (failed : Bool)
        → x.phase ≡ closing_caller
        → Step x (close_caller failed x)
    closes_agent :
        (x : System Float) (failed : Bool) → x.phase ≡ closing_agent → Step x (close_agent failed x)
    drained : (x : System Float) → x.phase ≡ waiting → both_ended x ≡ true → Step x (finish x)
    gives_up : (x : System Float) → x.phase ≡ waiting → Step x (give_up x)
    drained_late : (x : System Float) → x.phase ≡ forced → both_ended x ≡ true → Step x (finish x)

  pub data Reach (x : System Float) : System Float → Type 0 where
    here : Reach x x
    next : {y z : System Float} → Reach x y → Step y z → Reach x z
