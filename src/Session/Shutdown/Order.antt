-- ===== src/Session/Shutdown/Order.antt =====
-- In what order Session.Close of pkg/langstream/session.go takes a session apart.
use lang_stream.Prelude.{◌≡◌, refl, ◌⊎◌, inl, inr, Bool-cases, true, false, [], arith}
use lang_stream.Floats.{Floats}
use lang_stream.Leg.{SessionConfig, Leg, Mode, listening, draining, over}
use lang_stream.Session.Start.{Session}
use lang_stream.Session.Run.{Event, pushed, transcript, ended, tick, cancelled, step, step_in}
use lang_stream.Session.Both.{Side, caller, agent, leg_of, with_leg, config_of, step_side}
use lang_stream.Session.Shutdown.{
  unclosed, forced, returned, System, has_ended, opened, both_ended, begin_close, close_caller,
  close_agent, give_up, finish, leg_moves, Step, moves, parent_ends, begins, closes_caller,
  closes_agent, drained, gives_up, drained_late, Reach, here, next,
}

has_ended-over : (m : Mode) → has_ended m ≡ true → m ≡ over
has_ended-over over e = refl
has_ended-over listening e = cc
has_ended-over draining e = cc

module _ (F : Floats) where
  open F use {Float}

  -- A goroutine that is over does nothing more.
  over_in :
      (mode : Mode) (cfg : SessionConfig Float) (leg : Leg Float) (e : Event Float)
      → mode ≡ over
      → leg.mode ≡ over
      → ((step_in F mode cfg leg e).0.mode ≡ over) × ((step_in F mode cfg leg e).1 ≡ [])
  unfolding step_in
  over_in over cfg leg (pushed pcm rate now) o e = (e, refl)
  over_in over cfg leg (transcript said env) o e = (e, refl)
  over_in over cfg leg (ended closing env) o e = (e, refl)
  over_in over cfg leg (tick closing env) o e = (e, refl)
  over_in over cfg leg (cancelled env) o e = (e, refl)
  over_in listening cfg leg event o e = cc
  over_in draining cfg leg event o e = cc

  over_step :
      (cfg : SessionConfig Float) (leg : Leg Float) (e : Event Float)
      → leg.mode ≡ over
      → ((step F cfg leg e).0.mode ≡ over) × ((step F cfg leg e).1 ≡ [])
  unfolding step
  over_step cfg leg e o = over_in leg.mode cfg leg e o o

  both_over :
      (x : System Float)
      → both_ended x ≡ true
      → (x.session.caller_mode ≡ over) × (x.session.agent_mode ≡ over)
  unfolding both_ended
  both_over x e = (
    has_ended-over x.session.caller_mode (ground (arith, e)),
    has_ended-over x.session.agent_mode (ground (arith, e)),
  )

  leg_moves-both_ended :
      (x : System Float) (side : Side) (e : Event Float)
      → both_ended x ≡ true
      → both_ended (leg_moves F x side e) ≡ true
  unfolding both_ended leg_moves step_side with_leg leg_of config_of
  leg_moves-both_ended x caller e h =
      let o = both_over x h in
      rw ((over_step x.session.caller_config (leg_of caller x.session) e o.0).0, o.1)
  leg_moves-both_ended x agent e h =
      let o = both_over x h in
      rw (o.0, (over_step x.session.agent_config (leg_of agent x.session) e o.1).0)

  silent_when_over :
      (x : System Float) (side : Side) (e : Event Float)
      → both_ended x ≡ true
      → (step_side F x.session side e).1 ≡ []
  unfolding step_side leg_of config_of
  silent_when_over x caller e h =
      (over_step x.session.caller_config (leg_of caller x.session) e (both_over x h).0).1
  silent_when_over x agent e h =
      (over_step x.session.agent_config (leg_of agent x.session) e (both_over x h).1).1

  pub record IsOrdered (x : System Float) : Type 0 where
    flag : x.closing ≡ false → x.phase ≡ unclosed
    outs : x.outs_closed ≡ true → both_ended x ≡ true
    done : x.outs_closed ≡ true → x.phase ≡ returned
    pub late : x.phase ≡ forced → x.ctx_done ≡ true
    cut : x.timed_out ≡ false → x.parent_done ≡ false → x.ctx_done ≡ true → both_ended x ≡ true

  Step-IsOrdered : {x y : System Float} → Step F x y → IsOrdered x → IsOrdered y
  unfolding leg_moves begin_close close_caller close_agent give_up finish both_ended
  Step-IsOrdered (moves x side e ok) o = record {
    flag = o.flag;
    outs = λ c. leg_moves-both_ended x side e (o.outs c);
    done = o.done;
    late = o.late;
    cut = λ t p c. leg_moves-both_ended x side e (o.cut t p c);
  }
  Step-IsOrdered (parent_ends x) o = ground arith
  Step-IsOrdered (begins x p) o = ground arith
  Step-IsOrdered (closes_caller x failed p) o = ground arith
  Step-IsOrdered (closes_agent x failed p) o = ground arith
  Step-IsOrdered (drained x p b) o = ground arith
  Step-IsOrdered (gives_up x p) o = ground arith
  Step-IsOrdered (drained_late x p b) o = ground arith

  pub opened-IsOrdered : (s : Session Float) → IsOrdered (opened s)
  unfolding opened
  opened-IsOrdered s = record {
    flag = λ e. refl;
    outs = λ e. cc;
    done = λ e. cc;
    late = λ e. cc;
    cut = λ t p e. cc;
  }

  pub Reach-IsOrdered : {x y : System Float} → Reach F x y → IsOrdered x → IsOrdered y
  Reach-IsOrdered here o = o
  Reach-IsOrdered (next r st) o = Step-IsOrdered st (Reach-IsOrdered r o)

  why_ended :
      (x : System Float)
      → IsOrdered x
      → x.ctx_done ≡ true
      → (x.timed_out ≡ true) ⊎ (x.parent_done ≡ true) ⊎ (both_ended x ≡ true)
  why_ended x o c = elim (Bool-cases x.timed_out) [
    | inl t ↦ inl t
    | inr t ↦ elim (Bool-cases x.parent_done) [
      | inl p ↦ inr (inl p)
      | inr p ↦ inr (inr (o.cut t p c))
    ]
  ]

  -- However the steps of Close, of the two legs and of the session's parent context interleave: the
  -- outbound channels are closed only when Close returns, both goroutines are over by then, and no
  -- event of a leg sends anything on them from then on; and the session's context ends only because
  -- the timeout has passed, the parent context has ended, or both goroutines are over.
  pub close_in_order :
      (s : Session Float) (x : System Float)
      → Reach F (opened s) x
      → (x.outs_closed ≡ true
          → (x.phase ≡ returned)
            × (both_ended x ≡ true)
            × ((side : Side) (e : Event Float) → (step_side F x.session side e).1 ≡ []))
        × (x.ctx_done ≡ true
            → (x.timed_out ≡ true) ⊎ (x.parent_done ≡ true) ⊎ (both_ended x ≡ true))
  close_in_order s x r =
      let o = Reach-IsOrdered r (opened-IsOrdered s) in
      ((λ c. (o.done c, o.outs c, λ side e. silent_when_over x side e (o.outs c))), why_ended x o)
