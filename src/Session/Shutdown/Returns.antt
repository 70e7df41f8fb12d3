-- ===== src/Session/Shutdown/Returns.antt =====
-- Session.Close of pkg/langstream/session.go returns, and only once.
use lang_stream.Prelude.{◌≡◌, refl, ◌∙◌, Bool, true, false}
use lang_stream.Floats.{Floats}
use lang_stream.Leg.{SessionConfig, Leg, Mode, listening, draining, over, Environment}
use lang_stream.Session.{on_cancelled}
use lang_stream.Session.Start.{Session}
use lang_stream.Session.Run.{pushed, transcript, ended, tick, cancelled, step, step_in}
use lang_stream.Session.Both.{caller, agent, leg_of, with_leg, config_of, step_side}
use lang_stream.Session.Shutdown.{
  Phase, unclosed, closing_caller, closing_agent, waiting, forced, returned, System, both_ended,
  begin_close, close_caller, close_agent, give_up, finish, fits, leg_moves, Step, moves,
  parent_ends, begins, closes_caller, closes_agent, drained, gives_up, drained_late, Reach, here,
  next, opened,
}
use lang_stream.Session.Shutdown.Order.{IsOrdered, opened-IsOrdered, Reach-IsOrdered}

module _ (F : Floats) where
  open F use {Float}

  -- The end of the context ends a goroutine, whatever it is at.
  cancelled_in :
      (mode : Mode) (cfg : SessionConfig Float) (leg : Leg Float) (env : Environment Float)
      → leg.mode ≡ mode
      → (step_in F mode cfg leg (cancelled env)).0.mode ≡ over
  unfolding step_in on_cancelled
  cancelled_in listening cfg leg env e = refl
  cancelled_in draining cfg leg env e = refl
  cancelled_in over cfg leg env e = e

  abbrev both_cancelled : System Float → Environment Float → System Float
  both_cancelled x env = leg_moves F (leg_moves F x caller (cancelled env)) agent (cancelled env)

  cancelled-both_ended :
      (x : System Float) (env : Environment Float) → both_ended (both_cancelled x env) ≡ true
  unfolding both_ended leg_moves step_side with_leg leg_of config_of step
  cancelled-both_ended x env = rw (
    cancelled_in x.session.caller_mode x.session.caller_config (leg_of caller x.session) env refl,
    cancelled_in x.session.agent_mode x.session.agent_config
        (leg_of agent (leg_moves F x caller (cancelled env)).session) env refl,
  )

  phase-both_cancelled :
      (x : System Float) (env : Environment Float)
      → ((both_cancelled x env).phase ≡ x.phase) × ((both_cancelled x env).errors ≡ x.errors)
  unfolding leg_moves
  phase-both_cancelled x env = (refl, refl)

  -- A step of Close, the passing of its timeout, or a leg that reads the end of the context.
  unfoldable pub is_own : {x y : System Float} → Step F x y → Bool
  is_own (moves x side (cancelled env) ok) = true
  is_own (moves x side (pushed pcm rate now) ok) = false
  is_own (moves x side (transcript said env) ok) = false
  is_own (moves x side (ended closing env) ok) = false
  is_own (moves x side (tick closing env) ok) = false
  is_own (parent_ends x) = false
  is_own (begins x e) = true
  is_own (closes_caller x failed e) = true
  is_own (closes_agent x failed e) = true
  is_own (drained x e both) = true
  is_own (gives_up x e) = true
  is_own (drained_late x e both) = true

  -- What such steps lead to: nobody pushes or speaks, no stream ends, the parent's context does not end.
  pub data OwnReach (x : System Float) : System Float → Type 0 where
    stay : OwnReach x x
    goes : {y z : System Float} → OwnReach x y → (st : Step F y z) → is_own st ≡ true → OwnReach x z

  pub OwnReach-Reach : {x y : System Float} → OwnReach x y → Reach F x y
  OwnReach-Reach stay = here
  OwnReach-Reach (goes r st own) = next (OwnReach-Reach r) st

  -- From the wait behind the timeout.
  from_forced :
      (x y : System Float) (env : Environment Float)
      → OwnReach x y
      → y.phase ≡ forced
      → y.ctx_done ≡ true
      → (z : System Float) × OwnReach x z × (z.phase ≡ returned)
  unfolding fits leg_moves finish is_own
  from_forced x y env r p c =
      let first = leg_moves F y caller (cancelled env) in
      (
        finish (both_cancelled y env),
        goes
            (goes (goes r (moves y caller (cancelled env) c) refl)
              (moves first agent (cancelled env) c) refl)
            (drained_late (both_cancelled y env) p (cancelled-both_ended y env)) refl,
        refl,
      )

  from_waiting :
      (x y : System Float) (env : Environment Float)
      → OwnReach x y
      → y.phase ≡ waiting
      → (z : System Float) × OwnReach x z × (z.phase ≡ returned)
  unfolding give_up is_own
  from_waiting x y env r p = from_forced x (give_up y) env (goes r (gives_up y p) refl) refl refl

  from_agent :
      (x y : System Float) (env : Environment Float)
      → OwnReach x y
      → y.phase ≡ closing_agent
      → (z : System Float) × OwnReach x z × (z.phase ≡ returned)
  unfolding close_agent is_own
  from_agent x y env r p =
      from_waiting x (close_agent false y) env (goes r (closes_agent y false p) refl) refl

  from_caller :
      (x y : System Float) (env : Environment Float)
      → OwnReach x y
      → y.phase ≡ closing_caller
      → (z : System Float) × OwnReach x z × (z.phase ≡ returned)
  unfolding close_caller is_own
  from_caller x y env r p =
      from_agent x (close_caller false y) env (goes r (closes_caller y false p) refl) refl

  from_phase :
      (p : Phase) (x : System Float) (env : Environment Float)
      → x.phase ≡ p
      → IsOrdered F x
      → (z : System Float) × OwnReach x z × (z.phase ≡ returned)
  unfolding begin_close is_own
  from_phase unclosed x env e o =
      from_caller x (begin_close x) env (goes stay (begins x e) refl) refl
  from_phase closing_caller x env e o = from_caller x x env stay e
  from_phase closing_agent x env e o = from_agent x x env stay e
  from_phase waiting x env e o = from_waiting x x env stay e
  from_phase forced x env e o = from_forced x x env stay e (o.late e)
  from_phase returned x env e o = (x, stay, e)

  -- In every state that a session gets into, however far Close is and whatever the legs are at, there
  -- are steps that lead to the return of Close, and all of them are Close's own, the passing of its
  -- timeout, and legs that read the end of the session's context: neither the end of a stream's
  -- transcripts nor the end of the parent's context is needed.
  pub close_returns :
      (s : Session Float) (x : System Float) (env : Environment Float)
      → Reach F (opened s) x
      → (z : System Float) × OwnReach x z × (z.phase ≡ returned)
  close_returns s x env r =
      from_phase x.phase x env refl (Reach-IsOrdered F r (opened-IsOrdered F s))

  Step-returned :
      {x y : System Float}
      → Step F x y
      → x.phase ≡ returned
      → (y.phase ≡ returned) × (y.errors ≡ x.errors)
  unfolding leg_moves begin_close close_caller close_agent give_up finish
  Step-returned (moves x side e ok) p = (p, refl)
  Step-returned (parent_ends x) p = (p, refl)
  Step-returned (begins x q) p = cc
  Step-returned (closes_caller x failed q) p = cc
  Step-returned (closes_agent x failed q) p = cc
  Step-returned (drained x q b) p = (refl, refl)
  Step-returned (gives_up x q) p = cc
  Step-returned (drained_late x q b) p = (refl, refl)

  -- Once Close has returned, what it returns stays the same, whatever happens afterwards.
  pub close_result_stays :
      {x y : System Float}
      → Reach F x y
      → x.phase ≡ returned
      → (y.phase ≡ returned) × (y.errors ≡ x.errors)
  close_result_stays here p = (p, refl)
  close_result_stays (next r st) p =
      let before = close_result_stays r p in
      let after = Step-returned st before.0 in (after.0, after.1 ∙ before.1)
