-- ===== src/Session/Both/Apart.antt =====
-- The legs of a session of pkg/langstream/session.go do not disturb each other's account.
use lang_stream.Prelude.{
  ℕ, ◌<◌, ◌≡◌, refl, sym, subst, ◌↔◌, inr, Bool, true, false, none, List, [], ◌∷◌, arith,
}
use Prim.Native.String.{String}
use lang_stream.Prelude.Int.{ℤ, pos, negsuc, ltb_ℤ}
use lang_stream.Floats.{Floats}
use lang_stream.Fallback.{LegState, new_leg_state, audio_buffer_frames}
use lang_stream.Metrics.{LatencyRecorder, error_count, new_latency_recorder}
use lang_stream.Leg.{Leg, listening, draining, vendor_label}
use lang_stream.Session.Kept.{IsSound}
use lang_stream.Session.Kept.Events.{step-kept}
use lang_stream.Session.Degraded.{
  IsBounded, IsBounded-kept, IsRecorded, IsRecorded-kept, new_leg-IsBounded, new_leg-IsRecorded,
}
use lang_stream.Session.Run.{Event}
use lang_stream.Session.Start.{Settings, Session, made, new_session, start_metrics, leg_config}
use lang_stream.Session.Start.Released.{HasLimits, new_session-HasLimits, new_session_made}
use lang_stream.Session.Both.{Side, caller, agent, config_of, leg_of, with_leg, step_side, run_both}
use lang_stream.Session.Both.Quiet.{name_of, other, IsQuiet, IsQuiet-kept}

module _ (F : Floats) where
  open F use {Float}

  -- What holds of a side of a session.
  record IsAccounted (side : Side) (s : Session Float) : Type 0 where
    bounded :
        IsSound F
          (λ leg m. IsBounded (config_of side s).fallback.max_consecutive_failures leg)
          (leg_of side s)
    recorded : IsSound F (IsRecorded F (name_of side)) (leg_of side s)

  stepped-IsAccounted :
      (side : Side) (s : Session Float) (e : Event Float)
      → IsAccounted side s
      → IsAccounted side (step_side F s side e).0
  unfolding step_side with_leg leg_of config_of
  stepped-IsAccounted caller s e h = record {
    bounded = step-kept F s.caller_config _ (IsBounded-kept F _) (leg_of caller s) e h.bounded;
    recorded =
        step-kept F s.caller_config _ (IsRecorded-kept F "caller" _) (leg_of caller s) e h.recorded;
  }
  stepped-IsAccounted agent s e h = record {
    bounded = step-kept F s.agent_config _ (IsBounded-kept F _) (leg_of agent s) e h.bounded;
    recorded =
        step-kept F s.agent_config _ (IsRecorded-kept F "agent" _) (leg_of agent s) e h.recorded;
  }

  -- The other leg's errors under "leg_degraded" are what they were.
  count-step_side :
      (side : Side) (s : Session Float) (e : Event Float)
      → IsAccounted side s
      → error_count
          (step_side F s side e).0.metrics
          "leg_degraded"
          (vendor_label (name_of (other side)))
        ≡ error_count s.metrics "leg_degraded" (vendor_label (name_of (other side)))
  unfolding step_side with_leg leg_of config_of
  count-step_side caller s e h =
      (step-kept F s.caller_config (IsQuiet F caller _) (IsQuiet-kept F caller _ _)
        (leg_of caller s) e
        (record { kept = (h.recorded.kept.0, refl); dead = h.recorded.dead })).kept.1
  count-step_side agent s e h =
      (step-kept F s.agent_config (IsQuiet F agent _) (IsQuiet-kept F agent _ _) (leg_of agent s) e
        (record { kept = (h.recorded.kept.0, refl); dead = h.recorded.dead })).kept.1

  waiting-IsAccounted :
      (side : Side) (s : Session Float) (e : Event Float)
      → IsAccounted side s
      → IsAccounted (other side) s
      → IsAccounted (other side) (step_side F s side e).0
  unfolding step_side with_leg leg_of config_of
  waiting-IsAccounted caller s e h k = record {
    bounded = record { kept = k.bounded.kept; dead = k.bounded.dead };
    recorded = record {
      kept = (
        k.recorded.kept.0,
        subst (λ n. (s.agent_leg.degraded ≡ true) ↔ (0 < n)) (sym (count-step_side caller s e h))
            k.recorded.kept.1,
      );
      dead = k.recorded.dead;
    };
  }
  waiting-IsAccounted agent s e h k = record {
    bounded = record { kept = k.bounded.kept; dead = k.bounded.dead };
    recorded = record {
      kept = (
        k.recorded.kept.0,
        subst (λ n. (s.caller_leg.degraded ≡ true) ↔ (0 < n)) (sym (count-step_side agent s e h))
            k.recorded.kept.1,
      );
      dead = k.recorded.dead;
    };
  }

  abbrev AreAccounted : Session Float → Type 0
  AreAccounted s = IsAccounted caller s × IsAccounted agent s

  step_side-AreAccounted :
      (s : Session Float) (side : Side) (e : Event Float)
      → AreAccounted s
      → AreAccounted (step_side F s side e).0
  step_side-AreAccounted s caller e h =
      (stepped-IsAccounted caller s e h.0, waiting-IsAccounted caller s e h.0 h.1)
  step_side-AreAccounted s agent e h =
      (waiting-IsAccounted agent s e h.1 h.0, stepped-IsAccounted agent s e h.1)

  run_both-AreAccounted :
      (s : Session Float) (es : List (Side × Event Float))
      → AreAccounted s
      → AreAccounted (run_both F s es)
  unfolding run_both
  run_both-AreAccounted s [] h = h
  run_both-AreAccounted s ((side, e) ∷ es) h =
      run_both-AreAccounted (step_side F s side e).0 es (step_side-AreAccounted s side e h)

  config-run_both :
      (s : Session Float) (es : List (Side × Event Float)) (side : Side)
      → config_of side (run_both F s es) ≡ config_of side s
  unfolding run_both step_side with_leg config_of
  config-run_both s [] side = refl
  config-run_both s ((caller, e) ∷ es) caller = config-run_both (step_side F s caller e).0 es caller
  config-run_both s ((caller, e) ∷ es) agent = config-run_both (step_side F s caller e).0 es agent
  config-run_both s ((agent, e) ∷ es) caller = config-run_both (step_side F s agent e).0 es caller
  config-run_both s ((agent, e) ∷ es) agent = config-run_both (step_side F s agent e).0 es agent

  of_side : (side : Side) (s : Session Float) → AreAccounted s → IsAccounted side s
  of_side caller s h = h.0
  of_side agent s h = h.1

  limit_of :
      (side : Side) (s : Session Float)
      → HasLimits s.caller_config.fallback × HasLimits s.agent_config.fallback
      → ltb_ℤ (pos 0) (config_of side s).fallback.max_consecutive_failures ≡ true
  unfolding config_of
  limit_of caller s h = h.0.failures
  limit_of agent s h = h.1.failures

  recorded_of :
      (side : Side) (s : Session Float)
      → IsAccounted side s
      → ((leg_of side s).state.degraded ≡ true)
        ↔ (0 < error_count s.metrics "leg_degraded" (vendor_label (name_of side)))
  unfolding leg_of
  recorded_of caller s h = h.recorded.kept.1
  recorded_of agent s h = h.recorded.kept.1

  start_metrics-new :
      (s : Settings Float) → s.metrics ≡ none → start_metrics s ≡ new_latency_recorder
  unfolding start_metrics
  start_metrics-new s e = rw e

  abbrev started : String → LatencyRecorder Float → Leg Float
  started name m = record {
    mode = listening;
    state = new_leg_state name (pos audio_buffer_frames);
    metrics = m;
  }

  started-IsBounded :
      (max : ℤ) (name : String) (m : LatencyRecorder Float)
      → IsSound F (λ s m. IsBounded max s) (started name m)
  started-IsBounded max name m = record {
    kept = (new_leg-IsBounded F max name (pos audio_buffer_frames)).kept;
    dead = λ e. cc;
  }

  started-IsRecorded :
      (name : String) (s : Settings Float)
      → s.metrics ≡ none
      → IsSound F (IsRecorded F name) (started name (start_metrics s))
  started-IsRecorded name s e =
      subst (λ m. IsSound F (IsRecorded F name) (started name m)) (sym (start_metrics-new s e))
        (new_leg-IsRecorded F name (pos audio_buffer_frames))

  made-AreAccounted :
      (tone : ℤ → List ℕ) (s : Settings Float) → s.metrics ≡ none → AreAccounted (made F tone s)
  unfolding made leg_config leg_of config_of
  made-AreAccounted tone s e = (
    record {
      bounded = started-IsBounded _ "caller" (start_metrics s);
      recorded = started-IsRecorded "caller" s e;
    },
    record {
      bounded = started-IsBounded _ "agent" (start_metrics s);
      recorded = started-IsRecorded "agent" s e;
    },
  )

  below_limit :
      (max : ℤ) (s : LegState)
      → ltb_ℤ (pos 0) max ≡ true
      → IsBounded max s
      → s.degraded ≡ false
      → ltb_ℤ (pos s.consecutive_failures) max ≡ true
  below_limit (pos n) s h b d = ground (arith, b)
  below_limit (negsuc n) s h b d = ground arith

  -- In a session that NewSession has made with a recorder of its own, whatever happens to its two legs in
  -- whatever order: a leg that is not degraded has fewer failures in a row than its limit; a leg that
  -- is being drained, since its ASR stream ended without a Close, is degraded; and a leg is degraded just
  -- if the recorder that both share counts an error of that leg under "leg_degraded".
  pub legs_degrade_apart :
      (tone : ℤ → List ℕ) (settings : Settings Float) (caller_opens agent_opens : Bool)
      (session : Session Float) (es : List (Side × Event Float)) (side : Side)
      → settings.metrics ≡ none
      → (new_session F tone settings caller_opens agent_opens).0 ≡ inr session
      → let after = run_both F session es in
        let leg = leg_of side after in
        (leg.state.degraded ≡ false
          → ltb_ℤ
              (pos leg.state.consecutive_failures)
              (config_of side session).fallback.max_consecutive_failures
            ≡ true)
        × (leg.mode ≡ draining → leg.state.degraded ≡ true)
        × ((leg.state.degraded ≡ true)
            ↔ (0 < error_count after.metrics "leg_degraded" (vendor_label (name_of side))))
  legs_degrade_apart tone settings c a session es side own started =
      let made = (new_session_made F tone settings c a session started).1 in
      let begun = subst AreAccounted (sym made) (made-AreAccounted tone settings own) in
      let all = run_both-AreAccounted session es begun in
      let limits = new_session-HasLimits F tone settings c a session started in
      let h = of_side side (run_both F session es) all in
      let same = config-run_both session es side in
      (
        (λ d.
            below_limit _ (leg_of side (run_both F session es)).state (limit_of side session limits)
              (subst
                (λ x.
                  IsBounded x.fallback.max_consecutive_failures
                    (leg_of side (run_both F session es)).state)
                same h.bounded.kept)
              d),
        h.bounded.dead,
        recorded_of side (run_both F session es) h,
      )
