-- ===== src/Session/Degraded.antt =====
-- When a leg of pkg/langstream/session.go is degraded, and that it stays so.
use lang_stream.Prelude.{
  ◌||◌, ◌∙◌, ℕ, ◌+◌, ◌≤◌, ◌<◌, ◌≡◌, Bool, true, false, ◌↔◌, List, refl, arith, ap, subst, sym,
  if◌then◌else◌,
}
use Prim.Native.String.{String}
use text.Mathlib.Text.{◌==◌ as str_eq}
use text.Mathlib.TextEquality.{eq_iff}
use lang_stream.Prelude.Int.{ℤ, pos, negsuc}
use lang_stream.Floats.{Floats}
use lang_stream.Fallback.{LegState, record_failure, record_success, new_leg_state}
use lang_stream.Metrics.{
  LatencyRecorder, error_count, new_latency_recorder, record_sample, record_event, record_error,
  record_error_reason,
}
use lang_stream.Metrics.Counter.{count_of}
use lang_stream.Metrics.Totals.{errors-record_error_reason}
use lang_stream.Leg.{SessionConfig, Leg, listening, draining, vendor_label, record_fallback}
use lang_stream.Session.Run.{Event, run}
use lang_stream.Session.Kept.{IsKept, IsSound}
use lang_stream.Session.Kept.Events.{run-kept}

-- The failure counter of a leg that is not degraded is below the limit, where there is one.
abbrev pub IsBounded : ℤ → LegState → Type 0
IsBounded (pos n) s = s.degraded ≡ false → 0 < n → s.consecutive_failures < n
IsBounded (negsuc n) s = Unit

failure-IsBounded :
    (max : ℤ) (fatal : Bool) (s : LegState)
    → IsBounded max s
    → IsBounded max (record_failure s fatal max).0
unfolding record_failure
failure-IsBounded (pos n) true s h = ground arith
failure-IsBounded (pos n) false s h = ground arith
failure-IsBounded (negsuc n) fatal s h = tt

death-IsBounded :
    (max : ℤ) (s : LegState) → IsBounded max s → IsBounded max (record_failure s true (pos 0)).0
unfolding record_failure
death-IsBounded (pos n) s h = ground arith
death-IsBounded (negsuc n) s h = tt

audio-IsBounded :
    (max : ℤ) (s t : LegState)
    → s.degraded ≡ t.degraded
    → t.consecutive_failures ≤ s.consecutive_failures
    → IsBounded max s
    → IsBounded max t
audio-IsBounded (pos n) s t d c h = ground arith
audio-IsBounded (negsuc n) s t d c h = tt

pub name_lem :
    (s : LegState) (fatal : Bool) (max : ℤ) → (record_failure s fatal max).0.name ≡ s.name
unfolding record_failure
name_lem s fatal max = ground arith

degraded_lem :
    (s : LegState) (fatal : Bool) (max : ℤ)
    → (record_failure s fatal max).0.degraded ≡ (record_failure s fatal max).1 || s.degraded
unfolding record_failure
degraded_lem s fatal max = ground arith

module _ (F : Floats) where
  open F use {Float}

  pub IsBounded-kept : (max : ℤ) → IsKept F max (λ s m. IsBounded max s)
  unfolding record_success
  IsBounded-kept max = record {
    audio = λ s m a h. audio-IsBounded max s _ refl (omega arith) h;
    success = λ s m h. audio-IsBounded max s _ refl (omega arith) h;
    failure = λ s m fatal h. failure-IsBounded max fatal s h;
    death = λ s m reason h. death-IsBounded max s h;
    noted = λ s m reason d h. h;
    sample = λ s m stage ms h. h;
    event = λ s m stage vendor h. h;
    err = λ s m stage vendor reason e h. h;
  }

  degraded_kept : (max : ℤ) → IsKept F max (λ s m. s.degraded ≡ true)
  unfolding record_failure record_success
  degraded_kept max = record {
    audio = λ s m a h. h;
    success = λ s m h. h;
    failure = λ s m fatal h. ground arith;
    death = λ s m reason h. refl;
    noted = λ s m reason d h. h;
    sample = λ s m stage ms h. h;
    event = λ s m stage vendor h. h;
    err = λ s m stage vendor reason e h. h;
  }

  -- The recorder has an error of the leg under "leg_degraded" just if the leg is degraded.
  abbrev pub IsRecorded : String → LegState → LatencyRecorder Float → Type 0
  IsRecorded name s m =
      (s.name ≡ name)
      × ((s.degraded ≡ true) ↔ (0 < error_count m "leg_degraded" (vendor_label name)))

  error_count-leg_degraded :
      (name : String) (m : LatencyRecorder Float) (reason : String)
      → error_count
          (record_error_reason m "leg_degraded" (vendor_label name) reason)
          "leg_degraded"
          (vendor_label name)
        ≡ error_count m "leg_degraded" (vendor_label name) + 1
  error_count-leg_degraded name m reason =
      let same = (eq_iff (vendor_label name) (vendor_label name)).1 refl in
      let counted =
        errors-record_error_reason "leg_degraded" (vendor_label name) "leg_degraded"
          (vendor_label name) reason m in
      counted
      ∙ ap (λ b. error_count m "leg_degraded" (vendor_label name) + (if b then 1 else 0)) same

  error_count-other :
      (name : String) (m : LatencyRecorder Float) (stage vendor reason : String)
      → str_eq stage "leg_degraded" ≡ false
      → error_count (record_error_reason m stage vendor reason) "leg_degraded" (vendor_label name)
        ≡ error_count m "leg_degraded" (vendor_label name)
  error_count-other name m stage vendor reason e =
      let counted =
        errors-record_error_reason "leg_degraded" (vendor_label name) stage vendor reason m in
      ground (arith, counted, e)

  noted-IsRecorded :
      (name : String) (s t : LegState) (m : LatencyRecorder Float) (reason : String)
      → s.name ≡ name
      → t.name ≡ s.name
      → t.degraded ≡ true
      → IsRecorded name t (record_error_reason m "leg_degraded" (vendor_label s.name) reason)
  noted-IsRecorded name s t m reason e f d =
      let counted = error_count-leg_degraded name m reason in
      (
        f ∙ e,
        subst
            (λ n. (t.degraded ≡ true) ↔ (
              0
              < error_count (record_error_reason m "leg_degraded" (vendor_label n) reason)
                  "leg_degraded" (vendor_label name)))
            (sym e) ((λ _. omega arith), (λ _. d)),
      )

  after_failure-IsRecorded :
      (name : String) (s t : LegState) (newly : Bool) (m : LatencyRecorder Float)
      → t.name ≡ s.name
      → t.degraded ≡ newly || s.degraded
      → IsRecorded name s m
      → IsRecorded name t (if newly then record_fallback F m "leg_degraded" s.name else m)
  unfolding record_fallback record_error
  after_failure-IsRecorded name s t true m e d h = noted-IsRecorded name s t m "" h.0 e d
  after_failure-IsRecorded name s t false m e d h =
      (e ∙ h.0, ((λ x. (h.1).0 (sym d ∙ x)), (λ x. d ∙ (h.1).1 x)))

  failure-IsRecorded :
      (name : String) (max : ℤ) (s : LegState) (m : LatencyRecorder Float) (fatal : Bool)
      → IsRecorded name s m
      → IsRecorded name
          (record_failure s fatal max).0
          (if (record_failure s fatal max).1 then record_fallback F m "leg_degraded" s.name else m)
  failure-IsRecorded name max s m fatal h =
      after_failure-IsRecorded name s (record_failure s fatal max).0 (record_failure s fatal max).1
        m (name_lem s fatal max) (degraded_lem s fatal max) h

  pub IsRecorded-kept : (name : String) (max : ℤ) → IsKept F max (IsRecorded name)
  unfolding record_success record_failure record_sample record_event error_count
  IsRecorded-kept name max = record {
    audio = λ s m a h. h;
    success = λ s m h. h;
    failure = λ s m fatal h. failure-IsRecorded name max s m fatal h;
    death = λ s m reason h.
        noted-IsRecorded name s (record s { degraded = true }) m reason h.0 refl refl;
    noted = λ s m reason d h. noted-IsRecorded name s s m reason h.0 refl d;
    sample = λ s m stage ms h. h;
    event = λ s m stage vendor h. h;
    err = λ s m stage vendor reason e h. (
      h.0,
      subst (λ n. (s.degraded ≡ true) ↔ (0 < n))
          (sym (error_count-other name m stage vendor reason e)) h.1,
    );
  }

  -- A leg as NewSession starts it.
  abbrev pub new_leg : String → ℤ → Leg Float
  new_leg name buffer_frames = record {
    mode = listening;
    state = new_leg_state name buffer_frames;
    metrics = new_latency_recorder;
  }

  pub new_leg-IsBounded :
      (max : ℤ) (name : String) (buffer_frames : ℤ)
      → IsSound F (λ s m. IsBounded max s) (new_leg name buffer_frames)
  unfolding new_leg_state
  new_leg-IsBounded (pos n) name buffer_frames = record { kept = λ d h. h; dead = λ e. cc }
  new_leg-IsBounded (negsuc n) name buffer_frames = record { kept = tt; dead = λ e. cc }

  pub new_leg-IsRecorded :
      (name : String) (buffer_frames : ℤ) → IsSound F (IsRecorded name) (new_leg name buffer_frames)
  unfolding new_leg_state error_count new_latency_recorder count_of
  new_leg-IsRecorded name buffer_frames = record {
    kept = (refl, ((λ e. cc), (λ e. ground arith)));
    dead = λ e. cc;
  }

  -- Once a leg is degraded it stays so, whatever happens in the rest of the call.
  pub stays_degraded :
      (cfg : SessionConfig Float) (leg : Leg Float) (es : List (Event Float))
      → leg.state.degraded ≡ true
      → (run F cfg leg es).state.degraded ≡ true
  stays_degraded cfg leg es h =
      (run-kept F cfg (λ s m. s.degraded ≡ true) (degraded_kept _) leg es
        (record { kept = h; dead = λ e. h })).kept

  -- On every run of a new leg with a positive limit of consecutive failures: a leg that is not
  -- degraded has fewer failures in a row than the limit; a leg whose ASR stream has ended is
  -- degraded; and the leg is degraded just if its recorder counts an error of it under
  -- "leg_degraded".
  pub degraded_iff_recorded :
      (cfg : SessionConfig Float) (name : String) (buffer_frames : ℤ) (es : List (Event Float))
      (max : ℕ)
      → cfg.fallback.max_consecutive_failures ≡ pos max
      → 0 < max
      → let leg = run F cfg (new_leg name buffer_frames) es in
        (leg.state.degraded ≡ false → leg.state.consecutive_failures < max)
        × (leg.mode ≡ draining → leg.state.degraded ≡ true)
        × ((leg.state.degraded ≡ true)
            ↔ (0 < error_count leg.metrics "leg_degraded" (vendor_label name)))
  degraded_iff_recorded cfg name buffer_frames es max e positive =
      let bounded =
        run-kept F cfg (λ s m. IsBounded cfg.fallback.max_consecutive_failures s) (IsBounded-kept _)
          (new_leg name buffer_frames) es
          (new_leg-IsBounded cfg.fallback.max_consecutive_failures name buffer_frames) in
      let recorded =
        run-kept F cfg (IsRecorded name) (IsRecorded-kept name _) (new_leg name buffer_frames) es
          (new_leg-IsRecorded name buffer_frames) in
      (
        (λ d.
            subst (λ z. IsBounded z (run F cfg (new_leg name buffer_frames) es).state) e
              bounded.kept d positive),
        bounded.dead,
        recorded.kept.1,
      )
