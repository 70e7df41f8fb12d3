-- ===== src/Session/Both/Quiet.antt =====
-- What one leg of a session of pkg/langstream/session.go does leaves alone in the recorder that the
-- two share.
use lang_stream.Prelude.{ℕ, ◌≡◌, refl, sym, subst, ◌∙◌, Bool, true, false, arith, if◌then◌else◌}
use Prim.Native.String.{String}
use text.Mathlib.Text.{◌==◌ as str_eq}
use lang_stream.Prelude.Int.{ℤ}
use lang_stream.Floats.{Floats}
use lang_stream.Fallback.{LegState, record_failure, record_success}
use lang_stream.Metrics.{
  LatencyRecorder, error_count, record_sample, record_event, record_error, record_error_reason,
}
use lang_stream.Metrics.Totals.{errors-record_error_reason}
use lang_stream.Leg.{vendor_label, record_fallback}
use lang_stream.Session.Kept.{IsKept}
use lang_stream.Session.Degraded.{name_lem}
use lang_stream.Session.Both.{Side, caller, agent}

abbrev pub name_of : Side → String
name_of caller = "caller"
name_of agent = "agent"

abbrev pub other : Side → Side
other caller = agent
other agent = caller

labels_apart :
    (side : Side)
    → str_eq (vendor_label (name_of side)) (vendor_label (name_of (other side))) ≡ false
unfolding vendor_label
labels_apart caller = refl
labels_apart agent = refl

module _ (F : Floats) where
  open F use {Float}

  -- The account of the other side, while the leg of a side does something.
  abbrev pub IsQuiet : Side → ℕ → LegState → LatencyRecorder Float → Type 0
  IsQuiet side n s m =
      (s.name ≡ name_of side)
      × (error_count m "leg_degraded" (vendor_label (name_of (other side))) ≡ n)

  count-apart :
      (side : Side) (m : LatencyRecorder Float) (reason : String)
      → error_count
          (record_error_reason m "leg_degraded" (vendor_label (name_of side)) reason)
          "leg_degraded"
          (vendor_label (name_of (other side)))
        ≡ error_count m "leg_degraded" (vendor_label (name_of (other side)))
  count-apart side m reason =
      let counted =
        errors-record_error_reason "leg_degraded" (vendor_label (name_of (other side)))
          "leg_degraded" (vendor_label (name_of side)) reason m in
      ground (arith, counted, labels_apart side)

  noted-IsQuiet :
      (side : Side) (n : ℕ) (s t : LegState) (m : LatencyRecorder Float) (reason : String)
      → t.name ≡ s.name
      → IsQuiet side n s m
      → IsQuiet side n t (record_error_reason m "leg_degraded" (vendor_label s.name) reason)
  noted-IsQuiet side n s t m reason e h = (
    e ∙ h.0,
    subst
        (λ x.
          error_count (record_error_reason m "leg_degraded" (vendor_label x) reason) "leg_degraded"
            (vendor_label (name_of (other side)))
          ≡ n)
        (sym h.0) (count-apart side m reason ∙ h.1),
  )

  failure-IsQuiet :
      (side : Side) (n : ℕ) (s t : LegState) (newly : Bool) (m : LatencyRecorder Float)
      → t.name ≡ s.name
      → IsQuiet side n s m
      → IsQuiet side n t (if newly then record_fallback F m "leg_degraded" s.name else m)
  unfolding record_fallback record_error
  failure-IsQuiet side n s t true m e h = noted-IsQuiet side n s t m "" e h
  failure-IsQuiet side n s t false m e h = (e ∙ h.0, h.1)

  other_stage-IsQuiet :
      (side : Side) (n : ℕ) (s : LegState) (m : LatencyRecorder Float)
      (stage vendor reason : String)
      → str_eq stage "leg_degraded" ≡ false
      → IsQuiet side n s m
      → IsQuiet side n s (record_error_reason m stage vendor reason)
  other_stage-IsQuiet side n s m stage vendor reason e h =
      let counted =
        errors-record_error_reason "leg_degraded" (vendor_label (name_of (other side))) stage vendor
          reason m in
      (h.0, ground (arith, counted, e, h.1))

  pub IsQuiet-kept : (side : Side) (n : ℕ) (max : ℤ) → IsKept F max (IsQuiet side n)
  unfolding record_success record_failure record_sample record_event error_count
  IsQuiet-kept side n max = record {
    audio = λ s m a h. h;
    success = λ s m h. h;
    failure = λ s m fatal h.
        failure-IsQuiet side n s (record_failure s fatal max).0 (record_failure s fatal max).1 m
          (name_lem s fatal max) h;
    death = λ s m reason h. noted-IsQuiet side n s (record s { degraded = true }) m reason refl h;
    noted = λ s m reason d h. noted-IsQuiet side n s s m reason refl h;
    sample = λ s m stage ms h. h;
    event = λ s m stage vendor h. h;
    err = λ s m stage vendor reason e h. other_stage-IsQuiet side n s m stage vendor reason e h;
  }
