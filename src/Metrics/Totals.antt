-- ===== src/Metrics/Totals.antt =====
-- What the counters of pkg/observability/metrics.go add up to.
use lang_stream.Prelude.{
  Bool-cases, ℕ, inl, inr, Bool-cases, ◌+◌, ◌≡◌, ◌&&◌, List, [], ◌∷◌, if◌then◌else◌, arith,
}
use Prim.Native.String.{String}
use text.Mathlib.Text.{◌==◌ as str_eq}
use lang_stream.Metrics.Counter.{count_of-bump, count_of}
use lang_stream.Metrics.{
  LatencyRecorder, error_keys, reason_keys, new_latency_recorder, record_sample, record_event,
  record_error_reason, error_count, event_count, reason_count,
}

-- The recording methods, with their arguments. `RecordError` is `errs` with no reason.
pub data Call (Float : Type 0) : Type 0 where
  samples : String → Float → Call Float
  events : String → String → Call Float
  errs : String → String → String → Call Float

module _ {Float : Type 0} where
  unfoldable pub apply : LatencyRecorder Float → Call Float → LatencyRecorder Float
  apply r (samples stage ms) = record_sample r stage ms
  apply r (events stage vendor) = record_event r stage vendor
  apply r (errs stage vendor reason) = record_error_reason r stage vendor reason

  unfoldable pub apply_all : LatencyRecorder Float → List (Call Float) → LatencyRecorder Float
  apply_all r [] = r
  apply_all r (c ∷ cs) = apply_all (apply r c) cs

  -- How many of the calls report an error of a stage and vendor, an event without an error, and an
  -- error with a given reason.
  pub errors_in : String → String → List (Call Float) → ℕ
  errors_in stage vendor [] = 0
  errors_in stage vendor (errs s v reason ∷ cs) =
      (if str_eq s stage && str_eq v vendor then 1 else 0) + errors_in stage vendor cs
  errors_in stage vendor (c ∷ cs) = errors_in stage vendor cs

  pub successes_in : String → String → List (Call Float) → ℕ
  successes_in stage vendor [] = 0
  successes_in stage vendor (events s v ∷ cs) =
      (if str_eq s stage && str_eq v vendor then 1 else 0) + successes_in stage vendor cs
  successes_in stage vendor (c ∷ cs) = successes_in stage vendor cs

  pub reasons_in : String → String → String → List (Call Float) → ℕ
  reasons_in stage vendor reason [] = 0
  reasons_in stage vendor reason (errs s v why ∷ cs) =
      (if str_eq why ""
        then 0
        else (if str_eq s stage && (str_eq v vendor && str_eq why reason) then 1 else 0))
      + reasons_in stage vendor reason cs
  reasons_in stage vendor reason (c ∷ cs) = reasons_in stage vendor reason cs

  count-record_event :
      (stage vendor s v : String) (r : LatencyRecorder Float)
      → event_count (record_event r s v) stage vendor
        ≡ event_count r stage vendor + (if str_eq s stage && str_eq v vendor then 1 else 0)
  unfolding event_count record_event
  count-record_event stage vendor s v r =
      count_of-bump error_keys (record { stage = stage; vendor = vendor })
        (record { stage = s; vendor = v }) r.total_events

  pub errors-record_error_reason :
      (stage vendor s v why : String) (r : LatencyRecorder Float)
      → error_count (record_error_reason r s v why) stage vendor
        ≡ error_count r stage vendor + (if str_eq s stage && str_eq v vendor then 1 else 0)
  unfolding error_count record_error_reason
  errors-record_error_reason stage vendor s v why r =
      count_of-bump error_keys (record { stage = stage; vendor = vendor })
        (record { stage = s; vendor = v }) r.error_events

  events-record_error_reason :
      (stage vendor s v why : String) (r : LatencyRecorder Float)
      → event_count (record_error_reason r s v why) stage vendor
        ≡ event_count r stage vendor + (if str_eq s stage && str_eq v vendor then 1 else 0)
  unfolding event_count record_error_reason
  events-record_error_reason stage vendor s v why r =
      count_of-bump error_keys (record { stage = stage; vendor = vendor })
        (record { stage = s; vendor = v }) r.total_events

  reasons-record_error_reason :
      (stage vendor reason s v why : String) (r : LatencyRecorder Float)
      → reason_count (record_error_reason r s v why) stage vendor reason
        ≡ reason_count r stage vendor reason
          + (if str_eq why ""
              then 0
              else (if str_eq s stage && (str_eq v vendor && str_eq why reason) then 1 else 0))
  unfolding reason_count record_error_reason
  reasons-record_error_reason stage vendor reason s v why r = elim (Bool-cases (str_eq why "")) [
    | inl e ↦ rw e (omega arith)
    | inr e ↦ rw e (
        count_of-bump reason_keys (record { stage = stage; vendor = vendor; reason = reason })
          (record { stage = s; vendor = v; reason = why }) r.reason_events)
  ]

  errors_from :
      (stage vendor : String) (r : LatencyRecorder Float) (cs : List (Call Float))
      → error_count (apply_all r cs) stage vendor
        ≡ error_count r stage vendor + errors_in stage vendor cs
  unfolding apply_all apply errors_in record_sample error_count record_event
  errors_from stage vendor r [] = omega arith
  errors_from stage vendor r (samples s ms ∷ cs) =
      errors_from stage vendor (record_sample r s ms) cs
  errors_from stage vendor r (events s v ∷ cs) = errors_from stage vendor (record_event r s v) cs
  errors_from stage vendor r (errs s v why ∷ cs) =
      let rest = errors_from stage vendor (record_error_reason r s v why) cs in
      let one = errors-record_error_reason stage vendor s v why r in omega arith

  events_from :
      (stage vendor : String) (r : LatencyRecorder Float) (cs : List (Call Float))
      → event_count (apply_all r cs) stage vendor
        ≡ event_count r stage vendor + errors_in stage vendor cs + successes_in stage vendor cs
  unfolding apply_all apply errors_in successes_in record_sample event_count
  events_from stage vendor r [] = omega arith
  events_from stage vendor r (samples s ms ∷ cs) =
      events_from stage vendor (record_sample r s ms) cs
  events_from stage vendor r (events s v ∷ cs) =
      let rest = events_from stage vendor (record_event r s v) cs in
      let one = count-record_event stage vendor s v r in omega arith
  events_from stage vendor r (errs s v why ∷ cs) =
      let rest = events_from stage vendor (record_error_reason r s v why) cs in
      let one = events-record_error_reason stage vendor s v why r in omega arith

  reasons_from :
      (stage vendor reason : String) (r : LatencyRecorder Float) (cs : List (Call Float))
      → reason_count (apply_all r cs) stage vendor reason
        ≡ reason_count r stage vendor reason + reasons_in stage vendor reason cs
  unfolding apply_all apply reasons_in record_sample record_event reason_count
  reasons_from stage vendor reason r [] = omega arith
  reasons_from stage vendor reason r (samples s ms ∷ cs) =
      reasons_from stage vendor reason (record_sample r s ms) cs
  reasons_from stage vendor reason r (events s v ∷ cs) =
      reasons_from stage vendor reason (record_event r s v) cs
  reasons_from stage vendor reason r (errs s v why ∷ cs) =
      let rest = reasons_from stage vendor reason (record_error_reason r s v why) cs in
      let one = reasons-record_error_reason stage vendor reason s v why r in omega arith

  -- After any calls of the recording methods on a new recorder: the error count of a stage and
  -- vendor is the number of its error calls; its event count is that plus the number of its event
  -- calls; and the count of a reason is the number of its error calls with that reason, none being
  -- counted for the empty reason.
  pub counts_add_up :
      (stage vendor reason : String) (cs : List (Call Float))
      → (error_count (apply_all new_latency_recorder cs) stage vendor ≡ errors_in stage vendor cs)
        × (event_count (apply_all new_latency_recorder cs) stage vendor
            ≡ errors_in stage vendor cs + successes_in stage vendor cs)
        × (reason_count (apply_all new_latency_recorder cs) stage vendor reason
            ≡ reasons_in stage vendor reason cs)
  unfolding new_latency_recorder error_count event_count reason_count count_of
  counts_add_up stage vendor reason cs =
      let errors = errors_from stage vendor new_latency_recorder cs in
      let all = events_from stage vendor new_latency_recorder cs in
      let reasons = reasons_from stage vendor reason new_latency_recorder cs in
      (omega arith, omega arith, omega arith)
