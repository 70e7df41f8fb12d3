-- ===== src/Metrics.antt =====
-- pkg/observability/metrics.go: the counters that a session feeds. A map is a list of its entries;
-- a float64 is a value of the parameter F. The mutex makes each method one step.
pub mod Counter
pub mod Totals
use Prim.Native.String.{String}
use text.Mathlib.Text.{◌==◌ as str_eq}
use text.Mathlib.TextEquality.{eq_iff}
use lang_stream.Prelude.{
  ℕ, ◌+◌, ◌≡◌, ◌↔◌, Bool, true, false, not, ◌&&◌, Option, some, none, List, [], ◌∷◌, ◌++◌, ◌==◌,
  ltb, if◌then◌else◌, length, refl, arith,
}
use lang_stream.Prelude.Int.{ℤ, pos}
use lang_stream.Floats.{Floats}
use Counter.{Key, bump, count_of}

pub record ErrorKey : Type 0 where
  pub stage : String
  pub vendor : String

pub record ReasonKey : Type 0 where
  pub stage : String
  pub vendor : String
  pub reason : String

abbrev error_key_eq : ErrorKey → ErrorKey → Bool
error_key_eq a b = str_eq a.stage b.stage && str_eq a.vendor b.vendor

pub error_key_eq_iff : (a b : ErrorKey) → (error_key_eq a b ≡ true) ↔ (a ≡ b)
error_key_eq_iff a b = (
  ground (arith, eq_iff a.stage b.stage, eq_iff a.vendor b.vendor),
  ground (arith, eq_iff a.stage b.stage, eq_iff a.vendor b.vendor),
)

abbrev reason_key_eq : ReasonKey → ReasonKey → Bool
reason_key_eq a b = str_eq a.stage b.stage && (str_eq a.vendor b.vendor && str_eq a.reason b.reason)

pub reason_key_eq_iff : (a b : ReasonKey) → (reason_key_eq a b ≡ true) ↔ (a ≡ b)
reason_key_eq_iff a b = (
  ground (arith, eq_iff a.stage b.stage, eq_iff a.vendor b.vendor, eq_iff a.reason b.reason),
  ground (arith, eq_iff a.stage b.stage, eq_iff a.vendor b.vendor, eq_iff a.reason b.reason),
)

abbrev pub error_keys : Key ErrorKey
error_keys = record { same = error_key_eq; same_iff = error_key_eq_iff }

abbrev pub reason_keys : Key ReasonKey
reason_keys = record { same = reason_key_eq; same_iff = reason_key_eq_iff }

-- The counters are int64 in the code, and are not wrapped here. The map of samples is a list of
-- stages with their samples, oldest first; the start time is left out.
pub record LatencyRecorder (Float : Type 0) : Type 0 where
  pub samples : List (String × List Float)
  pub error_events : List (ErrorKey × ℕ)
  pub total_events : List (ErrorKey × ℕ)
  pub cost_totals : List (String × Float)
  pub cost_events : List (String × ℕ)
  pub reason_events : List (ReasonKey × ℕ)

module _ {Float : Type 0} where
  append_sample : String → Float → List (String × List Float) → List (String × List Float)
  append_sample stage ms [] = (stage, ms ∷ []) ∷ []
  append_sample stage ms ((s, values) ∷ m) =
      if str_eq s stage then (s, values ++ ms ∷ []) ∷ m else (s, values) ∷ append_sample stage ms m

  unfoldable pub samples_of : String → List (String × List Float) → List Float
  samples_of stage [] = []
  samples_of stage ((s, values) ∷ m) = if str_eq s stage then values else samples_of stage m

  unfoldable pub new_latency_recorder : LatencyRecorder Float
  new_latency_recorder = record {
    samples = [];
    error_events = [];
    total_events = [];
    cost_totals = [];
    cost_events = [];
    reason_events = [];
  }

  -- `Record`.
  unfoldable pub record_sample : LatencyRecorder Float → String → Float → LatencyRecorder Float
  unfolding append_sample
  record_sample r stage ms = record r { samples = append_sample stage ms r.samples }

  unfoldable pub record_event : LatencyRecorder Float → String → String → LatencyRecorder Float
  record_event r stage vendor = record r {
    total_events = bump error_keys (record { stage = stage; vendor = vendor }) r.total_events;
  }

  unfoldable pub record_error_reason :
      LatencyRecorder Float → String → String → String → LatencyRecorder Float
  record_error_reason r stage vendor reason =
      let key : ErrorKey = record { stage = stage; vendor = vendor } in
      record r {
        error_events = bump error_keys key r.error_events;
        total_events = bump error_keys key r.total_events;
        reason_events =
            if str_eq reason ""
            then r.reason_events
            else bump reason_keys (record { stage = stage; vendor = vendor; reason = reason })
                r.reason_events;
      }

  unfoldable pub record_error : LatencyRecorder Float → String → String → LatencyRecorder Float
  unfolding record_error_reason
  record_error r stage vendor = record_error_reason r stage vendor ""

  unfoldable pub error_count : LatencyRecorder Float → String → String → ℕ
  error_count r stage vendor =
      count_of error_keys (record { stage = stage; vendor = vendor }) r.error_events

  unfoldable pub event_count : LatencyRecorder Float → String → String → ℕ
  event_count r stage vendor =
      count_of error_keys (record { stage = stage; vendor = vendor }) r.total_events

  unfoldable pub reason_count : LatencyRecorder Float → String → String → String → ℕ
  reason_count r stage vendor reason =
      count_of reason_keys (record { stage = stage; vendor = vendor; reason = reason })
        r.reason_events

  -- `Count`.
  unfoldable pub sample_count : LatencyRecorder Float → String → ℕ
  unfolding samples_of
  sample_count r stage = length (samples_of stage r.samples)

-- String keys.
abbrev pub text_keys : Key String
text_keys = record { same = str_eq; same_iff = eq_iff }

module _ (F : Floats) where
  open F use {Float, of_int, add, div, le}

  -- m[k] += x, where a key that is not there holds 0.
  unfoldable pub add_to : String → Float → List (String × Float) → List (String × Float)
  add_to k x [] = (k, add (of_int (pos 0)) x) ∷ []
  add_to k x ((i, total) ∷ m) =
      if str_eq i k then (i, add total x) ∷ m else (i, total) ∷ add_to k x m

  unfoldable pub total_of : String → List (String × Float) → Float
  total_of k [] = of_int (pos 0)
  total_of k ((i, total) ∷ m) = if str_eq i k then total else total_of k m

  unfoldable pub record_cost : LatencyRecorder Float → String → Float → LatencyRecorder Float
  unfolding add_to
  record_cost r vendor amount_usd = record r {
    cost_totals = add_to vendor amount_usd r.cost_totals;
    cost_events = bump text_keys vendor r.cost_events;
  }

  unfoldable pub cost_total : LatencyRecorder Float → String → Float
  unfolding total_of
  cost_total r vendor = total_of vendor r.cost_totals

  unfoldable pub cost_event_count : LatencyRecorder Float → String → ℕ
  cost_event_count r vendor = count_of text_keys vendor r.cost_events

  unfoldable pub cost_per_minute : LatencyRecorder Float → String → Float → Float
  unfolding cost_total
  cost_per_minute r vendor duration_seconds =
      if le duration_seconds (of_int (pos 0))
      then of_int (pos 0)
      else div (cost_total r vendor) (div duration_seconds (of_int (pos 60)))

  unfoldable pub error_rate : LatencyRecorder Float → String → String → Float
  error_rate r stage vendor =
      let total = event_count r stage vendor in
      if total == 0
      then of_int (pos 0)
      else div (of_int (pos (error_count r stage vendor))) (of_int (pos total))
