-- ===== src/Client/Translate/Charged.antt =====
-- What a call of Translate (pkg/translate/gpt4o.go, pkg/translate/gemini.go) leaves in the recorder,
-- and how many requests it makes.
use lang_stream.Prelude.{
  ℕ, ◌+◌, ◌*◌, ◌≤◌, ◌≡◌, refl, ap₂, ◌∙◌, ◌⊎◌, inl, inr, Bool, not, Option, none, some, List, arith,
  if◌then◌else◌, if_cases,
}
use Prim.Native.String.{String}
use text.Mathlib.TextEquality.{eq_iff}
use lang_stream.Floats.{Floats}
use lang_stream.Audio.{Chunk}
use lang_stream.Breaker.{CircuitBreaker, allow}
use lang_stream.Metrics.{
  LatencyRecorder, record_cost, record_error_reason, cost_event_count, text_keys,
}
use lang_stream.Metrics.Counter.{count_of-bump}
use lang_stream.Client.{Failure, Attempted, guarded, after_allow, canceled, unsupported, attempts}
use lang_stream.Client.Retry.{attempts_settle}
use lang_stream.Client.Sse.{Line}
use lang_stream.Client.Translate.{
  TranslateError, Weather, translate, refused, reported, charged, supports, rounds,
  gpt4o_max_attempts, is_retryable_translate_err,
}

-- One for a result, none for an error.
pub charge : {A B : Type 0} → A ⊎ B → ℕ
charge (inl a) = 1
charge (inr b) = 0

module _ (F : Floats) {Usage : Type 0} (vendor cost_vendor : String)
    (read_stream : List Line → Bool → (String × Option Usage) ⊎ TranslateError)
    (cost : String → String → Option Usage → F.Float) where
  open F use {Float}

  -- The number of costs recorded, where there is a recorder.
  pub costs : Option (LatencyRecorder Float) → ℕ
  costs none = 0
  costs (some m) = cost_event_count F m cost_vendor

  pub present : Option (LatencyRecorder Float) → ℕ
  present none = 0
  present (some m) = 1

  costs-refused :
      (m : Option (LatencyRecorder Float))
      → costs (refused F vendor cost_vendor read_stream cost m) ≡ costs m
  unfolding costs refused cost_event_count record_error_reason
  costs-refused none = refl
  costs-refused (some m) = refl

  costs-reported :
      (m : Option (LatencyRecorder Float)) (text source target : String) (is_final : Bool)
      (result : (String × Option Usage) ⊎ Failure TranslateError)
      → let (m', out) =
          reported F vendor cost_vendor read_stream cost m text source target is_final result in
        costs m' ≡ costs m + present m * charge out
  unfolding costs reported charged charge present cost_event_count record_cost
  costs-reported none text source target is_final (inl r) = refl
  costs-reported none text source target is_final (inr e) = refl
  costs-reported (some m) text source target is_final (inr e) = ground arith
  costs-reported (some m) text source target is_final (inl (translated, usage)) = ground (
    arith,
    count_of-bump text_keys cost_vendor cost_vendor m.cost_events,
    eq_iff cost_vendor cost_vendor,
  )

  present-refused :
      (m : Option (LatencyRecorder Float))
      → present (refused F vendor cost_vendor read_stream cost m) ≡ present m
  unfolding present refused
  present-refused none = refl
  present-refused (some m) = refl

  -- What a call keeps to.
  pub record IsAccounted (m : Option (LatencyRecorder Float))
      (ret : CircuitBreaker × Option (LatencyRecorder Float) × (Chunk ⊎ Failure TranslateError) × ℕ)
      : Type 0 where
    pub charged_once : costs ret.1 ≡ costs m + present m * charge ret.2
    pub few_requests : ret.3 ≤ gpt4o_max_attempts

  guarded_requests :
      {R E : Type 0} (b : CircuitBreaker) (now later : ℕ) (made : Attempted R E)
      → (guarded b now later made).2 ≤ made.requests
  unfolding guarded after_allow allow
  guarded_requests b now later made = ground arith

  without_request :
      (m : Option (LatencyRecorder Float)) (b : CircuitBreaker) (f : Failure TranslateError)
      → IsAccounted m (b, m, inr f, 0)
  unfolding charge
  without_request m b f = record { charged_once = omega arith; few_requests = omega arith }

  -- Every call of Translate records one cost if it returns a translation and none if it returns an
  -- error, whichever that is, and makes at most three requests.
  pub translate_accounts :
      (pairs : List (String × String)) (b : CircuitBreaker) (m : Option (LatencyRecorder Float))
      (w : Weather) (text source target : String) (is_final : Bool)
      → IsAccounted m
          (translate F vendor cost_vendor read_stream cost pairs b m w text source target is_final)
  unfolding translate
  translate_accounts pairs b m w text source target is_final =
      let made =
        attempts is_retryable_translate_err gpt4o_max_attempts (rounds read_stream w)
          gpt4o_max_attempts 0 in
      let called = guarded b w.now w.later made in
      let m1 = if (allow b w.now).1 then m else refused F vendor cost_vendor read_stream cost m in
      let rep =
        reported F vendor cost_vendor read_stream cost m1 text source target is_final called.1 in
      let same_costs : costs m1 ≡ costs m =
        if_cases (λ x. costs x ≡ costs m) (allow b w.now).1 m _ (λ _. refl)
          (λ _. costs-refused m) in
      let same_present : present m1 ≡ present m =
        if_cases (λ x. present x ≡ present m) (allow b w.now).1 m _ (λ _. refl)
          (λ _. present-refused m) in
      let settled =
        attempts_settle is_retryable_translate_err gpt4o_max_attempts (rounds read_stream w) in
      let few : called.2 ≤ 3 =
        omega (arith, guarded_requests b w.now w.later made, settled.bounded) in
      let served : IsAccounted m (called.0, rep.0, rep.1, called.2) = record {
        charged_once =
            costs-reported m1 text source target is_final called.1
            ∙ ap₂ (λ x y. x + y * charge rep.1) same_costs same_present;
        few_requests = few;
      } in
      if_cases (IsAccounted m) w.ended_at_start (b, m, inr canceled, 0) _
        (λ _. without_request m b canceled)
        (λ _.
          if_cases (IsAccounted m) (not (supports pairs source target)) (b, m, inr unsupported, 0)
            (called.0, rep.0, rep.1, called.2) (λ _. without_request m b unsupported) (λ _. served))
