-- ===== src/Examples/Sessions.antt =====
-- Tests of the stream sessions of the speech recognizers.
use lang_stream.Prelude.{ℕ, ◌≡◌, refl, true, false, none, List, [], ◌∷◌, All, arith}
use lang_stream.Prelude.Int.{pos}
use lang_stream.Breaker.{CircuitBreaker, new_circuit_breaker}
use lang_stream.Recognizer.{
  SessionView, view, new_stream_session, Dialing, Pushing, pushes, loses, closes, Event, push_audio,
  failed, write_failed,
}
use lang_stream.Recognizer.Shared.{
  Recognizer, Action, starts, happens, act, act_all, new_recognizer, all_told, has_told,
}
use lang_stream.Recognizer.Reconnects.{no_second_attempt, write_failure_closes}
use lang_stream.Recognizer.Settled.{breaker_told_once}
use lang_stream.Recognizer.Probed.{HasTwoProbes, session_at, stale_close_admits}

abbrev dials : Dialing
dials = record { wait_cut = false; url_ok = true; dial_error = none }

abbrev good_push : Pushing
good_push = record {
  ended = false;
  first_dial = dials;
  lost_before_write = false;
  write_ok = true;
  lost_after_write = false;
  second_dial = dials;
  second_write_ok = true;
  now = 5;
}

abbrev bad_push : Pushing
bad_push = record good_push { write_ok = false; second_write_ok = false }

abbrev healthy : CircuitBreaker
healthy = new_circuit_breaker (pos 0) (pos 0)

-- Two sessions: the first one connects and loses its connection, the second one is closed.
abbrev life : List Action
life =
    starts 1
    ∷ happens 0 (pushes good_push)
    ∷ starts 2
    ∷ happens 0 (loses 1)
    ∷ happens 1 (closes 3)
    ∷ happens 0 (pushes good_push)
    ∷ []

no_second_attempt_example :
    All
      (λ s. s.closed ≡ false → s.reconnect_attempts ≡ 0)
      (act_all 3 (new_recognizer healthy) life).sessions
no_second_attempt_example = no_second_attempt 3 healthy life

abbrev speaking : SessionView
speaking = record (view healthy new_stream_session) {
  connected = true;
  gen = 1;
  connected_once = true;
  breaker_settled = true;
}

write_failure_closes_example :
    let (s', result) = push_audio 3 bad_push speaking in
    (result ≡ failed write_failed) × (s'.closed ≡ true) × (s'.gen ≡ 1)
write_failure_closes_example =
    write_failure_closes 3 bad_push speaking refl refl refl refl refl refl refl

breaker_told_once_example :
    let r = act_all 3 (new_recognizer healthy) life in
    All (λ s. s.closed ≡ true → s.breaker_settled ≡ true) r.sessions
    × (all_told r.sessions ≡ true → r.breaker.probe_in_flight ≡ false)
    × ((ref : ℕ) (later : List Action) (e : Event)
        → has_told ref r.sessions ≡ true
        → (act 3 (act_all 3 r later) (happens ref e)).breaker ≡ (act_all 3 r later).breaker)
unfolding new_circuit_breaker
breaker_told_once_example = breaker_told_once 3 healthy life refl

-- A breaker that has opened while one session was pending.
abbrev opened_since : Recognizer
opened_since = record {
  breaker = record healthy { is_open = true; open_until = 50 };
  sessions = new_stream_session ∷ [];
}

stale_close_admits_example :
    HasTwoProbes opened_since.sessions
      (act_all 3 opened_since (starts 60 ∷ happens 0 (closes 61) ∷ starts 62 ∷ []))
unfolding new_circuit_breaker session_at
stale_close_admits_example =
    stale_close_admits 3 opened_since 0 new_stream_session 60 61 62 refl (omega arith) refl
      (omega arith) refl (refl, refl, refl)
