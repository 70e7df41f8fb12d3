-- ===== src/Recognizer/Reconnects.antt =====
-- How often the sessions of a recognizer of pkg/asr/deepgram.go or pkg/asr/sarvam.go dial.
use lang_stream.Prelude.{
  ℕ, ◌≡◌, zero, suc, All, ◌++◌, refl, Bool, true, false, Option, none, some, List, [], ◌∷◌, arith,
  if_cases,
}
use lang_stream.Breaker.{CircuitBreaker, allow}
use lang_stream.Recognizer.{
  SessionView, SessionError, write_failed, Dialing, Pushing, Pushed, accepted, failed, connect,
  ensure_connected, settle_breaker, fail_and_close, close, on_conn_lost, noticed, wrote,
  write_again, write_first, push_audio, start_stream, refused, context_done, vendor_error, Event,
  pushes, loses, complains, closes, step, StreamSession, view, new_stream_session,
}
use lang_stream.Recognizer.Shared.{
  Recognizer, Action, starts, happens, step_at, started, act, act_all, new_recognizer,
}

-- While a session is open none of its dials has failed.
NoneFailed : SessionView → Type 0
NoneFailed s = s.closed ≡ false → s.reconnect_attempts ≡ 0

ensure_connected-NoneFailed :
    (n : ℕ) (d : Dialing) (s : SessionView)
    → NoneFailed s
    → ((ensure_connected n d s).1 ≡ none → NoneFailed (ensure_connected n d s).0)
unfolding ensure_connected connect NoneFailed
ensure_connected-NoneFailed n d s h = ground (arith, h)

pub fail_and_close-closed :
    (now : ℕ) (err : SessionError) (s : SessionView) → (fail_and_close now err s).closed ≡ true
unfolding fail_and_close settle_breaker
fail_and_close-closed now err s = ground arith

close-closed : (now : ℕ) (s : SessionView) → (close now s).closed ≡ true
unfolding close settle_breaker
close-closed now s = ground arith

closed-NoneFailed : (s : SessionView) → s.closed ≡ true → NoneFailed s
unfolding NoneFailed
closed-NoneFailed s e f = absurd (cc (e, f))

on_conn_lost-NoneFailed :
    (gen : ℕ) (s : SessionView) → NoneFailed s → NoneFailed (on_conn_lost gen s)
unfolding on_conn_lost NoneFailed
on_conn_lost-NoneFailed gen s h = ground (arith, h)

noticed-NoneFailed : (lost : Bool) (s : SessionView) → NoneFailed s → NoneFailed (noticed lost s)
noticed-NoneFailed true s h = on_conn_lost-NoneFailed s.gen s h
noticed-NoneFailed false s h = h

write_again-NoneFailed :
    (p : Pushing) (r : SessionView × Option SessionError)
    → (r.1 ≡ none → NoneFailed r.0)
    → NoneFailed (write_again p r).0
unfolding write_again
write_again-NoneFailed p (s, some err) h = closed-NoneFailed _ (fail_and_close-closed p.now err s)
write_again-NoneFailed p (s, none) h =
    if_cases (λ (r : SessionView × Pushed). NoneFailed r.0) (wrote p.second_write_ok s)
      (s, accepted) (fail_and_close p.now write_failed s, failed write_failed) (λ _. h refl)
      (λ _. closed-NoneFailed _ (fail_and_close-closed p.now write_failed s))

write_first-NoneFailed :
    (n : ℕ) (p : Pushing) (r : SessionView × Option SessionError)
    → (r.1 ≡ none → NoneFailed r.0)
    → NoneFailed (write_first n p r).0
unfolding write_first
write_first-NoneFailed n p (s, some err) h = closed-NoneFailed _ (fail_and_close-closed p.now err s)
write_first-NoneFailed n p (s, none) h =
    let s' = noticed p.lost_before_write s in
    let kept = noticed-NoneFailed p.lost_before_write s (h refl) in
    let s'' = noticed p.lost_after_write s' in
    let dialled = ensure_connected n p.second_dial s'' in
    if_cases (λ (r : SessionView × Pushed). NoneFailed r.0) (wrote p.write_ok s') (s', accepted)
      (write_again p dialled) (λ _. kept)
      (λ _. write_again-NoneFailed p dialled (
        ensure_connected-NoneFailed n p.second_dial s''
          (noticed-NoneFailed p.lost_after_write s' kept)))

push_audio-NoneFailed :
    (n : ℕ) (p : Pushing) (s : SessionView) → NoneFailed s → NoneFailed (push_audio n p s).0
unfolding push_audio
push_audio-NoneFailed n p s h =
    let pushed = write_first n p (ensure_connected n p.first_dial s) in
    let Q = λ (r : SessionView × Pushed). NoneFailed r.0 in
    if_cases Q p.ended (s, context_done) _ (λ _. h)
      (λ _.
        if_cases Q s.closed (s, refused s.fatal_err) pushed (λ _. h)
          (λ _.
            write_first-NoneFailed n p (ensure_connected n p.first_dial s)
              (ensure_connected-NoneFailed n p.first_dial s h)))

step-NoneFailed : (n : ℕ) (s : SessionView) (e : Event) → NoneFailed s → NoneFailed (step n s e)
unfolding step
step-NoneFailed n s (pushes p) h = push_audio-NoneFailed n p s h
step-NoneFailed n s (loses gen) h = on_conn_lost-NoneFailed gen s h
step-NoneFailed n s (complains now) h =
    closed-NoneFailed _ (fail_and_close-closed now vendor_error s)
step-NoneFailed n s (closes now) h = closed-NoneFailed _ (close-closed now s)

-- All sessions of a recognizer.
unfoldable AllUnfailed : List StreamSession → Type 0
AllUnfailed ss = All (λ s. s.closed ≡ false → s.reconnect_attempts ≡ 0) ss

step_at-AllUnfailed :
    (n ref : ℕ) (e : Event) (b : CircuitBreaker) (ss : List StreamSession)
    → AllUnfailed ss
    → AllUnfailed (step_at n ref e b ss).1
unfolding step_at AllUnfailed NoneFailed
step_at-AllUnfailed n ref e b [] h = h
step_at-AllUnfailed n zero e b (s ∷ ss) (h, hs) = (step-NoneFailed n (view b s) e h, hs)
step_at-AllUnfailed n (suc ref) e b (s ∷ ss) (h, hs) = (h, step_at-AllUnfailed n ref e b ss hs)

started-AllUnfailed :
    (b : CircuitBreaker) (now : ℕ) (ss : List StreamSession)
    → AllUnfailed ss
    → AllUnfailed (ss ++ started (start_stream b now).1)
unfolding AllUnfailed start_stream
started-AllUnfailed b now [] h =
    if_cases (λ x. AllUnfailed (started x)) (allow b now).1 (some new_stream_session) none
      (λ _. (λ _. refl, tt)) (λ _. tt)
started-AllUnfailed b now (s ∷ ss) (h, hs) = (h, started-AllUnfailed b now ss hs)

act-AllUnfailed :
    (n : ℕ) (r : Recognizer) (a : Action)
    → AllUnfailed r.sessions
    → AllUnfailed (act n r a).sessions
unfolding act
act-AllUnfailed n r (starts now) h = started-AllUnfailed r.breaker now r.sessions h
act-AllUnfailed n r (happens ref e) h = step_at-AllUnfailed n ref e r.breaker r.sessions h

act_all-AllUnfailed :
    (n : ℕ) (r : Recognizer) (acts : List Action)
    → AllUnfailed r.sessions
    → AllUnfailed (act_all n r acts).sessions
unfolding act_all
act_all-AllUnfailed n r [] h = h
act_all-AllUnfailed n r (a ∷ acts) h =
    act_all-AllUnfailed n (act n r a) acts (act-AllUnfailed n r a h)

-- Whatever happens to the sessions of a recognizer, in whatever order and whatever its breaker is at
-- first: the count of failed dials of every session that is open is 0, whatever the limit of attempts
-- is. The first dial that fails closes its session, so that no dial ever follows a failed one.
pub no_second_attempt :
    (max_attempts : ℕ) (b : CircuitBreaker) (acts : List Action)
    → All
        (λ s. s.closed ≡ false → s.reconnect_attempts ≡ 0)
        (act_all max_attempts (new_recognizer b) acts).sessions
unfolding AllUnfailed
no_second_attempt n b acts = act_all-AllUnfailed n (new_recognizer b) acts tt

-- When both writes of a push fail on a connection whose loss the read loop has not noticed, the session
-- is closed for good, and no dial is made in between: the connection's number stays what it was.
pub write_failure_closes :
    (n : ℕ) (p : Pushing) (s : SessionView)
    → s.closed ≡ false
    → s.connected ≡ true
    → p.ended ≡ false
    → p.lost_before_write ≡ false
    → p.write_ok ≡ false
    → p.lost_after_write ≡ false
    → p.second_write_ok ≡ false
    → let (s', result) = push_audio n p s in
      (result ≡ failed write_failed) × (s'.closed ≡ true) × (s'.gen ≡ s.gen)
unfolding push_audio write_first write_again ensure_connected fail_and_close settle_breaker
write_failure_closes n p s open_still there alive unlost bad unnoticed worse =
    ground (arith, open_still, there, alive, unlost, bad, unnoticed, worse)
