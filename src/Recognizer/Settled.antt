-- ===== src/Recognizer/Settled.antt =====
-- What the sessions of pkg/asr/deepgram.go or pkg/asr/sarvam.go tell the recognizer's breaker.
use lang_stream.Prelude.{
  ℕ, ◌≡◌, zero, suc, All, ◌++◌, &&_parts, Bool-cases, inl, inr, refl, ◌∙◌, Bool, true, false,
  Option, none, some, List, [], ◌∷◌, arith, if_cases,
}
use lang_stream.Breaker.{CircuitBreaker, allow, record_success, record_failure, abort}
use lang_stream.Recognizer.{
  SessionView, SessionError, write_failed, vendor_error, Dialing, Pushing, Pushed, accepted, failed,
  refused, context_done, connect, ensure_connected, settle_breaker, fail_and_close, close,
  on_conn_lost, noticed, wrote, write_again, write_first, push_audio, start_stream, Event, pushes,
  loses, complains, closes, step, StreamSession, view, session_of, new_stream_session,
}
use lang_stream.Recognizer.Shared.{
  Recognizer, Action, starts, happens, step_at, started, act, act_all, new_recognizer, all_told,
  has_told,
}

-- Settled stays settled, with the breaker as it is.
record Keeps (s s' : SessionView) : Type 0 where
  still : s.breaker_settled ≡ true → s'.breaker_settled ≡ true
  same : s.breaker_settled ≡ true → s'.breaker ≡ s.breaker

Keeps-refl : (s : SessionView) → Keeps s s
Keeps-refl s = record { still = λ e. e; same = λ e. refl }

Keeps-trans : (s t u : SessionView) → Keeps s t → Keeps t u → Keeps s u
Keeps-trans s t u k l = record {
  still = λ e. l.still (k.still e);
  same = λ e. l.same (k.still e) ∙ k.same e;
}

ensure_connected-Keeps :
    (n : ℕ) (d : Dialing) (s : SessionView) → Keeps s (ensure_connected n d s).0
unfolding ensure_connected connect
ensure_connected-Keeps n d s = ground arith

fail_and_close-Keeps :
    (now : ℕ) (err : SessionError) (s : SessionView) → Keeps s (fail_and_close now err s)
unfolding fail_and_close settle_breaker
fail_and_close-Keeps now err s = ground arith

close-Keeps : (now : ℕ) (s : SessionView) → Keeps s (close now s)
unfolding close settle_breaker
close-Keeps now s = ground arith

on_conn_lost-Keeps : (gen : ℕ) (s : SessionView) → Keeps s (on_conn_lost gen s)
unfolding on_conn_lost
on_conn_lost-Keeps gen s = ground arith

noticed-Keeps : (lost : Bool) (s : SessionView) → Keeps s (noticed lost s)
noticed-Keeps true s = on_conn_lost-Keeps s.gen s
noticed-Keeps false s = Keeps-refl s

-- What holds of a session and its breaker between two steps.
record IsTold (s : SessionView) : Type 0 where
  told_when_closed : s.closed ≡ true → s.breaker_settled ≡ true
  probe_back : s.breaker_settled ≡ true → s.breaker.probe_in_flight ≡ false
  untold_when_new : s.breaker_settled ≡ false → s.connected_once ≡ false

ensure_connected-IsTold :
    (n : ℕ) (d : Dialing) (s : SessionView) → IsTold s → IsTold (ensure_connected n d s).0
unfolding ensure_connected connect record_success
ensure_connected-IsTold n d s t = ground arith

fail_and_close-IsTold :
    (now : ℕ) (err : SessionError) (s : SessionView) → IsTold s → IsTold (fail_and_close now err s)
unfolding fail_and_close settle_breaker record_failure abort
fail_and_close-IsTold now err s t = ground arith

close-IsTold : (now : ℕ) (s : SessionView) → IsTold s → IsTold (close now s)
unfolding close settle_breaker record_failure abort
close-IsTold now s t = ground arith

on_conn_lost-IsTold : (gen : ℕ) (s : SessionView) → IsTold s → IsTold (on_conn_lost gen s)
unfolding on_conn_lost
on_conn_lost-IsTold gen s t = ground arith

noticed-IsTold : (lost : Bool) (s : SessionView) → IsTold s → IsTold (noticed lost s)
noticed-IsTold true s t = on_conn_lost-IsTold s.gen s t
noticed-IsTold false s t = t

-- A state after another one of the same session.
record Follows (s s' : SessionView) : Type 0 where
  keeps : Keeps s s'
  told : IsTold s → IsTold s'

Follows-trans : (s t u : SessionView) → Follows s t → Follows t u → Follows s u
Follows-trans s t u k l = record {
  keeps = Keeps-trans s t u k.keeps l.keeps;
  told = λ i. l.told (k.told i);
}

Follows-refl : (s : SessionView) → Follows s s
Follows-refl s = record { keeps = Keeps-refl s; told = λ i. i }

ensure_connected-Follows :
    (n : ℕ) (d : Dialing) (s : SessionView) → Follows s (ensure_connected n d s).0
ensure_connected-Follows n d s = record {
  keeps = ensure_connected-Keeps n d s;
  told = ensure_connected-IsTold n d s;
}

fail_and_close-Follows :
    (now : ℕ) (err : SessionError) (s : SessionView) → Follows s (fail_and_close now err s)
fail_and_close-Follows now err s = record {
  keeps = fail_and_close-Keeps now err s;
  told = fail_and_close-IsTold now err s;
}

noticed-Follows : (lost : Bool) (s : SessionView) → Follows s (noticed lost s)
noticed-Follows lost s = record { keeps = noticed-Keeps lost s; told = noticed-IsTold lost s }

write_again-Follows :
    (p : Pushing) (r : SessionView × Option SessionError) → Follows r.0 (write_again p r).0
unfolding write_again
write_again-Follows p (s, some err) = fail_and_close-Follows p.now err s
write_again-Follows p (s, none) =
    if_cases (λ (r : SessionView × Pushed). Follows s r.0) (wrote p.second_write_ok s) (s, accepted)
      (fail_and_close p.now write_failed s, failed write_failed) (λ _. Follows-refl s)
      (λ _. fail_and_close-Follows p.now write_failed s)

write_first-Follows :
    (n : ℕ) (p : Pushing) (r : SessionView × Option SessionError)
    → Follows r.0 (write_first n p r).0
unfolding write_first
write_first-Follows n p (s, some err) = fail_and_close-Follows p.now err s
write_first-Follows n p (s, none) =
    let s' = noticed p.lost_before_write s in
    let s'' = noticed p.lost_after_write s' in
    let dialled = ensure_connected n p.second_dial s'' in
    let first = noticed-Follows p.lost_before_write s in
    if_cases (λ (r : SessionView × Pushed). Follows s r.0) (wrote p.write_ok s') (s', accepted)
      (write_again p dialled) (λ _. first)
      (λ _. Follows-trans s s' (write_again p dialled).0 first (
        Follows-trans s' s'' (write_again p dialled).0 (noticed-Follows p.lost_after_write s') (
          Follows-trans s'' dialled.0 (write_again p dialled).0
            (ensure_connected-Follows n p.second_dial s'') (write_again-Follows p dialled))))

push_audio-Follows : (n : ℕ) (p : Pushing) (s : SessionView) → Follows s (push_audio n p s).0
unfolding push_audio
push_audio-Follows n p s =
    let dialled = ensure_connected n p.first_dial s in
    let Q = λ (r : SessionView × Pushed). Follows s r.0 in
    if_cases Q p.ended (s, context_done) _ (λ _. Follows-refl s)
      (λ _.
        if_cases Q s.closed (s, refused s.fatal_err) (write_first n p dialled) (λ _. Follows-refl s)
          (λ _.
            Follows-trans s dialled.0 (write_first n p dialled).0
              (ensure_connected-Follows n p.first_dial s) (write_first-Follows n p dialled)))

step-Follows : (n : ℕ) (s : SessionView) (e : Event) → Follows s (step n s e)
unfolding step
step-Follows n s (pushes p) = push_audio-Follows n p s
step-Follows n s (loses gen) = record {
  keeps = on_conn_lost-Keeps gen s;
  told = on_conn_lost-IsTold gen s;
}
step-Follows n s (complains now) = fail_and_close-Follows now vendor_error s
step-Follows n s (closes now) = record { keeps = close-Keeps now s; told = close-IsTold now s }

-- What holds of a session, whatever the breaker is.
record IsHonest (s : StreamSession) : Type 0 where
  told_at_close : s.closed ≡ true → s.breaker_settled ≡ true
  untold_before : s.breaker_settled ≡ false → s.connected_once ≡ false

step-IsHonest :
    (n : ℕ) (b : CircuitBreaker) (s : StreamSession) (e : Event)
    → IsHonest s
    → IsHonest (session_of (step n (view b s) e))
step-IsHonest n b s e h =
    let after = step-Follows n (view b s) e in
    elim (Bool-cases s.breaker_settled) [
      | inl told ↦
          let still = after.keeps.still told in
          record { told_at_close = λ _. still; untold_before = λ no. absurd (cc (no, still)) }
      | inr untold ↦
          let t = after.told (record {
            told_when_closed = h.told_at_close;
            probe_back = λ yes. absurd (cc (yes, untold));
            untold_when_new = h.untold_before;
          }) in
          record { told_at_close = t.told_when_closed; untold_before = t.untold_when_new }
    ]

-- A session that has told the breaker by a step has cleared its probe flag.
step-probe :
    (n : ℕ) (b : CircuitBreaker) (s : StreamSession) (e : Event)
    → IsHonest s
    → (s.breaker_settled ≡ true → b.probe_in_flight ≡ false)
    → (step n (view b s) e).breaker_settled ≡ true
    → (step n (view b s) e).breaker.probe_in_flight ≡ false
step-probe n b s e h clear told =
    let after = step-Follows n (view b s) e in
    (after.told (record {
      told_when_closed = h.told_at_close;
      probe_back = clear;
      untold_when_new = h.untold_before;
    })).probe_back
      told

step_at-IsHonest :
    (n ref : ℕ) (e : Event) (b : CircuitBreaker) (ss : List StreamSession)
    → All IsHonest ss
    → All IsHonest (step_at n ref e b ss).1
unfolding step_at
step_at-IsHonest n ref e b [] h = h
step_at-IsHonest n zero e b (s ∷ ss) (h, hs) = (step-IsHonest n b s e h, hs)
step_at-IsHonest n (suc ref) e b (s ∷ ss) (h, hs) = (h, step_at-IsHonest n ref e b ss hs)

step_at-probe :
    (n ref : ℕ) (e : Event) (b : CircuitBreaker) (ss : List StreamSession)
    → All IsHonest ss
    → (all_told ss ≡ true → b.probe_in_flight ≡ false)
    → all_told (step_at n ref e b ss).1 ≡ true
    → (step_at n ref e b ss).0.probe_in_flight ≡ false
unfolding step_at all_told
step_at-probe n ref e b [] hs clear all = clear all
step_at-probe n zero e b (s ∷ ss) (h, hs) clear all =
    let both = &&_parts (step n (view b s) e).breaker_settled (all_told ss) all in
    step-probe n b s e h (λ told. clear (rw (told, both.1) refl)) both.0
step_at-probe n (suc ref) e b (s ∷ ss) (h, hs) clear all =
    let both = &&_parts s.breaker_settled (all_told (step_at n ref e b ss).1) all in
    step_at-probe n ref e b ss hs (λ told. clear (rw (both.0, told) refl)) both.1

-- A session that has told the breaker does not change it, and stays so.
step_at-has_told :
    (n ref : ℕ) (e : Event) (b : CircuitBreaker) (ss : List StreamSession)
    → has_told ref ss ≡ true
    → (step_at n ref e b ss).0 ≡ b
unfolding step_at has_told
step_at-has_told n ref e b [] told = refl
step_at-has_told n zero e b (s ∷ ss) told = (step-Follows n (view b s) e).keeps.same told
step_at-has_told n (suc ref) e b (s ∷ ss) told = step_at-has_told n ref e b ss told

has_told-step_at :
    (n at ref : ℕ) (e : Event) (b : CircuitBreaker) (ss : List StreamSession)
    → has_told ref ss ≡ true
    → has_told ref (step_at n at e b ss).1 ≡ true
unfolding step_at has_told
has_told-step_at n at ref e b [] told = told
has_told-step_at n zero zero e b (s ∷ ss) told = (step-Follows n (view b s) e).keeps.still told
has_told-step_at n zero (suc ref) e b (s ∷ ss) told = told
has_told-step_at n (suc at) zero e b (s ∷ ss) told = told
has_told-step_at n (suc at) (suc ref) e b (s ∷ ss) told = has_told-step_at n at ref e b ss told

has_told-append :
    (ref : ℕ) (ss more : List StreamSession)
    → has_told ref ss ≡ true
    → has_told ref (ss ++ more) ≡ true
unfolding has_told
has_told-append ref [] more told = cc
has_told-append zero (s ∷ ss) more told = told
has_told-append (suc ref) (s ∷ ss) more told = has_told-append ref ss more told

has_told-act_all :
    (n ref : ℕ) (r : Recognizer) (acts : List Action)
    → has_told ref r.sessions ≡ true
    → has_told ref (act_all n r acts).sessions ≡ true
unfolding act_all act
has_told-act_all n ref r [] told = told
has_told-act_all n ref r (starts now ∷ acts) told =
    has_told-act_all n ref (act n r (starts now)) acts (has_told-append ref r.sessions _ told)
has_told-act_all n ref r (happens at e ∷ acts) told =
    has_told-act_all n ref (act n r (happens at e)) acts
      (has_told-step_at n at ref e r.breaker r.sessions told)

-- What holds of a recognizer.
record IsServed (r : Recognizer) : Type 0 where
  honest : All IsHonest r.sessions
  clear : all_told r.sessions ≡ true → r.breaker.probe_in_flight ≡ false

start_stream-clear :
    (b : CircuitBreaker) (now : ℕ) (ss : List StreamSession)
    → (all_told ss ≡ true → b.probe_in_flight ≡ false)
    → all_told (ss ++ started (start_stream b now).1) ≡ true
    → (start_stream b now).0.probe_in_flight ≡ false
unfolding start_stream allow all_told
start_stream-clear b now [] clear all = ground (arith, clear, all)
start_stream-clear b now (s ∷ ss) clear all =
    let both = &&_parts s.breaker_settled (all_told (ss ++ started (start_stream b now).1)) all in
    start_stream-clear b now ss (λ told. clear (rw (both.0, told) refl)) both.1

started-IsHonest :
    (b : CircuitBreaker) (now : ℕ) (ss : List StreamSession)
    → All IsHonest ss
    → All IsHonest (ss ++ started (start_stream b now).1)
unfolding start_stream
started-IsHonest b now [] hs =
    if_cases (λ x. All IsHonest (started x)) (allow b now).1 (some new_stream_session) none
      (λ _. (record { told_at_close = λ e. cc; untold_before = λ _. refl }, tt)) (λ _. tt)
started-IsHonest b now (s ∷ ss) (h, hs) = (h, started-IsHonest b now ss hs)

act-IsServed : (n : ℕ) (r : Recognizer) (a : Action) → IsServed r → IsServed (act n r a)
unfolding act
act-IsServed n r (starts now) h = record {
  honest = started-IsHonest r.breaker now r.sessions h.honest;
  clear = start_stream-clear r.breaker now r.sessions h.clear;
}
act-IsServed n r (happens ref e) h = record {
  honest = step_at-IsHonest n ref e r.breaker r.sessions h.honest;
  clear = step_at-probe n ref e r.breaker r.sessions h.honest h.clear;
}

act_all-IsServed :
    (n : ℕ) (r : Recognizer) (acts : List Action) → IsServed r → IsServed (act_all n r acts)
unfolding act_all
act_all-IsServed n r [] h = h
act_all-IsServed n r (a ∷ acts) h = act_all-IsServed n (act n r a) acts (act-IsServed n r a h)

closed-told :
    (ss : List StreamSession)
    → All IsHonest ss
    → All (λ s. s.closed ≡ true → s.breaker_settled ≡ true) ss
closed-told [] hs = tt
closed-told (s ∷ ss) (h, hs) = (h.told_at_close, closed-told ss hs)

-- Whatever happens to the sessions of a recognizer, in whatever order, from a breaker without a probe
-- in flight on: every session that is closed has told the shared breaker how it went; once all sessions
-- have told, no probe is in flight; and a session that has told the breaker never changes it again,
-- whatever the sessions do in between.
pub breaker_told_once :
    (n : ℕ) (b : CircuitBreaker) (acts : List Action)
    → b.probe_in_flight ≡ false
    → let r = act_all n (new_recognizer b) acts in
      All (λ s. s.closed ≡ true → s.breaker_settled ≡ true) r.sessions
      × (all_told r.sessions ≡ true → r.breaker.probe_in_flight ≡ false)
      × ((ref : ℕ) (later : List Action) (e : Event)
          → has_told ref r.sessions ≡ true
          → (act n (act_all n r later) (happens ref e)).breaker ≡ (act_all n r later).breaker)
unfolding act
breaker_told_once n b acts idle =
    let r = act_all n (new_recognizer b) acts in
    let h =
      act_all-IsServed n (new_recognizer b) acts (record { honest = tt; clear = λ _. idle }) in
    (
      closed-told r.sessions h.honest,
      h.clear,
      λ ref later e told.
          let after = act_all n r later in
          step_at-has_told n ref e after.breaker after.sessions
            (has_told-act_all n ref r later told),
    )
