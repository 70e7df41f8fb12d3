-- ===== src/Recognizer/Probed.antt =====
-- Which of the sessions of a recognizer of pkg/asr/deepgram.go or pkg/asr/sarvam.go is the probe of its
-- breaker.
use lang_stream.Prelude.{
  ℕ, zero, suc, ◌+◌, ◌≤◌, ◌≡◌, refl, ap, sym, subst, ◌∙◌, true, false, Option, none, some, List, [],
  ◌∷◌, ◌++◌, length, length-append, arith,
}
use lang_stream.Breaker.{CircuitBreaker, allow, abort}
use lang_stream.Recognizer.{
  StreamSession, view, new_stream_session, start_stream, Event, closes, step, close, settle_breaker,
  is_no_signal,
}
use lang_stream.Recognizer.Shared.{Recognizer, starts, happens, step_at, started, act, act_all}

unfoldable pub session_at : ℕ → List StreamSession → Option StreamSession
session_at ref [] = none
session_at zero (s ∷ ss) = some s
session_at (suc ref) (s ∷ ss) = session_at ref ss

-- A session that the breaker has let through and that has not reported back.
abbrev pub IsPending : StreamSession → Type 0
IsPending s = (s.closed ≡ false) × (s.breaker_settled ≡ false) × (s.connected_once ≡ false)

-- Since the sessions `before` two more were made, the first of which is as StartStream made it.
abbrev pub HasTwoProbes : List StreamSession → Recognizer → Type 0
HasTwoProbes before after =
    (length after.sessions ≡ length before + 2)
    × (session_at (length before) after.sessions ≡ some new_stream_session)
    × (after.breaker.probe_in_flight ≡ true)

session_at-append :
    (ss more : List StreamSession) (s : StreamSession)
    → session_at (length ss) ((ss ++ s ∷ []) ++ more) ≡ some s
unfolding session_at
session_at-append [] more s = refl
session_at-append (x ∷ ss) more s = session_at-append ss more s

-- An event of one of the first sessions, behind which others were made.
step_at-append :
    (n ref : ℕ) (e : Event) (b : CircuitBreaker) (ss more : List StreamSession) (s : StreamSession)
    → session_at ref ss ≡ some s
    → step_at n ref e b (ss ++ more) ≡ ((step_at n ref e b ss).0, (step_at n ref e b ss).1 ++ more)
unfolding step_at session_at
step_at-append n ref e b [] more s found = cc
step_at-append n zero e b (x ∷ ss) more s found = refl
step_at-append n (suc ref) e b (x ∷ ss) more s found =
    ap (λ r. (r.0, x ∷ r.1)) (step_at-append n ref e b ss more s found)

length-step_at :
    (n ref : ℕ) (e : Event) (b : CircuitBreaker) (ss : List StreamSession)
    → length (step_at n ref e b ss).1 ≡ length ss
unfolding step_at
length-step_at n ref e b [] = refl
length-step_at n zero e b (s ∷ ss) = refl
length-step_at n (suc ref) e b (s ∷ ss) = ap suc (length-step_at n ref e b ss)

close-pending :
    (n now : ℕ) (b : CircuitBreaker) (s : StreamSession)
    → IsPending s
    → (step n (view b s) (closes now)).breaker ≡ abort b
unfolding step close settle_breaker is_no_signal
close-pending n now b s (open_still, untold, unconnected) =
    rw (open_still, untold, unconnected) refl

-- The Close of a pending session clears the probe flag.
closes-pending :
    (n ref now : ℕ) (b : CircuitBreaker) (ss : List StreamSession) (s : StreamSession)
    → session_at ref ss ≡ some s
    → IsPending s
    → (step_at n ref (closes now) b ss).0 ≡ abort b
unfolding step_at session_at
closes-pending n ref now b [] s found p = cc
closes-pending n zero now b (x ∷ ss) s found p =
    let same : x ≡ s = cc in close-pending n now b x (subst IsPending (sym same) p)
closes-pending n (suc ref) now b (x ∷ ss) s found p = closes-pending n ref now b ss s found p

-- The probe of an open breaker whose cooldown is over.
abbrev pub probing : CircuitBreaker → CircuitBreaker
probing b = record b { probe_in_flight = true }

start_stream-probe :
    (b : CircuitBreaker) (now : ℕ)
    → b.is_open ≡ true
    → b.open_until ≤ now
    → b.probe_in_flight ≡ false
    → start_stream b now ≡ (probing b, some new_stream_session)
unfolding start_stream allow
start_stream-probe b now o over idle = ground (arith, o, over, idle)

act-probe :
    (n : ℕ) (r : Recognizer) (now : ℕ)
    → r.breaker.is_open ≡ true
    → r.breaker.open_until ≤ now
    → r.breaker.probe_in_flight ≡ false
    → act n r (starts now)
      ≡ record { breaker = probing r.breaker; sessions = r.sessions ++ new_stream_session ∷ [] }
unfolding act
act-probe n r now o over idle =
    ap (λ x. record { breaker = x.0; sessions = r.sessions ++ started x.1 })
      (start_stream-probe r.breaker now o over idle)

act-close :
    (n ref now : ℕ) (b : CircuitBreaker) (ss : List StreamSession) (s : StreamSession)
    → session_at ref ss ≡ some s
    → IsPending s
    → act n
        (record { breaker = b; sessions = ss ++ new_stream_session ∷ [] })
        (happens ref (closes now))
      ≡ record {
        breaker = abort b;
        sessions = (step_at n ref (closes now) b ss).1 ++ new_stream_session ∷ [];
      }
unfolding act
act-close n ref now b ss s found p =
    let apart = step_at-append n ref (closes now) b ss (new_stream_session ∷ []) s found in
    ap (λ x. record { breaker = x.0; sessions = x.1 }) apart
    ∙ ap
        (λ c. record {
          breaker = c;
          sessions = (step_at n ref (closes now) b ss).1 ++ new_stream_session ∷ [];
        })
        (closes-pending n ref now b ss s found p)

-- The sessions `others`, as many as before, and behind them two that have just been let through.
two_probes :
    (before others : List StreamSession) (b : CircuitBreaker)
    → length others ≡ length before
    → HasTwoProbes before (record {
      breaker = probing b;
      sessions = (others ++ new_stream_session ∷ []) ++ new_stream_session ∷ [];
    })
two_probes before others b same = (
  length-append (others ++ new_stream_session ∷ []) (new_stream_session ∷ [])
      ∙ (ap (λ k. k + 1) (length-append others (new_stream_session ∷ []) ∙ ap (λ k. k + 1) same)
          ∙ omega arith),
  ap (λ k. session_at k ((others ++ new_stream_session ∷ []) ++ new_stream_session ∷ [])) (sym same)
      ∙ session_at-append others (new_stream_session ∷ []) new_stream_session,
  refl,
)

-- The end of a session that is not the probe lets a second probe through. The breaker is open without
-- a probe in flight, its cooldown is over, and one session is pending: it is open and has neither
-- connected nor told the breaker anything. StartStream then lets a probe through; the Close of the
-- pending session clears the probe's flag; and the next StartStream is let through too, while the
-- session of the first probe is still as StartStream made it.
pub stale_close_admits :
    (n : ℕ) (r : Recognizer) (ref : ℕ) (s : StreamSession) (now closing later : ℕ)
    → r.breaker.is_open ≡ true
    → r.breaker.open_until ≤ now
    → r.breaker.probe_in_flight ≡ false
    → now ≤ later
    → session_at ref r.sessions ≡ some s
    → IsPending s
    → let after = act_all n r (starts now ∷ happens ref (closes closing) ∷ starts later ∷ []) in
      HasTwoProbes r.sessions after
unfolding act_all abort
stale_close_admits n r ref s now closing later o over idle le found p =
    let b = probing r.breaker in
    let closed = (step_at n ref (closes closing) b r.sessions).1 in
    let first = act-probe n r now o over idle in
    let third : act_all n r (starts now ∷ happens ref (closes closing) ∷ starts later ∷ [])
        ≡ record {
          breaker = probing (abort b);
          sessions = (closed ++ new_stream_session ∷ []) ++ new_stream_session ∷ [];
        } =
      ap (λ x. act n (act n x (happens ref (closes closing))) (starts later)) first
      ∙ ap (λ x. act n x (starts later)) (act-close n ref closing b r.sessions s found p)
      ∙ act-probe n (record { breaker = abort b; sessions = closed ++ new_stream_session ∷ [] })
          later o (omega arith) refl in
    subst (HasTwoProbes r.sessions) (sym third)
      (two_probes r.sessions closed (abort b) (length-step_at n ref (closes closing) b r.sessions))
