-- ===== src/Recognizer/Shared.antt =====
-- A recognizer of pkg/asr/deepgram.go or pkg/asr/sarvam.go with the sessions that StartStream has made:
-- they share the recognizer's circuit breaker, and what happens to them happens in any order. An event
-- is one step although it may wait for a dial: it touches the breaker once at most.
use lang_stream.Prelude.{
  ℕ, zero, suc, Bool, true, false, ◌&&◌, Option, none, some, List, [], ◌∷◌, ◌++◌,
}
use lang_stream.Breaker.{CircuitBreaker}
use lang_stream.Recognizer.{StreamSession, view, session_of, start_stream, Event, step}

-- A session is its place in the order in which the sessions were made.
pub record Recognizer : Type 0 where
  pub breaker : CircuitBreaker
  pub sessions : List StreamSession

-- StartStream, or an event of the session `ref`.
pub data Action : Type 0 where
  starts : (now : ℕ) → Action
  happens : (ref : ℕ) → Event → Action

-- An event of the session `ref`, which finds the breaker as the others have left it.
unfoldable pub step_at :
    (max_attempts : ℕ)
    → (ref : ℕ) → Event
    → CircuitBreaker
    → List StreamSession
    → CircuitBreaker × List StreamSession
unfolding step
step_at n ref e b [] = (b, [])
step_at n zero e b (s ∷ ss) =
    let after = step n (view b s) e in (after.breaker, session_of after ∷ ss)
step_at n (suc ref) e b (s ∷ ss) = let (b', ss') = step_at n ref e b ss in (b', s ∷ ss')

abbrev pub started : Option StreamSession → List StreamSession
started none = []
started (some s) = s ∷ []

unfoldable pub act : (max_attempts : ℕ) → Recognizer → Action → Recognizer
unfolding start_stream step_at
act n r (starts now) =
    let (b, s) = start_stream r.breaker now in
    record { breaker = b; sessions = r.sessions ++ started s }
act n r (happens ref e) =
    let (b, ss) = step_at n ref e r.breaker r.sessions in record { breaker = b; sessions = ss }

unfoldable pub act_all : (max_attempts : ℕ) → Recognizer → List Action → Recognizer
unfolding act
act_all n r [] = r
act_all n r (a ∷ acts) = act_all n (act n r a) acts

-- A recognizer before its first StartStream.
abbrev pub new_recognizer : CircuitBreaker → Recognizer
new_recognizer b = record { breaker = b; sessions = [] }

-- Whether every session has told the breaker how it went.
unfoldable pub all_told : List StreamSession → Bool
all_told [] = true
all_told (s ∷ ss) = s.breaker_settled && all_told ss

-- Whether there is a session `ref` that has.
unfoldable pub has_told : ℕ → List StreamSession → Bool
has_told ref [] = false
has_told zero (s ∷ ss) = s.breaker_settled
has_told (suc ref) (s ∷ ss) = has_told ref ss
