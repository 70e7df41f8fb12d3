-- ===== src/Breaker/Probes.antt =====
-- Which calls the breaker of pkg/asr/circuitbreaker.go lets through once its cooldown is over.
use lang_stream.Prelude.{ℕ, ◌≤◌, ◌≡◌, ◌↔◌, ◌⊎◌, true, false, List, [], ◌∷◌, arith, map, All}
use lang_stream.Breaker.{CircuitBreaker, allows, allow, step, answer, answers}
use lang_stream.Breaker.Trips.{IsRejected}

-- `allow` lets a call through exactly when the breaker is closed, or the cooldown is over and no
-- probe is in flight.
pub allow_iff :
    (b : CircuitBreaker) (now : ℕ)
    → ((allow b now).1 ≡ true)
      ↔ ((b.is_open ≡ false) ⊎ ((b.open_until ≤ now) × (b.probe_in_flight ≡ false)))
unfolding allow
allow_iff b now = (ground arith, ground arith)

in_flight_rejects :
    (b : CircuitBreaker) (times : List ℕ)
    → b.is_open ≡ true
    → b.probe_in_flight ≡ true
    → All IsRejected (answers b (map allows times))
unfolding answers answer step allow
in_flight_rejects b [] o p = tt
in_flight_rejects b (t ∷ ts) o p =
    (ground arith, in_flight_rejects (step b (allows t)) ts (ground arith) (ground arith))

-- Once an open breaker has let a probe through, every further `allow` is refused, however many and
-- however late, until some call reports back.
pub one_probe :
    (b : CircuitBreaker) (now : ℕ) (times : List ℕ)
    → b.is_open ≡ true
    → (allow b now).1 ≡ true
    → All IsRejected (answers (allow b now).0 (map allows times))
unfolding allow
one_probe b now times o a = in_flight_rejects (allow b now).0 times (ground arith) (ground arith)
