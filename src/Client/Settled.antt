-- ===== src/Client/Settled.antt =====
-- The circuit breaker around the calls of a vendor's client: every call that passes it settles it.
use lang_stream.Prelude.{
  length, ℕ, ◌+◌, ◌≤◌, ◌<◌, ◌≡◌, refl, sym, subst, ◌∙◌, ◌⊎◌, inl, inr, Bool, true, false, List, [],
  ◌∷◌, arith,
}
use lang_stream.Prelude.Int.{ℤ}
use lang_stream.Client.{
  after_allow, Attempted, Settlement, succeeded, failed, aborted, guarded, settle, circuit_open,
}
use lang_stream.Breaker.{
  CircuitBreaker, new_circuit_breaker, allow, record_success, record_failure, abort,
}

-- One call: the clock at `allow` and at the end, and what its loop comes to if it is admitted.
pub record Served (R E : Type 0) : Type 0 where
  pub now : ℕ
  pub later : ℕ
  pub made : Attempted R E

-- The breaker after one call after the other.
pub serve : {R E : Type 0} → CircuitBreaker → List (Served R E) → CircuitBreaker
serve b [] = b
serve b (c ∷ cs) = serve (guarded b c.now c.later c.made).0 cs

-- Between two calls: no probe is out, and the breaker opens again at the end of a cooldown that
-- began by the time t.
record IsQuiet (t : ℕ) (b : CircuitBreaker) : Type 0 where
  quiet : b.probe_in_flight ≡ false
  reopens : b.is_open ≡ true → b.open_until ≤ t + b.cooldown

settle-IsQuiet :
    (t now later : ℕ) (b : CircuitBreaker) (s : Settlement)
    → later ≤ t
    → IsQuiet t b
    → IsQuiet t (settle (record b { probe_in_flight = true }) s later)
      × IsQuiet t (settle b s later)
unfolding settle record_success record_failure abort
settle-IsQuiet t now later b succeeded le q = ground arith
settle-IsQuiet t now later b failed le q = ground arith
settle-IsQuiet t now later b aborted le q = ground arith

-- What `allow` does with a breaker that has no probe out.
allow-cases :
    (b : CircuitBreaker) (now : ℕ)
    → b.probe_in_flight ≡ false
    → (allow b now ≡ (b, true))
      ⊎ ((allow b now ≡ (b, false)) ⊎ (allow b now ≡ (record b { probe_in_flight = true }, true)))
unfolding allow
allow-cases b now e = ground arith

guarded-IsQuiet :
    {R E : Type 0} (t now later : ℕ) (b : CircuitBreaker) (made : Attempted R E)
    → later ≤ t
    → IsQuiet t b
    → IsQuiet t (guarded b now later made).0
unfolding guarded after_allow
guarded-IsQuiet t now later b made le q =
    let Q = λ (a : CircuitBreaker × Bool). IsQuiet t (after_allow later made a).0 in
    let both = settle-IsQuiet t now later b made.settlement le q in
    elim (allow-cases b now q.quiet) [
      | inl e ↦ subst Q (sym e) both.1
      | inr (inl e) ↦ subst Q (sym e) q
      | inr (inr e) ↦ subst Q (sym e) both.0
    ]

-- Every call has ended by the time t.
pub data EndsBy {R E : Type 0} (t : ℕ) : List (Served R E) → Type 0 where
  none_left : EndsBy t []
  one_more :
      {c : Served R E} {cs : List (Served R E)} → c.later ≤ t → EndsBy t cs → EndsBy t (c ∷ cs)

serve-IsQuiet :
    {R E : Type 0} (t : ℕ) (b : CircuitBreaker) (cs : List (Served R E))
    → EndsBy t cs
    → IsQuiet t b
    → IsQuiet t (serve b cs)
unfolding serve
serve-IsQuiet t b [] none_left q = q
serve-IsQuiet t b (c ∷ cs) (one_more le ends) q =
    serve-IsQuiet t (guarded b c.now c.later c.made).0 cs ends
      (guarded-IsQuiet t c.now c.later b c.made le q)

guarded-cooldown :
    {R E : Type 0} (now later : ℕ) (b : CircuitBreaker) (made : Attempted R E)
    → (guarded b now later made).0.cooldown ≡ b.cooldown
unfolding guarded after_allow allow settle record_success record_failure abort
guarded-cooldown now later b made = ground arith

serve-cooldown :
    {R E : Type 0} (b : CircuitBreaker) (cs : List (Served R E))
    → (serve b cs).cooldown ≡ b.cooldown
unfolding serve
serve-cooldown b [] = refl
serve-cooldown b (c ∷ cs) =
    serve-cooldown (guarded b c.now c.later c.made).0 cs ∙ guarded-cooldown c.now c.later b c.made

allow-quiet :
    (t now : ℕ) (b : CircuitBreaker) → IsQuiet t b → t + b.cooldown ≤ now → (allow b now).1 ≡ true
unfolding allow
allow-quiet t now b q le = ground arith

new-IsQuiet : (threshold cooldown : ℤ) (t : ℕ) → IsQuiet t (new_circuit_breaker threshold cooldown)
unfolding new_circuit_breaker
new-IsQuiet threshold cooldown t = ground arith

-- Whatever calls a client has made one after the other, and whatever came of them: a cooldown after
-- the last one has ended the breaker lets the next call through.
pub calls_admitted_again :
    {R E : Type 0} (threshold cooldown : ℤ) (cs : List (Served R E)) (t now : ℕ)
    → EndsBy t cs
    → t + (new_circuit_breaker threshold cooldown).cooldown ≤ now
    → (allow (serve (new_circuit_breaker threshold cooldown) cs) now).1 ≡ true
calls_admitted_again threshold cooldown cs t now ends le =
    let b = new_circuit_breaker threshold cooldown in
    allow-quiet t now (serve b cs) (serve-IsQuiet t b cs ends (new-IsQuiet threshold cooldown t))
      (subst (λ c. t + c ≤ now) (sym (serve-cooldown b cs)) le)

-- Every call has lost all of its rounds.
pub data AllLost {R E : Type 0} : List (Served R E) → Type 0 where
  no_calls : AllLost []
  one_fails :
      {c : Served R E} {cs : List (Served R E)}
      → c.made.settlement ≡ failed
      → AllLost cs
      → AllLost (c ∷ cs)

-- A closed breaker after n failures, with these parameters.
record IsCounting (n threshold cooldown : ℕ) (b : CircuitBreaker) : Type 0 where
  closed : b.is_open ≡ false
  counts : b.consecutive_fails ≡ n
  same_threshold : b.threshold ≡ threshold
  same_cooldown : b.cooldown ≡ cooldown

guarded-failed :
    {R E : Type 0} (now later : ℕ) (b : CircuitBreaker) (made : Attempted R E)
    → b.is_open ≡ false
    → made.settlement ≡ failed
    → (guarded b now later made).0 ≡ record_failure b later
unfolding guarded after_allow allow settle
guarded-failed now later b made closed e = ground arith

record_failure-IsCounting :
    (n threshold cooldown later : ℕ) (b : CircuitBreaker)
    → n + 1 < threshold
    → IsCounting n threshold cooldown b
    → IsCounting (n + 1) threshold cooldown (record_failure b later)
unfolding record_failure
record_failure-IsCounting n threshold cooldown later b lt c = ground arith

serve-IsCounting :
    {R E : Type 0} (n threshold cooldown : ℕ) (b : CircuitBreaker) (cs : List (Served R E))
    → AllLost cs
    → n + length cs < threshold
    → IsCounting n threshold cooldown b
    → IsCounting (n + length cs) threshold cooldown (serve b cs)
unfolding serve
serve-IsCounting n threshold cooldown b [] no_calls lt c =
    subst (λ m. IsCounting m threshold cooldown b) (omega arith) c
serve-IsCounting n threshold cooldown b (d ∷ ds) (one_fails e fs) lt c =
    let Q = λ (b' : CircuitBreaker). IsCounting (n + 1) threshold cooldown b' in
    let first =
      subst Q (sym (guarded-failed d.now d.later b d.made c.closed e))
        (record_failure-IsCounting n threshold cooldown d.later b (omega arith) c) in
    subst (λ m. IsCounting m threshold cooldown (serve (guarded b d.now d.later d.made).0 ds))
      (omega arith)
      (serve-IsCounting (n + 1) threshold cooldown (guarded b d.now d.later d.made).0 ds fs
        (omega arith) first)

new-IsCounting :
    (threshold cooldown : ℤ)
    → IsCounting 0
        (new_circuit_breaker threshold cooldown).threshold
        (new_circuit_breaker threshold cooldown).cooldown
        (new_circuit_breaker threshold cooldown)
unfolding new_circuit_breaker
new-IsCounting threshold cooldown = ground arith

refused_after :
    {R E : Type 0} (n threshold cooldown later now later' : ℕ) (b : CircuitBreaker)
    (made : Attempted R E)
    → IsCounting n threshold cooldown b
    → n + 1 ≡ threshold
    → now < later + cooldown
    → guarded (record_failure b later) now later' made
      ≡ (record_failure b later, inr circuit_open, 0)
unfolding guarded after_allow allow record_failure
refused_after n threshold cooldown later now later' b made c e lt = ground arith

-- When a new breaker's threshold of calls, one after the other, have each lost all of their requests,
-- a further call before the last one's end and a cooldown is refused with `circuit_open`, makes no
-- request, and leaves the breaker as it is.
pub calls_fail_fast :
    {R E : Type 0} (threshold cooldown : ℤ) (cs : List (Served R E)) (last : Served R E)
    (now later : ℕ) (made : Attempted R E)
    → AllLost cs
    → last.made.settlement ≡ failed
    → length cs + 1 ≡ (new_circuit_breaker threshold cooldown).threshold
    → now < last.later + (new_circuit_breaker threshold cooldown).cooldown
    → let b =
        (guarded
          (serve (new_circuit_breaker threshold cooldown) cs)
          last.now
          last.later
          last.made).0 in
      guarded b now later made ≡ (b, inr circuit_open, 0)
calls_fail_fast threshold cooldown cs last now later made fs e eq lt =
    let new = new_circuit_breaker threshold cooldown in
    let c =
      serve-IsCounting 0 new.threshold new.cooldown new cs fs (omega arith)
        (new-IsCounting threshold cooldown) in
    subst (λ b. guarded b now later made ≡ (b, inr circuit_open, 0))
      (sym (guarded-failed last.now last.later (serve new cs) last.made c.closed e))
      (refused_after (0 + length cs) new.threshold new.cooldown last.later now later (serve new cs)
        made c (omega arith) lt)
