-- ===== src/Backoff/Bounds.antt =====
-- How long the code of pkg/asr/backoff.go waits.
use lang_stream.Prelude.{
  ◌&&◌, true, refl, leb, &&_parts, leb→le, leb→le, &&_parts, ℕ, ◌+◌, ◌*◌, ◌/◌, ◌%◌, ◌^◌, ◌≤◌, ◌<◌,
  ◌≡◌, min, arith,
}
use lang_stream.Backoff.{leb, clamped, shl64, capped_delay, reconnect_backoff, add64, int64}
use lang_stream.Prelude.Tables.{table, table_entry}
use lang_stream.Prelude.Int.{ℤ, pos, negsuc, pos_part, ◌≤ℤ◌}

clamped-le : (attempt : ℤ) → clamped attempt ≤ 20
unfolding clamped
clamped-le attempt = ground arith

mul_mono : (a b c : ℕ) → b ≤ c → a * b ≤ a * c
mul_mono a b c h = grind arith

capped_range :
    (attempt base : ℤ) (max : ℕ)
    → (pos 0 ≤ℤ capped_delay attempt base (pos max))
      × (capped_delay attempt base (pos max) ≤ℤ pos max)
unfolding capped_delay
capped_range attempt base max = ground arith

-- A sum that an int64 holds is not wrapped.
add64_small : (a b : ℕ) → a + b < 2 ^ 63 → add64 (pos a) (pos b) ≡ pos (a + b)
unfolding add64 int64
add64_small a b h =
    let low : (a % 2 ^ 64 + b % 2 ^ 64) % 2 ^ 64 ≡ a + b = omega arith in rw low (ground (arith, h))

delay_range :
    (d : ℤ) (jitter max : ℕ)
    → max + max / 5 < 2 ^ 63
    → pos 0 ≤ℤ d
    → d ≤ℤ pos max
    → jitter < pos_part d / 5 + 1
    → (pos 0 ≤ℤ add64 d (pos jitter)) × (add64 d (pos jitter) ≤ℤ pos (max + max / 5))
delay_range (pos d) jitter max fits lo hi small =
    rw (add64_small d jitter (omega (arith, hi))) (ground (arith, hi, small))
delay_range (negsuc d) jitter max fits lo hi small = absurd (omega (arith, lo))

-- Whatever the attempt and the base delay are, also where the shift overflows: with a maximum that
-- is not negative, whose sum with a fifth of it is an int64, and a random source in its range, the
-- delay is not negative and is at most the maximum and a fifth of it.
pub reconnect_backoff_bounds :
    (int63n : ℕ → ℕ) (attempt base : ℤ) (max : ℕ)
    → max + max / 5 < 2 ^ 63
    → ((n : ℕ) → 0 < n → int63n n < n)
    → (pos 0 ≤ℤ reconnect_backoff int63n attempt base (pos max))
      × (reconnect_backoff int63n attempt base (pos max) ≤ℤ pos (max + max / 5))
unfolding reconnect_backoff
reconnect_backoff_bounds int63n attempt base max fits law =
    let d = capped_delay attempt base (pos max) in
    let range = capped_range attempt base max in
    delay_range d (int63n (pos_part d / 5 + 1)) max fits range.0 range.1
      (law (pos_part d / 5 + 1) (omega arith))

pow_table : table 21 (λ k. leb 1 (2 ^ k) && leb (2 ^ k) (2 ^ 20)) ≡ true
unfolding table
pow_table = refl

pow_small : (k : ℕ) → k ≤ 20 → (1 ≤ 2 ^ k) × (2 ^ k ≤ 2 ^ 20)
pow_small k h =
    let both = &&_parts _ _ (table_entry _ 21 k pow_table (omega arith)) in
    (leb→le 1 (2 ^ k) both.0, leb→le (2 ^ k) (2 ^ 20) both.1)

shl_range : (base k : ℕ) → base < 2 ^ 43 → k ≤ 20 → base * 2 ^ k < 2 ^ 63
shl_range base k hb hk =
    let p = pow_small k hk in
    let m : base * 2 ^ k ≤ base * 2 ^ 20 = mul_mono base (2 ^ k) (2 ^ 20) p.1 in omega arith

shl64_small : (base k : ℕ) → base < 2 ^ 43 → k ≤ 20 → shl64 (pos base) k ≡ pos (base * 2 ^ k)
unfolding shl64
shl64_small base k hb hk =
    let small : base % 2 ^ 64 ≡ base = omega arith in
    rw small (ground (arith, shl_range base k hb hk))

clamped-min : (attempt : ℕ) → clamped (pos attempt) ≡ min attempt 20
unfolding clamped
clamped-min attempt = ground arith

scaled_pos : (base k : ℕ) → 0 < base → k ≤ 20 → 0 < base * 2 ^ k
scaled_pos base k hb hk =
    let p = pow_small k hk in
    let m : base * 1 ≤ base * 2 ^ k = mul_mono base 1 (2 ^ k) p.0 in omega arith

-- Without overflow the delay before the jitter is the base delay doubled once for each attempt, 20
-- times at most, and cut off at the maximum.
pub capped_delay-doubles :
    (attempt base max : ℕ)
    → 0 < base
    → base < 2 ^ 43
    → capped_delay (pos attempt) (pos base) (pos max) ≡ pos (min (base * 2 ^ min attempt 20) max)
unfolding capped_delay
capped_delay-doubles attempt base max lo hi =
    let k = min attempt 20 in
    let small : k ≤ 20 = omega arith in
    rw (clamped-min attempt, shl64_small base k hi small)
      (ground (arith, scaled_pos base k lo small))
