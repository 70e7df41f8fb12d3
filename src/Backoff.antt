-- ===== src/Backoff.antt =====
-- pkg/asr/backoff.go: the delay before a reconnect. pkg/translate/backoff.go and pkg/tts/backoff.go
-- hold copies of the same code, and pkg/tts/backoff.go also says which failures are retried.
-- A time.Duration is an int64: the shift and the sum wrap as they do there.
pub mod Bounds
use lang_stream.Prelude.{
  ℕ, ◌+◌, ◌-◌, ◌*◌, ◌/◌, ◌%◌, ◌^◌, Bool, true, false, ◌&&◌, ◌||◌, ltb, leb, ◌==◌, if◌then◌else◌,
}
use lang_stream.Prelude.Int.{ℤ, pos, negsuc, pos_part, neg_part, leb_ℤ, ltb_ℤ, ◌+ℤ◌}

-- The low 64 bits of an integer, and the int64 with given bits.
abbrev pub word64 : ℤ → ℕ
word64 (pos n) = n % 2 ^ 64
word64 (negsuc n) = 2 ^ 64 - 1 - n % 2 ^ 64

unfoldable pub int64 : ℕ → ℤ
int64 w = if ltb w (2 ^ 63) then pos w else negsuc (2 ^ 64 - 1 - w)

-- `base << uint(attempt)` in int64.
unfoldable pub shl64 : ℤ → ℕ → ℤ
unfolding int64
shl64 base k = int64 (word64 base * 2 ^ k % 2 ^ 64)

-- The sum of two int64.
unfoldable pub add64 : ℤ → ℤ → ℤ
unfolding int64
add64 a b = int64 ((word64 a + word64 b) % 2 ^ 64)

-- The attempt number after its two guards.
unfoldable pub clamped : ℤ → ℕ
clamped attempt =
    let lower = if ltb_ℤ attempt (pos 0) then pos 0 else attempt in
    if ltb_ℤ (pos 20) lower then 20 else pos_part lower

-- The delay without its jitter.
unfoldable pub capped_delay : ℤ → ℤ → ℤ → ℤ
capped_delay attempt base max =
    let d = shl64 base (clamped attempt) in if leb_ℤ d (pos 0) || ltb_ℤ max d then max else d

-- `int63n` is rand.Int63n. The code calls it with a positive argument when the delay is not
-- negative, and it panics otherwise; the model covers delays that are not negative.
unfoldable pub reconnect_backoff : (ℕ → ℕ) → ℤ → ℤ → ℤ → ℤ
unfolding capped_delay add64
reconnect_backoff int63n attempt base max =
    let d = capped_delay attempt base max in add64 d (pos (int63n (pos_part d / 5 + 1)))

-- 429 and every 5xx.
unfoldable pub is_retryable_status_code : ℤ → Bool
is_retryable_status_code code =
    leb_ℤ code (pos 429) && leb_ℤ (pos 429) code || leb_ℤ (pos 500) code && leb_ℤ code (pos 599)

-- The copies: retryBackoff of pkg/translate/backoff.go and of pkg/tts/backoff.go.
unfoldable pub translate_retry_backoff : (ℕ → ℕ) → ℤ → ℤ → ℤ → ℤ
unfolding capped_delay add64
translate_retry_backoff int63n attempt base max =
    let d = capped_delay attempt base max in add64 d (pos (int63n (pos_part d / 5 + 1)))

unfoldable pub tts_retry_backoff : (ℕ → ℕ) → ℤ → ℤ → ℤ → ℤ
unfolding capped_delay add64
tts_retry_backoff int63n attempt base max =
    let d = capped_delay attempt base max in add64 d (pos (int63n (pos_part d / 5 + 1)))

-- What isRetryableConnErr of pkg/tts/backoff.go tells apart.
pub data ConnErr : Type 0 where
  no_error context_canceled deadline_exceeded other_error : ConnErr

unfoldable pub is_retryable_conn_err : ConnErr → Bool
is_retryable_conn_err other_error = true
is_retryable_conn_err _ = false
