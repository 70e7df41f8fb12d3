-- ===== src/Jitter/Seq.antt =====
-- The circular distance of sequence numbers in pkg/rtp/jitter.go.
use lang_stream.Prelude.{ℕ, ◌+◌, ◌-◌, ◌%◌, ◌≤◌, ◌<◌, ◌≡◌, ◌≢◌, arith}
use lang_stream.Prelude.Int.{pos, negsuc, ◌≤ℤ◌}
use lang_stream.Jitter.{seq_delta}

-- A sequence number k steps after another, wrapping at 65536, has distance k from it as long as
-- k < 32768, and distance k - 65536 when k is larger.
pub seq_delta_after :
    (b k : ℕ)
    → b < 65536
    → k < 65536
    → ((k < 32768) → seq_delta ((b + k) % 65536) b ≡ pos k)
      × ((32768 ≤ k) → seq_delta ((b + k) % 65536) b ≡ negsuc (65535 - k))
unfolding seq_delta
seq_delta_after b k hb hk = (λ h. ground arith, λ h. ground arith)

-- One step on, every other number that is not behind is one nearer.
pub seq_delta_next :
    (a next : ℕ)
    → a < 65536
    → next < 65536
    → pos 0 ≤ℤ seq_delta a next
    → a ≢ next
    → pos 0 ≤ℤ seq_delta a ((next + 1) % 65536)
unfolding seq_delta
seq_delta_next a next ha hn h ne = ground arith
