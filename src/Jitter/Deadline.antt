-- ===== src/Jitter/Deadline.antt =====
-- When the jitter buffer of pkg/rtp/jitter.go gives a packet up.
use lang_stream.Prelude.{◌≤◌, ℕ, ◌+◌, ◌*◌, ◌%◌, ◌<◌, ◌≡◌, ◌↔◌, true, false, none, arith}
use lang_stream.Prelude.Int.{ℤ, pos, ltb_ℤ, ◌+ℤ◌, ◌*ℤ◌, ◌≤ℤ◌}
use lang_stream.Jitter.{JitterBuffer, find, deadline_locked, pull, pull_lost, pull_waiting}
use lang_stream.Jitter.Seq.{seq_delta_after}

-- A primed buffer with no packet for the next sequence number waits exactly before the deadline of
-- that number, and gives it up exactly from the deadline on.
pub pull_missing :
    (b : JitterBuffer) (now : ℤ)
    → b.initialized ≡ true
    → find b.next_seq b.buffered ≡ none
    → ((((pull b now).2 ≡ pull_waiting) ↔ (ltb_ℤ now (deadline_locked b b.next_seq) ≡ true))
        × (((pull b now).2 ≡ pull_lost) ↔ (ltb_ℤ now (deadline_locked b b.next_seq) ≡ false)))
unfolding pull
pull_missing b now i f = ((ground arith, ground arith), (ground arith, ground arith))

-- Up to 32767 numbers after the base, the deadline of a number is the base's arrival, the target
-- delay, and one packet interval for each number in between.
pub deadline_steps :
    (b : JitterBuffer) (d i k : ℕ)
    → b.cfg.target_delay ≡ pos d
    → b.cfg.packet_interval ≡ pos i
    → b.base_seq < 65536
    → k < 32768
    → deadline_locked b ((b.base_seq + k) % 65536) ≡ b.base_arrival +ℤ pos (d + k * i)
unfolding deadline_locked ◌+ℤ◌ ◌*ℤ◌
deadline_steps b d i k hd hi hb hk =
    let steps = (seq_delta_after b.base_seq k hb (omega arith)).0 hk in
    rw (steps, hd, hi) (ground arith)

deadline_wrapped :
    (b : JitterBuffer) (d i k : ℕ)
    → b.cfg.target_delay ≡ pos d
    → b.cfg.packet_interval ≡ pos i
    → b.base_seq < 65536
    → 32768 ≤ k
    → k < 65536
    → deadline_locked b ((b.base_seq + k) % 65536) ≤ℤ b.base_arrival +ℤ pos d
unfolding deadline_locked ◌+ℤ◌ ◌*ℤ◌
deadline_wrapped b d i k hd hi hb lo hi' =
    let steps = (seq_delta_after b.base_seq k hb hi').1 lo in rw (steps, hd, hi) (ground arith)

-- From 32768 up to 65535 numbers after the base, a packet that is not on hand is given up at once,
-- at every time from the base's arrival and the target delay on: the deadline no longer grows by
-- one packet interval for each number.
pub wrapped_gives_up :
    (b : JitterBuffer) (d i k : ℕ) (now : ℤ)
    → b.initialized ≡ true
    → b.cfg.target_delay ≡ pos d
    → b.cfg.packet_interval ≡ pos i
    → b.base_seq < 65536
    → 32768 ≤ k
    → k < 65536
    → b.next_seq ≡ (b.base_seq + k) % 65536
    → find b.next_seq b.buffered ≡ none
    → b.base_arrival +ℤ pos d ≤ℤ now
    → (pull b now).2 ≡ pull_lost
wrapped_gives_up b d i k now init hd hi hb lo hi' at missing late =
    (pull_missing b now init missing).1.1
      (rw at (ground (arith, deadline_wrapped b d i k hd hi hb lo hi')))
