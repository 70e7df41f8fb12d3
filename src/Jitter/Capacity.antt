-- ===== src/Jitter/Capacity.antt =====
-- Which packet the jitter buffer of pkg/rtp/jitter.go drops at capacity.
use lang_stream.Prelude.{
  ℕ, ◌≡◌, refl, sym, subst, true, none, some, ◌∷◌, arith, length, All, ◌⊎◌, inl, inr, if◌then◌else◌,
  ◌==◌,
}
use lang_stream.Prelude.Int.{pos, ◌≤ℤ◌}
use lang_stream.Jitter.{
  JitterBuffer, Packet, push_accepted, push_evicted_capacity, find, is_some, furthest, seq_delta,
  offer,
}
use lang_stream.Jitter.Buffered.{
  furthest_found, furthest_max, furthest_dist, furthest_mono, find-delete,
}

-- A packet of the full buffer or the incoming one, of greatest distance from the next number.
abbrev victim_of : JitterBuffer → Packet → ℕ
victim_of b p = (furthest b.next_seq b.buffered (p.seq_num, seq_delta p.seq_num b.next_seq)).0

-- A packet that comes to a full buffer, in time and not twice: one packet leaves, which is among the
-- buffered ones and the incoming one, and none of these is further in the future. If it is the
-- incoming one the buffer keeps its packets; else the incoming one takes its place, and every other
-- number finds what it found before.
pub offer_full :
    (b : JitterBuffer) (p : Packet)
    → pos 0 ≤ℤ seq_delta p.seq_num b.next_seq
    → find p.seq_num b.buffered ≡ none
    → b.cfg.max_packets_buffered ≤ℤ pos (length b.buffered)
    → (victim : ℕ) × All
        (λ q. seq_delta q.seq_num b.next_seq ≤ℤ seq_delta victim b.next_seq)
        (p ∷ b.buffered)
      × (((victim ≡ p.seq_num)
            × ((offer b p).1 ≡ push_evicted_capacity)
            × ((offer b p).0.buffered ≡ b.buffered))
          ⊎ ((is_some (find victim b.buffered) ≡ true)
              × ((offer b p).1 ≡ push_accepted)
              × ((j : ℕ)
                  → find j (offer b p).0.buffered ≡ (
                      if p.seq_num == j
                      then some p
                      else (if victim == j then none else find j b.buffered)))))
unfolding offer find
offer_full b p ahead fresh full =
    let dist = seq_delta p.seq_num b.next_seq in
    let at = sym (furthest_dist b.next_seq b.buffered p.seq_num dist refl) in
    (
      victim_of b p,
      (
        subst (λ d. dist ≤ℤ d) at (furthest_mono b.next_seq b.buffered p.seq_num dist),
        subst (λ d. All (λ q. seq_delta q.seq_num b.next_seq ≤ℤ d) b.buffered) at
            (furthest_max b.next_seq b.buffered p.seq_num dist),
      ),
      elim (furthest_found b.next_seq b.buffered p.seq_num dist) [
        | inl e ↦ inl (e, ground arith, ground arith)
        | inr f ↦
            inr (f, ground arith, λ j. ground (arith, find-delete j (victim_of b p) b.buffered))
      ],
    )
