-- ===== src/Jitter/Accounts.antt =====
-- Where the packets of the jitter buffer of pkg/rtp/jitter.go go: its counters against its outcomes.
use lang_stream.Prelude.{
  ℕ, ◌+◌, ◌≡◌, true, some, List, [], ◌∷◌, arith, length, All, Bool-cases, ◌⊎◌, inl, inr,
}
use lang_stream.Prelude.Int.{ℤ}
use lang_stream.Jitter.{
  JitterBuffer, Packet, Config, PushStatus, PullStatus, find, is_some, furthest, seq_delta,
  new_jitter_buffer, offer, push, pull, make_room, snapshot,
}
use lang_stream.Jitter.Buffered.{Distinct, length-delete, furthest_found}
use lang_stream.Jitter.Invariant.{IsValid, new_jitter_buffer-IsValid}
use lang_stream.Jitter.Run.{
  Op, pushes, pulls, Outcome, pushed, pulled, IsWordOp, step, run, outcomes, step-IsValid,
}

-- How often an outcome occurs.
abbrev weigh : (Outcome → ℕ) → List Outcome → ℕ
weigh w [] = 0
weigh w (o ∷ os) = w o + weigh w os

abbrev was_played : Outcome → ℕ
was_played (pulled (some p) status) = 1
was_played _ = 0

abbrev was_refused : Outcome → ℕ
was_refused (pushed PushStatus.push_evicted_capacity) = 1
was_refused _ = 0

abbrev was_late : Outcome → ℕ
was_late (pushed PushStatus.push_late) = 1
was_late _ = 0

abbrev was_duplicate : Outcome → ℕ
was_duplicate (pushed PushStatus.push_duplicate) = 1
was_duplicate _ = 0

abbrev was_pushed : Outcome → ℕ
was_pushed (pushed status) = 1
was_pushed _ = 0

abbrev was_lost : Outcome → ℕ
was_lost (pulled p PullStatus.pull_lost) = 1
was_lost _ = 0

pub played : List Outcome → ℕ
played = weigh was_played

pub refused : List Outcome → ℕ
refused = weigh was_refused

pub pushes_seen : List Outcome → ℕ
pushes_seen = weigh was_pushed

pub losses : List Outcome → ℕ
losses = weigh was_lost

-- The books of one step, from one buffer to the next with the given outcome.
record Balanced (b : JitterBuffer) (o : Outcome) (b' : JitterBuffer) : Type 0 where
  stored :
      b'.stats.received + b.stats.evicted_for_capacity + length b.buffered + was_refused o
      ≡ b.stats.received + was_played o + length b'.buffered + b'.stats.evicted_for_capacity
  offered :
      b'.stats.received + b'.stats.duplicates + b'.stats.late + was_refused o
      ≡ b.stats.received + b.stats.duplicates + b.stats.late + was_pushed o
  missed : b'.stats.lost ≡ b.stats.lost + was_lost o

make_room-Balanced :
    (b : JitterBuffer) (p : Packet) (victim : ℕ)
    → Distinct b.buffered
    → (victim ≡ p.seq_num) ⊎ (is_some (find victim b.buffered) ≡ true)
    → Balanced b (pushed (make_room b p victim).1) (make_room b p victim).0
unfolding make_room
make_room-Balanced b p victim d (inl e) = ground arith
make_room-Balanced b p victim d (inr e) = ground (arith, length-delete victim b.buffered d e)

offer-Balanced :
    (b : JitterBuffer) (p : Packet)
    → Distinct b.buffered
    → Balanced b (pushed (offer b p).1) (offer b p).0
unfolding offer
offer-Balanced b p d =
    let dist = seq_delta p.seq_num b.next_seq in
    let victim = (furthest b.next_seq b.buffered (p.seq_num, dist)).0 in
    let room =
      make_room-Balanced b p victim d (furthest_found b.next_seq b.buffered p.seq_num dist) in
    ground (arith, room)

push-Balanced :
    (b : JitterBuffer) (p : Packet) (arrival : ℤ)
    → IsValid b
    → Balanced b (pushed (push b p arrival).1) (push b p arrival).0
unfolding push
push-Balanced b p arrival v = elim (Bool-cases b.initialized) [
  | inl e ↦ ground (arith, offer-Balanced b p v.distinct)
  | inr e ↦ ground (
    arith,
    offer-Balanced
        (record b {
          initialized = true;
          base_seq = p.seq_num;
          base_arrival = arrival;
          next_seq = p.seq_num;
        })
        p v.distinct,
  )
]

pull-Balanced :
    (b : JitterBuffer) (now : ℤ)
    → IsValid b
    → Balanced b (pulled (pull b now).1 (pull b now).2) (pull b now).0
unfolding pull
pull-Balanced b now v = ground (arith, v, length-delete b.next_seq b.buffered v.distinct)

step-Balanced : (b : JitterBuffer) (o : Op) → IsValid b → Balanced b (step b o).1 (step b o).0
unfolding step
step-Balanced b (pushes p arrival) v = push-Balanced b p arrival v
step-Balanced b (pulls now) v = pull-Balanced b now v

record Totals (b : JitterBuffer) (outs : List Outcome) (b' : JitterBuffer) : Type 0 where
  stored :
      b'.stats.received + b.stats.evicted_for_capacity + length b.buffered + refused outs
      ≡ b.stats.received + played outs + length b'.buffered + b'.stats.evicted_for_capacity
  offered :
      b'.stats.received + b'.stats.duplicates + b'.stats.late + refused outs
      ≡ b.stats.received + b.stats.duplicates + b.stats.late + pushes_seen outs
  missed : b'.stats.lost ≡ b.stats.lost + losses outs

run-Totals :
    (b : JitterBuffer) (os : List Op)
    → All IsWordOp os
    → IsValid b
    → Totals b (outcomes b os) (run b os)
unfolding run outcomes played refused pushes_seen losses
run-Totals b [] w v = omega arith
run-Totals b (o ∷ os) w v =
    let first = step-Balanced b o v in
    let rest = run-Totals (step b o).0 os w.1 (step-IsValid b o w.0 v) in
    record {
      stored = omega (arith, first.stored, rest.stored);
      offered = omega (arith, first.offered, rest.offered);
      missed = omega (arith, first.missed, rest.missed);
    }

-- After any calls on a new buffer: every packet accepted has been played, is still buffered or was
-- evicted, where EvictedForCapacity is the number of these evictions and of the packets refused at
-- capacity together; every packet offered was accepted, refused at capacity, late or a duplicate; and
-- the count of lost numbers is the number of pulls that reported a loss.
pub run_accounts :
    (cfg : Config) (os : List Op)
    → All IsWordOp os
    → let b = run (new_jitter_buffer cfg) os in
      let outs = outcomes (new_jitter_buffer cfg) os in
      (b.stats.received + refused outs
        ≡ played outs + (snapshot b).currently_buffered + b.stats.evicted_for_capacity)
      × (b.stats.received + b.stats.duplicates + b.stats.late + refused outs ≡ pushes_seen outs)
      × (b.stats.lost ≡ losses outs)
unfolding new_jitter_buffer snapshot
run_accounts cfg os w =
    let t = run-Totals (new_jitter_buffer cfg) os w (new_jitter_buffer-IsValid cfg) in
    (omega (arith, t.stored), omega (arith, t.offered), omega (arith, t.missed))
