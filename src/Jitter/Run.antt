-- ===== src/Jitter/Run.antt =====
-- Sequences of calls of the jitter buffer of pkg/rtp/jitter.go, by its one writer and its one reader
-- in any interleaving: the mutex makes each call one step.
use lang_stream.Prelude.{
  ℕ, ◌<◌, ◌≡◌, true, Option, none, some, List, [], ◌∷◌, arith, All, Option-cases, inl, inr, subst,
}
use lang_stream.Prelude.Int.{ℤ}
use lang_stream.Jitter.{
  JitterBuffer, Packet, Config, PushStatus, PullStatus, pull_ok, find, new_jitter_buffer, push,
  pull, next_of,
}
use lang_stream.Jitter.Buffered.{find-seq_num}
use lang_stream.Jitter.Invariant.{IsValid, push-IsValid, pull-IsValid, new_jitter_buffer-IsValid}

pub data Op : Type 0 where
  pushes : Packet → ℤ → Op
  pulls : ℤ → Op

pub data Outcome : Type 0 where
  pushed : PushStatus → Outcome
  pulled : Option Packet → PullStatus → Outcome

-- The numbers that a caller gives are uint16.
abbrev pub IsWordOp : Op → Type 0
IsWordOp (pushes p arrival) = p.seq_num < 65536
IsWordOp (pulls now) = Unit

unfoldable pub step : JitterBuffer → Op → JitterBuffer × Outcome
step b (pushes p arrival) = let (b', status) = push b p arrival in (b', pushed status)
step b (pulls now) = let (b', pkt, status) = pull b now in (b', pulled pkt status)

unfoldable pub run : JitterBuffer → List Op → JitterBuffer
run b [] = b
run b (o ∷ os) = run (step b o).0 os

unfoldable pub outcomes : JitterBuffer → List Op → List Outcome
outcomes b [] = []
outcomes b (o ∷ os) = (step b o).1 ∷ outcomes (step b o).0 os

pub step-IsValid : (b : JitterBuffer) (o : Op) → IsWordOp o → IsValid b → IsValid (step b o).0
unfolding step
step-IsValid b (pushes p arrival) w v = push-IsValid b p arrival w v
step-IsValid b (pulls now) w v = pull-IsValid b now v

run-IsValid : (b : JitterBuffer) (os : List Op) → All IsWordOp os → IsValid b → IsValid (run b os)
unfolding run
run-IsValid b [] w v = v
run-IsValid b (o ∷ os) w v = run-IsValid (step b o).0 os w.1 (step-IsValid b o w.0 v)

-- After any calls on a new buffer, with any configuration: no two buffered packets have one
-- sequence number, none is before the next number to play, there are at most
-- `MaxPacketsBuffered` of them, and none before the first `Push`.
pub run-new_jitter_buffer-IsValid :
    (cfg : Config) (os : List Op) → All IsWordOp os → IsValid (run (new_jitter_buffer cfg) os)
run-new_jitter_buffer-IsValid cfg os w = run-IsValid _ os w (new_jitter_buffer-IsValid cfg)

-- Played packets carry consecutive numbers from `next` on, where the numbers declared lost are the
-- only ones left out.
abbrev pub InOrder : ℕ → List Outcome → Type 0
InOrder next [] = Unit
InOrder next (pulled (some p) status ∷ os) =
    (status ≡ pull_ok) × (p.seq_num ≡ next) × InOrder (next_of next) os
InOrder next (pulled none PullStatus.pull_lost ∷ os) = InOrder (next_of next) os
InOrder next (_ ∷ os) = InOrder next os

push_keeps :
    (b : JitterBuffer) (p : Packet) (arrival : ℤ)
    → b.initialized ≡ true
    → ((push b p arrival).0.initialized ≡ true) × ((push b p arrival).0.next_seq ≡ b.next_seq)
unfolding push
push_keeps b p arrival i = ground arith

-- A pull and the outcomes after it.
pull-InOrder :
    (b : JitterBuffer) (now : ℤ) (os : List Outcome)
    → b.initialized ≡ true
    → InOrder (pull b now).0.next_seq os
    → InOrder b.next_seq (pulled (pull b now).1 (pull b now).2 ∷ os)
unfolding pull
pull-InOrder b now os i rest = elim (Option-cases (find b.next_seq b.buffered)) [
  | inl e ↦ ground (arith, rest)
  | inr (p, e) ↦ ground (arith, rest, find-seq_num b.next_seq b.buffered p e)
]

pull-initialized :
    (b : JitterBuffer) (now : ℤ) → b.initialized ≡ true → (pull b now).0.initialized ≡ true
unfolding pull
pull-initialized b now i = ground arith

-- From a buffer whose base is set, whatever is pushed and pulled: packets are played in sequence
-- order, one number after the other, and a number is passed over only when it is reported lost.
pub outcomes-InOrder :
    (b : JitterBuffer) (os : List Op) → b.initialized ≡ true → InOrder b.next_seq (outcomes b os)
unfolding outcomes step
outcomes-InOrder b [] i = tt
outcomes-InOrder b (pushes p arrival ∷ os) i =
    let kept = push_keeps b p arrival i in
    subst (λ n. InOrder n (outcomes (push b p arrival).0 os)) kept.1
      (outcomes-InOrder (push b p arrival).0 os kept.0)
outcomes-InOrder b (pulls now ∷ os) i =
    pull-InOrder b now (outcomes (pull b now).0 os) i
      (outcomes-InOrder (pull b now).0 os (pull-initialized b now i))
