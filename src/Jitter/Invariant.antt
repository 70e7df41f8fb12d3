-- ===== src/Jitter/Invariant.antt =====
-- What holds of the jitter buffer of pkg/rtp/jitter.go between two calls.
use lang_stream.Prelude.{
  ℕ, ◌<◌, ◌≡◌, ◌⊎◌, inl, inr, true, false, none, List, [], ◌∷◌, arith, length, All, Option-cases,
  ◌∙◌,
}
use lang_stream.Prelude.Int.{ℤ, pos, ◌≤ℤ◌}
use lang_stream.Jitter.{
  JitterBuffer, Packet, Config, find, is_some, delete, furthest, seq_delta, new_jitter_buffer,
  primed, offer, push, pull, next_of, make_room,
}
use lang_stream.Jitter.Seq.{seq_delta_next}
use lang_stream.Jitter.Buffered.{
  Distinct, find-delete, delete-Distinct, delete-All, length-delete, furthest_found,
}

-- The packet waits for its turn: its number is a uint16, not before `next`.
abbrev pub IsAhead : ℕ → Packet → Type 0
IsAhead next p = (p.seq_num < 65536) × (pos 0 ≤ℤ seq_delta p.seq_num next)

pub record IsValid (b : JitterBuffer) : Type 0 where
  pub next_word : b.next_seq < 65536
  pub base_word : b.base_seq < 65536
  pub distinct : Distinct b.buffered
  pub ahead : All (IsAhead b.next_seq) b.buffered
  pub within : pos (length b.buffered) ≤ℤ b.cfg.max_packets_buffered
  pub room : pos 1 ≤ℤ b.cfg.max_packets_buffered
  pub unprimed : b.initialized ≡ false → b.buffered ≡ []

pub new_jitter_buffer-IsValid : (cfg : Config) → IsValid (new_jitter_buffer cfg)
unfolding new_jitter_buffer
new_jitter_buffer-IsValid cfg = ground arith

primed-IsValid :
    (b : JitterBuffer) (p : Packet) (arrival : ℤ)
    → p.seq_num < 65536
    → IsValid b
    → IsValid (primed b p arrival) × ((primed b p arrival).initialized ≡ true)
unfolding primed
primed-IsValid b p arrival w v = ground (arith, v.unprimed)

module _ (b : JitterBuffer) (p : Packet) (w : p.seq_num < 65536) (v : IsValid b)
    (init : b.initialized ≡ true) where
  make_room-IsValid :
      (victim : ℕ)
      → pos 0 ≤ℤ seq_delta p.seq_num b.next_seq
      → find p.seq_num b.buffered ≡ none
      → (victim ≡ p.seq_num) ⊎ (is_some (find victim b.buffered) ≡ true)
      → IsValid (make_room b p victim).0
  unfolding make_room
  make_room-IsValid victim a f (inl e) = ground (arith, v)
  make_room-IsValid victim a f (inr e) = ground (
    arith,
    v,
    length-delete victim b.buffered v.distinct e,
    delete-Distinct victim b.buffered v.distinct,
    delete-All (IsAhead b.next_seq) victim b.buffered v.ahead,
    find-delete p.seq_num victim b.buffered,
  )

  pub offer-IsValid : IsValid (offer b p).0
  unfolding offer
  offer-IsValid = ground (
    arith,
    v,
    make_room-IsValid
        (furthest b.next_seq b.buffered (p.seq_num, seq_delta p.seq_num b.next_seq)).0,
    furthest_found b.next_seq b.buffered p.seq_num (seq_delta p.seq_num b.next_seq),
  )

-- The buffer of every call of `push` and `pull` stays valid.
pub push-IsValid :
    (b : JitterBuffer) (p : Packet) (arrival : ℤ)
    → p.seq_num < 65536
    → IsValid b
    → IsValid (push b p arrival).0
unfolding push
push-IsValid b p arrival w v =
    let (v', init) = primed-IsValid b p arrival w v in
    offer-IsValid (primed b p arrival) p w v' init

-- When the number that is next leaves, what is buffered still waits for its turn.
IsAhead-next :
    (next : ℕ) (ps : List Packet)
    → next < 65536
    → find next ps ≡ none
    → All (IsAhead next) ps
    → All (IsAhead (next_of next)) ps
unfolding find
IsAhead-next next [] w f a = tt
IsAhead-next next (p ∷ ps) w f a = (
  (a.0.0, seq_delta_next p.seq_num next a.0.0 w a.0.1 (ground arith)),
  IsAhead-next next ps w (ground arith) a.1,
)

pub pull-IsValid : (b : JitterBuffer) (now : ℤ) → IsValid b → IsValid (pull b now).0
unfolding pull
pull-IsValid b now v = elim (Option-cases (find b.next_seq b.buffered)) [
  | inl e ↦ ground (arith, v, IsAhead-next b.next_seq b.buffered v.next_word e v.ahead)
  | inr (p, e) ↦ ground (
    arith,
    v,
    length-delete b.next_seq b.buffered v.distinct (rw e),
    delete-Distinct b.next_seq b.buffered v.distinct,
    IsAhead-next b.next_seq (delete b.next_seq b.buffered) v.next_word
        (find-delete b.next_seq b.next_seq b.buffered ∙ (ground arith))
        (delete-All (IsAhead b.next_seq) b.next_seq b.buffered v.ahead),
  )
]
