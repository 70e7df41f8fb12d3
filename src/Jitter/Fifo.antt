-- ===== src/Jitter/Fifo.antt =====
-- The jitter buffer of pkg/rtp/jitter.go as a queue: fed with consecutive numbers and never full, it
-- gives back what it was given, in order.
use lang_stream.Prelude.{
  ℕ, zero, suc, ◌+◌, ◌%◌, ◌≤◌, ◌<◌, ◌≡◌, refl, sym, ap, ◌∙◌, true, false, none, some, List, [], ◌∷◌,
  ◌++◌, arith, length, length-append, get_elem?, ltb, ◌==◌, if◌then◌else◌, Bool-cases, inl, inr,
  ap₂, ==_iff,
}
use lang_stream.Prelude.Int.{ℤ, pos, ◌≤ℤ◌}
use lang_stream.Jitter.{
  JitterBuffer, Packet, pull_ok, find, delete, seq_delta, offer, primed, push, pull, next_of,
}
use lang_stream.Jitter.Seq.{seq_delta_after}
use lang_stream.Jitter.Buffered.{Distinct, find-delete, delete-Distinct, length-delete}

-- The buffer holds exactly the packets of the queue, under consecutive numbers from the next one on.
pub record Holds (b : JitterBuffer) (q : List Packet) : Type 0 where
  pub next_word : b.next_seq < 65536
  pub found : (i : ℕ) → i < 65536 → find ((b.next_seq + i) % 65536) b.buffered ≡ get_elem? q i
  pub distinct : Distinct b.buffered
  pub size : length b.buffered ≡ length q
  pub short : length q ≤ 32768
  pub unprimed : b.initialized ≡ false → b.buffered ≡ []

get_elem?-length : (q : List Packet) (i : ℕ) → length q ≤ i → get_elem? q i ≡ none
get_elem?-length [] i h = refl
get_elem?-length (x ∷ q) zero h = absurd (omega arith)
get_elem?-length (x ∷ q) (suc i) h = get_elem?-length q i (omega arith)

get_elem?-snoc :
    (q : List Packet) (p : Packet) (i : ℕ)
    → get_elem? (q ++ p ∷ []) i ≡ (if i == length q then some p else get_elem? q i)
get_elem?-snoc [] p zero = refl
get_elem?-snoc [] p (suc i) = ground arith
get_elem?-snoc (x ∷ q) p zero = ground arith
get_elem?-snoc (x ∷ q) p (suc i) = ground (arith, get_elem?-snoc q p i)

-- What `offer` does to a packet that comes next.
offer_next :
    (b : JitterBuffer) (q : List Packet) (p : Packet)
    → Holds b q
    → length q < 32768
    → pos (suc (length q)) ≤ℤ b.cfg.max_packets_buffered
    → p.seq_num ≡ (b.next_seq + length q) % 65536
    → ((offer b p).0.buffered ≡ p ∷ b.buffered)
      × ((offer b p).0.next_seq ≡ b.next_seq)
      × ((offer b p).0.initialized ≡ b.initialized)
      × ((offer b p).0.cfg ≡ b.cfg)
unfolding offer
offer_next b q p h short room at =
    let d : seq_delta p.seq_num b.next_seq ≡ pos (length q) =
      rw at ((seq_delta_after b.next_seq (length q) h.next_word (omega arith)).0 short) in
    let f : find p.seq_num b.buffered ≡ none =
      rw at (h.found (length q) (omega arith) ∙ get_elem?-length q (length q) (omega arith)) in
    ground (arith, d, f, h.size)

same_offset :
    (n i k : ℕ)
    → n < 65536
    → i < 65536
    → k < 65536
    → ((n + k) % 65536 == (n + i) % 65536) ≡ (i == k)
same_offset n i k hn hi hk = ground arith

primed_next :
    (b : JitterBuffer) (q : List Packet) (p : Packet) (arrival : ℤ)
    → Holds b q
    → p.seq_num ≡ (b.next_seq + length q) % 65536
    → ((primed b p arrival).next_seq ≡ b.next_seq)
      × ((primed b p arrival).buffered ≡ b.buffered)
      × ((primed b p arrival).initialized ≡ true)
      × ((primed b p arrival).cfg ≡ b.cfg)
unfolding primed
primed_next b q p arrival h at = elim (Bool-cases b.initialized) [
  | inl e ↦ ground arith
  | inr e ↦
      let none_yet : length q ≡ 0 = sym h.size ∙ ap length (h.unprimed e) in
      ground (arith, none_yet)
]

primed-Holds :
    (b : JitterBuffer) (q : List Packet) (p : Packet) (arrival : ℤ)
    → Holds b q
    → p.seq_num ≡ (b.next_seq + length q) % 65536
    → Holds (primed b p arrival) q
primed-Holds b q p arrival h at =
    let s = primed_next b q p arrival h at in
    record {
      next_word = rw s.0 h.next_word;
      found = λ i hi. rw (s.0, s.1) (h.found i hi);
      distinct = rw s.1 h.distinct;
      size = rw s.1 h.size;
      short = h.short;
      unprimed = λ e. cc;
    }

fresh_next :
    (b : JitterBuffer) (q : List Packet) (p : Packet) (stored : List Packet)
    → Holds b q
    → length q < 65536
    → p.seq_num ≡ (b.next_seq + length q) % 65536
    → stored ≡ b.buffered
    → find p.seq_num stored ≡ none
fresh_next b q p stored h short at e =
    ap₂ find at e ∙ h.found (length q) short ∙ get_elem?-length q (length q) (omega arith)

find_stored :
    (b : JitterBuffer) (q : List Packet) (p : Packet) (stored : List Packet)
    → Holds b q
    → length q < 65536
    → p.seq_num ≡ (b.next_seq + length q) % 65536
    → stored ≡ b.buffered
    → (i : ℕ) → i < 65536
    → find ((b.next_seq + i) % 65536) (p ∷ stored) ≡ get_elem? (q ++ p ∷ []) i
unfolding find
find_stored b q p stored h short at e i hi = ground (
  arith,
  get_elem?-snoc q p i,
  same_offset b.next_seq i (length q) h.next_word hi short,
  h.found i hi,
)

pub push-Holds :
    (b : JitterBuffer) (q : List Packet) (p : Packet) (arrival : ℤ)
    → Holds b q
    → length q < 32768
    → pos (suc (length q)) ≤ℤ b.cfg.max_packets_buffered
    → p.seq_num ≡ (b.next_seq + length q) % 65536
    → Holds (push b p arrival).0 (q ++ p ∷ [])
      × ((push b p arrival).0.next_seq ≡ b.next_seq)
      × ((push b p arrival).0.initialized ≡ true)
      × ((push b p arrival).0.cfg ≡ b.cfg)
unfolding push
push-Holds b q p arrival h short room at =
    let s = primed_next b q p arrival h at in
    let h' = primed-Holds b q p arrival h at in
    let o = offer_next (primed b p arrival) q p h' short (rw s.3 room) (rw s.0 at) in
    (
      record {
        next_word = rw o.1 h'.next_word;
        found = λ i hi. rw (o.0, o.1, s.0) (find_stored b q p _ h (omega arith) at s.1 i hi);
        distinct = rw o.0 (fresh_next b q p _ h (omega arith) at s.1, rw s.1 h.distinct);
        size = rw o.0 (omega (arith, h'.size, length-append q (p ∷ [])));
        short = omega (arith, length-append q (p ∷ []));
        unprimed = λ e. cc;
      },
      o.1 ∙ s.0,
      o.2 ∙ s.2,
      o.3 ∙ s.3,
    )

abbrev pub popped : JitterBuffer → JitterBuffer
popped b = record b { buffered = delete b.next_seq b.buffered; next_seq = next_of b.next_seq }

find_popped :
    (b : JitterBuffer) (p : Packet) (q : List Packet)
    → Holds b (p ∷ q)
    → (i : ℕ) → i < 65536
    → find ((next_of b.next_seq + i) % 65536) (delete b.next_seq b.buffered) ≡ get_elem? q i
find_popped b p q h i hi = elim (Bool-cases (ltb i 65535)) [
  | inl e ↦
      let at : (next_of b.next_seq + i) % 65536 ≡ (b.next_seq + suc i) % 65536 = omega arith in
      let other : (b.next_seq == (b.next_seq + suc i) % 65536) ≡ false =
        ground (arith, h.next_word) in
      rw (at, find-delete ((b.next_seq + suc i) % 65536) b.next_seq b.buffered, other)
        (h.found (suc i) (ground arith))
  | inr e ↦
      let at : (next_of b.next_seq + i) % 65536 ≡ b.next_seq = ground (arith, h.next_word) in
      rw (at, find-delete b.next_seq b.next_seq b.buffered, (==_iff b.next_seq b.next_seq).1 refl)
        (sym (get_elem?-length q i (ground (arith, h.short))))
]

pull_first :
    (b : JitterBuffer) (p : Packet) (now : ℤ)
    → b.initialized ≡ true
    → find b.next_seq b.buffered ≡ some p
    → pull b now ≡ (popped b, some p, pull_ok)
unfolding pull
pull_first b p now i f = ground arith

length_popped :
    (s : ℕ) (ps : List Packet) (p : Packet) (n : ℕ)
    → Distinct ps
    → find s ps ≡ some p
    → length ps ≡ suc n
    → length (delete s ps) ≡ n
length_popped s ps p n d f e = omega (arith, length-delete s ps d (rw f))

-- A buffer that holds a queue gives back the queue's first packet at any time, and then holds the
-- rest.
pub pull-Holds :
    (b : JitterBuffer) (p : Packet) (q : List Packet) (now : ℤ)
    → Holds b (p ∷ q)
    → b.initialized ≡ true
    → (pull b now ≡ (popped b, some p, pull_ok)) × Holds (popped b) q
pull-Holds b p q now h init =
    let here : (b.next_seq + 0) % 65536 ≡ b.next_seq = omega (arith, h.next_word) in
    let first : find b.next_seq b.buffered ≡ some p =
      ap (λ s. find s b.buffered) (sym here) ∙ h.found 0 (omega arith) in
    (
      pull_first b p now init first,
      record {
        next_word = omega arith;
        found = find_popped b p q h;
        distinct = delete-Distinct b.next_seq b.buffered h.distinct;
        size = length_popped b.next_seq b.buffered p (length q) h.distinct first h.size;
        short = omega (arith, h.short);
        unprimed = λ e. cc;
      },
    )
