-- ===== src/Jitter/Buffered.antt =====
-- Lemmas on the map of buffered packets in pkg/rtp/jitter.go, a list of packets.
use lang_stream.Prelude.{
  ℕ, suc, ◌≡◌, ◌⊎◌, inl, inr, refl, true, none, some, List, [], ◌∷◌, arith, ◌==◌, if◌then◌else◌,
  length, All, Bool-cases,
}
use lang_stream.Prelude.Int.{ℤ, ◌≤ℤ◌, ltb_ℤ}
use lang_stream.Jitter.{Packet, find, is_some, delete, furthest, seq_delta}

-- No two packets have one sequence number.
abbrev pub Distinct : List Packet → Type 0
Distinct [] = Unit
Distinct (p ∷ ps) = (find p.seq_num ps ≡ none) × Distinct ps

pub find-seq_num : (s : ℕ) (ps : List Packet) (p : Packet) → find s ps ≡ some p → p.seq_num ≡ s
unfolding find
find-seq_num s [] p h = cc
find-seq_num s (q ∷ ps) p h = ground (arith, find-seq_num s ps p)

pub find-delete :
    (j s : ℕ) (ps : List Packet) → find j (delete s ps) ≡ (if s == j then none else find j ps)
unfolding find delete
find-delete j s [] = ground arith
find-delete j s (p ∷ ps) = ground (arith, find-delete j s ps)

pub delete-Distinct : (s : ℕ) (ps : List Packet) → Distinct ps → Distinct (delete s ps)
unfolding delete
delete-Distinct s [] d = tt
delete-Distinct s (p ∷ ps) d = ground (arith, delete-Distinct s ps d.1, find-delete p.seq_num s ps)

pub delete-All {κ} :
    (P : Packet → Type κ) (s : ℕ) (ps : List Packet) → All P ps → All P (delete s ps)
unfolding delete
delete-All P s [] a = tt
delete-All P s (p ∷ ps) a = elim (Bool-cases (p.seq_num == s)) [
  | inl e ↦ rw e (delete-All P s ps a.1)
  | inr e ↦ rw e (a.0, delete-All P s ps a.1)
]

pub delete_absent : (s : ℕ) (ps : List Packet) → find s ps ≡ none → delete s ps ≡ ps
unfolding find delete
delete_absent s [] h = refl
delete_absent s (p ∷ ps) h = ground (arith, delete_absent s ps)

pub length-delete :
    (s : ℕ) (ps : List Packet)
    → Distinct ps
    → is_some (find s ps) ≡ true
    → suc (length (delete s ps)) ≡ length ps
unfolding find delete
length-delete s [] d h = cc
length-delete s (p ∷ ps) d h = ground (arith, length-delete s ps d.1, delete_absent s ps)

-- The loop ends at the packet it began with or at a buffered one.
pub furthest_found :
    (next : ℕ) (ps : List Packet) (seq : ℕ) (dist : ℤ)
    → ((furthest next ps (seq, dist)).0 ≡ seq)
      ⊎ (is_some (find (furthest next ps (seq, dist)).0 ps) ≡ true)
unfolding furthest find
furthest_found next [] seq dist = inl refl
furthest_found next (p ∷ ps) seq dist = ground (
  arith,
  furthest_found next ps seq dist,
  furthest_found next ps p.seq_num (seq_delta p.seq_num next),
)

-- It ends at the distance of that packet, when it starts so.
pub furthest_dist :
    (next : ℕ) (ps : List Packet) (seq : ℕ) (dist : ℤ)
    → seq_delta seq next ≡ dist
    → seq_delta (furthest next ps (seq, dist)).0 next ≡ (furthest next ps (seq, dist)).1
unfolding furthest
furthest_dist next [] seq dist h = h
furthest_dist next (p ∷ ps) seq dist h = ground (
  arith,
  furthest_dist next ps seq dist,
  furthest_dist next ps p.seq_num (seq_delta p.seq_num next) refl,
)

pub furthest_mono :
    (next : ℕ) (ps : List Packet) (seq : ℕ) (dist : ℤ) → dist ≤ℤ (furthest next ps (seq, dist)).1
unfolding furthest
furthest_mono next [] seq dist = omega arith
furthest_mono next (p ∷ ps) seq dist = ground (
  arith,
  furthest_mono next ps seq dist,
  furthest_mono next ps p.seq_num (seq_delta p.seq_num next),
)

-- No buffered packet is further than the one that the loop ends at.
pub furthest_max :
    (next : ℕ) (ps : List Packet) (seq : ℕ) (dist : ℤ)
    → All (λ p. seq_delta p.seq_num next ≤ℤ (furthest next ps (seq, dist)).1) ps
unfolding furthest
furthest_max next [] seq dist = tt
furthest_max next (p ∷ ps) seq dist = elim (Bool-cases (ltb_ℤ dist (seq_delta p.seq_num next))) [
  | inl e ↦ rw (e, furthest) (furthest_mono next ps _ _, furthest_max next ps _ _)
  | inr e ↦
      rw (e, furthest) (ground (arith, furthest_mono next ps seq dist), furthest_max next ps _ _)
]
