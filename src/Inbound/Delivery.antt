-- ===== src/Inbound/Delivery.antt =====
-- What the inbound buffer of pkg/webrtcgw/inbound_buffer.go hands on.
use mathlib.Core.List.{append_assoc, append-nil}
use lang_stream.Prelude.{
  ℕ, ◌≤◌, ◌<◌, ◌≡◌, ◌⊎◌, inl, inr, refl, sym, ap, ◌∙◌, List, [], ◌∷◌, ◌++◌, leb, length, All, arith,
  Bool-cases,
}
use lang_stream.Prelude.Bytes.{joined, joined-append, All-append}
use lang_stream.Inbound.{InboundBuffer, flush, add, add_all}

-- Whole payloads, none of them empty.
abbrev pub IsFull : ℕ → List ℕ → Type 0
IsFull target pcm = (target ≤ length pcm) × (0 < length pcm)

-- The bytes before and after, the payloads handed on, and what stays.
pub record Moved (before : List ℕ) (size : ℕ) (out : InboundBuffer × List (List ℕ)) : Type 0 where
  pub bytes : joined out.1 ++ out.0.buffered ≡ before
  pub full : All (IsFull size) out.1
  pub short : (length out.0.buffered < size) ⊎ (out.0.buffered ≡ [])
  pub target : out.0.target_bytes ≡ size

flush-Moved :
    (b : InboundBuffer) (xs : List ℕ)
    → b.buffered ≡ xs
    → b.target_bytes ≤ length xs
    → Moved xs b.target_bytes (flush b)
unfolding flush
flush-Moved b [] e h = record {
  bytes = rw (e, flush) e;
  full = rw (e, flush) tt;
  short = rw (e, flush) (inr e);
  target = rw (e, flush) refl;
}
flush-Moved b (x ∷ xs) e h = record {
  bytes = rw (e, flush) (append-nil _ ∙ append-nil _);
  full = rw (e, flush) ((h, omega arith), tt);
  short = rw (e, flush) (inr refl);
  target = rw (e, flush) refl;
}

pub add-Moved :
    (b : InboundBuffer) (pcm : List ℕ) → Moved (b.buffered ++ pcm) b.target_bytes (add b pcm)
unfolding add
add-Moved b pcm = elim (Bool-cases (leb b.target_bytes (length (b.buffered ++ pcm)))) [
  | inl e ↦ rw e (flush-Moved (record b { buffered = b.buffered ++ pcm }) _ refl (ground arith))
  | inr e ↦ rw e (record { bytes = refl; full = tt; short = ground arith; target = refl })
]

-- After any packets: the payloads handed to the callback and the bytes still held are, in order, the
-- bytes held before and those of the packets; each payload has at least the target size and is not
-- empty; and the bytes still held are fewer than the target size, or none.
pub add_all_delivers :
    (b : InboundBuffer) (pcms : List (List ℕ))
    → (length b.buffered < b.target_bytes) ⊎ (b.buffered ≡ [])
    → let out = add_all b pcms in
      (joined out.1 ++ out.0.buffered ≡ b.buffered ++ joined pcms)
      × All (IsFull b.target_bytes) out.1
      × ((length out.0.buffered < b.target_bytes) ⊎ (out.0.buffered ≡ []))
unfolding add_all
add_all_delivers b [] s = (sym (append-nil _), tt, s)
add_all_delivers b (pcm ∷ pcms) s =
    let first = add-Moved b pcm in
    let rest = add_all_delivers (add b pcm).0 pcms (rw first.target first.short) in
    (
      ap (λ xs. xs ++ (add_all (add b pcm).0 pcms).0.buffered)
            (joined-append (add b pcm).1 (add_all (add b pcm).0 pcms).1)
          ∙ append_assoc (joined (add b pcm).1) _ _
          ∙ ap (◌++◌ (joined (add b pcm).1)) rest.0
          ∙ sym (append_assoc (joined (add b pcm).1) _ _)
          ∙ ap (λ xs. xs ++ joined pcms) first.bytes
          ∙ append_assoc b.buffered pcm (joined pcms),
      All-append (IsFull b.target_bytes) (add b pcm).1 _ first.full (rw first.target at rest.1),
      rw first.target at rest.2,
    )

-- A final `flush` hands on whatever is held, so that nothing pushed in is lost.
pub flush_delivers :
    (b : InboundBuffer) → (joined (flush b).1 ≡ b.buffered) × ((flush b).0.buffered ≡ [])
unfolding flush
flush_delivers b = go b.buffered refl
  where
    go :
        (xs : List ℕ)
        → b.buffered ≡ xs
        → (joined (flush b).1 ≡ b.buffered) × ((flush b).0.buffered ≡ [])
    go [] e = rw (e, flush) (refl, e)
    go (x ∷ xs) e = rw (e, flush) (append-nil _, refl)
