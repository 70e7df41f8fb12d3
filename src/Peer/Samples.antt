-- ===== src/Peer/Samples.antt =====
-- The samples that pkg/webrtcgw/peer.go writes to a browser.
use lang_stream.Prelude.{
  min, leb→le, take-append-drop, length-take, length-drop, All, ℕ, zero, suc, ◌-◌, ◌%◌, ◌≤◌, ◌≡◌,
  refl, sym, ap, subst, ◌∙◌, inl, inr, Bool-cases, false, List, [], ◌∷◌, ◌++◌, map, arith, leb,
  length, take,
}
use lang_stream.Peer.{drop, bytes_per_frame, frames, samples_of}
use mathlib.Core.List.{append-nil}
use lang_stream.Prelude.Bytes.{joined}
use lang_stream.Audio.{AudioChunk}
use lang_stream.Alaw.{pcm16_to_alaw}
use lang_stream.Alaw.Codec.{length-codec}

-- Behind whole samples the encoder starts afresh.
pcm16_to_alaw-append :
    (a b : List ℕ) → length a % 2 ≡ 0 → pcm16_to_alaw (a ++ b) ≡ pcm16_to_alaw a ++ pcm16_to_alaw b
unfolding pcm16_to_alaw
pcm16_to_alaw-append [] b e = refl
pcm16_to_alaw-append (x ∷ []) b e = absurd (omega arith)
pcm16_to_alaw-append (x ∷ y ∷ a) b e = rw (pcm16_to_alaw-append a b (omega arith))

nil_of_length : (xs : List ℕ) → length xs ≡ 0 → xs ≡ []
nil_of_length [] e = refl
nil_of_length (x ∷ xs) e = absurd (omega arith)

append_none : (a b : List ℕ) → b ≡ [] → pcm16_to_alaw a ++ pcm16_to_alaw b ≡ pcm16_to_alaw (a ++ b)
unfolding pcm16_to_alaw
append_none a b e =
    subst (λ c. pcm16_to_alaw a ++ pcm16_to_alaw c ≡ pcm16_to_alaw (a ++ c)) (sym e)
      (append-nil (pcm16_to_alaw a) ∙ ap pcm16_to_alaw (sym (append-nil a)))

even_of_le : (n l k : ℕ) → n % 2 ≡ 0 → l ≡ min n k → n ≤ k → l % 2 ≡ 0
even_of_le n l k even e h = ground (arith, e)

none_of_lt : (n l k : ℕ) → l ≡ k - n → leb n k ≡ false → l ≡ 0
none_of_lt n l k e h = ground arith

-- A frame and the rest of a chunk are encoded apart.
encode_split :
    (n : ℕ) (xs : List ℕ)
    → n % 2 ≡ 0
    → pcm16_to_alaw (take n xs) ++ pcm16_to_alaw (drop n xs) ≡ pcm16_to_alaw xs
encode_split n xs even = elim (Bool-cases (leb n (length xs))) [
  | inl long ↦
      sym (
        pcm16_to_alaw-append (take n xs) (drop n xs)
          (even_of_le n _ (length xs) even (length-take n xs) (leb→le n (length xs) long)))
      ∙ ap pcm16_to_alaw (take-append-drop n xs)
  | inr short ↦
      append_none (take n xs) (drop n xs)
        (nil_of_length _ (none_of_lt n _ (length xs) (length-drop n xs) short))
      ∙ ap pcm16_to_alaw (take-append-drop n xs)
]

-- The encoded pieces of a chunk, put together.
joined-frames :
    (fuel : ℕ) (pcm : List ℕ)
    → length pcm ≤ fuel
    → joined (map pcm16_to_alaw (frames fuel pcm)) ≡ pcm16_to_alaw pcm
unfolding frames pcm16_to_alaw
joined-frames fuel [] h = refl
joined-frames zero (x ∷ pcm) h = absurd (omega arith)
joined-frames (suc fuel) (x ∷ pcm) h =
    ap (◌++◌ (pcm16_to_alaw (take bytes_per_frame (x ∷ pcm)))) (
      joined-frames fuel (drop bytes_per_frame (x ∷ pcm))
        (omega (arith, length-drop {0} bytes_per_frame (x ∷ pcm))))
    ∙ encode_split bytes_per_frame (x ∷ pcm) refl

frames_short :
    (fuel : ℕ) (pcm : List ℕ) → All (λ f. length f ≤ 160) (map pcm16_to_alaw (frames fuel pcm))
unfolding frames
frames_short fuel [] = tt
frames_short zero (x ∷ pcm) = tt
frames_short (suc fuel) (x ∷ pcm) = (
  omega (
    arith,
    length-codec (take bytes_per_frame (x ∷ pcm)),
    length-take {0} bytes_per_frame (x ∷ pcm),
  ),
  frames_short fuel (drop bytes_per_frame (x ∷ pcm)),
)

-- The samples written for a chunk are the A-law bytes of its PCM, cut into pieces of at most 20 ms.
pub samples_are_encoded :
    (chunk : AudioChunk)
    → (joined (samples_of chunk) ≡ pcm16_to_alaw chunk.pcm)
      × All (λ f. length f ≤ 160) (samples_of chunk)
unfolding samples_of
samples_are_encoded chunk = (
  joined-frames (length chunk.pcm) chunk.pcm (omega arith),
  frames_short (length chunk.pcm) chunk.pcm,
)
