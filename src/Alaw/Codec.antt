-- ===== src/Alaw/Codec.antt =====
-- Round trips and error bounds of the A-law codec of pkg/webrtcgw/alaw.go. The finite tables are
-- checked by evaluation at every byte and every int16.
use Prim.Native.Nat.{bit_or}
use lang_stream.Prelude.{
  ℕ, ◌+◌, ◌*◌, ◌/◌, ◌%◌, ◌^◌, ◌≤◌, ◌<◌, ◌≡◌, refl, ap₂, length, eqb, Bool, true, ◌&&◌, List, [],
  ◌∷◌, leb, ◌==◌, ==_iff, &&_parts, All, arith,
}
use lang_stream.Prelude.Int.{ℤ, pos, negsuc, pos_part, neg_part, ◌-ℤ◌, ltb_ℤ}
use lang_stream.Prelude.Words.{word16, int16, IsInt16}
use lang_stream.Prelude.Tables.{table, table_entry}
use lang_stream.Alaw.{alaw_decode_byte, alaw_encode_sample, alaw_to_pcm16, pcm16_to_alaw, compress}

encode-decode_table : table 256 (λ b. alaw_encode_sample (alaw_decode_byte b) == b) ≡ true
unfolding table alaw_encode_sample alaw_decode_byte
encode-decode_table = refl

-- Every byte comes back from its decoded sample.
pub encode-decode : (b : ℕ) → b < 256 → alaw_encode_sample (alaw_decode_byte b) ≡ b
encode-decode b h = (==_iff _ b).0 (table_entry _ 256 b encode-decode_table h)

-- The sample of a byte as `alawToPCM16` stores it and `pcm16ToALaw` reads it back.
stored_table :
    table 256 (λ b.
      let w = word16 (alaw_decode_byte b) in
      alaw_encode_sample (int16 (bit_or (w % 256) (w / 256 % 256 * 2 ^ 8 % 65536))) == b)
    ≡ true
unfolding table alaw_encode_sample alaw_decode_byte
stored_table = refl

-- A payload of A-law bytes survives the way to linear PCM and back unchanged.
pub pcm16_to_alaw-alaw_to_pcm16 :
    (alaw : List ℕ) → All (λ b. b < 256) alaw → pcm16_to_alaw (alaw_to_pcm16 alaw) ≡ alaw
unfolding pcm16_to_alaw alaw_to_pcm16
pcm16_to_alaw-alaw_to_pcm16 [] h = refl
pcm16_to_alaw-alaw_to_pcm16 (b ∷ alaw) h =
    ap₂ ◌∷◌ ((==_iff _ b).0 (table_entry _ 256 b stored_table h.0))
      (pcm16_to_alaw-alaw_to_pcm16 alaw h.1)

-- Linear PCM of n or n + 1 bytes, n even, becomes n / 2 bytes, and each byte becomes two.
pub length-codec :
    (bytes : List ℕ)
    → (length (alaw_to_pcm16 bytes) ≡ 2 * length bytes)
      × (length (pcm16_to_alaw bytes) ≡ length bytes / 2)
unfolding pcm16_to_alaw alaw_to_pcm16
length-codec [] = (refl, refl)
length-codec (b ∷ []) = (refl, refl)
length-codec (b ∷ c ∷ bytes) = omega (arith, length-codec bytes, length-codec (c ∷ bytes))

abbrev pub magnitude_of : ℤ → ℕ
magnitude_of z = pos_part z + neg_part z

-- The distance of two integers.
unfoldable pub distance : ℤ → ℤ → ℕ
unfolding ◌-ℤ◌
distance a b = magnitude_of (a -ℤ b)

-- What an encoder and a decoder may do to a sample: keep its sign, and miss it by a thirty-second
-- of its magnitude and 8.
abbrev keeps : ℤ → ℤ → Bool
keeps s d =
    leb (32 * distance d s) (magnitude_of s + 256) && eqb (ltb_ℤ d (pos 0)) (ltb_ℤ s (pos 0))

abbrev transcoded : ℤ → ℤ
transcoded s = alaw_decode_byte (alaw_encode_sample s)

pos_table : table 32768 (λ n. keeps (pos n) (transcoded (pos n))) ≡ true
unfolding table alaw_encode_sample alaw_decode_byte distance
pos_table = refl

negsuc_table : table 32768 (λ n. keeps (negsuc n) (transcoded (negsuc n))) ≡ true
unfolding table alaw_encode_sample alaw_decode_byte distance
negsuc_table = refl

keeps_lem :
    (s d : ℤ)
    → keeps s d ≡ true
    → (32 * distance d s ≤ magnitude_of s + 256) × (ltb_ℤ d (pos 0) ≡ ltb_ℤ s (pos 0))
keeps_lem s d h = ground arith

-- For every int16 sample, the sample that comes out of encoding and decoding is negative exactly
-- when the sample is, and misses it by at most its magnitude / 32 + 8.
pub decode-encode_bounds :
    (s : ℤ)
    → IsInt16 s
    → (32 * distance (alaw_decode_byte (alaw_encode_sample s)) s ≤ magnitude_of s + 256)
      × (ltb_ℤ (alaw_decode_byte (alaw_encode_sample s)) (pos 0) ≡ ltb_ℤ s (pos 0))
decode-encode_bounds (pos n) h =
    keeps_lem (pos n) (transcoded (pos n)) (table_entry _ 32768 n pos_table h.0)
decode-encode_bounds (negsuc n) h =
    keeps_lem (negsuc n) (transcoded (negsuc n)) (table_entry _ 32768 n negsuc_table (omega arith))

clip_table :
    table 32768 (λ n.
      (alaw_encode_sample (pos n) == compress 0x80 n)
      && (alaw_encode_sample (negsuc n) == compress 0 n))
    ≡ true
unfolding table alaw_encode_sample
clip_table = refl

-- Clipping the magnitude at 32635 changes the byte of no int16 sample: the encoder is the
-- compression of the sign and of the magnitude as it stands.
pub clip_changes_nothing :
    (n : ℕ)
    → n < 32768
    → (alaw_encode_sample (pos n) ≡ compress 0x80 n)
      × (alaw_encode_sample (negsuc n) ≡ compress 0 n)
clip_changes_nothing n h =
    let both = &&_parts _ _ (table_entry _ 32768 n clip_table h) in
    ((==_iff _ (compress 0x80 n)).0 both.0, (==_iff _ (compress 0 n)).0 both.1)
