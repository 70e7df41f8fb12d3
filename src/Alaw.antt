-- ===== src/Alaw.antt =====
-- pkg/webrtcgw/alaw.go: G.711 A-law companding. Bytes are numbers below 256, an int16 is an integer
-- of `IsInt16`, and the bit operations are the native ones.
pub mod Codec
use Prim.Native.Nat.{bit_and, bit_or, bit_xor}
use lang_stream.Prelude.{
  ℕ, zero, suc, ◌+◌, ◌-◌, ◌*◌, ◌/◌, ◌%◌, ◌^◌, Bool, List, [], ◌∷◌, ltb, leb, ◌==◌, if◌then◌else◌,
}
use lang_stream.Prelude.Int.{ℤ, pos, negsuc, ◌-ℤ◌, pos_part, neg_part}
use lang_stream.Prelude.Words.{word16, int16}

-- The magnitude that the exponent and the mantissa of a byte stand for.
unfoldable pub magnitude : ℕ → ℕ → ℕ
magnitude exponent mantissa =
    if exponent == 0 then mantissa * 2 ^ 4 + 8 else (mantissa * 2 ^ 4 + 0x108) * 2 ^ (exponent - 1)

unfoldable pub alaw_decode_byte : ℕ → ℤ
unfolding magnitude ◌-ℤ◌ int16 word16
alaw_decode_byte byte =
    let alaw = bit_xor byte 0x55 in
    let sign = bit_and alaw 0x80 in
    let exponent = bit_and (alaw / 2 ^ 4) 0x07 in
    let mantissa = bit_and alaw 0x0f in
    let sample = magnitude exponent mantissa in
    int16 (word16 (if sign == 0 then pos 0 -ℤ pos sample else pos sample))

abbrev pub clip : ℕ
clip = 32635

-- The loop that looks for the highest set bit, from the given mask and exponent downwards.
unfoldable pub find_exponent : ℕ → ℕ → ℕ → ℕ
find_exponent s mask zero = 0
find_exponent s mask (suc exponent) =
    let lower = find_exponent s (mask / 2) exponent in
    if bit_and s mask == 0 then lower else suc exponent

-- The byte for a magnitude that is clipped already, and a sign bit.
unfoldable pub compress : ℕ → ℕ → ℕ
unfolding find_exponent
compress sign s =
    let exponent = if leb 256 s then find_exponent s 0x4000 7 else 0 in
    let mantissa =
      if exponent == 0
      then bit_and (s / 2 ^ 4 % 256) 0x0f
      else bit_and (s / 2 ^ (exponent + 3) % 256) 0x0f in
    bit_xor (bit_or (bit_or sign (exponent * 2 ^ 4 % 256)) mantissa) 0x55

unfoldable pub alaw_encode_sample : ℤ → ℕ
unfolding compress
alaw_encode_sample (pos n) = compress 0x80 (if ltb clip n then clip else n)
alaw_encode_sample (negsuc n) = compress 0 (if ltb clip n then clip else n)

-- `alawDecodeTable[b]` holds `alawDecodeByte(b)` for every byte, since `init` fills it.
unfoldable pub alaw_to_pcm16 : List ℕ → List ℕ
unfolding word16 alaw_decode_byte
alaw_to_pcm16 [] = []
alaw_to_pcm16 (b ∷ alaw) =
    let s = word16 (alaw_decode_byte b) in s % 256 ∷ (s / 256 % 256) ∷ alaw_to_pcm16 alaw

-- A trailing odd byte is ignored.
unfoldable pub pcm16_to_alaw : List ℕ → List ℕ
unfolding int16 alaw_encode_sample
pcm16_to_alaw [] = []
pcm16_to_alaw (_ ∷ []) = []
pcm16_to_alaw (lo ∷ hi ∷ pcm) =
    alaw_encode_sample (int16 (bit_or lo (hi * 2 ^ 8 % 65536))) ∷ pcm16_to_alaw pcm
