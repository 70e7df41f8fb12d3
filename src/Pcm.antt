-- ===== src/Pcm.antt =====
-- pkg/rtp/duplex.go: int16 samples as little-endian bytes, on the way from and to the media session.
use lang_stream.Prelude.{ℕ, ◌+◌, ◌*◌, ◌/◌, ◌%◌, ◌≡◌, List, [], ◌∷◌, refl, ap₂, arith, All}
use lang_stream.Prelude.Int.{ℤ, pos, negsuc}
use lang_stream.Prelude.Words.{word16, int16, IsInt16}

unfoldable pub int16_pcm_to_bytes : List ℤ → List ℕ
unfolding word16
int16_pcm_to_bytes [] = []
int16_pcm_to_bytes (s ∷ samples) = word16 s % 256 ∷ word16 s / 256 ∷ int16_pcm_to_bytes samples

-- A trailing odd byte is left out.
unfoldable pub pcm_bytes_to_int16 : List ℕ → List ℤ
unfolding int16
pcm_bytes_to_int16 [] = []
pcm_bytes_to_int16 (_ ∷ []) = []
pcm_bytes_to_int16 (lo ∷ hi ∷ bytes) = int16 (lo + hi * 256) ∷ pcm_bytes_to_int16 bytes

int16-word16 : (s : ℤ) → IsInt16 s → int16 (word16 s % 256 + word16 s / 256 * 256) ≡ s
unfolding int16 word16
int16-word16 (pos n) h = ground arith
int16-word16 (negsuc n) h = ground arith

-- Samples come back unchanged from their bytes.
pub pcm_bytes_to_int16-int16_pcm_to_bytes :
    (samples : List ℤ)
    → All IsInt16 samples
    → pcm_bytes_to_int16 (int16_pcm_to_bytes samples) ≡ samples
unfolding pcm_bytes_to_int16 int16_pcm_to_bytes
pcm_bytes_to_int16-int16_pcm_to_bytes [] h = refl
pcm_bytes_to_int16-int16_pcm_to_bytes (s ∷ samples) (h, hs) =
    ap₂ (λ x xs. x ∷ xs) (int16-word16 s h) (pcm_bytes_to_int16-int16_pcm_to_bytes samples hs)
