-- ===== src/Sarvam/Wav.antt =====
-- The WAV files of pkg/asr/sarvam.go, read back by a reader of the format's chunks.
use lang_stream.Prelude.{
  ℕ, ◌+◌, ◌*◌, ◌/◌, ◌%◌, ◌^◌, ◌<◌, ◌≡◌, refl, ap, ◌∙◌, Bool, true, false, ◌&&◌, Option, none, some,
  List, [], ◌∷◌, ◌++◌, arith, ◌==◌, if◌then◌else◌, length, ==_iff,
}
use lang_stream.Prelude.Int.{pos}
use lang_stream.Sarvam
use lang_stream.Sarvam.{
  word32, le16, le32, num_channels, bits_per_sample, riff_tag, wave_tag, fmt_tag, data_tag,
  pcm16_mono_to_wav,
}

-- What a WAV file says: the audio format, how its samples are laid out, and the samples' bytes.
pub record WavFile : Type 0 where
  pub audio_format : ℕ
  pub channels : ℕ
  pub sample_rate : ℕ
  pub byte_rate : ℕ
  pub block_align : ℕ
  pub bits : ℕ
  pub pcm : List ℕ

abbrev same_bytes : List ℕ → List ℕ → Bool
same_bytes [] [] = true
same_bytes (a ∷ xs) (b ∷ ys) = a == b && same_bytes xs ys
same_bytes _ _ = false

abbrev u16 : ℕ → ℕ → ℕ
u16 a b = a + b * 256

abbrev u32 : ℕ → ℕ → ℕ → ℕ → ℕ
u32 a b c d = a + b * 2 ^ 8 + c * 2 ^ 16 + d * 2 ^ 24

-- The chunk "data": its size must be that of the bytes behind it.
read_data : List ℕ → Option (List ℕ)
read_data (a ∷ b ∷ c ∷ d ∷ w ∷ x ∷ y ∷ z ∷ pcm) =
    if same_bytes (a ∷ b ∷ c ∷ d ∷ []) data_tag && u32 w x y z == length pcm then some pcm else none
read_data _ = none

-- The chunk "fmt ", of size 16, and what follows it.
read_fmt : List ℕ → Option WavFile
read_fmt
      (a ∷ b ∷ c ∷ d ∷ w ∷ x ∷ y ∷ z ∷ f ∷ f' ∷ ch ∷ ch' ∷ r ∷ r' ∷ r'' ∷ r''' ∷ q ∷ q' ∷ q'' ∷ q'''
        ∷ al ∷ al' ∷ bi ∷ bi' ∷ rest) =
    if same_bytes (a ∷ b ∷ c ∷ d ∷ []) fmt_tag && u32 w x y z == 16
    then elim (read_data rest) [
      | none ↦ none
      | some pcm ↦ some (record {
        audio_format = u16 f f';
        channels = u16 ch ch';
        sample_rate = u32 r r' r'' r''';
        byte_rate = u32 q q' q'' q''';
        block_align = u16 al al';
        bits = u16 bi bi';
        pcm = pcm;
      })
    ]
    else none
read_fmt _ = none

-- A RIFF file of the form "WAVE": the size in its header must be that of what follows.
pub read_wav : List ℕ → Option WavFile
read_wav (a ∷ b ∷ c ∷ d ∷ w ∷ x ∷ y ∷ z ∷ e ∷ f ∷ g ∷ h ∷ rest) =
    if same_bytes (a ∷ b ∷ c ∷ d ∷ []) riff_tag
      && (u32 w x y z == 4 + length rest && same_bytes (e ∷ f ∷ g ∷ h ∷ []) wave_tag)
    then read_fmt rest
    else none
read_wav _ = none

u32-le32 :
    (v : ℕ) → v < 2 ^ 32 → u32 (v % 256) (v / 2 ^ 8 % 256) (v / 2 ^ 16 % 256) (v / 2 ^ 24 % 256) ≡ v
u32-le32 v h = omega arith

word32-small : (n : ℕ) → n < 2 ^ 32 → word32 (pos n) ≡ n
unfolding word32
word32-small n h = omega arith

u32-word32 :
    (n : ℕ)
    → n < 2 ^ 32
    → let v = word32 (pos n) in
      u32 (v % 256) (v / 2 ^ 8 % 256) (v / 2 ^ 16 % 256) (v / 2 ^ 24 % 256) ≡ n
u32-word32 n h = u32-le32 (word32 (pos n)) (omega (arith, word32-small n h)) ∙ word32-small n h

abbrev pub wav_of : List ℕ → ℕ → WavFile
wav_of pcm rate = record {
  audio_format = 1;
  channels = 1;
  sample_rate = rate;
  byte_rate = rate * 2;
  block_align = 2;
  bits = 16;
  pcm = pcm;
}

read_data_lem :
    (pcm : List ℕ)
    → length pcm < 2 ^ 32
    → read_data (data_tag ++ (le32 (word32 (pos (length pcm))) ++ pcm)) ≡ some pcm
unfolding read_data le32
read_data_lem pcm h = rw (u32-word32 (length pcm) h, (==_iff (length pcm) (length pcm)).1 refl)

byte_rate_lem : (rate : ℕ) → Sarvam.byte_rate (pos rate) ≡ pos (rate * 2)
unfolding Sarvam.byte_rate
byte_rate_lem rate = ap pos (omega arith)

read_fmt_lem :
    (pcm : List ℕ) (rate : ℕ)
    → length pcm < 2 ^ 32
    → rate < 2 ^ 31
    → read_fmt (
        fmt_tag
        ++ (le32 16
            ++ (le16 1
                ++ (le16 num_channels
                    ++ (le32 (word32 (pos rate))
                        ++ (le32 (word32 (Sarvam.byte_rate (pos rate)))
                            ++ (le16 (num_channels * bits_per_sample / 8)
                                ++ (le16 bits_per_sample
                                    ++ (data_tag
                                        ++ (le32 (word32 (pos (length pcm))) ++ pcm))))))))))
      ≡ some (wav_of pcm rate)
unfolding read_fmt le32 le16
read_fmt_lem pcm rate h k =
    let bytes = read_data_lem pcm h in
    rw (
      bytes,
      byte_rate_lem rate,
      u32-word32 rate (omega arith),
      u32-word32 (rate * 2) (omega arith),
    )

read_wav_lem :
    (n : ℕ) (rest : List ℕ)
    → n < 2 ^ 32
    → n ≡ 4 + length rest
    → read_wav (riff_tag ++ (le32 (word32 (pos n)) ++ (wave_tag ++ rest))) ≡ read_fmt rest
unfolding read_wav le32
read_wav_lem n rest h e = rw (u32-word32 n h, (==_iff n (4 + length rest)).1 e)

-- A reader of WAV files finds in the file for a frame exactly its PCM bytes, as one channel of 16-bit
-- samples at the frame's rate, with a byte rate and a block size that fit these and chunk sizes that
-- are those of the bytes behind them, when the sizes fit 32 bits.
pub read_wav-pcm16_mono_to_wav :
    (pcm : List ℕ) (rate : ℕ)
    → 36 + length pcm < 2 ^ 32
    → rate < 2 ^ 31
    → read_wav (pcm16_mono_to_wav pcm (pos rate)) ≡ some (wav_of pcm rate)
unfolding pcm16_mono_to_wav le32 le16
read_wav-pcm16_mono_to_wav pcm rate h k =
    read_wav_lem (36 + length pcm) _ h (omega arith) ∙ read_fmt_lem pcm rate (omega arith) k
