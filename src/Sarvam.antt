-- ===== src/Sarvam.antt =====
-- pkg/asr/sarvam.go: the WAV files that audio is sent as, and the vendor's messages. The decoder of JSON
-- is left to the environment: a message is what it decodes to, or `none`. Base64 is left out. The
-- connection's life is that of Recognizer.
pub mod Wav
pub mod Stamps
use lang_stream.Prelude.{
  ℕ, zero, suc, ◌+◌, ◌-◌, ◌*◌, ◌/◌, ◌%◌, ◌^◌, ◌≤◌, ◌<◌, ◌≡◌, refl, sym, ap, ap₂, subst, ◌∙◌, ◌≢◌,
  ◌↔◌, ◌⊎◌, inl, inr, Bool, Bool-cases, Option-cases, true, false, not, ◌&&◌, ◌||◌, Option, none,
  some, List, [], ◌∷◌, ◌++◌, map, arith, ltb, leb, ◌==◌, if◌then◌else◌, if_cases, length, take,
  ==_iff,
}
use Prim.Native.String.{String}
use text.Mathlib.Text.{◌==◌ as str_eq}
use lang_stream.Prelude.Int.{ℤ, pos, negsuc, ltb_ℤ, ◌+ℤ◌}
use lang_stream.Floats.{Floats}
use lang_stream.Audio.{AudioFrame, Transcript}

-- The low 32 bits of an integer in two's complement: uint32(v).
unfoldable pub word32 : ℤ → ℕ
word32 (pos n) = n % 2 ^ 32
word32 (negsuc n) = 2 ^ 32 - 1 - n % 2 ^ 32

unfoldable pub le16 : ℕ → List ℕ
le16 v = v % 256 ∷ v / 256 % 256 ∷ []

unfoldable pub le32 : ℕ → List ℕ
le32 v = v % 256 ∷ v / 2 ^ 8 % 256 ∷ v / 2 ^ 16 % 256 ∷ v / 2 ^ 24 % 256 ∷ []

abbrev pub num_channels : ℕ
num_channels = 1

abbrev pub bits_per_sample : ℕ
bits_per_sample = 16

-- sampleRate * numChannels * bitsPerSample / 8; `/` drops the fraction towards 0.
unfoldable pub byte_rate : ℤ → ℤ
byte_rate (pos n) = pos (n * num_channels * bits_per_sample / 8)
byte_rate (negsuc n) = negsuc (suc n * num_channels * bits_per_sample / 8 - 1)

-- The header's texts are their bytes.
abbrev pub riff_tag : List ℕ
riff_tag = 82 ∷ 73 ∷ 70 ∷ 70 ∷ []

abbrev pub wave_tag : List ℕ
wave_tag = 87 ∷ 65 ∷ 86 ∷ 69 ∷ []

abbrev pub fmt_tag : List ℕ
fmt_tag = 102 ∷ 109 ∷ 116 ∷ 32 ∷ []

abbrev pub data_tag : List ℕ
data_tag = 100 ∷ 97 ∷ 116 ∷ 97 ∷ []

unfoldable pub pcm16_mono_to_wav : List ℕ → (sample_rate : ℤ) → List ℕ
unfolding le16 le32 byte_rate word32
pcm16_mono_to_wav pcm sample_rate =
    riff_tag
    ++ (le32 (word32 (pos (36 + length pcm)))
        ++ (wave_tag
            ++ (fmt_tag
                ++ (le32 16
                    ++ (le16 1
                        ++ (le16 num_channels
                            ++ (le32 (word32 sample_rate)
                                ++ (le32 (word32 (byte_rate sample_rate))
                                    ++ (le16 (num_channels * bits_per_sample / 8)
                                        ++ (le16 bits_per_sample
                                            ++ (data_tag
                                                ++ (le32 (word32 (pos (length pcm)))
                                                    ++ pcm))))))))))))

-- How long the frame of a push is, in milliseconds, rounded down.
unfoldable pub frame_ms : AudioFrame → ℤ
frame_ms f = elim f.sample_rate [
  | pos (suc rate) ↦ pos (length f.pcm / 2 * 1000 / suc rate)
  | _ ↦ pos 0
]

-- sarvamResponseMessage, the fields that are read.
pub record ResponseMessage (Float : Type 0) : Type 0 where
  pub kind : String
  pub transcript : String
  pub audio_duration_sec : Float
  pub error : String
  pub message : String

-- What of a session handleMessage reads and PushAudio writes.
pub record Clocked : Type 0 where
  pub lang : String
  pub total_ms : ℤ
  pub gen : ℕ
  pub closed : Bool

-- Nothing, failAndClose with a reason, or a transcript for the channel.
pub data Reaction (Float : Type 0) : Type 0 where
  ignored : Reaction Float
  fails : String → Reaction Float
  sends : Transcript Float → Reaction Float

-- The end of PushAudio, when the frame is written.
unfoldable pub count_audio : Clocked → AudioFrame → Clocked
unfolding frame_ms
count_audio s f = record s { total_ms = s.total_ms +ℤ frame_ms f }

abbrev or_else : String → String → String
or_else a b = if str_eq a "" then b else a

module _ (F : Floats) where
  open F use {Float, of_int, mul, lt, floor}

  -- The transcript of a message. The conversion of a positive float64 to int64 drops its fraction.
  unfoldable pub stamped : Clocked → ResponseMessage Float → Transcript Float
  stamped s msg = record {
    text = msg.transcript;
    language = s.lang;
    is_final = true;
    confidence = of_int (pos 1);
    start_ms = s.total_ms;
    end_ms =
        if lt (of_int (pos 0)) msg.audio_duration_sec
        then s.total_ms +ℤ floor (mul msg.audio_duration_sec (of_int (pos 1000)))
        else s.total_ms;
  }

  -- handleMessage, called by the read loop of the connection `gen`.
  unfoldable pub handle_message : Clocked → ℕ → Option (ResponseMessage Float) → Reaction Float
  unfolding stamped
  handle_message s gen none = ignored
  handle_message s gen (some msg) =
      if str_eq msg.kind "error" || (not (str_eq msg.error "") || not (str_eq msg.message ""))
      then fails (or_else (or_else msg.error msg.message) "unspecified error")
      else if str_eq msg.kind "events"
      then ignored
      else if not (str_eq msg.kind "data") || str_eq msg.transcript ""
      then ignored
      else if s.closed || not (gen == s.gen)
      then ignored
      else sends (stamped s msg)
