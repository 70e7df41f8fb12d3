-- ===== src/Audio.antt =====
-- The values that the stages pass on: asr.AudioFrame and asr.Transcript of pkg/asr/interface.go,
-- translate.Chunk of pkg/translate/interface.go, tts.AudioChunk of pkg/tts/interface.go. PCM is a
-- list of bytes.
use Prim.Native.String.{String}
use lang_stream.Prelude.{ℕ, Bool, List}
use lang_stream.Prelude.Int.{ℤ}

pub record AudioChunk : Type 0 where
  pub pcm : List ℕ
  pub sample_rate : ℤ
  pub is_final : Bool

pub record AudioFrame : Type 0 where
  pub pcm : List ℕ
  pub sample_rate : ℤ
  pub timestamp_ms : ℤ

-- The confidence is a float64, of the type given.
pub record Transcript (Float : Type 0) : Type 0 where
  pub text : String
  pub language : String
  pub is_final : Bool
  pub confidence : Float
  pub start_ms : ℤ
  pub end_ms : ℤ

pub record Chunk : Type 0 where
  pub text : String
  pub source_lang : String
  pub target_lang : String
  pub is_final : Bool

pub record Persona : Type 0 where
  pub voice_id : String
  pub language : String
  pub gender : String
  pub cloned_from : String
