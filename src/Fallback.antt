-- ===== src/Fallback.antt =====
-- pkg/langstream/fallback.go: the state of one leg of a call and what is played when translation or
-- synthesis does not work. float64 and the degrade tone's samples (math.Sin) are parameters.
pub mod Ring
pub mod Passthrough
use Prim.Native.String.{String}
use lang_stream.Prelude.{
  ℕ, suc, ◌+◌, ◌-◌, ◌*◌, ◌/◌, Bool, true, false, not, ◌&&◌, ◌||◌, Option, none, some, List, [], ◌∷◌,
  ◌++◌, map, ltb, leb, if◌then◌else◌, length, drop,
}
use lang_stream.Prelude.Int.{ℤ, pos, pos_part, leb_ℤ, ltb_ℤ}
use lang_stream.Floats.{Floats}
use lang_stream.Audio.{AudioChunk}

-- `Metrics` is left out: a session always ends up with a recorder.
pub record FallbackConfig (Float : Type 0) : Type 0 where
  pub confidence_threshold : Float
  pub degrade_tone_enabled : Bool
  pub translate_timeout : ℤ
  pub synthesize_timeout : ℤ
  pub max_consecutive_failures : ℤ
  pub dead_leg_drain_interval : ℤ

abbrev pub default_dead_leg_drain_interval : ℤ
default_dead_leg_drain_interval = pos 300_000_000

module _ (F : Floats) where
  open F use {Float, of_int, div, le}

  -- 0.55 is the quotient 55 / 100.
  unfoldable pub default_fallback_config : FallbackConfig Float
  default_fallback_config = record {
    confidence_threshold = div (of_int (pos 55)) (of_int (pos 100));
    degrade_tone_enabled = true;
    translate_timeout = pos 6_000_000_000;
    synthesize_timeout = pos 4_000_000_000;
    max_consecutive_failures = pos 3;
    dead_leg_drain_interval = default_dead_leg_drain_interval;
  }

  unfoldable pub with_defaults : FallbackConfig Float → FallbackConfig Float
  unfolding default_fallback_config
  with_defaults cfg =
      let d = default_fallback_config in
      record cfg {
        confidence_threshold =
            if le cfg.confidence_threshold (of_int (pos 0))
            then d.confidence_threshold
            else cfg.confidence_threshold;
        translate_timeout =
            if leb_ℤ cfg.translate_timeout (pos 0)
            then d.translate_timeout
            else cfg.translate_timeout;
        synthesize_timeout =
            if leb_ℤ cfg.synthesize_timeout (pos 0)
            then d.synthesize_timeout
            else cfg.synthesize_timeout;
        max_consecutive_failures =
            if leb_ℤ cfg.max_consecutive_failures (pos 0)
            then d.max_consecutive_failures
            else cfg.max_consecutive_failures;
        dead_leg_drain_interval =
            if leb_ℤ cfg.dead_leg_drain_interval (pos 0)
            then d.dead_leg_drain_interval
            else cfg.dead_leg_drain_interval;
      }

abbrev pub audio_buffer_frames : ℕ
audio_buffer_frames = 500

pub record BufferedFrame : Type 0 where
  pub pcm : List ℕ
  pub sample_rate : ℤ

-- `utterance_at` is `none` for the zero time.
pub record AudioRingBuffer : Type 0 where
  pub frames : List BufferedFrame
  pub capacity : ℕ
  pub utterance_at : Option ℕ

unfoldable pub new_audio_ring_buffer : ℤ → AudioRingBuffer
new_audio_ring_buffer capacity = record {
  frames = [];
  capacity = if leb_ℤ capacity (pos 0) then audio_buffer_frames else pos_part capacity;
  utterance_at = none;
}

-- The oldest frames beyond the capacity are dropped.
trimmed : ℕ → List BufferedFrame → List BufferedFrame
trimmed capacity frames =
    let over = length frames - capacity in if ltb 0 over then drop over frames else frames

abbrev is_nil {ℓ} : {A : Type ℓ} → List A → Bool
is_nil [] = true
is_nil (_ ∷ _) = false

unfoldable pub push : AudioRingBuffer → List ℕ → ℤ → ℕ → AudioRingBuffer
unfolding trimmed
push b pcm sample_rate now = if is_nil pcm then b else record b {
  utterance_at = if is_nil b.frames then some now else b.utterance_at;
  frames = trimmed b.capacity (b.frames ++ (record { pcm = pcm; sample_rate = sample_rate } ∷ []));
}

-- The frames that `drain` returns are `b.frames`.
unfoldable pub drain : AudioRingBuffer → AudioRingBuffer
drain b = record b { frames = []; utterance_at = none }

-- The counter is an int32 in the code, and is not wrapped here.
pub record LegState : Type 0 where
  pub name : String
  pub consecutive_failures : ℕ
  pub degraded : Bool
  pub audio : AudioRingBuffer

unfoldable pub new_leg_state : String → ℤ → LegState
unfolding new_audio_ring_buffer
new_leg_state name buffer_frames = record {
  name = name;
  consecutive_failures = 0;
  degraded = false;
  audio = new_audio_ring_buffer buffer_frames;
}

-- The flag is true when this call has degraded the leg: CompareAndSwap(false, true).
unfoldable pub record_failure : LegState → Bool → ℤ → LegState × Bool
record_failure ls fatal max_consecutive =
    if fatal
    then (record ls { degraded = true }, not ls.degraded)
    else (let counted = record ls { consecutive_failures = ls.consecutive_failures + 1 } in
        if ltb_ℤ (pos 0) max_consecutive
          && leb_ℤ max_consecutive (pos (ls.consecutive_failures + 1))
        then (record counted { degraded = true }, not ls.degraded)
        else (counted, false))

unfoldable pub record_success : LegState → LegState
record_success ls = record ls { consecutive_failures = 0 }

-- The rate of the first frame that has one.
unfoldable pub passthrough_rate : List BufferedFrame → ℤ
passthrough_rate [] = pos 8000
passthrough_rate (f ∷ fs) =
    if ltb_ℤ (pos 0) f.sample_rate then f.sample_rate else passthrough_rate fs

abbrev pub chunk_of : BufferedFrame → AudioChunk
chunk_of f = record { pcm = f.pcm; sample_rate = f.sample_rate; is_final = false }

-- chunks[len(chunks)-1].IsFinal = true, or one empty final chunk where there is none.
unfoldable pub finalized : ℤ → List AudioChunk → List AudioChunk
finalized rate [] = record { pcm = []; sample_rate = rate; is_final = true } ∷ []
finalized rate (c ∷ []) = record c { is_final = true } ∷ []
finalized rate (c ∷ d ∷ cs) = c ∷ finalized rate (d ∷ cs)

-- `tone` is generateDegradeTone.
unfoldable pub build_passthrough_chunks : (ℤ → List ℕ) → List BufferedFrame → Bool → List AudioChunk
build_passthrough_chunks tone frames tone_enabled =
    let rate = passthrough_rate frames in
    let audio = map chunk_of frames in
    finalized rate (
      if tone_enabled
      then record { pcm = tone rate; sample_rate = rate; is_final = false } ∷ audio
      else audio)
