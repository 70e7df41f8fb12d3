-- ===== src/Vad.antt =====
-- pkg/langstream/vad.go: voice activity by energy, and the tracker that reports the end of an
-- utterance. float64 arithmetic is the parameter F.
pub mod Boundaries
use lang_stream.Prelude.{
  ℕ, ◌+◌, ◌-◌, ◌*◌, ◌/◌, ◌%◌, ◌^◌, Bool, true, false, Option, none, some, List, [], ◌∷◌, ◌==◌,
  if◌then◌else◌, length,
}
use lang_stream.Prelude.Int.{ℤ, pos, negsuc, pos_part, leb_ℤ, ◌+ℤ◌}
use lang_stream.Prelude.Words.{int16}
use lang_stream.Floats.{Floats}
use lang_stream.Audio.{AudioFrame}

-- 600 ms.
abbrev pub default_silence_hold_ms : ℤ
default_silence_hold_ms = pos 600

pub record Vad (F : Floats) : Type 0 where
  pub threshold : F.Float

pub record UtteranceBoundaryTracker (F : Floats) : Type 0 where
  pub vad : Vad F
  pub silence_hold_ms : ℤ
  pub silence_ms : ℤ

-- int64(samples) * 1000 / int64(sampleRate).
unfoldable pub frame_duration_ms : List ℕ → ℤ → ℤ
frame_duration_ms pcm sample_rate =
    if leb_ℤ sample_rate (pos 0) then pos 0 else pos (length pcm / 2 * 1000 / pos_part sample_rate)

module _ (F : Floats) where
  open F use {Float, of_int, add, mul, div, sqrt, lt, le}

  abbrev pub default_vad_threshold : Float
  default_vad_threshold = of_int (pos 500)

  unfoldable pub new_vad : Float → Vad F
  new_vad threshold = record {
    threshold = if le threshold (of_int (pos 0)) then default_vad_threshold else threshold;
  }

  -- The loop over whole samples: a trailing odd byte is ignored.
  unfoldable pub sum_squares : Float → List ℕ → Float
  unfolding int16
  sum_squares sum [] = sum
  sum_squares sum (_ ∷ []) = sum
  sum_squares sum (lo ∷ hi ∷ pcm) =
      let s = of_int (int16 (lo + hi * 256)) in sum_squares (add sum (mul s s)) pcm

  unfoldable pub rms : List ℕ → Float
  unfolding sum_squares
  rms pcm =
      let n = length pcm / 2 in
      if n == 0
      then of_int (pos 0)
      else sqrt (div (sum_squares (of_int (pos 0)) pcm) (of_int (pos n)))

  unfoldable pub is_speech : Vad F → List ℕ → Bool
  is_speech v pcm = lt v.threshold (rms pcm)

  -- `none` is the nil VAD.
  unfoldable pub new_utterance_boundary_tracker : Option (Vad F) → ℤ → UtteranceBoundaryTracker F
  unfolding new_vad
  new_utterance_boundary_tracker vad silence_hold_ms = record {
    vad = elim vad [ none ↦ new_vad (of_int (pos 0)) | some v ↦ v ];
    silence_hold_ms =
        if leb_ℤ silence_hold_ms (pos 0) then default_silence_hold_ms else silence_hold_ms;
    silence_ms = pos 0;
  }

  unfoldable pub observe :
      UtteranceBoundaryTracker F → List ℕ → ℤ → UtteranceBoundaryTracker F × Bool
  observe u pcm duration_ms =
      if is_speech u.vad pcm
      then (record u { silence_ms = pos 0 }, false)
      else (let total = u.silence_ms +ℤ duration_ms in
          (record u { silence_ms = total }, leb_ℤ u.silence_hold_ms total))

  unfoldable pub observe_frame :
      UtteranceBoundaryTracker F → AudioFrame → UtteranceBoundaryTracker F × Bool
  unfolding frame_duration_ms observe
  observe_frame u frame = observe u frame.pcm (frame_duration_ms frame.pcm frame.sample_rate)

  unfoldable pub reset : UtteranceBoundaryTracker F → UtteranceBoundaryTracker F
  reset u = record u { silence_ms = pos 0 }
