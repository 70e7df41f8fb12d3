-- ===== src/Duplex/Clean.antt =====
-- What bridgeCleanAudio of pkg/rtp/duplex.go hands to the session.
use lang_stream.Prelude.{All, ◌≡◌, refl, ap₂, Bool, true, false, List, [], ◌∷◌, ◌++◌, map}
use lang_stream.Prelude.Int.{ℤ}
use lang_stream.Prelude.Words.{IsInt16}
use lang_stream.Audio.{AudioFrame}
use lang_stream.Pcm.{pcm_bytes_to_int16, pcm_bytes_to_int16-int16_pcm_to_bytes}
use lang_stream.Duplex.{Incoming, frame, channel_closed, context_done, bridge_clean_audio}

abbrev pub is_end : Incoming → Bool
is_end (frame pcm now) = false
is_end channel_closed = true
is_end context_done = true

abbrev pub frame_of : List ℤ × ℤ → Incoming
frame_of (pcm, now) = frame pcm now

-- The samples and the time that a pushed frame stands for.
abbrev pub heard_in : AudioFrame → List ℤ × ℤ
heard_in f = (pcm_bytes_to_int16 f.pcm, f.timestamp_ms)

-- The frames before the end of the channel or of the context, whichever comes first, are pushed to the
-- session in order, with their times, and their int16 samples can be read off the bytes unchanged;
-- nothing behind the end is pushed.
pub bridge_clean_audio_delivers :
    (frames : List (List ℤ × ℤ)) (end : Incoming) (rest : List Incoming)
    → is_end end ≡ true
    → All (λ (f : List ℤ × ℤ). All IsInt16 f.0) frames
    → map heard_in (bridge_clean_audio (map frame_of frames ++ (end ∷ rest))) ≡ frames
unfolding bridge_clean_audio
bridge_clean_audio_delivers [] (frame pcm now) rest e h = cc
bridge_clean_audio_delivers [] channel_closed rest e h = refl
bridge_clean_audio_delivers [] context_done rest e h = refl
bridge_clean_audio_delivers ((pcm, now) ∷ frames) end rest e (h, hs) =
    ap₂ (λ (p : List ℤ) (fs : List (List ℤ × ℤ)). (p, now) ∷ fs)
      (pcm_bytes_to_int16-int16_pcm_to_bytes pcm h)
      (bridge_clean_audio_delivers frames end rest e hs)
