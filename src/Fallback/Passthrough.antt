-- ===== src/Fallback/Passthrough.antt =====
-- The passthrough audio of pkg/langstream/fallback.go.
use lang_stream.Prelude.{
  ℕ, ◌≡◌, refl, ap, ◌∙◌, Bool, true, false, List, [], ◌∷◌, ◌++◌, map, if◌then◌else◌,
}
use lang_stream.Prelude.Int.{ℤ}
use lang_stream.Prelude.Bytes.{joined}
use lang_stream.Audio.{AudioChunk}
use lang_stream.Fallback.{
  BufferedFrame, build_passthrough_chunks, finalized, passthrough_rate, chunk_of,
}

-- The last chunk is marked final, and no other one.
abbrev pub LastFinal : List AudioChunk → Type 0
LastFinal [] = ⊥
LastFinal (c ∷ []) = c.is_final ≡ true
LastFinal (c ∷ d ∷ cs) = (c.is_final ≡ false) × LastFinal (d ∷ cs)

abbrev pub bytes_of : List AudioChunk → List ℕ
bytes_of cs = joined (map (λ c. c.pcm) cs)

abbrev pub frame_bytes : List BufferedFrame → List ℕ
frame_bytes fs = joined (map (λ f. f.pcm) fs)

finalized-bytes : (rate : ℤ) (cs : List AudioChunk) → bytes_of (finalized rate cs) ≡ bytes_of cs
unfolding finalized
finalized-bytes rate [] = refl
finalized-bytes rate (c ∷ []) = refl
finalized-bytes rate (c ∷ d ∷ cs) = ap (◌++◌ c.pcm) (finalized-bytes rate (d ∷ cs))

audio-bytes : (fs : List BufferedFrame) → bytes_of (map chunk_of fs) ≡ frame_bytes fs
audio-bytes [] = refl
audio-bytes (f ∷ fs) = ap (◌++◌ f.pcm) (audio-bytes fs)

finalized-LastFinal :
    (rate : ℤ) (fs : List BufferedFrame) → LastFinal (finalized rate (map chunk_of fs))
unfolding finalized
finalized-LastFinal rate [] = refl
finalized-LastFinal rate (f ∷ []) = refl
finalized-LastFinal rate (f ∷ g ∷ []) = (refl, refl)
finalized-LastFinal rate (f ∷ g ∷ h ∷ fs) = (refl, finalized-LastFinal rate (g ∷ h ∷ fs))

toned-LastFinal :
    (rate : ℤ) (pcm : List ℕ) (fs : List BufferedFrame)
    → LastFinal (
        finalized rate
          (record { pcm = pcm; sample_rate = rate; is_final = false } ∷ map chunk_of fs))
unfolding finalized
toned-LastFinal rate pcm [] = refl
toned-LastFinal rate pcm (f ∷ []) = (refl, refl)
toned-LastFinal rate pcm (f ∷ g ∷ fs) = (refl, finalized-LastFinal rate (f ∷ g ∷ fs))

-- Passthrough audio has at least one chunk, its last chunk and no other is marked final, and its
-- bytes are those of the buffered frames in order, behind the degrade tone when that is enabled.
pub build_passthrough_chunks_lem :
    (tone : ℤ → List ℕ) (frames : List BufferedFrame) (tone_enabled : Bool)
    → LastFinal (build_passthrough_chunks tone frames tone_enabled)
      × (bytes_of (build_passthrough_chunks tone frames tone_enabled)
          ≡ (if tone_enabled then tone (passthrough_rate frames) else []) ++ frame_bytes frames)
unfolding build_passthrough_chunks
build_passthrough_chunks_lem tone frames true = (
  toned-LastFinal (passthrough_rate frames) (tone (passthrough_rate frames)) frames,
  finalized-bytes (passthrough_rate frames) _
      ∙ ap (◌++◌ (tone (passthrough_rate frames))) (audio-bytes frames),
)
build_passthrough_chunks_lem tone frames false = (
  finalized-LastFinal (passthrough_rate frames) frames,
  finalized-bytes (passthrough_rate frames) (map chunk_of frames) ∙ audio-bytes frames,
)
