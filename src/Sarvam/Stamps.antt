-- ===== src/Sarvam/Stamps.antt =====
-- Where in the audio pkg/asr/sarvam.go puts its transcripts.
use lang_stream.Prelude.{
  ℕ, suc, ◌+◌, ◌*◌, ◌/◌, ◌≤◌, ◌≡◌, refl, sym, ap, ap₂, ◌∙◌, true, false, some, ==_iff, List, [],
  ◌∷◌, All, arith, if◌then◌else◌, length,
}
use Prim.Native.String.{String}
use text.Mathlib.Text.{◌==◌ as str_eq}
use lang_stream.Prelude.Int.{ℤ, pos, ◌+ℤ◌}
use lang_stream.Floats.{Floats}
use lang_stream.Audio.{AudioFrame, Transcript}
use lang_stream.Sarvam.{
  ResponseMessage, Clocked, sends, count_audio, frame_ms, stamped, handle_message,
}

-- The frames pushed to a session.
unfoldable pub push_all : Clocked → List AudioFrame → Clocked
unfolding count_audio
push_all s [] = s
push_all s (f ∷ fs) = push_all (count_audio s f) fs

-- The samples of 16 bits in the frames.
unfoldable pub samples : List AudioFrame → ℕ
samples [] = 0
samples (f ∷ fs) = length f.pcm / 2 + samples fs

-- `ms` milliseconds are no longer than `count` samples take, and shorter by `slack` milliseconds at
-- most.
abbrev pub IsClose : (rate slack count ms : ℕ) → Type 0
IsClose rate slack count ms = (ms * rate ≤ count * 1000) × (count * 1000 ≤ (ms + slack) * rate)

IsClose-div : (rate x : ℕ) → IsClose (suc rate) 1 x (x * 1000 / suc rate)
IsClose-div rate x = ground arith

IsClose-add :
    (rate k x y a b : ℕ)
    → IsClose rate 1 x a
    → IsClose rate k y b
    → IsClose rate (suc k) (x + y) (a + b)
IsClose-add rate k x y a b (lo, hi) (lo', hi') = (omega arith, omega arith)

-- How much the clock of a session says was pushed.
total-push_all :
    (rate : ℕ) (s : Clocked) (fs : List AudioFrame) (before : ℕ)
    → s.total_ms ≡ pos before
    → All (λ f. f.sample_rate ≡ pos (suc rate)) fs
    → (ms : ℕ) × ((push_all s fs).total_ms ≡ pos (before + ms))
      × IsClose (suc rate) (length fs) (samples fs) ms
unfolding push_all samples count_audio frame_ms ◌+ℤ◌
total-push_all rate s [] before e hs = (0, e ∙ ap pos (omega arith), (omega arith, omega arith))
total-push_all rate s (f ∷ fs) before e (h, hs) =
    let d = length f.pcm / 2 * 1000 / suc rate in
    let counted : (count_audio s f).total_ms ≡ pos (before + d) = rw (e, h) (ground arith) in
    let (ms, total, close) = total-push_all rate (count_audio s f) fs (before + d) counted hs in
    (
      d + ms,
      total ∙ ap pos (omega arith),
      IsClose-add (suc rate) (length fs) (length f.pcm / 2) (samples fs) d ms
          (IsClose-div rate (length f.pcm / 2)) close,
    )

-- A session but for its clock.
record IsSame (s t : Clocked) : Type 0 where
  lang : t.lang ≡ s.lang
  gen : t.gen ≡ s.gen
  closed : t.closed ≡ s.closed

push_all-IsSame : (s : Clocked) (fs : List AudioFrame) → IsSame s (push_all s fs)
unfolding push_all count_audio
push_all-IsSame s [] = record { lang = refl; gen = refl; closed = refl }
push_all-IsSame s (f ∷ fs) =
    let rest = push_all-IsSame (count_audio s f) fs in
    record { lang = rest.lang; gen = rest.gen; closed = rest.closed }

module _ (F : Floats) where
  open F use {Float, of_int, mul, lt, floor}

  -- A message that carries a transcript.
  abbrev pub IsData : ResponseMessage Float → Type 0
  IsData m =
      (m.kind ≡ "data") × (m.error ≡ "") × (m.message ≡ "") × (str_eq m.transcript "" ≡ false)

  -- The transcript of a message, from `start` on.
  abbrev pub transcript_at : (lang : String) (start : ℤ) → ResponseMessage Float → Transcript Float
  transcript_at lang start m = record {
    text = m.transcript;
    language = lang;
    is_final = true;
    confidence = of_int (pos 1);
    start_ms = start;
    end_ms =
        if lt (of_int (pos 0)) m.audio_duration_sec
        then start +ℤ floor (mul m.audio_duration_sec (of_int (pos 1000)))
        else start;
  }

  data-sends :
      (s : Clocked) (m : ResponseMessage Float)
      → s.closed ≡ false
      → IsData m
      → handle_message F s s.gen (some m) ≡ sends (transcript_at s.lang s.total_ms m)
  unfolding handle_message stamped
  data-sends s m open_still (kind, no_error, no_message, text) =
      rw (kind, no_error, no_message, text, open_still, (==_iff s.gen s.gen).1 refl) refl

  -- When a session whose clock is at 0 is pushed frames of 16-bit samples at one rate, and is then told
  -- a transcript while it is open, it sends that transcript as starting where the audio pushed ends,
  -- not where the words are in it: at most a millisecond for each frame before the end, and never behind
  -- it. The transcript ends behind its start by the duration that the message reports, if it reports one.
  pub transcript_behind_audio :
      (rate : ℕ) (s : Clocked) (fs : List AudioFrame) (m : ResponseMessage Float)
      → s.total_ms ≡ pos 0
      → s.closed ≡ false
      → All (λ f. f.sample_rate ≡ pos (suc rate)) fs
      → IsData m
      → (ms : ℕ) × IsClose (suc rate) (length fs) (samples fs) ms
        × (handle_message F (push_all s fs) s.gen (some m)
            ≡ sends (transcript_at s.lang (pos ms) m))
  transcript_behind_audio rate s fs m fresh open_still rates told =
      let (ms, total, close) = total-push_all rate s fs 0 fresh rates in
      let same = push_all-IsSame s fs in
      let after = push_all s fs in
      (
        ms,
        close,
        ap (λ g. handle_message F after g (some m)) (sym same.gen)
            ∙ data-sends after m (same.closed ∙ open_still) told
            ∙ ap₂ (λ l t. sends (transcript_at l t m)) same.lang (total ∙ ap pos (omega arith)),
      )
