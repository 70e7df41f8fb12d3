-- ===== src/Vad/Boundaries.antt =====
-- When the tracker of pkg/langstream/vad.go reports the end of an utterance.
use lang_stream.Prelude.{
  ap₂, refl, subst, sym, ap, All, ◌∙◌, ◌++◌, true, arith, ◌≡◌, Bool, false, List, [], ◌∷◌,
}
use lang_stream.Prelude.Int.{zero-+ℤ, +ℤ_assoc, +ℤ-zero, ◌≤ℤ◌, leb_ℤ, ℤ, pos, ◌+ℤ◌}
use lang_stream.Floats.{Floats}
use lang_stream.Audio.{AudioFrame}
use lang_stream.Vad.{Vad, UtteranceBoundaryTracker, frame_duration_ms, is_speech, observe_frame}

module _ (F : Floats) where
  -- The frames one after the other, with the last report; `reported` is the report before.
  pub observe_all :
      UtteranceBoundaryTracker F → Bool → List AudioFrame → UtteranceBoundaryTracker F × Bool
  observe_all u reported [] = (u, reported)
  observe_all u reported (f ∷ fs) = let (u', r) = observe_frame F u f in observe_all u' r fs

  abbrev pub IsSilent : Vad F → AudioFrame → Type 0
  IsSilent v f = is_speech F v f.pcm ≡ false

  -- The milliseconds of some frames.
  pub total_ms : List AudioFrame → ℤ
  total_ms [] = pos 0
  total_ms (f ∷ fs) = frame_duration_ms f.pcm f.sample_rate +ℤ total_ms fs

  observe_all-append :
      (u : UtteranceBoundaryTracker F) (r : Bool) (fs gs : List AudioFrame)
      → observe_all u r (fs ++ gs) ≡ observe_all (observe_all u r fs).0 (observe_all u r fs).1 gs
  unfolding observe_all
  observe_all-append u r [] gs = refl
  observe_all-append u r (f ∷ fs) gs =
      observe_all-append (observe_frame F u f).0 (observe_frame F u f).1 fs gs

  -- No frame changes the classifier and the hold time.
  frame_keeps :
      (u : UtteranceBoundaryTracker F) (f : AudioFrame)
      → ((observe_frame F u f).0.vad ≡ u.vad)
        × ((observe_frame F u f).0.silence_hold_ms ≡ u.silence_hold_ms)
  unfolding observe_frame
  frame_keeps u f = ground arith

  frames_keep :
      (u : UtteranceBoundaryTracker F) (r : Bool) (fs : List AudioFrame)
      → ((observe_all u r fs).0.vad ≡ u.vad)
        × ((observe_all u r fs).0.silence_hold_ms ≡ u.silence_hold_ms)
  unfolding observe_all
  frames_keep u r [] = (refl, refl)
  frames_keep u r (f ∷ fs) =
      let (v, h) = frames_keep (observe_frame F u f).0 (observe_frame F u f).1 fs in
      (v ∙ (frame_keeps u f).0, h ∙ (frame_keeps u f).1)

  silent_frame :
      (u : UtteranceBoundaryTracker F) (f : AudioFrame)
      → IsSilent u.vad f
      → observe_frame F u f ≡ (
        record u { silence_ms = u.silence_ms +ℤ frame_duration_ms f.pcm f.sample_rate },
        leb_ℤ u.silence_hold_ms (u.silence_ms +ℤ frame_duration_ms f.pcm f.sample_rate),
      )
  unfolding observe_frame
  silent_frame u f s = ground arith

  speech_frame :
      (u : UtteranceBoundaryTracker F) (f : AudioFrame)
      → is_speech F u.vad f.pcm ≡ true
      → observe_frame F u f ≡ (record u { silence_ms = pos 0 }, false)
  unfolding observe_frame
  speech_frame u f s = ground arith

  silent_frames :
      (u : UtteranceBoundaryTracker F) (r : Bool) (fs : List AudioFrame)
      → r ≡ leb_ℤ u.silence_hold_ms u.silence_ms
      → All (IsSilent u.vad) fs
      → ((observe_all u r fs).0.silence_ms ≡ u.silence_ms +ℤ total_ms fs)
        × ((observe_all u r fs).1 ≡ leb_ℤ u.silence_hold_ms (u.silence_ms +ℤ total_ms fs))
  unfolding observe_all total_ms
  silent_frames u r [] e s =
      (sym (+ℤ-zero u.silence_ms), e ∙ ap (leb_ℤ u.silence_hold_ms) (sym (+ℤ-zero u.silence_ms)))
  silent_frames u r (f ∷ fs) e s =
      let d = frame_duration_ms f.pcm f.sample_rate in
      let rest =
        silent_frames (record u { silence_ms = u.silence_ms +ℤ d })
          (leb_ℤ u.silence_hold_ms (u.silence_ms +ℤ d)) fs refl s.1 in
      let all = +ℤ_assoc u.silence_ms d (total_ms fs) in
      subst
        (λ t.
          ((observe_all t.0 t.1 fs).0.silence_ms ≡ u.silence_ms +ℤ (d +ℤ total_ms fs))
          × ((observe_all t.0 t.1 fs).1
              ≡ leb_ℤ u.silence_hold_ms (u.silence_ms +ℤ (d +ℤ total_ms fs))))
        (sym (silent_frame u f s.0)) (rest.0 ∙ all, rest.1 ∙ ap (leb_ℤ u.silence_hold_ms) all)

  -- With a positive hold time, after any frames, then a frame of speech, then silent frames only:
  -- the silence counted is the length of those silent frames, whatever came before the speech, and
  -- the last frame reports a boundary exactly when that length has reached the hold time.
  pub boundary_after_speech :
      (u : UtteranceBoundaryTracker F) (r : Bool) (before silent : List AudioFrame)
      (speech : AudioFrame)
      → pos 1 ≤ℤ u.silence_hold_ms
      → is_speech F u.vad speech.pcm ≡ true
      → All (IsSilent u.vad) silent
      → let (u', reported) = observe_all u r (before ++ speech ∷ silent) in
        (u'.silence_ms ≡ total_ms silent) × (reported ≡ leb_ℤ u.silence_hold_ms (total_ms silent))
  unfolding observe_all observe_frame total_ms
  boundary_after_speech u r before silent speech hold loud quiet =
      let (mid, rep) = observe_all u r before in
      let (v, h) = frames_keep u r before in
      let heard = speech_frame mid speech (ap (λ c. is_speech F c speech.pcm) v ∙ loud) in
      let rest =
        silent_frames (record mid { silence_ms = pos 0 }) false silent (ground arith)
          (subst (λ c. All (IsSilent c) silent) (sym v) quiet) in
      let all = observe_all-append u r before (speech ∷ silent) in
      (
        ap (λ t. t.0.silence_ms) all
            ∙ ap (λ t. (observe_all t.0 t.1 silent).0.silence_ms) heard
            ∙ rest.0
            ∙ zero-+ℤ _,
        ap (λ t. t.1) all
            ∙ ap (λ t. (observe_all t.0 t.1 silent).1) heard
            ∙ rest.1
            ∙ ap₂ leb_ℤ h (zero-+ℤ _),
      )
