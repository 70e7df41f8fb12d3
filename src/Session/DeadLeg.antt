-- ===== src/Session/DeadLeg.antt =====
-- drainDeadLeg of pkg/langstream/session.go: what becomes of the audio pushed to a leg whose ASR
-- stream has ended.
use lang_stream.Prelude.{
  ℕ, ◌<◌, ◌≡◌, Bool, true, false, not, Option, none, List, [], ◌∷◌, ◌++◌, refl, arith, ap, ◌∙◌, sym,
  if◌then◌else◌, if_cases, subst, All, length, length-append, drop, ◌-◌, ◌&&◌, ap₂, ◌==◌, ltb,
}
use mathlib.Core.List.{append_assoc, append-nil}
use lang_stream.Metrics.{LatencyRecorder}
use lang_stream.Prelude.Int.{ℤ}
use lang_stream.Floats.{Floats}
use lang_stream.Audio.{AudioChunk}
use lang_stream.Fallback.{
  LegState, passthrough_rate, BufferedFrame, AudioRingBuffer, push, drain, build_passthrough_chunks,
}
use lang_stream.Fallback.Passthrough.{bytes_of, frame_bytes, build_passthrough_chunks_lem}
use lang_stream.Leg.{
  SessionConfig, Environment, Leg, draining, over, record_fallback_reason, emit_passthrough_timed,
  forward_audio,
}
use lang_stream.Session.{on_tick, flush_dead_leg_audio}
use lang_stream.Session.Run.{
  Event, pushed, transcript, ended, tick, cancelled, step, step_in, run, heard,
}

frame_bytes-append :
    (fs gs : List BufferedFrame) → frame_bytes (fs ++ gs) ≡ frame_bytes fs ++ frame_bytes gs
frame_bytes-append [] gs = refl
frame_bytes-append (f ∷ fs) gs =
    ap (◌++◌ f.pcm) (frame_bytes-append fs gs)
    ∙ sym (append_assoc f.pcm (frame_bytes fs) (frame_bytes gs))

bytes_of-append : (a b : List AudioChunk) → bytes_of (a ++ b) ≡ bytes_of a ++ bytes_of b
bytes_of-append [] b = refl
bytes_of-append (c ∷ a) b =
    ap (◌++◌ c.pcm) (bytes_of-append a b) ∙ sym (append_assoc c.pcm (bytes_of a) (bytes_of b))

push-bytes :
    (b : AudioRingBuffer) (pcm : List ℕ) (rate : ℤ) (now : ℕ)
    → length b.frames < b.capacity
    → frame_bytes (push b pcm rate now).frames ≡ frame_bytes b.frames ++ pcm
unfolding push
push-bytes b [] rate now room = sym (append-nil (frame_bytes b.frames))
push-bytes b (x ∷ pcm) rate now room =
    let f : BufferedFrame = record { pcm = x ∷ pcm; sample_rate = rate } in
    let counted = length-append b.frames (f ∷ []) in
    let fits : length (b.frames ++ f ∷ []) - b.capacity ≡ 0 = omega (arith, counted) in
    ap
      (λ over.
        frame_bytes (if ltb 0 over then drop over (b.frames ++ f ∷ []) else b.frames ++ f ∷ []))
      fits
    ∙ frame_bytes-append b.frames (f ∷ [])
    ∙ ap (◌++◌ (frame_bytes b.frames)) (append-nil (x ∷ pcm))

module _ (F : Floats) where
  open F use {Float}

  -- A push of audio, or a tick while the session is not closing, whose audio is sent to its end.
  abbrev pub IsPoll : Event Float → Type 0
  IsPoll (pushed pcm rate now) = Unit
  IsPoll (tick closing env) = (closing ≡ false) × (env.passthrough_cut ≡ none)
  IsPoll (transcript said env) = ⊥
  IsPoll (ended closing env) = ⊥
  IsPoll (cancelled env) = ⊥

  unfoldable pub pushed_bytes : List (Event Float) → List ℕ
  pushed_bytes [] = []
  pushed_bytes (pushed pcm rate now ∷ es) = pcm ++ pushed_bytes es
  pushed_bytes (e ∷ es) = pushed_bytes es

  pushed_bytes-first :
      (e : Event Float) (es : List (Event Float))
      → pushed_bytes (e ∷ es) ≡ pushed_bytes (e ∷ []) ++ pushed_bytes es
  unfolding pushed_bytes
  pushed_bytes-first (pushed pcm rate now) es =
      ap (λ bs. bs ++ pushed_bytes es) (sym (append-nil pcm))
  pushed_bytes-first (transcript said env) es = refl
  pushed_bytes-first (ended closing env) es = refl
  pushed_bytes-first (tick closing env) es = refl
  pushed_bytes-first (cancelled env) es = refl

  -- At each event the buffer holds fewer frames than its capacity.
  unfoldable pub HasRoom : SessionConfig Float → Leg Float → List (Event Float) → Type 0
  HasRoom cfg leg [] = Unit
  HasRoom cfg leg (e ∷ es) =
      (length leg.state.audio.frames < leg.state.audio.capacity)
      × HasRoom cfg (step F cfg leg e).0 es

  -- A flush of the frames given: the buffer is empty after it, it is sent to its end, and the bytes
  -- sent are those of the frames.
  abbrev IsFlushed :
      List BufferedFrame → LegState × LatencyRecorder Float × List AudioChunk × Bool → Type 0
  IsFlushed frames after =
      (after.0.audio.frames ≡ []) × (after.3 ≡ true) × (bytes_of after.2 ≡ frame_bytes frames)

  emitted :
      (cfg : SessionConfig Float) (env : Environment Float) (m : LatencyRecorder Float)
      (frames : List BufferedFrame) (start : Option ℕ)
      → env.passthrough_cut ≡ none
      → let after = emit_passthrough_timed F cfg env m frames start in
        (after.0
          ≡ build_passthrough_chunks cfg.degrade_tone frames cfg.fallback.degrade_tone_enabled)
        × (after.1 ≡ true)
  unfolding emit_passthrough_timed forward_audio
  emitted cfg env m frames start uncut = rw uncut (refl, refl)

  none_left : (fs : List BufferedFrame) → length fs == 0 ≡ true → fs ≡ []
  none_left [] e = refl
  none_left (f ∷ fs) e = absurd (ground arith)

  flush-IsFlushed :
      (cfg : SessionConfig Float) (env : Environment Float) (s : LegState)
      (m : LatencyRecorder Float)
      → cfg.fallback.degrade_tone_enabled ≡ false
      → env.passthrough_cut ≡ none
      → IsFlushed s.audio.frames (flush_dead_leg_audio F cfg env s m)
  unfolding flush_dead_leg_audio drain
  flush-IsFlushed cfg env s m quiet uncut =
      let frames = s.audio.frames in
      let noted =
        record_fallback_reason F m "leg_degraded" s.name "asr_stream_closed_passthrough" in
      let sent = emitted cfg env noted frames s.audio.utterance_at uncut in
      let tone = cfg.degrade_tone in
      if_cases (IsFlushed frames) (length frames == 0) _ _
        (λ e. (refl, refl, sym (ap frame_bytes (none_left frames e))))
        (λ _. (
          refl,
          sent.1,
          ap bytes_of sent.0
              ∙ (build_passthrough_chunks_lem tone frames cfg.fallback.degrade_tone_enabled).1
              ∙ ap (λ b. (if b then tone (passthrough_rate frames) else []) ++ frame_bytes frames)
                  quiet,
        ))

  step-bytes :
      (cfg : SessionConfig Float) (leg : Leg Float) (e : Event Float)
      → cfg.fallback.degrade_tone_enabled ≡ false
      → leg.mode ≡ draining
      → IsPoll e
      → length leg.state.audio.frames < leg.state.audio.capacity
      → let after = step F cfg leg e in
        (after.0.mode ≡ draining)
        × (bytes_of after.1 ++ frame_bytes after.0.state.audio.frames
            ≡ frame_bytes leg.state.audio.frames ++ pushed_bytes (e ∷ []))
  unfolding step step_in on_tick pushed_bytes
  step-bytes cfg leg e quiet drains poll room =
      subst
        (λ mode.
          (step_in F mode cfg leg e).0.mode ≡ draining
          × (bytes_of (step_in F mode cfg leg e).1
                ++ frame_bytes (step_in F mode cfg leg e).0.state.audio.frames
              ≡ frame_bytes leg.state.audio.frames ++ pushed_bytes (e ∷ [])))
        (sym drains) (go e poll)
    where
      go :
          (e : Event Float)
          → IsPoll e
          → ((step_in F draining cfg leg e).0.mode ≡ draining)
            × (bytes_of (step_in F draining cfg leg e).1
                  ++ frame_bytes (step_in F draining cfg leg e).0.state.audio.frames
                ≡ frame_bytes leg.state.audio.frames ++ pushed_bytes (e ∷ []))
      go (pushed pcm rate now) _ = (
        drains,
        push-bytes leg.state.audio pcm rate now room
            ∙ ap (◌++◌ (frame_bytes leg.state.audio.frames)) (sym (append-nil pcm)),
      )
      go (tick closing env) (open_still, uncut) =
          let flushed = flush-IsFlushed cfg env leg.state leg.metrics quiet uncut in
          (
            ap₂ (λ ok shut. if ok && not shut then draining else over) flushed.1 open_still,
            ap₂ (λ fs bs. bs ++ frame_bytes fs) flushed.0 flushed.2,
          )
      go (transcript said env) p = absurd p
      go (ended closing env) p = absurd p
      go (cancelled env) p = absurd p

  -- While the leg's ASR stream is dead and the session goes on, with the degrade tone off and the
  -- buffer never full: what the listening party hears and then what is still buffered are, byte for
  -- byte and in order, what was buffered at first and what has been pushed since.
  pub dead_leg_delivers :
      (cfg : SessionConfig Float) (leg : Leg Float) (es : List (Event Float))
      → cfg.fallback.degrade_tone_enabled ≡ false
      → leg.mode ≡ draining
      → All IsPoll es
      → HasRoom cfg leg es
      → bytes_of (heard F cfg leg es) ++ frame_bytes (run F cfg leg es).state.audio.frames
        ≡ frame_bytes leg.state.audio.frames ++ pushed_bytes es
  unfolding heard run pushed_bytes HasRoom
  dead_leg_delivers cfg leg [] quiet drains polls room =
      sym (append-nil (frame_bytes leg.state.audio.frames))
  dead_leg_delivers cfg leg (e ∷ es) quiet drains (p, ps) (r, rs) =
      let after = step F cfg leg e in
      let one = step-bytes cfg leg e quiet drains p r in
      let rest = dead_leg_delivers cfg after.0 es quiet one.0 ps rs in
      let sent = bytes_of after.1 in
      let kept = frame_bytes leg.state.audio.frames in
      ap (λ bs. bs ++ frame_bytes (run F cfg after.0 es).state.audio.frames)
        (bytes_of-append after.1 (heard F cfg after.0 es))
      ∙ append_assoc sent (bytes_of (heard F cfg after.0 es))
          (frame_bytes (run F cfg after.0 es).state.audio.frames)
      ∙ ap (◌++◌ sent) rest
      ∙ sym (append_assoc sent (frame_bytes after.0.state.audio.frames) (pushed_bytes es))
      ∙ ap (λ bs. bs ++ pushed_bytes es) one.1
      ∙ append_assoc kept (pushed_bytes (e ∷ [])) (pushed_bytes es)
      ∙ ap (◌++◌ kept) (sym (pushed_bytes-first e es))
