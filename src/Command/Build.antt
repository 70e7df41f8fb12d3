-- ===== src/Command/Build.antt =====
-- What cmd/langstream/duplex.go leaves behind when it cannot build its session.
use lang_stream.Prelude.{
  ℕ, ◌+◌, ◌-◌, ◌≡◌, refl, ap, ◌∙◌, ◌⊎◌, inl, inr, Bool, true, false, List, [], ◌∷◌, ◌++◌,
}
use Prim.Native.String.{String}
use lang_stream.Prelude.Int.{ℤ}
use lang_stream.Floats.{Floats}
use lang_stream.Fallback.{FallbackConfig}
use lang_stream.Registry
use lang_stream.Session.Start.{
  Session, StartError, Effect, opened, not_opened, stream_closed, context_cancelled,
}
use lang_stream.Session.Start.Released.{left_open, new_session-Releases, Releases}
use lang_stream.Duplex.{Media, absent, bound, stopped, DuplexSession, new_duplex_session}
use lang_stream.Command.{
  Backends, SelectError, selected, CommandError, settings_for, session_or_error, session_of,
  command_session, Built, closed, with_duplex, build_duplex_session,
}

-- Its socket is not bound.
abbrev pub IsReleased : Media → Type 0
IsReleased m = (m ≡ absent) ⊎ (m ≡ stopped)

left_open-append :
    (n : ℕ) (es fs : List Effect) → left_open n (es ++ fs) ≡ left_open (left_open n es) fs
unfolding left_open
left_open-append n [] fs = refl
left_open-append n (opened hint ∷ es) fs = left_open-append (n + 1) es fs
left_open-append n (not_opened hint ∷ es) fs = left_open-append n es fs
left_open-append n (stream_closed ∷ es) fs = left_open-append (n - 1) es fs
left_open-append n (context_cancelled ∷ es) fs = left_open-append n es fs

module _ (F : Floats) where
  open F use {Float}

  -- The streams that newSession leaves open: none with an error, two with a session.
  abbrev Streams : (CommandError ⊎ Session Float) × List Effect → Type 0
  Streams (inl err, effects) = left_open 0 effects ≡ 0
  Streams (inr session, effects) = left_open 0 effects ≡ 2

  session_or_error-Streams :
      (r : (StartError ⊎ Session Float) × List Effect) → Releases r → Streams (session_or_error F r)
  unfolding session_or_error
  session_or_error-Streams (inl err, effects) h = h.0
  session_or_error-Streams (inr session, effects) h = h.0

  session_of-Streams :
      (tone : ℤ → List ℕ) (untouched : FallbackConfig Float) (asr mt tts : String ⊎ SelectError)
      (caller agent : String) (c a : Bool)
      → Streams (session_of F tone untouched asr mt tts caller agent c a)
  unfolding session_of left_open
  session_of-Streams tone z (inr err) mt tts caller agent c a = refl
  session_of-Streams tone z (inl asr) (inr err) tts caller agent c a = refl
  session_of-Streams tone z (inl asr) (inl mt) (inr err) caller agent c a = refl
  session_of-Streams tone z (inl asr) (inl mt) (inl tts) caller agent c a =
      session_or_error-Streams _
        (new_session-Releases F tone (settings_for F z asr mt tts caller agent) c a)

  -- What a build leaves.
  abbrev Leaves : CommandError ⊎ (DuplexSession × Session Float) → ℕ → Media → Media → Type 0
  Leaves (inl err) streams c a = (streams ≡ 0) × IsReleased c × IsReleased a
  Leaves (inr both) streams c a = (streams ≡ 2) × (c ≡ bound) × (a ≡ bound)

  abbrev pub BuiltWell : Built F → Type 0
  BuiltWell b = Leaves b.result (left_open 0 b.effects) b.caller_media b.agent_media

  closed_none :
      (effects : List Effect) → left_open 0 effects ≡ 2 → left_open 0 (closed F effects) ≡ 0
  unfolding left_open
  closed_none effects e =
      left_open-append 0 effects (stream_closed ∷ stream_closed ∷ [])
      ∙ ap (λ n. left_open n (stream_closed ∷ stream_closed ∷ [])) e

  with_duplex-BuiltWell :
      (session : Session Float) (effects : List Effect) (cm am : Bool)
      → left_open 0 effects ≡ 2
      → BuiltWell (with_duplex F session effects (new_duplex_session true cm am))
  unfolding with_duplex new_duplex_session
  with_duplex-BuiltWell session effects false am e = (closed_none effects e, inl refl, inl refl)
  with_duplex-BuiltWell session effects true false e = (closed_none effects e, inr refl, inl refl)
  with_duplex-BuiltWell session effects true true e = (e, refl, refl)

  build-BuiltWell :
      (made : (CommandError ⊎ Session Float) × List Effect) (caller_ok agent_ok cm am : Bool)
      → Streams made
      → BuiltWell (build_duplex_session F made caller_ok agent_ok cm am)
  unfolding build_duplex_session
  build-BuiltWell (inl err, effects) caller_ok agent_ok cm am h = (h, inl refl, inl refl)
  build-BuiltWell (inr session, effects) false agent_ok cm am h =
      (closed_none effects h, inl refl, inl refl)
  build-BuiltWell (inr session, effects) true false cm am h =
      (closed_none effects h, inl refl, inl refl)
  build-BuiltWell (inr session, effects) true true cm am h =
      with_duplex-BuiltWell session effects cm am h

  -- Whatever backends are registered and named, whichever streams the recognizer opens, and whichever
  -- suppressors and media sessions can be made: when the build of a duplex session fails, no stream of the
  -- recognizer is left open and no media session holds a socket; when it succeeds, two streams are open
  -- and both media sessions are bound.
  pub build_leaks_nothing :
      (tone : ℤ → List ℕ) (untouched : FallbackConfig Float) (backends : Backends)
      (asr_name mt_name tts_name caller agent : String) (caller_opens agent_opens : Bool)
      (caller_suppressed agent_suppressed caller_made agent_made : Bool)
      → BuiltWell (
          build_duplex_session F
            (command_session F tone untouched backends asr_name mt_name tts_name caller agent
              caller_opens agent_opens)
            caller_suppressed
            agent_suppressed
            caller_made
            agent_made)
  unfolding command_session
  build_leaks_nothing tone z backends x y w caller agent c a caller_ok agent_ok cm am =
      build-BuiltWell _ caller_ok agent_ok cm am (
        session_of-Streams tone z (selected (Registry.new_asr backends x))
          (selected (Registry.new_translator backends y)) (selected (Registry.new_tts backends w))
          caller agent c a)
