-- ===== src/Recognizer/Languages/Hints.antt =====
-- What code switching, a setting of pkg/langstream/session.go, asks of the recognizers.
use lang_stream.Prelude.{ℕ, ◌≡◌, refl, ap, ◌∙◌, true, false, Option, none, some, List, [], ◌∷◌, map}
use Prim.Native.String.{String}
use lang_stream.Prelude.Int.{ℤ}
use lang_stream.Floats.{Floats}
use lang_stream.Session.Start.{
  Settings, Effect, opened, not_opened, stream_closed, context_cancelled, hint_of, validate,
  open_streams, new_session,
}
use lang_stream.Recognizer.Languages.{Wire, Models, deepgram_wire}

-- The hints of the streams that were opened, in order.
unfoldable pub opened_hints : List Effect → List String
opened_hints [] = []
opened_hints (opened hint ∷ es) = hint ∷ opened_hints es
opened_hints (not_opened hint ∷ es) = opened_hints es
opened_hints (stream_closed ∷ es) = opened_hints es
opened_hints (context_cancelled ∷ es) = opened_hints es

abbrev pub english : Models → Option Wire
english m = some (record { lang = "en"; model = m.model; wire_language = "en" })

abbrev pub hindi : Models → Option Wire
hindi m = some (record { lang = "hi"; model = m.hindi_model; wire_language = "multi" })

module _ (F : Floats) where
  open F use {Float}

  -- What Deepgram is asked for by a NewSession whose two streams it opens.
  abbrev pub asked : (ℤ → List ℕ) → Models → Settings Float → List (Option Wire)
  asked tone m s = map (deepgram_wire m) (opened_hints (new_session F tone s true true).1)

  asked-hints :
      (tone : ℤ → List ℕ) (m : Models) (s : Settings Float)
      → validate s ≡ none
      → asked tone m s
        ≡ deepgram_wire m (hint_of s s.caller_language)
          ∷ deepgram_wire m (hint_of s s.agent_language)
          ∷ []
  unfolding new_session open_streams opened_hints
  asked-hints tone m s valid =
      ap (λ v. map (deepgram_wire m) (opened_hints (open_streams F tone s v true true).1)) valid

  -- Of settings that `validate` accepts, for a call of a Hindi speaker with an English speaker, either
  -- of whom may be the caller: without code switching NewSession opens the Hindi speaker's stream with
  -- Deepgram's Hindi model, which switches between the languages, and the other one in English. With
  -- code switching, whatever the two languages are, both streams are plain English, with the English
  -- model.
  pub code_switching_is_english :
      (tone : ℤ → List ℕ) (m : Models) (s : Settings Float)
      → validate s ≡ none
      → (s.code_switching ≡ true → asked tone m s ≡ english m ∷ english m ∷ [])
        × (s.code_switching ≡ false
            → s.caller_language ≡ "hi"
            → s.agent_language ≡ "en"
            → asked tone m s ≡ hindi m ∷ english m ∷ [])
        × (s.code_switching ≡ false
            → s.caller_language ≡ "en"
            → s.agent_language ≡ "hi"
            → asked tone m s ≡ english m ∷ hindi m ∷ [])
  unfolding deepgram_wire hint_of
  code_switching_is_english tone m s valid = (
    (λ e. asked-hints tone m s valid ∙ (rw e refl)),
    (λ e c a. asked-hints tone m s valid ∙ (rw (e, c, a) refl)),
    (λ e c a. asked-hints tone m s valid ∙ (rw (e, c, a) refl)),
  )
