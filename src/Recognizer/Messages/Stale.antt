-- ===== src/Recognizer/Messages/Stale.antt =====
-- What the messages of a connection that is no longer a session's do in pkg/asr/deepgram.go.
use lang_stream.Prelude.{ℕ, ◌≡◌, refl, ◌≢◌, inl, inr, Bool-cases, true, false, Option, none, arith}
use Prim.Native.String.{String}
use lang_stream.Prelude.Int.{ℤ}
use lang_stream.Floats.{Floats}
use lang_stream.Recognizer.{SessionView, vendor_error}
use lang_stream.Recognizer.Reconnects.{fail_and_close-closed}
use lang_stream.Recognizer.Messages.{Decoded, ResultsMessage, on_results, handle_message, is_error}

module _ (F : Floats) where
  open F use {Float}

  results_stale :
      (to_int : Float → ℤ) (lang : String) (gen : ℕ) (msg : Option (ResultsMessage Float))
      (s : SessionView)
      → gen ≢ s.gen
      → on_results F to_int lang gen msg s ≡ none
  unfolding on_results
  results_stale to_int lang gen msg s h = ground arith

  -- A message read from a connection that the session has replaced brings no transcript, and leaves the
  -- session as it is unless it is an error: an error closes the session, though its connection is live.
  pub stale_message :
      (to_int : Float → ℤ) (lang : String) (now gen : ℕ) (msg : Decoded Float) (s : SessionView)
      → gen ≢ s.gen
      → let (after, sent) = handle_message F to_int lang now gen msg s in
        (sent ≡ none)
        × (is_error msg.as_error ≡ false → after ≡ s)
        × (is_error msg.as_error ≡ true → after.closed ≡ true)
  unfolding handle_message
  stale_message to_int lang now gen msg s h = elim (Bool-cases (is_error msg.as_error)) [
    | inl e ↦ rw e (refl, (λ f. cc), (λ _. fail_and_close-closed now vendor_error s))
    | inr e ↦ rw e (results_stale to_int lang gen msg.as_results s h, (λ _. refl), (λ f. cc))
  ]
