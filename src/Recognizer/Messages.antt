-- ===== src/Recognizer/Messages.antt =====
-- handleMessage of pkg/asr/deepgram.go: what a message of the vendor does to a session. The decoder of
-- JSON is left to the environment: a message is read as an error and as a result, each `none` when it
-- does not decode as such.
pub mod Stale
use lang_stream.Prelude.{
  ℕ, zero, suc, ◌+◌, ◌-◌, ◌*◌, ◌/◌, ◌%◌, ◌^◌, ◌≤◌, ◌<◌, ◌≡◌, refl, sym, ap, ap₂, subst, ◌∙◌, ◌≢◌,
  ◌↔◌, ◌⊎◌, inl, inr, Bool, Bool-cases, Option-cases, true, false, not, ◌&&◌, ◌||◌, Option, none,
  some, List, [], ◌∷◌, ◌++◌, map, arith, ltb, leb, ◌==◌, if◌then◌else◌, if_cases, length, take,
  ==_iff,
}
use Prim.Native.String.{String}
use text.Mathlib.Text.{◌==◌ as str_eq}
use lang_stream.Prelude.Int.{ℤ, pos}
use lang_stream.Floats.{Floats}
use lang_stream.Audio.{Transcript}
use lang_stream.Recognizer.{SessionView, fail_and_close, vendor_error}

pub record ErrorMessage : Type 0 where
  pub err_code : String
  pub err_msg : String

pub record Alternative (Float : Type 0) : Type 0 where
  pub transcript : String
  pub confidence : Float

pub record ResultsMessage (Float : Type 0) : Type 0 where
  pub kind : String
  pub is_final : Bool
  pub start : Float
  pub duration : Float
  pub alternatives : List (Alternative Float)

pub record Decoded (Float : Type 0) : Type 0 where
  pub as_error : Option ErrorMessage
  pub as_results : Option (ResultsMessage Float)

abbrev pub is_error : Option ErrorMessage → Bool
is_error none = false
is_error (some e) = not (str_eq e.err_code "")

module _ (F : Floats) where
  open F use {Float, of_int, mul, add}

  -- The conversion of a float64 to int64 is a parameter.
  unfoldable pub transcript_of :
      (to_int : Float → ℤ)
      → (lang : String) → ResultsMessage Float
      → Alternative Float
      → Transcript Float
  transcript_of to_int lang msg alt = record {
    text = alt.transcript;
    language = lang;
    is_final = msg.is_final;
    confidence = alt.confidence;
    start_ms = to_int (mul msg.start (of_int (pos 1000)));
    end_ms = to_int (mul (add msg.start msg.duration) (of_int (pos 1000)));
  }

  -- The transcript of a message that has one, for a session that is open on the connection `gen`.
  unfoldable pub on_results :
      (to_int : Float → ℤ)
      → (lang : String) → (gen : ℕ) → Option (ResultsMessage Float)
      → SessionView
      → Option (Transcript Float)
  unfolding transcript_of
  on_results to_int lang gen none s = none
  on_results to_int lang gen (some msg) s =
      if not (str_eq msg.kind "Results") then none else elim msg.alternatives [
        | [] ↦ none
        | alt ∷ _ ↦
            if str_eq alt.transcript ""
            then none
            else if s.closed || not (gen == s.gen)
            then none
            else some (transcript_of to_int lang msg alt)
      ]

  -- The session and the transcript for its channel, if any.
  unfoldable pub handle_message :
      (to_int : Float → ℤ)
      → (lang : String) → (now gen : ℕ) → Decoded Float
      → SessionView
      → SessionView × Option (Transcript Float)
  unfolding on_results
  handle_message to_int lang now gen msg s =
      if is_error msg.as_error
      then (fail_and_close now vendor_error s, none)
      else (s, on_results to_int lang gen msg.as_results s)
