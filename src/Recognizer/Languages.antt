-- ===== src/Recognizer/Languages.antt =====
-- The languages of pkg/asr/deepgram.go and pkg/asr/sarvam.go: what StartStream asks of the vendor for
-- the hint of a session.
pub mod Hints
use lang_stream.Prelude.{
  ℕ, zero, suc, ◌+◌, ◌-◌, ◌*◌, ◌/◌, ◌%◌, ◌^◌, ◌≤◌, ◌<◌, ◌≡◌, refl, sym, ap, ap₂, subst, ◌∙◌, ◌≢◌,
  ◌↔◌, ◌⊎◌, inl, inr, Bool, Bool-cases, Option-cases, true, false, not, ◌&&◌, ◌||◌, Option, none,
  some, List, [], ◌∷◌, ◌++◌, map, arith, ltb, leb, ◌==◌, if◌then◌else◌, if_cases, length, take,
  ==_iff,
}
use Prim.Native.String.{String}
use text.Mathlib.Text.{◌==◌ as str_eq}
use lang_stream.Breaker.{CircuitBreaker}
use lang_stream.Recognizer.{StreamSession, start_stream}

-- The language of the transcripts, and the model and language that the vendor is asked for.
pub record Wire : Type 0 where
  pub lang : String
  pub model : String
  pub wire_language : String

-- The models of DeepgramRecognizer: for English and for Hindi.
pub record Models : Type 0 where
  pub model : String
  pub hindi_model : String

-- The switch of Deepgram's StartStream; none for a language that it does not support.
unfoldable pub deepgram_wire : Models → (hint : String) → Option Wire
deepgram_wire m hint =
    let lang = if str_eq hint "" then "en" else hint in
    if str_eq lang "en"
    then some (record { lang = lang; model = m.model; wire_language = "en" })
    else if str_eq lang "hi"
    then some (record { lang = lang; model = m.hindi_model; wire_language = "multi" })
    else none

-- sarvamLanguageCodes.
unfoldable pub sarvam_language_code : String → Option String
sarvam_language_code lang =
    if str_eq lang "hi" then some "hi-IN" else if str_eq lang "en" then some "en-IN" else none

unfoldable pub sarvam_wire : (model : String) → (hint : String) → Option Wire
unfolding sarvam_language_code
sarvam_wire model hint =
    let lang = if str_eq hint "" then "hi" else hint in
    elim (sarvam_language_code lang) [
      | none ↦ none
      | some code ↦ some (record { lang = lang; model = model; wire_language = code })
    ]

pub data Refusal : Type 0 where
  unsupported_language : Refusal
  circuit_open : Refusal

-- StartStream, with the vendor's table of languages: the breaker is asked last.
unfoldable pub start_in :
    Option Wire → CircuitBreaker → (now : ℕ) → CircuitBreaker × (Refusal ⊎ (Wire × StreamSession))
start_in none b now = (b, inl unsupported_language)
start_in (some wire) b now =
    let (b', session) = start_stream b now in
    (b', elim session [ none ↦ inl circuit_open | some s ↦ inr (wire, s) ])
