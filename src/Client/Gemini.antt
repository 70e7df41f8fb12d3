-- ===== src/Client/Gemini.antt =====
-- pkg/translate/gemini.go: the stream of generateContent responses, with the content filter's answers,
-- the price of a translation, and Translate. The JSON decoder is a parameter.
pub mod Blocked
use lang_stream.Prelude.{
  ℕ, zero, suc, ◌+◌, ◌-◌, ◌*◌, ◌/◌, ◌%◌, ◌^◌, ◌≤◌, ◌<◌, ◌≡◌, refl, sym, ap, ap₂, subst, ◌∙◌, ◌≢◌,
  ◌↔◌, ◌⊎◌, inl, inr, Bool, true, false, not, ◌&&◌, ◌||◌, Option, none, some, List, [], ◌∷◌, ◌++◌,
  map, arith, ltb, leb, ◌==◌, if◌then◌else◌, if_cases,
}
use Prim.Native.String.{String, count, ◌++◌ as str_append}
use text.Mathlib.Text.{◌==◌ as str_eq}
use lang_stream.Prelude.Int.{pos}
use lang_stream.Floats.{Floats}
use lang_stream.Audio.{Chunk}
use lang_stream.Breaker.{CircuitBreaker}
use lang_stream.Metrics.{LatencyRecorder}
use lang_stream.Client.{Failure}
use lang_stream.Client.Sse.{Line, Flow, continue, return, read_lines}
use lang_stream.Client.Translate.{
  TranslateError, permanent, passing, malformed_chunk, prompt_blocked, unsafe_finish, context_done,
  reading_stream, Weather, translate,
}

pub record GeminiUsageMetadata : Type 0 where
  pub prompt_token_count : ℕ
  pub candidates_token_count : ℕ

-- `parts` are the texts of the content's parts.
pub record GeminiCandidate : Type 0 where
  pub parts : List String
  pub finish_reason : String

-- `block_reason` is that of the prompt feedback, if there is one.
pub record GeminiResponse : Type 0 where
  pub candidates : List GeminiCandidate
  pub block_reason : Option String
  pub usage_metadata : Option GeminiUsageMetadata

pub record Read : Type 0 where
  pub out : String
  pub usage : Option GeminiUsageMetadata

unfoldable pub gemini_unsafe_finish_reasons : String → Bool
gemini_unsafe_finish_reasons reason =
    str_eq reason "SAFETY"
    || str_eq reason "RECITATION"
    || str_eq reason "BLOCKLIST"
    || str_eq reason "PROHIBITED_CONTENT"

unfoldable pub write_parts : String → List String → String
write_parts out [] = out
write_parts out (p ∷ ps) = write_parts (str_append out p) ps

-- The loop over the candidates.
unfoldable pub write_candidates : String → List GeminiCandidate → String ⊎ TranslateError
unfolding gemini_unsafe_finish_reasons write_parts
write_candidates out [] = inl out
write_candidates out (c ∷ cs) =
    if gemini_unsafe_finish_reasons c.finish_reason
    then inr (permanent (unsafe_finish c.finish_reason))
    else write_candidates (write_parts out c.parts) cs

abbrev pub GeminiResult : Type 0
GeminiResult = (String × Option GeminiUsageMetadata) ⊎ TranslateError

unfoldable pub is_blocked : Option String → Option String
is_blocked none = none
is_blocked (some reason) = if str_eq reason "" then none else some reason

unfoldable pub on_response : Read → GeminiResponse → Flow Read GeminiResult
unfolding write_candidates is_blocked
on_response s resp =
    let usage : Option GeminiUsageMetadata = elim resp.usage_metadata [
      | none ↦ s.usage
      | some u ↦ some u
    ] in
    elim (is_blocked resp.block_reason) [
      | some reason ↦ return (inr (permanent (prompt_blocked reason)))
      | none ↦ elim (write_candidates s.out resp.candidates) [
        | inl out ↦ continue (record { out = out; usage = usage })
        | inr err ↦ return (inr err)
      ]
    ]

module _ (decode : List ℕ → Option GeminiResponse) where
  unfoldable pub on_data : Read → List ℕ → Flow Read GeminiResult
  unfolding on_response
  on_data s data_text = elim (decode data_text) [
    | none ↦ return (inr (permanent (malformed_chunk data_text)))
    | some resp ↦ on_response s resp
  ]

  unfoldable pub on_end : Bool → Read → GeminiResult
  on_end broken s = if broken then inr (passing reading_stream) else inl (s.out, s.usage)

  unfoldable pub read_stream : List Line → Bool → GeminiResult
  unfolding on_data on_end
  read_stream lines broken =
      read_lines on_data (inr (permanent context_done)) (on_end broken)
        (record { out = ""; usage = none }) lines

module _ (F : Floats) where
  open F use {Float, of_int, add, mul, div}

  -- 0.10 and 0.40 USD for a million tokens.
  abbrev pub gemini_input_cost_per_token_usd : Float
  gemini_input_cost_per_token_usd = div (of_int (pos 1)) (of_int (pos 10_000_000))

  abbrev pub gemini_output_cost_per_token_usd : Float
  gemini_output_cost_per_token_usd = div (of_int (pos 4)) (of_int (pos 10_000_000))

  abbrev pub gemini_approx_chars_per_token : Float
  gemini_approx_chars_per_token = of_int (pos 4)

  abbrev priced : Float → Float → Float
  priced prompt_tokens candidates_tokens =
      add (mul prompt_tokens gemini_input_cost_per_token_usd)
        (mul candidates_tokens gemini_output_cost_per_token_usd)

  -- The cost that recordCost records.
  unfoldable pub cost : String → String → Option GeminiUsageMetadata → Float
  cost input_text output_text (some usage) =
      priced (of_int (pos usage.prompt_token_count)) (of_int (pos usage.candidates_token_count))
  cost input_text output_text none =
      priced (div (of_int (pos (count input_text))) gemini_approx_chars_per_token)
        (div (of_int (pos (count output_text))) gemini_approx_chars_per_token)

  -- Translate of a GeminiTranslator.
  unfoldable pub translate_gemini :
      (decode : List ℕ → Option GeminiResponse)
      → List (String × String)
      → CircuitBreaker
      → Option (LatencyRecorder Float)
      → Weather
      → (text source target : String) → (is_final : Bool)
      → CircuitBreaker × Option (LatencyRecorder Float) × (Chunk ⊎ Failure TranslateError) × ℕ
  unfolding read_stream cost
  translate_gemini decode = translate F "gemini" "gemini" (read_stream decode) cost
