-- ===== src/Client/Gpt4o.antt =====
-- pkg/translate/gpt4o.go: the stream of chat completion chunks, the price of a translation, and
-- Translate. The JSON decoder is a parameter; indices, finish reasons and the total of the tokens,
-- which nothing reads, are left out.
pub mod Stream
use lang_stream.Prelude.{
  ℕ, zero, suc, ◌+◌, ◌-◌, ◌*◌, ◌/◌, ◌%◌, ◌^◌, ◌≤◌, ◌<◌, ◌≡◌, refl, sym, ap, ap₂, subst, ◌∙◌, ◌≢◌,
  ◌↔◌, ◌⊎◌, inl, inr, Bool, true, false, not, ◌&&◌, ◌||◌, Option, none, some, List, [], ◌∷◌, ◌++◌,
  map, arith, ltb, leb, ◌==◌, if◌then◌else◌, if_cases,
}
use Prim.Native.String.{String, count, ◌++◌ as str_append}
use text.Mathlib.Text.{◌==◌ as str_eq}
use lang_stream.Prelude.Int.{pos}
use lang_stream.Floats.{Floats}
use lang_stream.Audio.{Chunk}
use lang_stream.Breaker.{CircuitBreaker, new_circuit_breaker}
use lang_stream.Metrics.{LatencyRecorder}
use lang_stream.Client.{Failure}
use lang_stream.Client.Sse.{Line, Flow, continue, return, read_lines}
use lang_stream.Client.Translate.{
  TranslateError, permanent, passing, malformed_chunk, context_done, reading_stream, Weather,
  translate,
}

-- `prompt_tokens` and `completion_tokens`.
pub record ChatCompletionUsage : Type 0 where
  pub prompt_tokens : ℕ
  pub completion_tokens : ℕ

-- The contents of the choices, and the usage.
pub record ChatCompletionChunk : Type 0 where
  pub contents : List String
  pub usage : Option ChatCompletionUsage

-- `out` and `usage` of readStream.
pub record Read : Type 0 where
  pub out : String
  pub usage : Option ChatCompletionUsage

-- The data of the last event.
abbrev pub done_sentinel : List ℕ
done_sentinel = b'[' ∷ b'D' ∷ b'O' ∷ b'N' ∷ b'E' ∷ b']' ∷ []

abbrev pub same_codes : List ℕ → List ℕ → Bool
same_codes [] [] = true
same_codes [] (d ∷ t) = false
same_codes (c ∷ s) [] = false
same_codes (c ∷ s) (d ∷ t) = c == d && same_codes s t

unfoldable pub write_contents : String → List String → String
write_contents out [] = out
write_contents out (c ∷ cs) = write_contents (str_append out c) cs

unfoldable pub take_chunk : Read → ChatCompletionChunk → Read
unfolding write_contents
take_chunk s chunk = record {
  out = write_contents s.out chunk.contents;
  usage = elim chunk.usage [ none ↦ s.usage | some u ↦ some u ];
}

abbrev pub GptResult : Type 0
GptResult = (String × Option ChatCompletionUsage) ⊎ TranslateError

module _ (decode : List ℕ → Option ChatCompletionChunk) where
  unfoldable pub on_data : Read → List ℕ → Flow Read GptResult
  unfolding take_chunk
  on_data s data_text =
      if same_codes data_text done_sentinel
      then return (inl (s.out, s.usage))
      else elim (decode data_text) [
        | none ↦ return (inr (permanent (malformed_chunk data_text)))
        | some chunk ↦ continue (take_chunk s chunk)
      ]

  -- What follows the loop: `broken` is the scanner's error.
  unfoldable pub on_end : Bool → Read → GptResult
  on_end broken s = if broken then inr (passing reading_stream) else inl (s.out, s.usage)

  unfoldable pub read_stream : List Line → Bool → GptResult
  unfolding on_data on_end
  read_stream lines broken =
      read_lines on_data (inr (permanent context_done)) (on_end broken)
        (record { out = ""; usage = none }) lines

module _ (F : Floats) where
  open F use {Float, of_int, add, mul, div}

  -- 2.50 and 10.00 USD for a million tokens; an integer over an integer is the float64 nearest to it.
  abbrev pub gpt4o_input_cost_per_token_usd : Float
  gpt4o_input_cost_per_token_usd = div (of_int (pos 25)) (of_int (pos 10_000_000))

  abbrev pub gpt4o_output_cost_per_token_usd : Float
  gpt4o_output_cost_per_token_usd = div (of_int (pos 10)) (of_int (pos 1_000_000))

  abbrev pub gpt4o_approx_chars_per_token : Float
  gpt4o_approx_chars_per_token = of_int (pos 4)

  abbrev priced : Float → Float → Float
  priced prompt_tokens completion_tokens =
      add (mul prompt_tokens gpt4o_input_cost_per_token_usd)
        (mul completion_tokens gpt4o_output_cost_per_token_usd)

  -- The cost that recordCost records.
  unfoldable pub cost : String → String → Option ChatCompletionUsage → Float
  cost input_text output_text (some usage) =
      priced (of_int (pos usage.prompt_tokens)) (of_int (pos usage.completion_tokens))
  cost input_text output_text none =
      priced (div (of_int (pos (count input_text))) gpt4o_approx_chars_per_token)
        (div (of_int (pos (count output_text))) gpt4o_approx_chars_per_token)

  -- Translate of a GPT4oTranslator.
  unfoldable pub translate_gpt4o :
      (decode : List ℕ → Option ChatCompletionChunk)
      → List (String × String)
      → CircuitBreaker
      → Option (LatencyRecorder Float)
      → Weather
      → (text source target : String) → (is_final : Bool)
      → CircuitBreaker × Option (LatencyRecorder Float) × (Chunk ⊎ Failure TranslateError) × ℕ
  unfolding read_stream cost
  translate_gpt4o decode = translate F "gpt-4o" "gpt-4o" (read_stream decode) cost

-- The English name that the prompt gives a language.
unfoldable pub language_name : String → String
language_name l = if str_eq l "hi" then "Hindi" else if str_eq l "en" then "English" else l
