-- ===== src/Examples/Streams.antt =====
-- Tests of the streams that the vendors' clients read.
use lang_stream.Prelude.{
  ℕ, ◌≡◌, refl, inl, inr, true, false, Option, none, some, List, [], ◌∷◌, ◌==◌, if◌then◌else◌,
}
use Prim.Native.String.{String}
use lang_stream.Prelude.Int.{pos}
use lang_stream.Breaker.{new_circuit_breaker}
use lang_stream.Metrics.{new_latency_recorder}
use lang_stream.Fallback.{record_success}
use lang_stream.Leg.{listening}
use lang_stream.Session.{synthesize_step}
use lang_stream.Client.Sse.{Line, data_of, trim_space, trim_left, cut_prefix, is_space}
use lang_stream.Client.Sse.Reads.{read_all}
use lang_stream.Client.Translate.{answered, Weather, translate, Reason, permanent}
use lang_stream.Client.Translate.Charged.{IsAccounted, translate_accounts}
use lang_stream.Client.Gpt4o.{ChatCompletionChunk, done_sentinel, read_stream, cost}
use lang_stream.Client.Gpt4o.Stream.{
  Carries, no_lines, chunk_line, text_of, last_usage, stream_translates,
}
use lang_stream.Client.Gemini.{
  GeminiResponse, gemini_unsafe_finish_reasons, read_stream as gemini_read_stream,
}
use lang_stream.Client.Gemini.Blocked.{candidate_blocks, unsafe_here, blocked_stream}
use lang_stream.Client.Cartesia.{CartesiaMessage, Incoming, on_message, on_kind, read_loop}
use lang_stream.Client.Cartesia.Stream.{
  Brings, nothing, chunk_message, connection_breaks, on_channel, broken_stream_succeeds,
}
use lang_stream.Examples.Voice.{numbers}
use lang_stream.Examples.Legs.{config, works, leg, spoken}

abbrev greeting : ChatCompletionChunk
greeting = record {
  contents = "hal" ∷ "lo" ∷ [];
  usage = some (record { prompt_tokens = 2; completion_tokens = 3 });
}

-- A decoder that knows one text, {}.
abbrev braces : List ℕ
braces = b'{' ∷ b'}' ∷ []

abbrev decode : List ℕ → Option ChatCompletionChunk
decode [] = none
decode (c ∷ s) = if c == b'{' then some greeting else none

abbrev data_line : List ℕ → Line
data_line s = record { context_ended = false; text = b'd' ∷ b'a' ∷ b't' ∷ b'a' ∷ b':' ∷ b' ' ∷ s }

abbrev greeting_line : Line
greeting_line = data_line braces

greets : Carries decode (greeting_line ∷ []) (greeting ∷ [])
unfolding data_of trim_space trim_left cut_prefix is_space
greets = chunk_line refl refl refl refl no_lines

stream_translates_example :
    (read_stream decode (greeting_line ∷ data_line done_sentinel ∷ []) true
      ≡ inl (text_of (greeting ∷ []), last_usage none (greeting ∷ [])))
    × (read_stream decode (greeting_line ∷ []) false
        ≡ inl (text_of (greeting ∷ []), last_usage none (greeting ∷ [])))
unfolding data_of trim_space trim_left cut_prefix is_space
stream_translates_example =
    stream_translates decode true (greeting_line ∷ []) [] (data_line done_sentinel) done_sentinel
      (greeting ∷ []) greets refl refl refl

abbrev filtered : GeminiResponse
filtered = record {
  candidates = record { parts = []; finish_reason = "SAFETY" } ∷ [];
  block_reason = none;
  usage_metadata = none;
}

blocked_stream_example :
    (reason : Reason) × (gemini_read_stream (λ d. some filtered) (greeting_line ∷ []) false
      ≡ inr (permanent reason))
unfolding data_of trim_space trim_left cut_prefix is_space gemini_unsafe_finish_reasons
blocked_stream_example =
    blocked_stream (λ d. some filtered) false (record { out = ""; usage = none }) [] []
      greeting_line braces filtered read_all refl refl refl (candidate_blocks (unsafe_here refl))

abbrev fine : Weather
fine = record {
  ended_at_start = false;
  now = 1;
  later = 2;
  wait_cut = λ i. false;
  exchange = λ i. answered 200 "" (greeting_line ∷ []) false;
  ended_after = λ i. false;
}

translate_accounts_example :
    IsAccounted numbers "gpt-4o" "gpt-4o"
      (read_stream decode)
      (cost numbers)
      (some new_latency_recorder)
      (translate numbers "gpt-4o" "gpt-4o"
        (read_stream decode)
        (cost numbers)
        (("hi", "en") ∷ [])
        (new_circuit_breaker (pos 0) (pos 0))
        (some new_latency_recorder)
        fine
        "namaste"
        "hi"
        "en"
        true)
translate_accounts_example =
    translate_accounts numbers "gpt-4o" "gpt-4o" (read_stream decode) (cost numbers)
      (("hi", "en") ∷ []) (new_circuit_breaker (pos 0) (pos 0)) (some new_latency_recorder) fine
      "namaste" "hi" "en" true

abbrev chunk_message_of : CartesiaMessage
chunk_message_of = record { kind = "chunk"; data_text = "AQI="; done = false; context_id = "c" }

abbrev arrives : Incoming
arrives = record { context_ended = false; message = some (1, []); send_cut = false }

abbrev drops : Incoming
drops = record { context_ended = false; message = none; send_cut = false }

abbrev to_message : List ℕ → Option CartesiaMessage
to_message payload = some chunk_message_of

abbrev to_bytes : String → Option (List ℕ)
to_bytes s = some (1 ∷ 2 ∷ [])

Brings-one : Brings to_message to_bytes (pos 8000) "c" (arrives ∷ []) (spoken ∷ [])
unfolding on_message on_kind
Brings-one = chunk_message refl refl refl refl refl nothing

broken_stream_succeeds_example :
    let (after, heard) =
      synthesize_step numbers config works leg.state [] none new_latency_recorder
        (inl (on_channel (read_loop to_message to_bytes (pos 8000) "c" (arrives ∷ drops ∷ [])))) in
    (heard ≡ spoken ∷ []) × (after.mode ≡ listening) × (after.state ≡ record_success leg.state)
broken_stream_succeeds_example =
    broken_stream_succeeds numbers to_message to_bytes (pos 8000) "c" (arrives ∷ []) [] drops
      (spoken ∷ []) config works leg.state [] none new_latency_recorder Brings-one
      (connection_breaks refl)
