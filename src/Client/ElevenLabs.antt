-- ===== src/Client/ElevenLabs.antt =====
-- pkg/tts/elevenlabs.go: the request, and the reads of its body. The connection is a parameter.
pub mod Stream
use lang_stream.Prelude.{
  ℕ, zero, suc, ◌+◌, ◌-◌, ◌*◌, ◌/◌, ◌%◌, ◌^◌, ◌≤◌, ◌<◌, ◌≡◌, refl, sym, ap, ap₂, subst, ◌∙◌, ◌≢◌,
  ◌↔◌, ◌⊎◌, inl, inr, Bool, Bool-cases, Option-cases, true, false, not, ◌&&◌, ◌||◌, Option, none,
  some, List, [], ◌∷◌, ◌++◌, map, arith, ltb, leb, ◌==◌, if◌then◌else◌, if_cases, length,
}
use Prim.Native.String.{String}
use lang_stream.Prelude.Int.{pos, ℤ, leb_ℤ}
use lang_stream.Floats.{Floats}
use lang_stream.Audio.{Persona, AudioChunk}
use lang_stream.Backoff.{ConnErr}
use lang_stream.Breaker.{CircuitBreaker}
use lang_stream.Metrics.{LatencyRecorder}
use lang_stream.Client.{Failure, Request, answers, fails, unprepared, Round}
use lang_stream.Client.Synthesize.{
  VendorError, status_error, conn_error, Weather, synthesize_stream,
}

-- What comes of a POST.
pub data Response : Type 0 where
  not_encoded : Response
  not_built : Response
  not_answered : (broken : ConnErr) → Response
  answered : (status : ℤ) → Response

-- The error of one request, or none for a 200.
unfoldable pub request_once : Response → Option VendorError
request_once not_encoded = some (conn_error ConnErr.other_error)
request_once not_built = some (conn_error ConnErr.other_error)
request_once (not_answered broken) = some (conn_error broken)
request_once (answered status) =
    if leb_ℤ status (pos 200) && leb_ℤ (pos 200) status then none else some (status_error status)

-- The body of an answer.
pub data Body : Type 0 where
  opened : Body

-- A round. The text is encoded once, before the first request.
unfoldable pub post : Response → (context_ended : Bool) → Request Body VendorError
unfolding request_once
post not_encoded ended = unprepared (conn_error ConnErr.other_error)
post response ended = elim (request_once response) [
  | none ↦ answers opened
  | some err ↦ fails err ended
]

-- How a read of the body ends.
pub data ReadEnd : Type 0 where
  more eof broken : ReadEnd

-- A read of the body: the context before it, the bytes it brings, how it ends, and whether the context
-- ends while its chunk waits for the reader.
pub record BodyRead : Type 0 where
  pub context_ended : Bool
  pub bytes : List ℕ
  pub ending : ReadEnd
  pub send_cut : Bool

module _ (sample_rate : ℤ) where
  abbrev pub chunk_of : List ℕ → Bool → AudioChunk
  chunk_of pcm is_final = record { pcm = pcm; sample_rate = sample_rate; is_final = is_final }

  abbrev at_end : ReadEnd → Bool
  at_end eof = true
  at_end _ = false

  -- What follows the chunk of a read: `rest` is what the later reads send.
  unfoldable pub after_read :
      ReadEnd → (is_empty send_cut : Bool) → List AudioChunk → List AudioChunk
  after_read more empty cut rest = rest
  after_read broken empty cut rest = []
  after_read eof empty cut rest = if empty && not cut then chunk_of [] true ∷ [] else []

  -- The chunks that readLoop sends before it closes the channel.
  unfoldable pub read_loop : List BodyRead → List AudioChunk
  unfolding after_read
  read_loop [] = []
  read_loop (r ∷ rs) =
      let rest = read_loop rs in
      if r.context_ended
      then []
      else if ltb 0 (length r.bytes)
      then (if r.send_cut
          then []
          else chunk_of r.bytes (at_end r.ending) ∷ after_read r.ending false r.send_cut rest)
      else after_read r.ending true r.send_cut rest

module _ (F : Floats) where
  open F use {Float, of_int, div}

  -- 0.00018 USD.
  abbrev pub elevenlabs_cost_per_char_usd : Float
  elevenlabs_cost_per_char_usd = div (of_int (pos 18)) (of_int (pos 100_000))

  unfoldable pub synthesize_elevenlabs :
      CircuitBreaker
      → Option (LatencyRecorder Float)
      → Weather Body
      → String
      → Persona
      → CircuitBreaker × Option (LatencyRecorder Float) × (Body ⊎ Failure VendorError) × ℕ
  synthesize_elevenlabs = synthesize_stream F "elevenlabs" elevenlabs_cost_per_char_usd
