-- ===== src/Client/Cartesia.antt =====
-- pkg/tts/cartesia.go: the request, and the messages of its answer. The JSON and base64 decoders and
-- the connection are parameters; a synthesizer without a dial timeout and one with it differ in what
-- the connection does.
pub mod Stream
use lang_stream.Prelude.{
  ℕ, zero, suc, ◌+◌, ◌-◌, ◌*◌, ◌/◌, ◌%◌, ◌^◌, ◌≤◌, ◌<◌, ◌≡◌, refl, sym, ap, ap₂, subst, ◌∙◌, ◌≢◌,
  ◌↔◌, ◌⊎◌, inl, inr, Bool, Bool-cases, Option-cases, true, false, not, ◌&&◌, ◌||◌, Option, none,
  some, List, [], ◌∷◌, ◌++◌, map, arith, ltb, leb, ◌==◌, if◌then◌else◌, if_cases, length,
}
use Prim.Native.String.{String}
use text.Mathlib.Text.{◌==◌ as str_eq}
use lang_stream.Prelude.Int.{pos, ℤ}
use lang_stream.Floats.{Floats}
use lang_stream.Audio.{Persona, AudioChunk}
use lang_stream.Backoff.{ConnErr}
use lang_stream.Breaker.{CircuitBreaker}
use lang_stream.Metrics.{LatencyRecorder}
use lang_stream.Client.{Failure, Request, answers, fails, unprepared, Round}
use lang_stream.Client.Synthesize.{
  VendorError, status_error, conn_error, Weather, synthesize_stream,
}

-- The fields of a cartesiaMessage that readLoop reads.
pub record CartesiaMessage : Type 0 where
  pub kind : String
  pub data_text : String
  pub done : Bool
  pub context_id : String

-- What comes of connectAndSend: an error of the dial (with the handshake's status, if that is what was
-- refused), of the encoding or of the write; `broken` is the error of the connection.
pub data Connect : Type 0 where
  rejected : (status : ℤ) → Connect
  not_dialed : (broken : ConnErr) → Connect
  not_encoded : Connect
  not_sent : (broken : ConnErr) → Connect
  connected : Connect

unfoldable pub connect_and_send : Connect → Option VendorError
connect_and_send (rejected status) = some (status_error status)
connect_and_send (not_dialed broken) = some (conn_error broken)
connect_and_send not_encoded = some (conn_error ConnErr.other_error)
connect_and_send (not_sent broken) = some (conn_error broken)
connect_and_send connected = none

-- A round: the context id is made first, and is what a connection is read for.
unfoldable pub dial :
    (context_id : Option String) → Connect → (context_ended : Bool) → Request String VendorError
unfolding connect_and_send
dial none attempt ended = unprepared (conn_error ConnErr.other_error)
dial (some cid) attempt ended = elim (connect_and_send attempt) [
  | none ↦ answers cid
  | some err ↦ fails err ended
]

-- What the loop meets: the context before the read, the message that readWSMessage returns (none for
-- an error) with its opcode, and whether the context ends while a chunk waits for the reader.
pub record Incoming : Type 0 where
  pub context_ended : Bool
  pub message : Option (ℕ × List ℕ)
  pub send_cut : Bool

abbrev pub ws_op_text : ℕ
ws_op_text = 1

-- What a message does: nothing, the end of the loop, or a chunk (the last one or not).
pub data Effect : Type 0 where
  ignored stops : Effect
  emits : AudioChunk → Effect

module _ (decode : List ℕ → Option CartesiaMessage) (decode_base64 : String → Option (List ℕ))
    (sample_rate : ℤ) (context_id : String) where
  unfoldable pub on_kind : CartesiaMessage → Effect
  on_kind msg =
      if str_eq msg.kind "chunk"
      then elim (decode_base64 msg.data_text) [
        | none ↦ stops
        | some pcm ↦ emits (record { pcm = pcm; sample_rate = sample_rate; is_final = msg.done })
      ]
      else if str_eq msg.kind "done" || str_eq msg.kind "error"
      then stops
      else ignored

  unfoldable pub on_message : ℕ → List ℕ → Effect
  unfolding on_kind
  on_message opcode payload =
      if not (opcode == ws_op_text) then ignored else elim (decode payload) [
        | none ↦ stops
        | some msg ↦
            if not (str_eq msg.context_id "") && not (str_eq msg.context_id context_id)
            then ignored
            else on_kind msg
      ]

  -- A turn of the loop, where `rest` is what the later ones send.
  unfoldable pub turn : Effect → (send_cut : Bool) → List AudioChunk → List AudioChunk
  turn ignored cut rest = rest
  turn stops cut rest = []
  turn (emits chunk) cut rest =
      if cut then [] else if chunk.is_final then chunk ∷ [] else chunk ∷ rest

  -- The chunks that the loop sends before it closes the channel.
  unfoldable pub read_loop : List Incoming → List AudioChunk
  unfolding on_message turn
  read_loop [] = []
  read_loop (i ∷ is) =
      let rest = read_loop is in
      if i.context_ended then [] else elim i.message [
        | none ↦ []
        | some (opcode, payload) ↦ turn (on_message opcode payload) i.send_cut rest
      ]

module _ (F : Floats) where
  open F use {Float, of_int, div}

  -- 0.00004 USD.
  abbrev pub cartesia_cost_per_char_usd : Float
  cartesia_cost_per_char_usd = div (of_int (pos 4)) (of_int (pos 100_000))

  unfoldable pub synthesize_cartesia :
      CircuitBreaker
      → Option (LatencyRecorder Float)
      → Weather String
      → String
      → Persona
      → CircuitBreaker × Option (LatencyRecorder Float) × (String ⊎ Failure VendorError) × ℕ
  synthesize_cartesia = synthesize_stream F "cartesia" cartesia_cost_per_char_usd
