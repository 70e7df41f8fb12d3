-- ===== src/Client/Cartesia/Stream.antt =====
-- The chunks that readLoop of pkg/tts/cartesia.go makes of the messages, and what a session
-- (pkg/langstream/session.go) makes of a stream that breaks off.
use lang_stream.Prelude.{
  ℕ, ◌≡◌, refl, sym, ap, subst, ◌∙◌, inl, Bool, true, false, Option, none, some, List, [], ◌∷◌,
  ◌++◌, arith,
}
use Prim.Native.String.{String}
use mathlib.Core.List.{append-nil}
use lang_stream.Floats.{Floats}
use lang_stream.Fallback.{LegState, BufferedFrame, record_success}
use lang_stream.Metrics.{LatencyRecorder}
use lang_stream.Leg.{
  SessionConfig, Environment, TtsStream, closed, first_sent, listening,
  forward_tts_with_stall_guard, forward_audio,
}
use lang_stream.Session.{synthesize_step, after_tts}
use lang_stream.Prelude.Int.{ℤ}
use lang_stream.Audio.{AudioChunk}
use lang_stream.Client.Cartesia.{
  CartesiaMessage, Incoming, Effect, ignored, stops, emits, on_message, turn, read_loop,
}

module _ (decode : List ℕ → Option CartesiaMessage) (decode_base64 : String → Option (List ℕ))
    (sample_rate : ℤ) (context_id : String) where
  -- The messages bring these chunks, none of them marked as done, with messages of other contexts and
  -- other kinds between them, while the context lasts and the reader takes every chunk.
  pub data Brings : List Incoming → List AudioChunk → Type 0 where
    nothing : Brings [] []
    other_message :
        {i : Incoming} {is : List Incoming} {cs : List AudioChunk} {opcode : ℕ} {payload : List ℕ}
        → i.context_ended ≡ false
        → i.message ≡ some (opcode, payload)
        → on_message decode decode_base64 sample_rate context_id opcode payload ≡ ignored
        → Brings is cs
        → Brings (i ∷ is) cs
    chunk_message :
        {i : Incoming} {is : List Incoming} {c : AudioChunk} {cs : List AudioChunk} {opcode : ℕ}
        {payload : List ℕ}
        → i.context_ended ≡ false
        → i.send_cut ≡ false
        → i.message ≡ some (opcode, payload)
        → on_message decode decode_base64 sample_rate context_id opcode payload ≡ emits c
        → c.is_final ≡ false
        → Brings is cs
        → Brings (i ∷ is) (c ∷ cs)

  abbrev loop : List Incoming → List AudioChunk
  loop = read_loop decode decode_base64 sample_rate context_id

  turn_of :
      (i : Incoming) (is : List Incoming) (opcode : ℕ) (payload : List ℕ)
      → i.context_ended ≡ false
      → i.message ≡ some (opcode, payload)
      → loop (i ∷ is)
        ≡ turn decode decode_base64 sample_rate context_id
            (on_message decode decode_base64 sample_rate context_id opcode payload)
            i.send_cut
            (loop is)
  unfolding read_loop
  turn_of i is opcode payload alive there = ground (arith, alive, there)

  turn_ignored :
      (cut : Bool) (rest : List AudioChunk)
      → turn decode decode_base64 sample_rate context_id ignored cut rest ≡ rest
  unfolding turn
  turn_ignored cut rest = refl

  turn_more :
      (c : AudioChunk) (cut : Bool) (rest : List AudioChunk)
      → cut ≡ false
      → c.is_final ≡ false
      → turn decode decode_base64 sample_rate context_id (emits c) cut rest ≡ c ∷ rest
  unfolding turn
  turn_more c cut rest taken more = ground (arith, taken, more)

  turn_last :
      (c : AudioChunk) (cut : Bool) (rest : List AudioChunk)
      → cut ≡ false
      → c.is_final ≡ true
      → turn decode decode_base64 sample_rate context_id (emits c) cut rest ≡ c ∷ []
  unfolding turn
  turn_last c cut rest taken last = ground (arith, taken, last)

  turn_stops :
      (cut : Bool) (rest : List AudioChunk)
      → turn decode decode_base64 sample_rate context_id stops cut rest ≡ []
  unfolding turn
  turn_stops cut rest = refl

  abbrev effect : ℕ → List ℕ → Effect
  effect = on_message decode decode_base64 sample_rate context_id

  abbrev turn_with : Bool → List AudioChunk → Effect → List AudioChunk
  turn_with cut rest e = turn decode decode_base64 sample_rate context_id e cut rest

  loop-Brings :
      (is rest : List Incoming) (cs : List AudioChunk)
      → Brings is cs
      → loop (is ++ rest) ≡ cs ++ loop rest
  loop-Brings [] rest [] nothing = refl
  loop-Brings [] rest (c ∷ cs) h = elim h [ ]
  loop-Brings (i ∷ is) rest cs
        (other_message {opcode = opcode} {payload = payload} alive there skips more) =
      turn_of i (is ++ rest) opcode payload alive there
      ∙ ap (turn_with i.send_cut (loop (is ++ rest))) skips
      ∙ turn_ignored i.send_cut (loop (is ++ rest))
      ∙ loop-Brings is rest cs more
  loop-Brings (i ∷ is) rest (c ∷ cs)
        (chunk_message {opcode = opcode} {payload = payload} alive taken there sends unended more) =
      turn_of i (is ++ rest) opcode payload alive there
      ∙ ap (turn_with i.send_cut (loop (is ++ rest))) sends
      ∙ turn_more c i.send_cut (loop (is ++ rest)) taken unended
      ∙ ap (λ t. c ∷ t) (loop-Brings is rest cs more)

  -- A message that ends the loop without a chunk: an error of the connection, or one that the loop
  -- stops at (an error or a done message, or one that does not decode).
  pub data Ends : Incoming → Type 0 where
    connection_breaks : {i : Incoming} → i.message ≡ none → Ends i
    message_stops :
        {i : Incoming} {opcode : ℕ} {payload : List ℕ}
        → i.context_ended ≡ false
        → i.message ≡ some (opcode, payload)
        → effect opcode payload ≡ stops
        → Ends i

  loop-Ends : (i : Incoming) (rest : List Incoming) → Ends i → loop (i ∷ rest) ≡ []
  unfolding read_loop
  loop-Ends i rest (connection_breaks broken) = ground (arith, broken)
  loop-Ends i rest (message_stops {opcode = opcode} {payload = payload} alive there halts) =
      turn_of i rest opcode payload alive there
      ∙ ap (turn_with i.send_cut (loop rest)) halts
      ∙ turn_stops i.send_cut (loop rest)

  -- The channel gets the chunks of the context in order; behind them the one marked as done, when
  -- there is one; and nothing more when the connection breaks, an error or a done message comes, or a
  -- message does not decode: then no chunk is marked final.
  pub messages_are_spoken :
      (is rest : List Incoming) (last cut : Incoming) (cs : List AudioChunk) (c : AudioChunk)
      (opcode : ℕ) (payload : List ℕ)
      → Brings is cs
      → last.context_ended ≡ false
      → last.send_cut ≡ false
      → last.message ≡ some (opcode, payload)
      → effect opcode payload ≡ emits c
      → c.is_final ≡ true
      → Ends cut
      → (loop (is ++ last ∷ rest) ≡ cs ++ c ∷ []) × (loop (is ++ cut ∷ rest) ≡ cs)
  messages_are_spoken is rest last cut cs c opcode payload brings alive taken there sends ends
        cuts =
      (
        loop-Brings is (last ∷ rest) cs brings
            ∙ ap (λ t. cs ++ t)
                (turn_of last rest opcode payload alive there
                  ∙ ap (turn_with last.send_cut (loop rest)) sends
                  ∙ turn_last c last.send_cut (loop rest) taken ends),
        loop-Brings is (cut ∷ rest) cs brings
            ∙ ap (λ t. cs ++ t) (loop-Ends cut rest cuts)
            ∙ append-nil cs,
      )

-- What the session finds on the channel: the first chunk at once, or that it is closed.
pub on_channel : List AudioChunk → TtsStream
on_channel [] = closed
on_channel (c ∷ cs) = first_sent c cs none

module _ (F : Floats) where
  open F use {Float}

  pub data StartsUnended : List AudioChunk → Type 0 where
    no_chunk : StartsUnended []
    chunk_unended :
        {c : AudioChunk} {cs : List AudioChunk} → c.is_final ≡ false → StartsUnended (c ∷ cs)

  hears_chunks :
      (cfg : SessionConfig Float) (env : Environment Float) (leg : LegState)
      (frames : List BufferedFrame) (start : Option ℕ) (m : LatencyRecorder Float)
      (cs : List AudioChunk)
      → StartsUnended cs
      → let (after, heard) = synthesize_step F cfg env leg frames start m (inl (on_channel cs)) in
        (heard ≡ cs) × (after.mode ≡ listening) × (after.state ≡ record_success leg)
  unfolding synthesize_step forward_tts_with_stall_guard after_tts on_channel forward_audio
  hears_chunks cfg env leg frames start m [] no_chunk = (refl, refl, refl)
  hears_chunks cfg env leg frames start m (c ∷ cs) (chunk_unended e) = ground (arith, e)

  Brings-StartsUnended :
      (decode : List ℕ → Option CartesiaMessage) (decode_base64 : String → Option (List ℕ))
      (sample_rate : ℤ) (context_id : String) (is : List Incoming) (cs : List AudioChunk)
      → Brings decode decode_base64 sample_rate context_id is cs
      → StartsUnended cs
  Brings-StartsUnended decode decode_base64 sample_rate context_id [] [] nothing = no_chunk
  Brings-StartsUnended decode decode_base64 sample_rate context_id [] (c ∷ cs) h = elim h [ ]
  Brings-StartsUnended decode decode_base64 sample_rate context_id (i ∷ is) cs
        (other_message alive there skips more) =
      Brings-StartsUnended decode decode_base64 sample_rate context_id is cs more
  Brings-StartsUnended decode decode_base64 sample_rate context_id (i ∷ is) (c ∷ cs)
        (chunk_message alive taken there sends unended more) =
      chunk_unended unended

  -- When a Cartesia stream ends without a final chunk, by an error of the vendor or of the connection,
  -- after any number of chunks or before the first, the session passes on the chunks that there were,
  -- goes on, and counts the synthesis as a success: nothing is passed through in its place.
  pub broken_stream_succeeds :
      (decode : List ℕ → Option CartesiaMessage) (decode_base64 : String → Option (List ℕ))
      (sample_rate : ℤ) (context_id : String) (is rest : List Incoming) (cut : Incoming)
      (cs : List AudioChunk) (cfg : SessionConfig Float) (env : Environment Float) (leg : LegState)
      (frames : List BufferedFrame) (start : Option ℕ) (m : LatencyRecorder Float)
      → Brings decode decode_base64 sample_rate context_id is cs
      → Ends decode decode_base64 sample_rate context_id cut
      → let (after, heard) = synthesize_step F cfg env leg frames start m (
          inl (
            on_channel
              (read_loop decode decode_base64 sample_rate context_id (is ++ cut ∷ rest)))) in
        (heard ≡ cs) × (after.mode ≡ listening) × (after.state ≡ record_success leg)
  broken_stream_succeeds decode decode_base64 sample_rate context_id is rest cut cs cfg env leg
        frames start m brings ends =
      let read : read_loop decode decode_base64 sample_rate context_id (is ++ cut ∷ rest) ≡ cs =
        loop-Brings decode decode_base64 sample_rate context_id is (cut ∷ rest) cs brings
        ∙ ap (λ t. cs ++ t) (loop-Ends decode decode_base64 sample_rate context_id cut rest ends)
        ∙ append-nil cs in
      subst
        (λ sent.
          let (after, heard) =
            synthesize_step F cfg env leg frames start m (inl (on_channel sent)) in
          (heard ≡ cs) × (after.mode ≡ listening) × (after.state ≡ record_success leg))
        (sym read)
        (hears_chunks cfg env leg frames start m cs
          (Brings-StartsUnended decode decode_base64 sample_rate context_id is cs brings))
