-- ===== src/Examples/Wires.antt =====
-- Tests of the WebSocket frames and of the word error rate.
use lang_stream.Prelude.{ℕ, ◌≤◌, ◌≡◌, refl, inl, true, false, some, List, [], ◌∷◌, ◌++◌, arith}
use Prim.Native.String.{String}
use lang_stream.Websocket.{
  write_ws_frame, read_ws_frame, read_ws_message, new_assembly, message, read_body, read_length,
  read_key, read_payload, read_full, unmasked,
}
use lang_stream.Websocket.Frames.{read_ws_frame-write_ws_frame}
use lang_stream.Websocket.Messages.{
  Brings, brings_first, goes_ping, goes_last, pongs, message_reassembled,
}
use lang_stream.Websocket.Termination.{HasResult, read_ws_message_returns}
use lang_stream.Quality.{distance}
use lang_stream.Quality.Scripts.{Edits, distance_least}

read_ws_frame-write_ws_frame_example :
    read_ws_frame (write_ws_frame (1 ∷ 2 ∷ 3 ∷ 4 ∷ []) 1 (72 ∷ 105 ∷ []) ++ 9 ∷ [])
    ≡ inl (record { fin = true; opcode = 1; payload = 72 ∷ 105 ∷ [] }, 9 ∷ [])
read_ws_frame-write_ws_frame_example =
    read_ws_frame-write_ws_frame (1 ∷ 2 ∷ 3 ∷ 4 ∷ []) 1 (72 ∷ 105 ∷ []) (9 ∷ []) (omega arith) refl
      (omega arith, (omega arith, (omega arith, (omega arith, tt))))
      (omega arith, (omega arith, tt)) (omega arith)

-- A text message in two frames with a ping between them, and a byte behind it.
abbrev wire : List ℕ
wire = 1 ∷ 1 ∷ 72 ∷ 0x89 ∷ 1 ∷ 5 ∷ 0x80 ∷ 1 ∷ 105 ∷ 7 ∷ []

wire-Brings : Brings 1 wire (72 ∷ 105 ∷ []) ((5 ∷ []) ∷ []) (7 ∷ [])
unfolding read_ws_frame read_body read_length read_key read_payload read_full unmasked
wire-Brings = brings_first refl refl refl (goes_ping refl refl (goes_last refl refl refl))

message_reassembled_example :
    read_ws_message 20 (λ n. true) wire new_assembly
    ≡ some (record {
      result = message 1 (72 ∷ 105 ∷ []);
      written = pongs ((5 ∷ []) ∷ []);
      left = 7 ∷ [];
    })
message_reassembled_example =
    message_reassembled (λ n. true) (λ n. refl) 20 1 wire (72 ∷ 105 ∷ []) (7 ∷ []) ((5 ∷ []) ∷ [])
      (inl refl) wire-Brings (omega arith)

read_ws_message_returns_example : HasResult (read_ws_message 20 (λ n. false) wire new_assembly)
read_ws_message_returns_example =
    read_ws_message_returns 20 (λ n. false) wire new_assembly (omega arith)

abbrev said : List String
said = "the" ∷ "red" ∷ "fox" ∷ []

abbrev noted : List String
noted = "red" ∷ "box" ∷ []

distance_least_example :
    Edits said noted (distance said noted)
    × ((n : ℕ) → Edits said noted n → distance said noted ≤ n)
distance_least_example = distance_least said noted
