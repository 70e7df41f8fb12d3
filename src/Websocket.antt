-- ===== src/Websocket.antt =====
-- pkg/tts/cartesia_ws.go: the frames of the WebSocket client (RFC 6455). A byte is a number below 256;
-- the connection's input is the list of the bytes to come. The handshake is left to the connection.
pub mod Frames
pub mod Messages
pub mod Termination
use lang_stream.Prelude.{
  ℕ, zero, suc, ◌+◌, ◌-◌, ◌*◌, ◌/◌, ◌%◌, ◌^◌, ◌≤◌, ◌<◌, ◌≡◌, refl, sym, ap, ap₂, subst, ◌∙◌, ◌≢◌,
  ◌↔◌, ◌⊎◌, inl, inr, Bool, Bool-cases, Option-cases, true, false, not, ◌&&◌, ◌||◌, Option, none,
  some, List, [], ◌∷◌, ◌++◌, map, arith, ltb, leb, ◌==◌, if◌then◌else◌, if_cases, length,
}
use Prim.Native.Nat.{bit_and, bit_or, bit_xor}

abbrev pub ws_op_continuation : ℕ
ws_op_continuation = 0

abbrev pub ws_op_text : ℕ
ws_op_text = 1

abbrev pub ws_op_binary : ℕ
ws_op_binary = 2

abbrev pub ws_op_close : ℕ
ws_op_close = 8

abbrev pub ws_op_ping : ℕ
ws_op_ping = 9

abbrev pub ws_op_pong : ℕ
ws_op_pong = 10

-- 16 MiB.
abbrev pub max_ws_frame_payload : ℕ
max_ws_frame_payload = 16 * 1024 * 1024

-- The bytes of a number, the most significant first, and the number of such bytes.
unfoldable pub put_uint : ℕ → ℕ → List ℕ
put_uint zero n = []
put_uint (suc width) n = n / 256 ^ width % 256 ∷ put_uint width n

unfoldable pub big_endian : ℕ → List ℕ → ℕ
big_endian before [] = before
big_endian before (b ∷ bs) = big_endian (before * 256 + b) bs

abbrev pub key_byte : List ℕ → ℕ → ℕ
key_byte [] i = 0
key_byte (b ∷ bs) zero = b
key_byte (b ∷ bs) (suc i) = key_byte bs i

-- The bytes from the i-th on, each xor the key's byte i % 4.
unfoldable pub mask_from : List ℕ → ℕ → List ℕ → List ℕ
mask_from key i [] = []
mask_from key i (b ∷ bs) = bit_xor b (key_byte key (i % 4)) ∷ mask_from key (i + 1) bs

-- The length field of a client's frame.
unfoldable pub length_field : ℕ → List ℕ
unfolding put_uint
length_field n =
    if leb n 125
    then bit_or 0x80 n ∷ []
    else if leb n 65535
    then bit_or 0x80 126 ∷ put_uint 2 n
    else bit_or 0x80 127 ∷ put_uint 8 n

-- The bytes that writeWSFrame writes, with the key that rand.Read gives it.
unfoldable pub write_ws_frame : List ℕ → ℕ → List ℕ → List ℕ
unfolding length_field mask_from
write_ws_frame mask_key opcode payload =
    bit_or 0x80 opcode ∷ length_field (length payload) ++ (mask_key ++ mask_from mask_key 0 payload)

-- io.ReadFull: so many bytes, and what is left; none if they are not there.
unfoldable pub read_full : ℕ → List ℕ → Option (List ℕ × List ℕ)
read_full zero bytes = some ([], bytes)
read_full (suc n) [] = none
read_full (suc n) (b ∷ bytes) = elim (read_full n bytes) [
  | none ↦ none
  | some (got, rest) ↦ some (b ∷ got, rest)
]

pub data ReadError : Type 0 where
  unexpected_eof too_large : ReadError

pub record Frame : Type 0 where
  pub fin : Bool
  pub opcode : ℕ
  pub payload : List ℕ

unfoldable pub read_uint : ℕ → List ℕ → Option (ℕ × List ℕ)
unfolding read_full big_endian
read_uint width bytes = elim (read_full width bytes) [
  | none ↦ none
  | some (got, rest) ↦ some (big_endian 0 got, rest)
]

-- The length, by the seven bits of the second byte.
unfoldable pub read_length : ℕ → List ℕ → Option (ℕ × List ℕ)
unfolding read_uint
read_length short bytes =
    if short == 126
    then read_uint 2 bytes
    else if short == 127
    then read_uint 8 bytes
    else some (short, bytes)

unfoldable pub read_key : (masked : Bool) → List ℕ → Option (List ℕ × List ℕ)
unfolding read_full
read_key false bytes = some ([], bytes)
read_key true bytes = read_full 4 bytes

unfoldable pub unmasked : (masked : Bool) → List ℕ → List ℕ → List ℕ
unfolding mask_from
unmasked false key payload = payload
unmasked true key payload = mask_from key 0 payload

-- The payload, once the key is read.
unfoldable pub read_payload :
    (fin : Bool) (opcode : ℕ) (masked : Bool)
    → ℕ
    → Option (List ℕ × List ℕ)
    → (Frame × List ℕ) ⊎ ReadError
unfolding read_full unmasked
read_payload fin opcode masked n none = inr unexpected_eof
read_payload fin opcode masked n (some (key, bytes)) = elim (read_full n bytes) [
  | none ↦ inr unexpected_eof
  | some (payload, rest) ↦
      inl (record { fin = fin; opcode = opcode; payload = unmasked masked key payload }, rest)
]

-- The rest of a frame, once its length is read. A length of 2^63 and more is negative as an int64.
unfoldable pub read_body :
    (fin : Bool) (opcode : ℕ) (masked : Bool) → Option (ℕ × List ℕ) → (Frame × List ℕ) ⊎ ReadError
unfolding read_key read_payload
read_body fin opcode masked none = inr unexpected_eof
read_body fin opcode masked (some (n, bytes)) =
    if leb (2 ^ 63) n || ltb max_ws_frame_payload n
    then inr too_large
    else read_payload fin opcode masked n (read_key masked bytes)

unfoldable pub read_ws_frame : List ℕ → (Frame × List ℕ) ⊎ ReadError
unfolding read_length read_body
read_ws_frame [] = inr unexpected_eof
read_ws_frame (b0 ∷ []) = inr unexpected_eof
read_ws_frame (b0 ∷ b1 ∷ bytes) =
    read_body (not (bit_and b0 0x80 == 0)) (bit_and b0 0x0F) (not (bit_and b1 0x80 == 0))
      (read_length (bit_and b1 0x7F) bytes)

-- `assembled`, `msgOpcode` and `started` of readWSMessage.
pub record Assembly : Type 0 where
  pub assembled : List ℕ
  pub msg_opcode : ℕ
  pub started : Bool

abbrev pub new_assembly : Assembly
new_assembly = record { assembled = []; msg_opcode = 0; started = false }

-- What a frame does to the loop.
pub data Verdict : Type 0 where
  answers_ping closes : List ℕ → Verdict
  ignores unexpected_continuation unsupported_opcode : Verdict
  assembles : Assembly → Verdict
  completes : (opcode : ℕ) → List ℕ → Verdict

unfoldable pub on_frame : Assembly → Frame → Verdict
on_frame a f =
    let joined_data = a.assembled ++ f.payload in
    if f.opcode == ws_op_ping
    then answers_ping f.payload
    else if f.opcode == ws_op_pong
    then ignores
    else if f.opcode == ws_op_close
    then closes f.payload
    else if f.opcode == ws_op_continuation
    then (if not a.started
        then unexpected_continuation
        else if f.fin
        then completes a.msg_opcode joined_data
        else assembles (record a { assembled = joined_data }))
    else if f.opcode == ws_op_text || f.opcode == ws_op_binary
    then (if f.fin && not a.started
        then completes f.opcode f.payload
        else if f.fin
        then completes f.opcode joined_data
        else assembles (record { assembled = joined_data; msg_opcode = f.opcode; started = true }))
    else unsupported_opcode

-- What readWSMessage returns.
pub data MessageResult : Type 0 where
  message : (opcode : ℕ) → List ℕ → MessageResult
  closed : List ℕ → MessageResult
  unexpected_continuation_frame unsupported_frame write_failed : MessageResult
  read_failed : ReadError → MessageResult

-- The result, the frames that are written meanwhile (opcode and payload), and the input that is left.
pub record Received : Type 0 where
  pub result : MessageResult
  pub written : List (ℕ × List ℕ)
  pub left : List ℕ

abbrev pub wrote : ℕ × List ℕ → Received → Received
wrote frame r = record r { written = frame ∷ r.written }

-- What follows a frame: `next` is the loop on the bytes that are left. Whether a pong can be written
-- is `write_ok`.
unfoldable pub after_frame :
    (write_ok : Bool) → Verdict → List ℕ → (Assembly → Option Received) → Assembly → Option Received
after_frame write_ok (answers_ping data_bytes) left next a =
    let later = next a in
    if write_ok
    then elim later [ none ↦ none | some r ↦ some (wrote (ws_op_pong, data_bytes) r) ]
    else some (record { result = write_failed; written = []; left = left })
after_frame write_ok ignores left next a = next a
after_frame write_ok (closes data_bytes) left next a =
    some (record { result = closed data_bytes; written = (ws_op_close, []) ∷ []; left = left })
after_frame write_ok unexpected_continuation left next a =
    some (record { result = unexpected_continuation_frame; written = []; left = left })
after_frame write_ok unsupported_opcode left next a =
    some (record { result = unsupported_frame; written = []; left = left })
after_frame write_ok (assembles a') left next a = next a'
after_frame write_ok (completes opcode data_bytes) left next a =
    some (record { result = message opcode data_bytes; written = []; left = left })

-- The loop, on fuel; `write_ok` says whether a write succeeds when so many bytes are left.
unfoldable pub read_ws_message : ℕ → (ℕ → Bool) → List ℕ → Assembly → Option Received
unfolding on_frame after_frame
read_ws_message zero write_ok bytes a = none
read_ws_message (suc fuel) write_ok bytes a = elim (read_ws_frame bytes) [
  | inr err ↦ some (record { result = read_failed err; written = []; left = [] })
  | inl (f, left) ↦
      after_frame (write_ok (length left)) (on_frame a f) left
        (λ a'. read_ws_message fuel write_ok left a') a
]
