-- ===== src/Websocket/Messages.antt =====
-- Whole messages of pkg/tts/cartesia_ws.go: the loop puts a fragmented message together.
use mathlib.Core.List.{append_assoc}
use lang_stream.Websocket.Termination.{read_ws_frame-shorter, after_read}
use lang_stream.Prelude.{
  ℕ, zero, suc, ◌<◌, ◌≡◌, refl, ap, ap₂, ◌∙◌, ◌⊎◌, inl, inr, Bool, true, false, Option, some, List,
  [], ◌∷◌, ◌++◌, arith, length,
}
use lang_stream.Websocket.{
  Frame, read_ws_frame, Assembly, new_assembly, Verdict, on_frame, after_frame, read_ws_message,
  Received, message, wrote, ws_op_ping, ws_op_pong, ws_op_continuation, ws_op_text, ws_op_binary,
  answers_ping, ignores, assembles, completes,
}

-- The bytes bring the rest of a message that has begun: its pieces so far `assembled`, the payloads of
-- the pings between them, and the bytes behind the message.
pub data Goes : List ℕ → (text : List ℕ) (pings : List (List ℕ)) (rest : List ℕ) → Type 0 where
  goes_ping :
      {bytes left text rest : List ℕ} {pings : List (List ℕ)} {f : Frame}
      → read_ws_frame bytes ≡ inl (f, left)
      → f.opcode ≡ ws_op_ping
      → Goes left text pings rest
      → Goes bytes text (f.payload ∷ pings) rest
  goes_pong :
      {bytes left text rest : List ℕ} {pings : List (List ℕ)} {f : Frame}
      → read_ws_frame bytes ≡ inl (f, left)
      → f.opcode ≡ ws_op_pong
      → Goes left text pings rest
      → Goes bytes text pings rest
  goes_piece :
      {bytes left text rest : List ℕ} {pings : List (List ℕ)} {f : Frame}
      → read_ws_frame bytes ≡ inl (f, left)
      → f.opcode ≡ ws_op_continuation
      → f.fin ≡ false
      → Goes left text pings rest
      → Goes bytes (f.payload ++ text) pings rest
  goes_last :
      {bytes left : List ℕ} {f : Frame}
      → read_ws_frame bytes ≡ inl (f, left)
      → f.opcode ≡ ws_op_continuation
      → f.fin ≡ true
      → Goes bytes f.payload [] left

-- The bytes bring a whole message of the kind `op`, in one frame or in several.
pub data Brings (op : ℕ)
    : List ℕ → (text : List ℕ) (pings : List (List ℕ)) (rest : List ℕ) → Type 0 where
  brings_ping :
      {bytes left text rest : List ℕ} {pings : List (List ℕ)} {f : Frame}
      → read_ws_frame bytes ≡ inl (f, left)
      → f.opcode ≡ ws_op_ping
      → Brings op left text pings rest
      → Brings op bytes text (f.payload ∷ pings) rest
  brings_pong :
      {bytes left text rest : List ℕ} {pings : List (List ℕ)} {f : Frame}
      → read_ws_frame bytes ≡ inl (f, left)
      → f.opcode ≡ ws_op_pong
      → Brings op left text pings rest
      → Brings op bytes text pings rest
  brings_whole :
      {bytes left : List ℕ} {f : Frame}
      → read_ws_frame bytes ≡ inl (f, left)
      → f.opcode ≡ op
      → f.fin ≡ true
      → Brings op bytes f.payload [] left
  brings_first :
      {bytes left text rest : List ℕ} {pings : List (List ℕ)} {f : Frame}
      → read_ws_frame bytes ≡ inl (f, left)
      → f.opcode ≡ op
      → f.fin ≡ false
      → Goes left text pings rest
      → Brings op bytes (f.payload ++ text) pings rest

-- The pongs that answer some pings.
pub pongs : List (List ℕ) → List (ℕ × List ℕ)
pongs [] = []
pongs (p ∷ ps) = (ws_op_pong, p) ∷ pongs ps

on_frame-ping :
    (a : Assembly) (f : Frame) → f.opcode ≡ ws_op_ping → on_frame a f ≡ answers_ping f.payload
unfolding on_frame
on_frame-ping a f e = ground arith

on_frame-pong : (a : Assembly) (f : Frame) → f.opcode ≡ ws_op_pong → on_frame a f ≡ ignores
unfolding on_frame
on_frame-pong a f e = ground arith

on_frame-piece :
    (a : Assembly) (f : Frame)
    → f.opcode ≡ ws_op_continuation
    → f.fin ≡ false
    → a.started ≡ true
    → on_frame a f ≡ assembles (record a { assembled = a.assembled ++ f.payload })
unfolding on_frame
on_frame-piece a f e fin started = ground arith

on_frame-last :
    (a : Assembly) (f : Frame)
    → f.opcode ≡ ws_op_continuation
    → f.fin ≡ true
    → a.started ≡ true
    → on_frame a f ≡ completes a.msg_opcode (a.assembled ++ f.payload)
unfolding on_frame
on_frame-last a f e fin started = ground arith

abbrev IsData : ℕ → Type 0
IsData op = (op ≡ ws_op_text) ⊎ (op ≡ ws_op_binary)

on_frame-whole :
    (f : Frame) (op : ℕ)
    → IsData op
    → f.opcode ≡ op
    → f.fin ≡ true
    → on_frame new_assembly f ≡ completes op f.payload
unfolding on_frame
on_frame-whole f op (inl d) e fin = ground arith
on_frame-whole f op (inr d) e fin = ground arith

on_frame-first :
    (f : Frame) (op : ℕ)
    → IsData op
    → f.opcode ≡ op
    → f.fin ≡ false
    → on_frame new_assembly f
      ≡ assembles (record { assembled = f.payload; msg_opcode = op; started = true })
unfolding on_frame
on_frame-first f op (inl d) e fin = ground arith
on_frame-first f op (inr d) e fin = ground arith

module _ (write_ok : ℕ → Bool) (writes : (n : ℕ) → write_ok n ≡ true) where
  abbrev next : ℕ → List ℕ → Assembly → Option Received
  next fuel left b = read_ws_message fuel write_ok left b

  one_frame :
      (fuel : ℕ) (bytes left : List ℕ) (a : Assembly) (f : Frame) (v : Verdict)
      → read_ws_frame bytes ≡ inl (f, left)
      → on_frame a f ≡ v
      → read_ws_message (suc fuel) write_ok bytes a ≡ after_frame true v left (next fuel left) a
  unfolding read_ws_message
  one_frame fuel bytes left a f v e judged =
      ap (after_read fuel write_ok a) e
      ∙ ap₂ (λ ok w. after_frame ok w left (next fuel left) a) (writes (length left)) judged

  answered :
      (left p : List ℕ) (after : Assembly → Option Received) (a : Assembly) (r : Received)
      → after a ≡ some r
      → after_frame true (answers_ping p) left after a ≡ some (wrote (ws_op_pong, p) r)
  unfolding after_frame
  answered left p after a r e = ground (arith, e)

  Goes-read :
      (fuel : ℕ) (bytes text rest : List ℕ) (pings : List (List ℕ)) (a : Assembly)
      → Goes bytes text pings rest
      → a.started ≡ true
      → length bytes < fuel
      → read_ws_message fuel write_ok bytes a
        ≡ some (record {
          result = message a.msg_opcode (a.assembled ++ text);
          written = pongs pings;
          left = rest;
        })
  unfolding pongs after_frame
  Goes-read zero bytes text rest pings a goes started lt = absurd (omega arith)
  Goes-read (suc fuel) bytes text rest pings a
        (goes_ping {left = left} {pings = ps} {f = f} e is more) started lt =
      let later =
        Goes-read fuel left text rest ps a more started
          (omega (arith, read_ws_frame-shorter bytes left f e)) in
      one_frame fuel bytes left a f (answers_ping f.payload) e (on_frame-ping a f is)
      ∙ answered left f.payload (next fuel left) a _ later
  Goes-read (suc fuel) bytes text rest pings a (goes_pong {left = left} {f = f} e is more) started
        lt =
      one_frame fuel bytes left a f ignores e (on_frame-pong a f is)
      ∙ Goes-read fuel left text rest pings a more started
          (omega (arith, read_ws_frame-shorter bytes left f e))
  Goes-read (suc fuel) bytes text rest pings a
        (goes_piece {left = left} {text = tail} {f = f} e is fin more) started lt =
      let b : Assembly = record a { assembled = a.assembled ++ f.payload } in
      one_frame fuel bytes left a f (assembles b) e (on_frame-piece a f is fin started)
      ∙ Goes-read fuel left tail rest pings b more started
          (omega (arith, read_ws_frame-shorter bytes left f e))
      ∙ ap
          (λ t.
            some (record { result = message a.msg_opcode t; written = pongs pings; left = rest }))
          (append_assoc a.assembled f.payload tail)
  Goes-read (suc fuel) bytes text rest pings a (goes_last {left = left} {f = f} e is fin) started
        lt =
      one_frame fuel bytes left a f (completes a.msg_opcode (a.assembled ++ f.payload)) e
        (on_frame-last a f is fin started)

  -- When the bytes bring a text or binary message, in one frame or in several, with pings and pongs
  -- among them, readWSMessage returns the payloads joined in order under the message's opcode,
  -- answers every ping with a pong of the same payload, in order, and leaves the bytes behind the
  -- message, given that the writes succeed.
  pub message_reassembled :
      (fuel op : ℕ) (bytes text rest : List ℕ) (pings : List (List ℕ))
      → (op ≡ ws_op_text) ⊎ (op ≡ ws_op_binary)
      → Brings op bytes text pings rest
      → length bytes < fuel
      → read_ws_message fuel write_ok bytes new_assembly
        ≡ some (record { result = message op text; written = pongs pings; left = rest })
  unfolding pongs after_frame
  message_reassembled zero op bytes text rest pings is_data brings lt = absurd (omega arith)
  message_reassembled (suc fuel) op bytes text rest pings is_data
        (brings_ping {left = left} {pings = ps} {f = f} e is more) lt =
      let later =
        message_reassembled fuel op left text rest ps is_data more
          (omega (arith, read_ws_frame-shorter bytes left f e)) in
      one_frame fuel bytes left new_assembly f (answers_ping f.payload) e
        (on_frame-ping new_assembly f is)
      ∙ answered left f.payload (next fuel left) new_assembly _ later
  message_reassembled (suc fuel) op bytes text rest pings is_data
        (brings_pong {left = left} {f = f} e is more) lt =
      one_frame fuel bytes left new_assembly f ignores e (on_frame-pong new_assembly f is)
      ∙ message_reassembled fuel op left text rest pings is_data more
          (omega (arith, read_ws_frame-shorter bytes left f e))
  message_reassembled (suc fuel) op bytes text rest pings is_data
        (brings_whole {left = left} {f = f} e is fin) lt =
      one_frame fuel bytes left new_assembly f (completes op f.payload) e
        (on_frame-whole f op is_data is fin)
  message_reassembled (suc fuel) op bytes text rest pings is_data
        (brings_first {left = left} {text = tail} {f = f} e is fin more) lt =
      let b : Assembly = record { assembled = f.payload; msg_opcode = op; started = true } in
      one_frame fuel bytes left new_assembly f (assembles b) e (on_frame-first f op is_data is fin)
      ∙ Goes-read fuel left tail rest pings b more refl
          (omega (arith, read_ws_frame-shorter bytes left f e))
