-- ===== src/Websocket/Termination.antt =====
-- The loop of readWSMessage in pkg/tts/cartesia_ws.go ends: every frame takes bytes from the connection.
use lang_stream.Prelude.{
  ℕ, zero, suc, ◌≤◌, ◌<◌, ◌≡◌, refl, sym, subst, ◌⊎◌, inl, inr, Bool, true, false, not, Option,
  none, some, List, [], ◌∷◌, arith, ◌==◌, if_cases, length,
}
use lang_stream.Websocket.{
  bit_and, Frame, ReadError, read_full, read_uint, read_length, read_key, read_payload, read_body,
  read_ws_frame, Assembly, Verdict, on_frame, after_frame, read_ws_message, Received, MessageResult,
  wrote, ws_op_pong, answers_ping, closes, ignores, unexpected_continuation, unsupported_opcode,
  assembles, completes,
}

-- At most n bytes are left.
data Leaves {A : Type 0} (n : ℕ) : Option (A × List ℕ) → Type 0 where
  leaves_none : Leaves n none
  leaves_some : {a : A} {left : List ℕ} → length left ≤ n → Leaves n (some (a, left))

data Within (n : ℕ) : (Frame × List ℕ) ⊎ ReadError → Type 0 where
  within_error : {err : ReadError} → Within n (inr err)
  within_frame : {f : Frame} {left : List ℕ} → length left ≤ n → Within n (inl (f, left))

Leaves-more :
    (b n : ℕ) (o : Option (List ℕ × List ℕ))
    → Leaves n o
    → Leaves (suc n) (elim o [ none ↦ none | some (got, rest) ↦ some (b ∷ got, rest) ])
Leaves-more b n none h = leaves_none
Leaves-more b n (some (got, rest)) (leaves_some le) = leaves_some (omega arith)

read_full-Leaves : (n : ℕ) (bytes : List ℕ) → Leaves (length bytes) (read_full n bytes)
unfolding read_full
read_full-Leaves zero bytes = leaves_some (omega arith)
read_full-Leaves (suc n) [] = leaves_none
read_full-Leaves (suc n) (b ∷ bytes) =
    Leaves-more b (length bytes) (read_full n bytes) (read_full-Leaves n bytes)

Leaves-mapped :
    {A B : Type 0} (g : A → B) (n : ℕ) (o : Option (A × List ℕ))
    → Leaves n o
    → Leaves n (elim o [ none ↦ none | some (got, rest) ↦ some (g got, rest) ])
Leaves-mapped g n none h = leaves_none
Leaves-mapped g n (some (got, rest)) (leaves_some le) = leaves_some le

read_length-Leaves : (short : ℕ) (bytes : List ℕ) → Leaves (length bytes) (read_length short bytes)
unfolding read_length read_uint
read_length-Leaves short bytes =
    if_cases (Leaves (length bytes)) (short == 126) _ _
      (λ _. Leaves-mapped _ (length bytes) (read_full 2 bytes) (read_full-Leaves 2 bytes))
      (λ _.
        if_cases (Leaves (length bytes)) (short == 127) _ _
          (λ _. Leaves-mapped _ (length bytes) (read_full 8 bytes) (read_full-Leaves 8 bytes))
          (λ _. leaves_some (omega arith)))

read_key-Leaves : (masked : Bool) (bytes : List ℕ) → Leaves (length bytes) (read_key masked bytes)
unfolding read_key
read_key-Leaves false bytes = leaves_some (omega arith)
read_key-Leaves true bytes = read_full-Leaves 4 bytes

payload_Within :
    (g : List ℕ → Frame) (n : ℕ) (o : Option (List ℕ × List ℕ))
    → Leaves n o
    → Within n (elim o [
      | none ↦ inr ReadError.unexpected_eof
      | some (payload, rest) ↦ inl (g payload, rest)
    ])
payload_Within g n none h = within_error
payload_Within g n (some (payload, rest)) (leaves_some le) = within_frame le

Within-le : (m n : ℕ) (r : (Frame × List ℕ) ⊎ ReadError) → m ≤ n → Within m r → Within n r
Within-le m n r le within_error = within_error
Within-le m n r le (within_frame h) = within_frame (omega arith)

read_payload-Within :
    (fin : Bool) (opcode : ℕ) (masked : Bool) (n k : ℕ) (o : Option (List ℕ × List ℕ))
    → Leaves k o
    → Within k (read_payload fin opcode masked n o)
unfolding read_payload
read_payload-Within fin opcode masked n k none h = within_error
read_payload-Within fin opcode masked n k (some (key, bytes)) (leaves_some le) =
    Within-le (length bytes) k _ le
      (payload_Within _ (length bytes) (read_full n bytes) (read_full-Leaves n bytes))

read_body-Within :
    (fin : Bool) (opcode : ℕ) (masked : Bool) (k : ℕ) (o : Option (ℕ × List ℕ))
    → Leaves k o
    → Within k (read_body fin opcode masked o)
unfolding read_body
read_body-Within fin opcode masked k none h = within_error
read_body-Within fin opcode masked k (some (n, bytes)) (leaves_some le) =
    if_cases (Within k) _ (inr ReadError.too_large)
      (read_payload fin opcode masked n (read_key masked bytes)) (λ _. within_error)
      (λ _. Within-le (length bytes) k _ le (
        read_payload-Within fin opcode masked n (length bytes) (read_key masked bytes)
          (read_key-Leaves masked bytes)))

-- A frame takes two bytes or more.
read_ws_frame-Within :
    (b0 b1 : ℕ) (bytes : List ℕ) → Within (length bytes) (read_ws_frame (b0 ∷ b1 ∷ bytes))
unfolding read_ws_frame
read_ws_frame-Within b0 b1 bytes =
    let short = bit_and b1 0x7F in
    read_body-Within (not (bit_and b0 0x80 == 0)) (bit_and b0 0x0F) (not (bit_and b1 0x80 == 0))
      (length bytes) (read_length short bytes) (read_length-Leaves short bytes)

pub read_ws_frame-shorter :
    (bytes left : List ℕ) (f : Frame)
    → read_ws_frame bytes ≡ inl (f, left)
    → length left < length bytes
unfolding read_ws_frame
read_ws_frame-shorter [] left f e = ground (arith, e)
read_ws_frame-shorter (b0 ∷ []) left f e = ground (arith, e)
read_ws_frame-shorter (b0 ∷ b1 ∷ bytes) left f e =
    elim (subst (Within (length bytes)) e (read_ws_frame-Within b0 b1 bytes)) [
      | within_frame le ↦ omega arith
    ]

-- The loop has a result.
pub data HasResult : Option Received → Type 0 where
  has_result : {r : Received} → HasResult (some r)

wrote-HasResult :
    (frame : ℕ × List ℕ) (o : Option Received)
    → HasResult o
    → HasResult (elim o [ none ↦ none | some r ↦ some (wrote frame r) ])
wrote-HasResult frame (some r) has_result = has_result
wrote-HasResult frame none h = elim h [ ]

after_frame-HasResult :
    (ok : Bool) (v : Verdict) (left : List ℕ) (next : Assembly → Option Received) (a : Assembly)
    → ((b : Assembly) → HasResult (next b))
    → HasResult (after_frame ok v left next a)
unfolding after_frame
after_frame-HasResult true (answers_ping d) left next a h =
    wrote-HasResult (ws_op_pong, d) (next a) (h a)
after_frame-HasResult false (answers_ping d) left next a h = has_result
after_frame-HasResult ok ignores left next a h = h a
after_frame-HasResult ok (closes d) left next a h = has_result
after_frame-HasResult ok unexpected_continuation left next a h = has_result
after_frame-HasResult ok unsupported_opcode left next a h = has_result
after_frame-HasResult ok (assembles b) left next a h = h b
after_frame-HasResult ok (completes op d) left next a h = has_result

frame-cases :
    (bytes : List ℕ)
    → ((err : ReadError) × (read_ws_frame bytes ≡ inr err))
      ⊎ ((f : Frame) × (left : List ℕ) × (read_ws_frame bytes ≡ inl (f, left)))
frame-cases bytes = cases (read_ws_frame bytes) refl
  where
    cases :
        (r : (Frame × List ℕ) ⊎ ReadError)
        → read_ws_frame bytes ≡ r
        → ((err : ReadError) × (read_ws_frame bytes ≡ inr err))
          ⊎ ((f : Frame) × (left : List ℕ) × (read_ws_frame bytes ≡ inl (f, left)))
    cases (inr err) e = inl (err, e)
    cases (inl (f, left)) e = inr (f, left, e)

abbrev pub after_read : ℕ → (ℕ → Bool) → Assembly → (Frame × List ℕ) ⊎ ReadError → Option Received
after_read fuel write_ok a r = elim r [
  | inr err ↦ some (record { result = MessageResult.read_failed err; written = []; left = [] })
  | inl (f, left) ↦
      after_frame (write_ok (length left)) (on_frame a f) left
        (λ b. read_ws_message fuel write_ok left b) a
]

-- With more fuel than there are bytes to come, readWSMessage returns, whatever the bytes are and
-- whichever writes fail.
pub read_ws_message_returns :
    (fuel : ℕ) (write_ok : ℕ → Bool) (bytes : List ℕ) (a : Assembly)
    → length bytes < fuel
    → HasResult (read_ws_message fuel write_ok bytes a)
unfolding read_ws_message
read_ws_message_returns zero write_ok bytes a lt = absurd (omega arith)
read_ws_message_returns (suc fuel) write_ok bytes a lt = elim (frame-cases bytes) [
  | inl (err, e) ↦ subst (λ r. HasResult (after_read fuel write_ok a r)) (sym e) has_result
  | inr (f, left, e) ↦
      subst (λ r. HasResult (after_read fuel write_ok a r)) (sym e)
        (after_frame-HasResult (write_ok (length left)) (on_frame a f) left
          (λ b. read_ws_message fuel write_ok left b) a
          (λ b.
            read_ws_message_returns fuel write_ok left b
              (omega (arith, read_ws_frame-shorter bytes left f e))))
]
