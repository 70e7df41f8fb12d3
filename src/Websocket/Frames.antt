-- ===== src/Websocket/Frames.antt =====
-- The frame codec of pkg/tts/cartesia_ws.go: a frame that is written is read back.
use lang_stream.Prelude.{
  All, ==_iff, &&_parts, ℕ, zero, suc, ◌+◌, ◌%◌, ◌^◌, ◌≤◌, ◌<◌, ◌≡◌, refl, sym, ap, ap₂, ◌∙◌, inl,
  inr, true, not, ◌&&◌, some, List, [], ◌∷◌, ◌++◌, arith, leb, ◌==◌, if_cases, length,
}
use Prim.Native.Nat.{bit_and, bit_or, bit_xor}
use mathlib.Core.List.{append_assoc}
use lang_stream.Prelude.Tables.{table, table_entry}
use lang_stream.Websocket.{
  too_large, max_ws_frame_payload, put_uint, big_endian, key_byte, mask_from, length_field,
  write_ws_frame, read_full, read_uint, read_length, read_key, unmasked, read_payload, read_body,
  read_ws_frame,
}

every_byte : table 256 (λ b. table 256 (λ k. bit_xor (bit_xor b k) k == b)) ≡ true
unfolding table
every_byte = refl

-- A byte masked twice with the same byte is itself.
xor_twice : (b k : ℕ) → b < 256 → k < 256 → bit_xor (bit_xor b k) k ≡ b
xor_twice b k hb hk =
    let row =
      table_entry (λ b. table 256 (λ k. bit_xor (bit_xor b k) k == b)) 256 b every_byte hb in
    (==_iff (bit_xor (bit_xor b k) k) b).0
      (table_entry (λ k. bit_xor (bit_xor b k) k == b) 256 k row hk)

key_byte-lt : (key : List ℕ) (i : ℕ) → All (λ b. b < 256) key → key_byte key i < 256
key_byte-lt [] i h = omega arith
key_byte-lt (b ∷ key) zero h = h.0
key_byte-lt (b ∷ key) (suc i) h = key_byte-lt key i h.1

-- Masking twice with the same key changes nothing.
mask_from-mask_from :
    (key : List ℕ) (i : ℕ) (bytes : List ℕ)
    → All (λ b. b < 256) key
    → All (λ b. b < 256) bytes
    → mask_from key i (mask_from key i bytes) ≡ bytes
unfolding mask_from
mask_from-mask_from key i [] hk h = refl
mask_from-mask_from key i (b ∷ bytes) hk h =
    ap₂ (λ x xs. x ∷ xs) (xor_twice b (key_byte key (i % 4)) h.0 (key_byte-lt key (i % 4) hk))
      (mask_from-mask_from key (i + 1) bytes hk h.1)

length-mask_from :
    (key : List ℕ) (i : ℕ) (bytes : List ℕ) → length (mask_from key i bytes) ≡ length bytes
unfolding mask_from
length-mask_from key i [] = refl
length-mask_from key i (b ∷ bytes) = ap suc (length-mask_from key (i + 1) bytes)

read_full-append : (got rest : List ℕ) → read_full (length got) (got ++ rest) ≡ some (got, rest)
unfolding read_full
read_full-append [] rest = refl
read_full-append (b ∷ got) rest = ground (arith, read_full-append got rest)

-- What the two bytes of the header say.
opcode_byte :
    (op : ℕ)
    → op < 16
    → (not (bit_and (bit_or 0x80 op) 0x80 == 0) ≡ true) × (bit_and (bit_or 0x80 op) 0x0F ≡ op)
unfolding table
opcode_byte op lt =
    let entry =
      table_entry
        (λ n. not (bit_and (bit_or 0x80 n) 0x80 == 0) && bit_and (bit_or 0x80 n) 0x0F == n) 16 op
        refl lt in
    let parts =
      &&_parts (not (bit_and (bit_or 0x80 op) 0x80 == 0)) (bit_and (bit_or 0x80 op) 0x0F == op)
        entry in
    (parts.0, (==_iff (bit_and (bit_or 0x80 op) 0x0F) op).0 parts.1)

length_byte :
    (n : ℕ)
    → n < 128
    → (not (bit_and (bit_or 0x80 n) 0x80 == 0) ≡ true) × (bit_and (bit_or 0x80 n) 0x7F ≡ n)
unfolding table
length_byte n lt =
    let entry =
      table_entry
        (λ n. not (bit_and (bit_or 0x80 n) 0x80 == 0) && bit_and (bit_or 0x80 n) 0x7F == n) 128 n
        refl lt in
    let parts =
      &&_parts (not (bit_and (bit_or 0x80 n) 0x80 == 0)) (bit_and (bit_or 0x80 n) 0x7F == n)
        entry in
    (parts.0, (==_iff (bit_and (bit_or 0x80 n) 0x7F) n).0 parts.1)

read_uint_two :
    (n : ℕ) (rest : List ℕ) → n < 65536 → read_uint 2 (put_uint 2 n ++ rest) ≡ some (n, rest)
unfolding read_uint read_full put_uint big_endian
read_uint_two n rest lt = ap (λ m. some (m, rest)) (omega arith)

read_uint_eight :
    (n : ℕ) (rest : List ℕ) → n < 2 ^ 63 → read_uint 8 (put_uint 8 n ++ rest) ≡ some (n, rest)
unfolding read_uint read_full put_uint big_endian
read_uint_eight n rest lt = ap (λ m. some (m, rest)) (omega arith)

-- The length field that is written: its second byte of the frame, with the mask bit, and what follows.
record IsField (n : ℕ) (field : List ℕ) : Type 0 where
  second : ℕ
  extended : List ℕ
  split : field ≡ second ∷ extended
  mask_bit : not (bit_and second 0x80 == 0) ≡ true
  reads_back :
      (rest : List ℕ) → read_length (bit_and second 0x7F) (extended ++ rest) ≡ some (n, rest)

read_length-short :
    (short n : ℕ) (rest : List ℕ) → short ≡ n → n < 126 → read_length short rest ≡ some (n, rest)
unfolding read_length
read_length-short short n rest e lt = ground arith

read_length-two :
    (short n : ℕ) (rest : List ℕ)
    → short ≡ 126
    → n < 65536
    → read_length short (put_uint 2 n ++ rest) ≡ some (n, rest)
unfolding read_length
read_length-two short n rest e lt = ground (arith, read_uint_two n rest lt)

read_length-eight :
    (short n : ℕ) (rest : List ℕ)
    → short ≡ 127
    → n < 2 ^ 63
    → read_length short (put_uint 8 n ++ rest) ≡ some (n, rest)
unfolding read_length
read_length-eight short n rest e lt = ground (arith, read_uint_eight n rest lt)

short-IsField : (n : ℕ) → n < 126 → IsField n (bit_or 0x80 n ∷ [])
short-IsField n lt = record {
  second = bit_or 0x80 n;
  extended = [];
  split = refl;
  mask_bit = (length_byte n (omega arith)).0;
  reads_back = λ rest. read_length-short _ n rest (length_byte n (omega arith)).1 lt;
}

two-IsField : (n : ℕ) → n < 65536 → IsField n (bit_or 0x80 126 ∷ put_uint 2 n)
two-IsField n lt = record {
  second = bit_or 0x80 126;
  extended = put_uint 2 n;
  split = refl;
  mask_bit = refl;
  reads_back = λ rest. read_length-two 126 n rest refl lt;
}

eight-IsField : (n : ℕ) → n < 2 ^ 63 → IsField n (bit_or 0x80 127 ∷ put_uint 8 n)
eight-IsField n lt = record {
  second = bit_or 0x80 127;
  extended = put_uint 8 n;
  split = refl;
  mask_bit = refl;
  reads_back = λ rest. read_length-eight 127 n rest refl lt;
}

length_field-IsField : (n : ℕ) → n < 2 ^ 63 → IsField n (length_field n)
unfolding length_field
length_field-IsField n lt =
    if_cases (IsField n) (leb n 125) (bit_or 0x80 n ∷ []) _ (λ e. short-IsField n (ground arith))
      (λ _.
        if_cases (IsField n) (leb n 65535) (bit_or 0x80 126 ∷ put_uint 2 n)
          (bit_or 0x80 127 ∷ put_uint 8 n) (λ e. two-IsField n (ground arith))
          (λ _. eight-IsField n lt))

-- What is read behind the header of a frame that has been written.
header_read :
    (mask_key : List ℕ) (opcode : ℕ) (payload rest : List ℕ)
    → opcode < 16
    → length payload < 2 ^ 63
    → read_ws_frame (write_ws_frame mask_key opcode payload ++ rest)
      ≡ read_body true opcode true
          (some (length payload, mask_key ++ (mask_from mask_key 0 payload ++ rest)))
unfolding write_ws_frame read_ws_frame
header_read mask_key opcode payload rest op_lt lt =
    let field = length_field-IsField (length payload) lt in
    let masked = mask_from mask_key 0 payload in
    let bytes : (length_field (length payload) ++ (mask_key ++ masked)) ++ rest
        ≡ field.second ∷ (field.extended ++ (mask_key ++ (masked ++ rest))) =
      append_assoc (length_field (length payload)) (mask_key ++ masked) rest
      ∙ ap (λ t. length_field (length payload) ++ t) (append_assoc mask_key masked rest)
      ∙ ap (λ t. t ++ (mask_key ++ (masked ++ rest))) field.split in
    ap (λ t. read_ws_frame (bit_or 0x80 opcode ∷ t)) bytes
    ∙ ap
        (λ m.
          read_body (not (bit_and (bit_or 0x80 opcode) 0x80 == 0))
            (bit_and (bit_or 0x80 opcode) 0x0F) (not (bit_and field.second 0x80 == 0)) m)
        (field.reads_back (mask_key ++ (masked ++ rest)))
    ∙ ap
        (λ f.
          read_body f (bit_and (bit_or 0x80 opcode) 0x0F) (not (bit_and field.second 0x80 == 0))
            (some (length payload, mask_key ++ (masked ++ rest))))
        (opcode_byte opcode op_lt).0
    ∙ ap₂ (λ o m. read_body true o m (some (length payload, mask_key ++ (masked ++ rest))))
        (opcode_byte opcode op_lt).1 field.mask_bit

body_read :
    (mask_key : List ℕ) (opcode : ℕ) (payload rest : List ℕ)
    → length mask_key ≡ 4
    → All (λ b. b < 256) mask_key
    → All (λ b. b < 256) payload
    → length payload ≤ max_ws_frame_payload
    → read_body true opcode true
        (some (length payload, mask_key ++ (mask_from mask_key 0 payload ++ rest)))
      ≡ inl (record { fin = true; opcode = opcode; payload = payload }, rest)
unfolding read_body read_key read_payload unmasked
body_read mask_key opcode payload rest four key_bytes bytes le =
    let masked = mask_from mask_key 0 payload in
    let key_read : read_full 4 (mask_key ++ (masked ++ rest)) ≡ some (mask_key, masked ++ rest) =
      ap (λ n. read_full n (mask_key ++ (masked ++ rest))) (sym four)
      ∙ read_full-append mask_key (masked ++ rest) in
    let payload_read : read_full (length payload) (masked ++ rest) ≡ some (masked, rest) =
      ap (λ n. read_full n (masked ++ rest)) (sym (length-mask_from mask_key 0 payload))
      ∙ read_full-append masked rest in
    ground (arith, key_read, payload_read, mask_from-mask_from mask_key 0 payload key_bytes bytes)

-- A frame that writeWSFrame writes, with any key of four bytes and any payload of bytes up to the
-- limit, is read back by readWSFrame whole and alone: its opcode, its payload, and the bytes behind it
-- untouched.
pub read_ws_frame-write_ws_frame :
    (mask_key : List ℕ) (opcode : ℕ) (payload rest : List ℕ)
    → opcode < 16
    → length mask_key ≡ 4
    → All (λ b. b < 256) mask_key
    → All (λ b. b < 256) payload
    → length payload ≤ max_ws_frame_payload
    → read_ws_frame (write_ws_frame mask_key opcode payload ++ rest)
      ≡ inl (record { fin = true; opcode = opcode; payload = payload }, rest)
read_ws_frame-write_ws_frame mask_key opcode payload rest op_lt four key_bytes bytes le =
    header_read mask_key opcode payload rest op_lt (omega arith)
    ∙ body_read mask_key opcode payload rest four key_bytes bytes le

-- A frame whose payload is longer than the limit is written, and refused by readWSFrame.
pub read_ws_frame-too_large :
    (mask_key : List ℕ) (opcode : ℕ) (payload rest : List ℕ)
    → opcode < 16
    → max_ws_frame_payload < length payload
    → length payload < 2 ^ 63
    → read_ws_frame (write_ws_frame mask_key opcode payload ++ rest) ≡ inr too_large
unfolding read_body
read_ws_frame-too_large mask_key opcode payload rest op_lt long lt =
    header_read mask_key opcode payload rest op_lt lt ∙ ground arith
