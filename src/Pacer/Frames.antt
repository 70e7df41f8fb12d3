-- ===== src/Pacer/Frames.antt =====
-- How `feedTTSPacer` of pkg/rtp/duplex.go cuts a stream of chunks.
use mathlib.Core.List.{append_assoc, append-nil}
use lang_stream.Prelude.{
  ℕ, zero, suc, ◌%◌, ◌≤◌, ◌<◌, ◌≡◌, inl, inr, refl, sym, ap, ◌∙◌, false, List, [], ◌∷◌, ◌++◌, map,
  ltb, length, length-append, length-take, length-drop, take, drop, take-append-drop, All, arith,
  Bool-cases,
}
use lang_stream.Prelude.Bytes.{joined, joined-append, All-append}
use lang_stream.Audio.{AudioChunk}
use lang_stream.Pacer.{
  tts_frame_bytes, pushed_payload, aligned, whole_frames, partial_frame, leftover, feed_chunk,
  feed_chunks, feed_tts_pacer,
}

joined-pushed_payload : (xs : List ℕ) → joined (pushed_payload xs) ≡ xs
unfolding pushed_payload
joined-pushed_payload [] = refl
joined-pushed_payload (x ∷ xs) = append-nil _

nil_of_length : (xs : List ℕ) → length xs ≡ 0 → xs ≡ []
nil_of_length [] h = refl
nil_of_length (x ∷ xs) h = absurd (omega arith)

abbrev pub pcm_of : AudioChunk → List ℕ
pcm_of c = c.pcm

take_zero : (n : ℕ) (xs : List ℕ) → ltb 0 n ≡ false → take n xs ≡ []
take_zero zero xs h = refl
take_zero (suc n) xs h = ground arith

drop_all : (n : ℕ) (xs : List ℕ) → length xs ≤ n → drop n xs ≡ []
drop_all n xs h = nil_of_length (drop n xs) (omega (arith, length-drop n xs))

joined-whole_frames : (buf : List ℕ) → joined (whole_frames buf) ≡ take (aligned buf) buf
unfolding whole_frames
joined-whole_frames buf =
    ground (arith, joined-pushed_payload (take (aligned buf) buf), take_zero (aligned buf) buf)

leftover_lem : (buf : List ℕ) → leftover buf ≡ drop (aligned buf) buf
unfolding leftover
leftover_lem buf = ground (arith, drop_all (aligned buf) buf)

joined-partial_frame : (buf : List ℕ) → joined (partial_frame buf) ≡ drop (aligned buf) buf
unfolding partial_frame
joined-partial_frame buf =
    ground (arith, joined-pushed_payload (drop (aligned buf) buf), drop_all (aligned buf) buf)

feed_chunk-joined :
    (carry : List ℕ) (c : AudioChunk)
    → joined (feed_chunk carry c).1 ++ (feed_chunk carry c).0 ≡ carry ++ c.pcm
unfolding feed_chunk
feed_chunk-joined carry c =
    let buf = carry ++ c.pcm in
    let cut = take-append-drop (aligned buf) buf in
    let empty = nil_of_length c.pcm in
    ground (
      arith,
      joined-whole_frames buf,
      leftover_lem buf,
      joined-partial_frame buf,
      joined-append (whole_frames buf) (partial_frame buf),
      append-nil (take (aligned buf) buf ++ drop (aligned buf) buf),
      append-nil carry,
      cut,
      empty,
    )

feed_chunks-joined :
    (carry : List ℕ) (cs : List AudioChunk)
    → joined (feed_chunks carry cs).1 ++ (feed_chunks carry cs).0 ≡ carry ++ joined (map pcm_of cs)
unfolding feed_chunks
feed_chunks-joined carry [] = sym (append-nil carry)
feed_chunks-joined carry (c ∷ cs) =
    let first = feed_chunk carry c in
    let rest = feed_chunks first.0 cs in
    ap (λ xs. xs ++ rest.0) (joined-append first.1 rest.1)
    ∙ append_assoc (joined first.1) (joined rest.1) rest.0
    ∙ ap (◌++◌ (joined first.1)) (feed_chunks-joined first.0 cs)
    ∙ sym (append_assoc (joined first.1) first.0 (joined (map pcm_of cs)))
    ∙ ap (λ xs. xs ++ joined (map pcm_of cs)) (feed_chunk-joined carry c)
    ∙ append_assoc carry c.pcm (joined (map pcm_of cs))

-- Whatever the chunks are and wherever they are cut, the payloads pushed by the time the channel is
-- closed are, one after the other, exactly the bytes of the chunks.
pub feed_tts_pacer-joined :
    (cs : List AudioChunk) → joined (feed_tts_pacer cs) ≡ joined (map pcm_of cs)
unfolding feed_tts_pacer
feed_tts_pacer-joined cs =
    let (carry, out) = feed_chunks [] cs in
    joined-append out (pushed_payload carry)
    ∙ ap (◌++◌ (joined out)) (joined-pushed_payload carry)
    ∙ feed_chunks-joined [] cs

-- A payload of whole frames, at least one.
abbrev pub IsWhole : List ℕ → Type 0
IsWhole p = (length p % tts_frame_bytes ≡ 0) × (0 < length p)

whole_frames-IsWhole : (buf : List ℕ) → All IsWhole (whole_frames buf)
unfolding whole_frames pushed_payload
whole_frames-IsWhole buf = go (take (aligned buf) buf) refl
  where
    go : (xs : List ℕ) → take (aligned buf) buf ≡ xs → All IsWhole (whole_frames buf)
    go [] e = elim (Bool-cases (ltb 0 (aligned buf))) [
      | inl t ↦ rw (t, whole_frames) (rw (e, pushed_payload) tt)
      | inr f ↦ rw (f, whole_frames) tt
    ]
    go (x ∷ xs) e = elim (Bool-cases (ltb 0 (aligned buf))) [
      | inl t ↦
          rw (t, whole_frames)
            (rw (e, pushed_payload)
              ((omega (arith, length-take (aligned buf) buf, ap length e), omega arith), tt))
      | inr f ↦ rw (f, whole_frames) tt
    ]

abbrev pub IsStreaming : AudioChunk → Type 0
IsStreaming c = c.is_final ≡ false

streaming_chunk :
    (carry : List ℕ) (c : AudioChunk)
    → c.is_final ≡ false
    → length carry < tts_frame_bytes
    → All IsWhole (feed_chunk carry c).1 × (length (feed_chunk carry c).0 < tts_frame_bytes)
unfolding feed_chunk
streaming_chunk carry c f h =
    let buf = carry ++ c.pcm in
    ground (arith, whole_frames-IsWhole buf, leftover_lem buf, length-drop (aligned buf) buf)

streaming_chunks :
    (carry : List ℕ) (cs : List AudioChunk)
    → All IsStreaming cs
    → length carry < tts_frame_bytes
    → All IsWhole (feed_chunks carry cs).1 × (length (feed_chunks carry cs).0 < tts_frame_bytes)
unfolding feed_chunks
streaming_chunks carry [] f h = (tt, h)
streaming_chunks carry (c ∷ cs) f h =
    let (carry', out) = feed_chunk carry c in
    let first = streaming_chunk carry c f.0 h in
    let rest = streaming_chunks carry' cs f.1 first.1 in
    (All-append IsWhole out (feed_chunks carry' cs).1 first.0 rest.0, rest.1)

length-joined : (ps : List (List ℕ)) → All IsWhole ps → length (joined ps) % tts_frame_bytes ≡ 0
length-joined [] h = refl
length-joined (p ∷ ps) h = omega (arith, length-append p (joined ps), length-joined ps h.1, h.0.0)

take-length : (xs ys : List ℕ) → take (length xs) (xs ++ ys) ≡ xs
take-length [] ys = refl
take-length (x ∷ xs) ys = ap (◌∷◌ x) (take-length xs ys)

drop-length : (xs ys : List ℕ) → drop (length xs) (xs ++ ys) ≡ ys
drop-length [] ys = refl
drop-length (x ∷ xs) ys = drop-length xs ys

-- While an utterance is being streamed, the boundaries of its chunks do not show: after chunks of
-- which none is final, every payload is a positive number of whole 320-byte frames, the payloads
-- are together the longest such prefix of all bytes so far, and the carry is the rest.
pub streaming_aligned :
    (cs : List AudioChunk)
    → All IsStreaming cs
    → let bytes = joined (map pcm_of cs) in
      All IsWhole (feed_chunks [] cs).1
      × (joined (feed_chunks [] cs).1 ≡ take (aligned bytes) bytes)
      × ((feed_chunks [] cs).0 ≡ drop (aligned bytes) bytes)
streaming_aligned cs f =
    let (carry, out) = feed_chunks [] cs in
    let s = streaming_chunks [] cs f (omega arith) in
    let bytes = joined (map pcm_of cs) in
    let e : joined out ++ carry ≡ bytes = feed_chunks-joined [] cs in
    let n : aligned bytes ≡ length (joined out) =
      omega (arith, ap length e, length-append (joined out) carry, length-joined out s.0, s.1) in
    (
      s.0,
      sym (
          ap (λ k. take k bytes) n
          ∙ ap (take (length (joined out))) (sym e)
          ∙ take-length (joined out) carry),
      sym (
          ap (λ k. drop k bytes) n
          ∙ ap (drop (length (joined out))) (sym e)
          ∙ drop-length (joined out) carry),
    )
