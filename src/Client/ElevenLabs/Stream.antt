-- ===== src/Client/ElevenLabs/Stream.antt =====
-- The chunks that readLoop of pkg/tts/elevenlabs.go makes of a body.
use lang_stream.Prelude.{
  ℕ, ◌≡◌, refl, ap, ◌∙◌, inl, inr, Bool-cases, true, false, List, [], ◌∷◌, ◌++◌, arith, ltb,
  if◌then◌else◌, length,
}
use mathlib.Core.List.{append-nil}
use lang_stream.Prelude.Int.{ℤ}
use lang_stream.Audio.{AudioChunk}
use lang_stream.Client.ElevenLabs.{BodyRead, more, eof, broken, chunk_of, after_read, read_loop}

-- The reads go on: no context ends, and no read ends the body.
pub record GoesOn (r : BodyRead) : Type 0 where
  pub alive : r.context_ended ≡ false
  pub taken : r.send_cut ≡ false
  pub unended : r.ending ≡ more

pub data AllGoOn : List BodyRead → Type 0 where
  no_reads : AllGoOn []
  a_read : {r : BodyRead} {rs : List BodyRead} → GoesOn r → AllGoOn rs → AllGoOn (r ∷ rs)

-- A chunk for every read that brings bytes.
pub pieces : ℤ → List BodyRead → List AudioChunk
pieces rate [] = []
pieces rate (r ∷ rs) =
    if ltb 0 (length r.bytes) then chunk_of rate r.bytes false ∷ pieces rate rs else pieces rate rs

module _ (rate : ℤ) where
  read_on :
      (r : BodyRead) (rs : List BodyRead)
      → GoesOn r
      → read_loop rate (r ∷ rs) ≡ (
          if ltb 0 (length r.bytes)
          then chunk_of rate r.bytes false ∷ read_loop rate rs
          else read_loop rate rs)
  unfolding read_loop after_read
  read_on r rs g = ground (arith, g.alive, g.taken, g.unended)

  read_loop-pieces :
      (rs rest : List BodyRead)
      → AllGoOn rs
      → read_loop rate (rs ++ rest) ≡ pieces rate rs ++ read_loop rate rest
  unfolding pieces
  read_loop-pieces [] rest no_reads = refl
  read_loop-pieces (r ∷ rs) rest (a_read g gs) =
      let more_of = read_loop-pieces rs rest gs in
      read_on r (rs ++ rest) g ∙ ground (arith, more_of)

  last_read :
      (r : BodyRead) (rs : List BodyRead)
      → r.context_ended ≡ false
      → r.send_cut ≡ false
      → r.ending ≡ eof
      → read_loop rate (r ∷ rs) ≡ chunk_of rate r.bytes true ∷ []
  unfolding read_loop after_read
  last_read r rs alive taken ends = elim (Bool-cases (ltb 0 (length r.bytes))) [
    | inl e ↦ ground (arith, alive, taken, ends, e)
    | inr e ↦ ground (arith, alive, taken, ends, e, no_bytes r.bytes e)
  ]
    where
      no_bytes : (bytes : List ℕ) → ltb 0 (length bytes) ≡ false → bytes ≡ []
      no_bytes [] h = refl
      no_bytes (x ∷ bytes) h = ground arith

  failed_read :
      (r : BodyRead) (rs : List BodyRead)
      → r.bytes ≡ []
      → r.ending ≡ broken
      → read_loop rate (r ∷ rs) ≡ []
  unfolding read_loop after_read
  failed_read r rs none_there breaks = ground (arith, none_there, breaks)

  -- While the context lasts and the reader takes every chunk, the channel gets a chunk for each read
  -- that brings bytes, with them, and at the end of the body exactly one chunk marked final: the last
  -- bytes, when the end comes with them, and an empty chunk when it does not. After an error of the
  -- connection no chunk is marked final.
  pub body_is_spoken :
      (rs after : List BodyRead) (last cut : BodyRead)
      → AllGoOn rs
      → last.context_ended ≡ false
      → last.send_cut ≡ false
      → last.ending ≡ eof
      → cut.bytes ≡ []
      → cut.ending ≡ broken
      → (read_loop rate (rs ++ last ∷ after) ≡ pieces rate rs ++ chunk_of rate last.bytes true ∷ [])
        × (read_loop rate (rs ++ cut ∷ after) ≡ pieces rate rs)
  body_is_spoken rs after last cut go alive taken ends none_there breaks = (
    read_loop-pieces rs (last ∷ after) go
        ∙ ap (λ t. pieces rate rs ++ t) (last_read last after alive taken ends),
    read_loop-pieces rs (cut ∷ after) go
        ∙ ap (λ t. pieces rate rs ++ t) (failed_read cut after none_there breaks)
        ∙ append-nil (pieces rate rs),
  )
