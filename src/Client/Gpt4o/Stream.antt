-- ===== src/Client/Gpt4o/Stream.antt =====
-- What readStream of pkg/translate/gpt4o.go makes of a stream.
use lang_stream.Prelude.{
  ℕ, ◌≡◌, refl, sym, ap, ap₂, ◌∙◌, inl, inr, Bool, true, false, Option, none, some, List, [], ◌∷◌,
  ◌++◌, arith,
}
use mathlib.Core.List.{append-nil as list_append-nil}
use Prim.Native.String.{String, ◌++◌ as str_append}
use text.Mathlib.TextLemmas.{append_assoc, append-nil, nil-append}
use lang_stream.Client.Sse.{Line, data_of, continue, return, read_lines}
use lang_stream.Client.Sse.Reads.{Reads, read_all, skipped, carried, read_lines-Reads, line_returns}
use lang_stream.Client.Translate.{passing, permanent, reading_stream, context_done, malformed_chunk}
use lang_stream.Client.Gpt4o.{
  GptResult, ChatCompletionChunk, ChatCompletionUsage, Read, write_contents, take_chunk, on_data,
  on_end, read_stream, done_sentinel, same_codes,
}

-- The contents of all the chunks, in order, and the last usage that one of them has.
pub text_of_choices : List String → String
text_of_choices [] = ""
text_of_choices (c ∷ cs) = str_append c (text_of_choices cs)

pub text_of : List ChatCompletionChunk → String
text_of [] = ""
text_of (c ∷ cs) = str_append (text_of_choices c.contents) (text_of cs)

pub last_usage : Option ChatCompletionUsage → List ChatCompletionChunk → Option ChatCompletionUsage
last_usage before [] = before
last_usage before (c ∷ cs) = last_usage (elim c.usage [ none ↦ before | some u ↦ some u ]) cs

write_contents-out :
    (out : String) (cs : List String) → write_contents out cs ≡ str_append out (text_of_choices cs)
unfolding write_contents text_of_choices
write_contents-out out [] = sym (append-nil out)
write_contents-out out (c ∷ cs) =
    write_contents-out (str_append out c) cs ∙ append_assoc out c (text_of_choices cs)

-- The state after all the chunks.
take_chunks : Read → List ChatCompletionChunk → Read
take_chunks s [] = s
take_chunks s (c ∷ cs) = take_chunks (take_chunk s c) cs

take_chunks-out :
    (s : Read) (cs : List ChatCompletionChunk)
    → (take_chunks s cs).out ≡ str_append s.out (text_of cs)
unfolding take_chunks text_of take_chunk
take_chunks-out s [] = sym (append-nil s.out)
take_chunks-out s (c ∷ cs) =
    take_chunks-out (take_chunk s c) cs
    ∙ ap (λ t. str_append t (text_of cs)) (write_contents-out s.out c.contents)
    ∙ append_assoc s.out (text_of_choices c.contents) (text_of cs)

take_chunks-usage :
    (s : Read) (cs : List ChatCompletionChunk) → (take_chunks s cs).usage ≡ last_usage s.usage cs
unfolding take_chunks last_usage take_chunk
take_chunks-usage s [] = refl
take_chunks-usage s (c ∷ cs) = take_chunks-usage (take_chunk s c) cs

module _ (decode : List ℕ → Option ChatCompletionChunk) where
  -- The lines bring these chunks, with blank lines, comments and other fields between them, and the
  -- context lasts.
  pub data Carries : List Line → List ChatCompletionChunk → Type 0 where
    no_lines : Carries [] []
    other_line :
        {l : Line} {ls : List Line} {cs : List ChatCompletionChunk}
        → l.context_ended ≡ false
        → data_of l.text ≡ none
        → Carries ls cs
        → Carries (l ∷ ls) cs
    chunk_line :
        {l : Line} {ls : List Line} {d : List ℕ} {c : ChatCompletionChunk}
        {cs : List ChatCompletionChunk}
        → l.context_ended ≡ false
        → data_of l.text ≡ some d
        → same_codes d done_sentinel ≡ false
        → decode d ≡ some c
        → Carries ls cs
        → Carries (l ∷ ls) (c ∷ cs)

  on_data-chunk :
      (s : Read) (d : List ℕ) (c : ChatCompletionChunk)
      → same_codes d done_sentinel ≡ false
      → decode d ≡ some c
      → on_data decode s d ≡ continue (take_chunk s c)
  unfolding on_data
  on_data-chunk s d c other e = ground (arith, other, e)

  Carries-Reads :
      (broken : Bool) (s : Read) (ls : List Line) (cs : List ChatCompletionChunk)
      → Carries ls cs
      → Reads
          (on_data decode)
          (inr (permanent context_done))
          (on_end decode broken)
          s
          ls
          (take_chunks s cs)
  unfolding take_chunks
  Carries-Reads broken s [] [] no_lines = read_all
  Carries-Reads broken s [] (c ∷ cs) h = elim h [ ]
  Carries-Reads broken s (l ∷ ls) cs (other_line e there more) =
      skipped e there (Carries-Reads broken s ls cs more)
  Carries-Reads broken s (l ∷ ls) (c ∷ cs) (chunk_line {d = d} e there other decoded more) =
      carried e there (on_data-chunk s d c other decoded)
        (Carries-Reads broken (take_chunk s c) ls cs more)

  abbrev start : Read
  start = record { out = ""; usage = none }

  stream_read :
      (broken : Bool) (ls rest : List Line) (cs : List ChatCompletionChunk)
      → Carries ls cs
      → read_stream decode (ls ++ rest) broken
        ≡ read_lines
            (on_data decode)
            (inr (permanent context_done))
            (on_end decode broken)
            (take_chunks start cs)
            rest
  unfolding read_stream
  stream_read broken ls rest cs carries =
      read_lines-Reads (on_data decode) (inr (permanent context_done)) (on_end decode broken) start
        (take_chunks start cs) ls rest (Carries-Reads broken start ls cs carries)

  result_of :
      (cs : List ChatCompletionChunk)
      → ◌≡◌ {A = GptResult}
          (inl ((take_chunks start cs).out, (take_chunks start cs).usage))
          (inl (text_of cs, last_usage none cs))
  result_of cs =
      ap₂ (λ t u. inl (t, u)) (take_chunks-out start cs ∙ nil-append (text_of cs))
        (take_chunks-usage start cs)

  stream_ends :
      (broken : Bool) (ls : List Line) (cs : List ChatCompletionChunk)
      → Carries ls cs
      → read_stream decode ls broken ≡ on_end decode broken (take_chunks start cs)
  unfolding read_lines
  stream_ends broken ls cs carries =
      ap (λ t. read_stream decode t broken) (sym (list_append-nil ls))
      ∙ stream_read broken ls [] cs carries

  on_data-done :
      (s : Read) (d : List ℕ)
      → same_codes d done_sentinel ≡ true
      → on_data decode s d ≡ return (inl (s.out, s.usage))
  unfolding on_data
  on_data-done s d e = ground (arith, e)

  on_data-malformed :
      (s : Read) (d : List ℕ)
      → same_codes d done_sentinel ≡ false
      → decode d ≡ none
      → on_data decode s d ≡ return (inr (permanent (malformed_chunk d)))
  unfolding on_data
  on_data-malformed s d other e = ground (arith, other, e)

  -- When the lines bring some chunks, the translation is the contents of all their choices joined in
  -- order, with the last usage, both when the final sentinel follows, whatever comes after it, and when the body
  -- just ends.
  pub stream_translates :
      (broken : Bool) (ls rest : List Line) (last : Line) (d : List ℕ)
      (cs : List ChatCompletionChunk)
      → Carries ls cs
      → last.context_ended ≡ false
      → data_of last.text ≡ some d
      → same_codes d done_sentinel ≡ true
      → (read_stream decode (ls ++ last ∷ rest) broken ≡ inl (text_of cs, last_usage none cs))
        × (read_stream decode ls false ≡ inl (text_of cs, last_usage none cs))
  unfolding on_end
  stream_translates broken ls rest last d cs carries e there same = (
    stream_read broken ls (last ∷ rest) cs carries
        ∙ line_returns (on_data decode) (inr (permanent context_done)) (on_end decode broken)
            (take_chunks start cs) _ d last rest e there
            (on_data-done (take_chunks start cs) d same)
        ∙ result_of cs,
    stream_ends false ls cs carries ∙ result_of cs,
  )

  -- When the lines bring some chunks and then the connection breaks, the error is one that is tried
  -- again; when a line follows whose data are neither the final sentinel nor a chunk, it is one that is not. The
  -- text read so far is lost both times.
  pub stream_breaks :
      (broken : Bool) (ls rest : List Line) (bad : Line) (d : List ℕ)
      (cs : List ChatCompletionChunk)
      → Carries ls cs
      → bad.context_ended ≡ false
      → data_of bad.text ≡ some d
      → same_codes d done_sentinel ≡ false
      → decode d ≡ none
      → (read_stream decode ls true ≡ inr (passing reading_stream))
        × (read_stream decode (ls ++ bad ∷ rest) broken ≡ inr (permanent (malformed_chunk d)))
  unfolding on_end
  stream_breaks broken ls rest bad d cs carries e there other fails = (
    stream_ends true ls cs carries,
    stream_read broken ls (bad ∷ rest) cs carries
        ∙ line_returns (on_data decode) (inr (permanent context_done)) (on_end decode broken)
            (take_chunks start cs) _ d bad rest e there
            (on_data-malformed (take_chunks start cs) d other fails),
  )
