-- ===== src/Client/Gemini/Blocked.antt =====
-- The content filter of pkg/translate/gemini.go: what a blocked response does to a translation.
use lang_stream.Client.Gemini.{
  malformed_chunk, GeminiCandidate, GeminiResponse, GeminiResult, Read, write_candidates,
  write_parts, gemini_unsafe_finish_reasons, is_blocked, on_response, on_data, on_end, read_stream,
}
use lang_stream.Prelude.{
  ℕ, ◌≡◌, sym, subst, ◌∙◌, inl, inr, Bool, Bool-cases, Option-cases, true, false, Option, none,
  some, List, [], ◌∷◌, ◌++◌, arith,
}
use Prim.Native.String.{String}
use lang_stream.Client.Sse.{Line, data_of, return}
use lang_stream.Client.Sse.Reads.{Reads, read_lines-Reads, line_returns}
use lang_stream.Client.Translate.{Reason, permanent, context_done, unsafe_finish, prompt_blocked}

-- One of the candidates ends for a reason of the content filter.
pub data HasUnsafe : List GeminiCandidate → Type 0 where
  unsafe_here :
      {c : GeminiCandidate} {cs : List GeminiCandidate}
      → gemini_unsafe_finish_reasons c.finish_reason ≡ true
      → HasUnsafe (c ∷ cs)
  unsafe_later :
      {c : GeminiCandidate} {cs : List GeminiCandidate} → HasUnsafe cs → HasUnsafe (c ∷ cs)

-- The prompt is blocked, or a candidate.
pub data Blocks : GeminiResponse → Type 0 where
  prompt_blocks :
      {resp : GeminiResponse} {reason : String}
      → is_blocked resp.block_reason ≡ some reason
      → Blocks resp
  candidate_blocks : {resp : GeminiResponse} → HasUnsafe resp.candidates → Blocks resp

write_candidates-HasUnsafe :
    (out : String) (cs : List GeminiCandidate)
    → HasUnsafe cs
    → (reason : Reason) × (write_candidates out cs ≡ inr (permanent reason))
unfolding write_candidates
write_candidates-HasUnsafe out [] h = elim h [ ]
write_candidates-HasUnsafe out (c ∷ cs) (unsafe_here e) =
    (unsafe_finish c.finish_reason, ground arith)
write_candidates-HasUnsafe out (c ∷ cs) (unsafe_later h) =
    let (later, at_later) = write_candidates-HasUnsafe (write_parts out c.parts) cs h in
    elim (Bool-cases (gemini_unsafe_finish_reasons c.finish_reason)) [
      | inl e ↦ (unsafe_finish c.finish_reason, ground arith)
      | inr e ↦ (later, ground arith)
    ]

on_response-Blocks :
    (s : Read) (resp : GeminiResponse)
    → Blocks resp
    → (reason : Reason) × (on_response s resp ≡ return (inr (permanent reason)))
unfolding on_response
on_response-Blocks s resp (prompt_blocks {reason = reason} e) =
    (prompt_blocked reason, ground (arith, e))
on_response-Blocks s resp (candidate_blocks h) =
    let (reason, e) = write_candidates-HasUnsafe s.out resp.candidates h in
    elim (Option-cases (is_blocked resp.block_reason)) [
      | inl none_there ↦ (reason, ground (arith, e, none_there))
      | inr (blocked, there) ↦ (prompt_blocked blocked, ground (arith, there))
    ]

module _ (decode : List ℕ → Option GeminiResponse) where
  abbrev start : Read
  start = record { out = ""; usage = none }

  on_data-Blocks :
      (s : Read) (d : List ℕ) (resp : GeminiResponse)
      → decode d ≡ some resp
      → Blocks resp
      → (reason : Reason) × (on_data decode s d ≡ return (inr (permanent reason)))
  unfolding on_data
  on_data-Blocks s d resp decoded h =
      let (reason, e) = on_response-Blocks s resp h in
      (
        reason,
        subst
            (λ o.
              elim o [
                | none ↦ return (inr (permanent (malformed_chunk d)))
                | some r ↦ on_response s r
              ]
              ≡ return (inr (permanent reason)))
            (sym decoded) e,
      )

  -- However much text a stream has brought, once a response blocks the prompt or a candidate, the
  -- whole translation is an error that is not tried again, whatever follows.
  pub blocked_stream :
      (broken : Bool) (s : Read) (ls rest : List Line) (bad : Line) (d : List ℕ)
      (resp : GeminiResponse)
      → Reads (on_data decode) (inr (permanent context_done)) (on_end decode broken) start ls s
      → bad.context_ended ≡ false
      → data_of bad.text ≡ some d
      → decode d ≡ some resp
      → Blocks resp
      → (reason : Reason) × (read_stream decode (ls ++ bad ∷ rest) broken ≡ inr (permanent reason))
  unfolding read_stream
  blocked_stream broken s ls rest bad d resp reads e there decoded blocks =
      let ended : GeminiResult = inr (permanent context_done) in
      let (reason, stops) = on_data-Blocks s d resp decoded blocks in
      (
        reason,
        read_lines-Reads (on_data decode) ended (on_end decode broken) start s ls (bad ∷ rest) reads
            ∙ line_returns (on_data decode) ended (on_end decode broken) s (inr (permanent reason))
                d bad rest e there stops,
      )
