-- ===== src/Client/Sse/Reads.antt =====
-- The loop over the event stream.
use lang_stream.Prelude.{ℕ, ◌≡◌, refl, ◌∙◌, false, none, some, List, [], ◌∷◌, ◌++◌, arith}
use lang_stream.Client.Sse.{Line, Flow, continue, return, data_of, on_line, read_lines}

module _ {S R : Type 0} (on_data : S → List ℕ → Flow S R) (ended : R) (on_end : S → R) where
  -- The lines lead the loop from one state to another, without a return.
  pub data Reads : S → List Line → S → Type 0 where
    read_all : {s : S} → Reads s [] s
    skipped :
        {s t : S} {l : Line} {ls : List Line}
        → l.context_ended ≡ false
        → data_of l.text ≡ none
        → Reads s ls t
        → Reads s (l ∷ ls) t
    carried :
        {s t u : S} {d : List ℕ} {l : Line} {ls : List Line}
        → l.context_ended ≡ false
        → data_of l.text ≡ some d
        → on_data s d ≡ continue t
        → Reads t ls u
        → Reads s (l ∷ ls) u

  line_skipped :
      (s : S) (l : Line) (ls : List Line)
      → l.context_ended ≡ false
      → data_of l.text ≡ none
      → read_lines on_data ended on_end s (l ∷ ls) ≡ read_lines on_data ended on_end s ls
  unfolding read_lines on_line
  line_skipped s l ls e none_there = ground (arith, none_there)

  line_carried :
      (s t : S) (d : List ℕ) (l : Line) (ls : List Line)
      → l.context_ended ≡ false
      → data_of l.text ≡ some d
      → on_data s d ≡ continue t
      → read_lines on_data ended on_end s (l ∷ ls) ≡ read_lines on_data ended on_end t ls
  unfolding read_lines on_line
  line_carried s t d l ls e there goes = ground (arith, there, goes)

  pub line_returns :
      (s : S) (r : R) (d : List ℕ) (l : Line) (ls : List Line)
      → l.context_ended ≡ false
      → data_of l.text ≡ some d
      → on_data s d ≡ return r
      → read_lines on_data ended on_end s (l ∷ ls) ≡ r
  unfolding read_lines on_line
  line_returns s r d l ls e there goes = ground (arith, there, goes)

  pub read_lines-Reads :
      (s t : S) (ls rest : List Line)
      → Reads s ls t
      → read_lines on_data ended on_end s (ls ++ rest) ≡ read_lines on_data ended on_end t rest
  read_lines-Reads s t [] rest read_all = refl
  read_lines-Reads s t (l ∷ ls) rest (skipped e there more) =
      line_skipped s l (ls ++ rest) e there ∙ read_lines-Reads s t ls rest more
  read_lines-Reads s t (l ∷ ls) rest (carried {t = v} {d = d} e there goes more) =
      line_carried s v d l (ls ++ rest) e there goes ∙ read_lines-Reads v t ls rest more
