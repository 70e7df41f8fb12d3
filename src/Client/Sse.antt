-- ===== src/Client/Sse.antt =====
-- The event stream that both translation clients read (readStream in pkg/translate/gpt4o.go and
-- pkg/translate/gemini.go): its lines, and the loop over them. A line is the code points that the
-- scanner brings; package strings' TrimSpace and CutPrefix are written out.
pub mod Framing
pub mod Reads
use mathlib.Core.List.{reverse}
use lang_stream.Prelude.{
  ℕ, zero, suc, ◌+◌, ◌-◌, ◌*◌, ◌/◌, ◌%◌, ◌^◌, ◌≤◌, ◌<◌, ◌≡◌, refl, sym, ap, ap₂, subst, ◌∙◌, ◌≢◌,
  ◌↔◌, ◌⊎◌, inl, inr, Bool, true, false, not, ◌&&◌, ◌||◌, Option, none, some, List, [], ◌∷◌, ◌++◌,
  map, arith, ltb, leb, ◌==◌, if◌then◌else◌, if_cases,
}

-- unicode.IsSpace.
unfoldable pub is_space : ℕ → Bool
is_space c =
    leb 9 c && leb c 13
    || c == 32
    || c == 133
    || c == 160
    || c == 5760
    || leb 8192 c && leb c 8202
    || c == 8232
    || c == 8233
    || c == 8239
    || c == 8287
    || c == 12288

unfoldable pub trim_left : List ℕ → List ℕ
trim_left [] = []
trim_left (c ∷ s) = if is_space c then trim_left s else c ∷ s

unfoldable pub trim_space : List ℕ → List ℕ
unfolding trim_left
trim_space s = reverse (trim_left (reverse (trim_left s)))

-- The prefix that strings.CutPrefix cuts off.
unfoldable pub cut_prefix : List ℕ → List ℕ → Option (List ℕ)
cut_prefix [] s = some s
cut_prefix (p ∷ ps) [] = none
cut_prefix (p ∷ ps) (c ∷ s) = if p == c then cut_prefix ps s else none

-- "data:".
abbrev pub data_prefix : List ℕ
data_prefix = b'd' ∷ b'a' ∷ b't' ∷ b'a' ∷ b':' ∷ []

-- The data of a line; none for a blank line, a comment and any other field.
unfoldable pub data_of : List ℕ → Option (List ℕ)
unfolding trim_space cut_prefix
data_of line = elim (cut_prefix data_prefix (trim_space line)) [
  | none ↦ none
  | some d ↦ some (trim_space d)
]

-- A line as the loop meets it: whether the context has ended before it.
pub record Line : Type 0 where
  pub context_ended : Bool
  pub text : List ℕ

-- What a line does to the loop: it goes on, or returns.
pub data Flow (S R : Type 0) : Type 0 where
  continue : S → Flow S R
  return : R → Flow S R

module _ {S R : Type 0} (on_data : S → List ℕ → Flow S R) (ended : R) (on_end : S → R) where
  unfoldable pub on_line : S → List ℕ → Flow S R
  on_line s text = elim (data_of text) [ none ↦ continue s | some d ↦ on_data s d ]

  -- The loop over the lines that are left; `on_end` is what follows it.
  unfoldable pub read_lines : S → List Line → R
  unfolding on_line
  read_lines s [] = on_end s
  read_lines s (l ∷ ls) =
      if l.context_ended
      then ended
      else elim (on_line s l.text) [ continue s' ↦ read_lines s' ls | return r ↦ r ]
