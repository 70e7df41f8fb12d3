-- ===== src/Client/Sse/Framing.antt =====
-- The data of a line of the event stream, whatever blanks surround it (pkg/translate/gpt4o.go and
-- pkg/translate/gemini.go).
use lang_stream.Prelude.{
  ℕ, ◌≡◌, refl, sym, ap, subst, ◌∙◌, true, false, none, some, List, [], ◌∷◌, ◌++◌, arith, if_cases,
}
use mathlib.Core.List.{reverse, reverse-append, reverse-reverse, reverse-cons, append-nil}
use lang_stream.Client.Sse.{is_space, trim_left, trim_space, cut_prefix, data_prefix, data_of}

pub data IsBlank : List ℕ → Type 0 where
  blank_end : IsBlank []
  blank_more : {c : ℕ} {s : List ℕ} → is_space c ≡ true → IsBlank s → IsBlank (c ∷ s)

-- A text that begins with a character that is no blank.
pub data Starts : List ℕ → Type 0 where
  starts : {c : ℕ} {s : List ℕ} → is_space c ≡ false → Starts (c ∷ s)

pub record IsTrimmed (s : List ℕ) : Type 0 where
  pub first : Starts s
  pub last : Starts (reverse s)

IsBlank-append : (s t : List ℕ) → IsBlank s → IsBlank t → IsBlank (s ++ t)
IsBlank-append [] t blank_end k = k
IsBlank-append (c ∷ s) t (blank_more e h) k = blank_more e (IsBlank-append s t h k)

IsBlank-reverse : (s : List ℕ) → IsBlank s → IsBlank (reverse s)
IsBlank-reverse [] blank_end = blank_end
IsBlank-reverse (c ∷ s) (blank_more e h) =
    subst IsBlank (sym (reverse-cons c s))
      (IsBlank-append (reverse s) (c ∷ []) (IsBlank-reverse s h) (blank_more e blank_end))

trim_left-blank : (p s : List ℕ) → IsBlank p → trim_left (p ++ s) ≡ trim_left s
unfolding trim_left
trim_left-blank [] s blank_end = refl
trim_left-blank (c ∷ p) s (blank_more e h) =
    if_cases (λ t. t ≡ trim_left s) (is_space c) (trim_left (p ++ s)) (c ∷ p ++ s)
      (λ _. trim_left-blank p s h) (λ f. ground arith)

trim_left-Starts : (s : List ℕ) → Starts s → trim_left s ≡ s
unfolding trim_left
trim_left-Starts [] h = elim h [ ]
trim_left-Starts (c ∷ s) (starts e) = ground arith

starts_append : (s t : List ℕ) → Starts s → Starts (s ++ t)
starts_append [] t h = elim h [ ]
starts_append (c ∷ s) t (starts e) = starts e

-- Blanks around a text go, and nothing else.
pub trim_space-blanks :
    (p s q : List ℕ)
    → IsBlank p
    → IsBlank q
    → Starts s
    → Starts (reverse s)
    → trim_space (p ++ (s ++ q)) ≡ s
unfolding trim_space
trim_space-blanks p s q hp hq first last =
    ap (λ t. reverse (trim_left (reverse t)))
      (trim_left-blank p (s ++ q) hp ∙ trim_left-Starts (s ++ q) (starts_append s q first))
    ∙ ap (λ t. reverse (trim_left t)) (reverse-append s q)
    ∙ ap reverse (
        trim_left-blank (reverse q) (reverse s) (IsBlank-reverse q hq)
        ∙ trim_left-Starts (reverse s) last)
    ∙ reverse-reverse s

cut_prefix-append : (p s : List ℕ) → cut_prefix p (p ++ s) ≡ some s
unfolding cut_prefix
cut_prefix-append [] s = refl
cut_prefix-append (c ∷ p) s = ground (arith, cut_prefix-append p s)

last_of_append : (s t : List ℕ) → Starts (reverse t) → Starts (reverse (s ++ t))
last_of_append s t h =
    subst Starts (sym (reverse-append s t)) (starts_append (reverse t) (reverse s) h)

-- The data of a `data:` line is what the server put there, whatever blanks stand before the field,
-- after its colon and at the end of the line, when the data begin and end with no blank.
pub data_of-blanks :
    (p q r d : List ℕ)
    → IsBlank p
    → IsBlank q
    → IsBlank r
    → IsTrimmed d
    → data_of (p ++ ((data_prefix ++ (q ++ d)) ++ r)) ≡ some d
unfolding data_of is_space
data_of-blanks p q r d hp hq hr trimmed =
    let field = data_prefix ++ (q ++ d) in
    let line : trim_space (p ++ (field ++ r)) ≡ field =
      trim_space-blanks p field r hp hr (starts refl)
        (last_of_append data_prefix (q ++ d) (last_of_append q d trimmed.last)) in
    let cut : cut_prefix data_prefix (trim_space (p ++ (field ++ r))) ≡ some (q ++ d) =
      ap (cut_prefix data_prefix) line ∙ cut_prefix-append data_prefix (q ++ d) in
    let inner : trim_space (q ++ d) ≡ d =
      ap (λ t. trim_space (q ++ t)) (sym (append-nil d))
      ∙ trim_space-blanks q d [] hq blank_end trimmed.first trimmed.last in
    ap (λ o. elim o [ none ↦ none | some t ↦ some (trim_space t) ]) cut ∙ ap some inner

-- A blank line has no data.
pub data_of-blank : (p : List ℕ) → IsBlank p → data_of p ≡ none
unfolding data_of trim_space cut_prefix trim_left
data_of-blank p h =
    let gone : trim_left p ≡ [] = ap trim_left (sym (append-nil p)) ∙ trim_left-blank p [] h in
    ap
      (λ t. elim (cut_prefix data_prefix (reverse (trim_left (reverse t)))) [
        | none ↦ none
        | some d ↦ some (trim_space d)
      ])
      gone
