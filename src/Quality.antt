-- ===== src/Quality.antt =====
-- pkg/qa/wer.go and pkg/qa/bleu.go: the word error rate and the BLEU score of two lists of words.
-- strings.Fields has cut the texts into words; a word is a text.
pub mod Scripts
pub mod Overlap
use lang_stream.Prelude.{
  ℕ, zero, suc, ◌+◌, ◌-◌, ◌*◌, ◌/◌, ◌%◌, ◌^◌, ◌≤◌, ◌<◌, ◌≡◌, refl, sym, ap, ap₂, subst, ◌∙◌, ◌≢◌,
  ◌↔◌, ◌⊎◌, inl, inr, Bool, Bool-cases, Option-cases, true, false, not, ◌&&◌, ◌||◌, Option, none,
  some, List, [], ◌∷◌, ◌++◌, map, arith, ltb, leb, ◌==◌, if◌then◌else◌, if_cases, length, take,
  ==_iff,
}
use Prim.Native.String.{String, ◌++◌ as str_append}
use text.Mathlib.Text.{◌==◌ as str_eq}
use lang_stream.Prelude.Int.{ℤ, pos}
use lang_stream.Floats.{Floats}
use lang_stream.Metrics.Counter.{bump, Key, count_of}
use lang_stream.Metrics.{text_keys}

unfoldable pub min3 : ℕ → ℕ → ℕ → ℕ
min3 a b c = let m = if ltb b a then b else a in if ltb c m then c else m

-- dp[i][j], from the three entries before it: dp[i-1][j-1], dp[i-1][j] and dp[i][j-1].
unfoldable pub entry : (same : Bool) → (diagonal above before : ℕ) → ℕ
unfolding min3
entry same diagonal above before =
    if same then diagonal else min3 (diagonal + 1) (above + 1) (before + 1)

-- The row of the table for one more reference word: dp[i][j] for j from 1 on, where `above` is the row
-- before it from dp[i-1][j] on, `diagonal` is dp[i-1][j-1] and `before` is dp[i][j-1].
unfoldable pub next_row :
    String → (hyp : List String) → (diagonal : ℕ) → (above : List ℕ) → (before : ℕ) → List ℕ
unfolding entry
next_row word [] diagonal above before = []
next_row word (h ∷ hyp) diagonal [] before = []
next_row word (h ∷ hyp) diagonal (a ∷ above) before =
    let here = entry (str_eq word h) diagonal a before in here ∷ next_row word hyp a above here

-- dp[0][j] from j on.
unfoldable pub first_row : ℕ → List String → List ℕ
first_row j [] = []
first_row j (h ∷ hyp) = j ∷ first_row (j + 1) hyp

-- The rows for the reference words that are left: the last row's last entry, `last row` for a row with
-- dp[i][0] = i.
unfoldable pub last_entry : ℕ → List ℕ → ℕ
last_entry before [] = before
last_entry before (a ∷ row) = last_entry a row

unfoldable pub fill_rows : (ref hyp : List String) → ℕ → List ℕ → ℕ
unfolding next_row last_entry
fill_rows [] hyp i row = last_entry i row
fill_rows (word ∷ ref) hyp i row = fill_rows ref hyp (i + 1) (next_row word hyp i row (i + 1))

-- dp[n][m].
unfoldable pub distance : (ref hyp : List String) → ℕ
unfolding fill_rows first_row
distance ref hyp = fill_rows ref hyp 0 (first_row 1 hyp)

module _ (F : Floats) where
  open F use {Float, of_int, div}

  unfoldable pub word_error_rate : (ref hyp : List String) → Float
  unfolding distance
  word_error_rate [] [] = of_int (pos 0)
  word_error_rate [] (h ∷ hyp) = of_int (pos 1)
  word_error_rate (word ∷ ref) hyp =
      div (of_int (pos (distance (word ∷ ref) hyp))) (of_int (pos (length (word ∷ ref))))

abbrev pub bleu_max_n_gram : ℕ
bleu_max_n_gram = 4

-- strings.Join(tokens, " ").
unfoldable pub join_words : List String → String
join_words [] = ""
join_words (t ∷ []) = t
join_words (t ∷ u ∷ ts) = str_append (str_append t " ") (join_words (u ∷ ts))

-- The counts of the windows of n tokens; `windows` is how many there are to come.
unfoldable pub count_windows : (windows n : ℕ) → List String → List (String × ℕ) → List (String × ℕ)
unfolding join_words bump
count_windows zero n tokens counts = counts
count_windows (suc windows) n [] counts =
    bump text_keys (join_words []) (count_windows windows n [] counts)
count_windows (suc windows) n (t ∷ tokens) counts =
    count_windows windows n tokens (bump text_keys (join_words (take n (t ∷ tokens))) counts)

unfoldable pub n_gram_counts : List String → ℕ → List (String × ℕ)
unfolding count_windows
n_gram_counts tokens n =
    if leb n (length tokens) then count_windows (length tokens - n + 1) n tokens [] else []

-- The smaller of the counts; a gram that the reference does not have counts 0.
unfoldable pub clipped : ℕ → ℕ → ℕ
clipped cand_count ref_count = if ltb cand_count ref_count then cand_count else ref_count

unfoldable pub sum_clipped : List (String × ℕ) → List (String × ℕ) → ℕ
unfolding clipped
sum_clipped ref_counts [] = 0
sum_clipped ref_counts ((gram, n) ∷ cand_counts) =
    clipped n (count_of text_keys gram ref_counts) + sum_clipped ref_counts cand_counts

unfoldable pub clipped_n_gram_matches : (ref cand : List String) → ℕ → ℕ
unfolding n_gram_counts sum_clipped
clipped_n_gram_matches ref cand n = sum_clipped (n_gram_counts ref n) (n_gram_counts cand n)

module _ (F : Floats) where
  open F use {Float, of_int, div, mul, sub, exp, log, add}

  -- 0.1.
  abbrev pub bleu_smoothing_epsilon : Float
  bleu_smoothing_epsilon = div (of_int (pos 1)) (of_int (pos 10))

  unfoldable pub brevity_penalty : (ref_len cand_len : ℕ) → Float
  brevity_penalty ref_len cand_len =
      if ltb ref_len cand_len
      then of_int (pos 1)
      else exp (sub (of_int (pos 1)) (div (of_int (pos ref_len)) (of_int (pos cand_len))))

  -- The smoothed precision of the n-grams.
  unfoldable pub precision : (ref cand : List String) → ℕ → Float
  unfolding clipped_n_gram_matches
  precision ref cand n =
      let total = of_int (pos (length cand - n + 1)) in
      let matches = clipped_n_gram_matches ref cand n in
      if matches == 0 then div bleu_smoothing_epsilon total else div (of_int (pos matches)) total

  -- The logarithms of the precisions of the n-grams from n on, `left` of them, added to a sum.
  unfoldable pub log_precisions : (ref cand : List String) → (left n : ℕ) → Float → Float
  unfolding precision
  log_precisions ref cand zero n sum = sum
  log_precisions ref cand (suc left) n sum =
      log_precisions ref cand left (n + 1) (add sum (log (precision ref cand n)))

  unfoldable pub bleu_score : (ref cand : List String) → Float
  unfolding log_precisions brevity_penalty
  bleu_score [] [] = of_int (pos 1)
  bleu_score [] (c ∷ cand) = of_int (pos 0)
  bleu_score (r ∷ ref) [] = of_int (pos 0)
  bleu_score (r ∷ ref) (c ∷ cand) =
      let max_n =
        if ltb (length (c ∷ cand)) bleu_max_n_gram then length (c ∷ cand) else bleu_max_n_gram in
      let sum = log_precisions (r ∷ ref) (c ∷ cand) max_n 1 (of_int (pos 0)) in
      mul (brevity_penalty (length (r ∷ ref)) (length (c ∷ cand)))
        (exp (div sum (of_int (pos max_n))))
