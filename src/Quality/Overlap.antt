-- ===== src/Quality/Overlap.antt =====
-- The clipped n-gram matches of pkg/qa/bleu.go.
use lang_stream.Prelude.{
  ℕ, zero, suc, ◌+◌, ◌-◌, ◌≤◌, ◌<◌, ◌≡◌, refl, ap, List, [], ◌∷◌, arith, length, take,
}
use Prim.Native.String.{String}
use lang_stream.Metrics.{text_keys}
use lang_stream.Metrics.Counter.{bump}
use lang_stream.Quality.{
  join_words, count_windows, n_gram_counts, clipped, sum_clipped, clipped_n_gram_matches,
}

total : List (String × ℕ) → ℕ
total [] = 0
total ((k, n) ∷ m) = n + total m

total-bump : (k : String) (m : List (String × ℕ)) → total (bump text_keys k m) ≡ total m + 1
unfolding total bump
total-bump k [] = refl
total-bump k ((i, n) ∷ m) = ground (arith, total-bump k m)

total-count_windows :
    (windows n : ℕ) (tokens : List String) (counts : List (String × ℕ))
    → total (count_windows windows n tokens counts) ≡ windows + total counts
unfolding count_windows
total-count_windows zero n tokens counts = omega arith
total-count_windows (suc windows) n [] counts = omega (
  arith,
  total-bump (join_words []) (count_windows windows n [] counts),
  total-count_windows windows n [] counts,
)
total-count_windows (suc windows) n (t ∷ tokens) counts =
    let key = join_words (take n (t ∷ tokens)) in
    omega (
      arith,
      total-bump key counts,
      total-count_windows windows n tokens (bump text_keys key counts),
    )

sum_clipped-le :
    (ref_counts cand_counts : List (String × ℕ))
    → sum_clipped ref_counts cand_counts ≤ total cand_counts
unfolding sum_clipped total clipped
sum_clipped-le ref_counts [] = omega arith
sum_clipped-le ref_counts ((k, n) ∷ cand_counts) =
    ground (arith, sum_clipped-le ref_counts cand_counts)

grams_total :
    (cand : List String) (n : ℕ)
    → n ≤ length cand
    → total (n_gram_counts cand n) ≡ length cand - n + 1
unfolding n_gram_counts total
grams_total cand n le = ground (arith, total-count_windows (length cand - n + 1) n cand [])

grams_none : (cand : List String) (n : ℕ) → length cand < n → n_gram_counts cand n ≡ []
unfolding n_gram_counts
grams_none cand n lt = ground arith

-- For an n-gram length up to the candidate's, the clipped matches are at most the n-grams of the
-- candidate, which the precision divides them by; for a longer one there are none.
pub clipped_n_gram_matches-bounded :
    (ref cand : List String) (n : ℕ)
    → (n ≤ length cand → clipped_n_gram_matches ref cand n ≤ length cand - n + 1)
      × (length cand < n → clipped_n_gram_matches ref cand n ≡ 0)
unfolding clipped_n_gram_matches sum_clipped
clipped_n_gram_matches-bounded ref cand n = (
  λ le.
      omega
        (arith, sum_clipped-le (n_gram_counts ref n) (n_gram_counts cand n), grams_total cand n le),
  λ lt. ap (sum_clipped (n_gram_counts ref n)) (grams_none cand n lt),
)
