-- ===== src/Quality/Scripts.antt =====
-- The table of wordErrorRate in pkg/qa/wer.go against edit scripts: its last entry is the cost of the
-- cheapest one.
use lang_stream.Prelude.{
  ℕ, ◌+◌, ◌≤◌, ◌≡◌, refl, sym, ap, ap₂, subst, ◌∙◌, ◌⊎◌, inl, inr, Bool, true, false, List, [], ◌∷◌,
  ◌++◌, arith, length,
}
use mathlib.Core.List.{append-nil}
use Prim.Native.String.{String}
use text.Mathlib.Text.{◌==◌ as str_eq}
use text.Mathlib.TextEquality.{eq_iff}
use lang_stream.Quality.{min3, entry, next_row, first_row, last_entry, fill_rows, distance}

-- A script that turns the first text into the second, word by word, with so many edits.
pub data Edits : List String → List String → ℕ → Type 0 where
  done : Edits [] [] 0
  keep : {w : String} {r h : List String} {n : ℕ} → Edits r h n → Edits (w ∷ r) (w ∷ h) n
  substitute :
      {w v : String} {r h : List String} {n : ℕ} → Edits r h n → Edits (w ∷ r) (v ∷ h) (n + 1)
  delete : {w : String} {r h : List String} {n : ℕ} → Edits r h n → Edits (w ∷ r) h (n + 1)
  insert : {v : String} {r h : List String} {n : ℕ} → Edits r h n → Edits r (v ∷ h) (n + 1)

-- The table's entry for two texts, by its recurrence.
lev : List String → List String → ℕ
lev [] h = length h
lev (w ∷ r) [] = length (w ∷ r)
lev (w ∷ r) (v ∷ h) = entry (str_eq w v) (lev r h) (lev r (v ∷ h)) (lev (w ∷ r) h)

-- One entry is a script's cost when the three before it are.
entry_cases :
    (same : Bool) (a b c : ℕ)
    → ((same ≡ true) × (entry same a b c ≡ a))
      ⊎ ((entry same a b c ≡ a + 1) ⊎ ((entry same a b c ≡ b + 1) ⊎ (entry same a b c ≡ c + 1)))
unfolding entry min3
entry_cases same a b c = ground arith

all_inserted : (h : List String) → Edits [] h (length h)
all_inserted [] = done
all_inserted (v ∷ h) = subst (Edits [] (v ∷ h)) (omega arith) (insert (all_inserted h))

all_deleted : (r : List String) → Edits r [] (length r)
all_deleted [] = done
all_deleted (w ∷ r) = subst (Edits (w ∷ r) []) (omega arith) (delete (all_deleted r))

lev-attained : (r h : List String) → Edits r h (lev r h)
unfolding lev
lev-attained [] h = all_inserted h
lev-attained (w ∷ r) [] = all_deleted (w ∷ r)
lev-attained (w ∷ r) (v ∷ h) =
    let diagonal = lev-attained r h in
    let above = lev-attained r (v ∷ h) in
    let before = lev-attained (w ∷ r) h in
    let E = Edits (w ∷ r) (v ∷ h) in
    elim (entry_cases (str_eq w v) (lev r h) (lev r (v ∷ h)) (lev (w ∷ r) h)) [
      | inl (same, e) ↦
          subst E (sym e)
            (subst (λ u. Edits (w ∷ r) (u ∷ h) (lev r h)) ((eq_iff w v).0 same) (keep diagonal))
      | inr (inl e) ↦ subst E (sym e) (substitute diagonal)
      | inr (inr (inl e)) ↦ subst E (sym e) (delete above)
      | inr (inr (inr e)) ↦ subst E (sym e) (insert before)
    ]

-- A script without the first word of the second text, or of the first one, costs at most one more.
without_second :
    (v : String) (r h : List String) (n : ℕ)
    → Edits r (v ∷ h) n
    → (k : ℕ) × (k ≤ n + 1) × Edits r h k
without_second v [] h n (insert {n = m} s) = (m, omega arith, s)
without_second v (w ∷ r) h n (keep s) = (n + 1, omega arith, delete s)
without_second v (w ∷ r) h n (substitute {n = m} s) = (m + 1, omega arith, delete s)
without_second v (w ∷ r) h n (insert {n = m} s) = (m, omega arith, s)
without_second v (w ∷ r) h n (delete {n = m} s) =
    let (k, le, t) = without_second v r h m s in (k + 1, omega arith, delete t)

without_first :
    (w : String) (r h : List String) (n : ℕ)
    → Edits (w ∷ r) h n
    → (k : ℕ) × (k ≤ n + 1) × Edits r h k
without_first w r [] n (delete {n = m} s) = (m, omega arith, s)
without_first w r (v ∷ h) n (keep s) = (n + 1, omega arith, insert s)
without_first w r (v ∷ h) n (substitute {n = m} s) = (m + 1, omega arith, insert s)
without_first w r (v ∷ h) n (delete {n = m} s) = (m, omega arith, s)
without_first w r (v ∷ h) n (insert {n = m} s) =
    let (k, le, t) = without_first w r h m s in (k + 1, omega arith, insert t)

entry_bound :
    (same : Bool) (a b c n : ℕ)
    → (same ≡ true → a ≤ n)
    → (same ≡ false → (a + 1 ≤ n) ⊎ ((b + 1 ≤ n) ⊎ (c + 1 ≤ n)))
    → entry same a b c ≤ n
unfolding entry min3
entry_bound true a b c n h k = h refl
entry_bound false a b c n h k = ground (arith, k refl)

inserted_cost : (h : List String) (n : ℕ) → Edits [] h n → length h ≤ n
inserted_cost [] n s = omega arith
inserted_cost (v ∷ h) n (insert {n = m} s) = omega (arith, inserted_cost h m s)

deleted_cost : (r : List String) (n : ℕ) → Edits r [] n → length r ≤ n
deleted_cost [] n s = omega arith
deleted_cost (w ∷ r) n (delete {n = m} s) = omega (arith, deleted_cost r m s)

lev-least : (r h : List String) (n : ℕ) → Edits r h n → lev r h ≤ n
unfolding lev
lev-least [] h n s = inserted_cost h n s
lev-least (w ∷ r) [] n s = deleted_cost (w ∷ r) n s
lev-least (w ∷ r) (v ∷ h) n (keep s) =
    entry_bound (str_eq w v) (lev r h) (lev r (v ∷ h)) (lev (w ∷ r) h) n (λ _. lev-least r h n s)
      (λ differ. absurd (cc ((eq_iff w v).1 refl, differ)))
lev-least (w ∷ r) (v ∷ h) n (substitute {n = m} s) =
    let le = lev-least r h m s in
    entry_bound (str_eq w v) (lev r h) (lev r (v ∷ h)) (lev (w ∷ r) h) n (λ _. omega arith)
      (λ _. inl (omega arith))
lev-least (w ∷ r) (v ∷ h) n (delete {n = m} s) =
    let le = lev-least r (v ∷ h) m s in
    let (k, short, t) = without_second v r h m s in
    let diagonal = lev-least r h k t in
    entry_bound (str_eq w v) (lev r h) (lev r (v ∷ h)) (lev (w ∷ r) h) n (λ _. omega arith)
      (λ _. inr (inl (omega arith)))
lev-least (w ∷ r) (v ∷ h) n (insert {n = m} s) =
    let le = lev-least (w ∷ r) h m s in
    let (k, short, t) = without_first w r h m s in
    let diagonal = lev-least r h k t in
    entry_bound (str_eq w v) (lev r h) (lev r (v ∷ h)) (lev (w ∷ r) h) n (λ _. omega arith)
      (λ _. inr (inr (omega arith)))

-- A text in reverse, before another one.
rev_onto : List String → List String → List String
rev_onto [] a = a
rev_onto (x ∷ xs) a = rev_onto xs (x ∷ a)

-- The entries of a row: the words of the second text come one by one to the front of p.
row_of : List String → List String → List String → List ℕ
row_of r p [] = []
row_of r p (h ∷ hyp) = lev r (h ∷ p) ∷ row_of r (h ∷ p) hyp

next_row-row_of :
    (w : String) (r p hyp : List String)
    → next_row w hyp (lev r p) (row_of r p hyp) (lev (w ∷ r) p) ≡ row_of (w ∷ r) p hyp
unfolding next_row row_of lev
next_row-row_of w r p [] = refl
next_row-row_of w r p (h ∷ hyp) =
    ap (λ t. lev (w ∷ r) (h ∷ p) ∷ t) (next_row-row_of w r (h ∷ p) hyp)

first_row-row_of :
    (j : ℕ) (p hyp : List String) → j ≡ length p + 1 → first_row j hyp ≡ row_of [] p hyp
unfolding first_row row_of lev
first_row-row_of j p [] e = refl
first_row-row_of j p (h ∷ hyp) e =
    ap₂ (λ n t. n ∷ t) (omega arith) (first_row-row_of (j + 1) (h ∷ p) hyp (omega arith))

last_entry-row_of :
    (r p hyp : List String) → last_entry (lev r p) (row_of r p hyp) ≡ lev r (rev_onto hyp p)
unfolding last_entry row_of rev_onto
last_entry-row_of r p [] = refl
last_entry-row_of r p (h ∷ hyp) = last_entry-row_of r (h ∷ p) hyp

lev-empty : (r : List String) → lev r [] ≡ length r
unfolding lev
lev-empty [] = refl
lev-empty (w ∷ r) = refl

fill_rows-row_of :
    (ref r hyp : List String) (i : ℕ)
    → i ≡ length r
    → fill_rows ref hyp i (row_of r [] hyp) ≡ lev (rev_onto ref r) (rev_onto hyp [])
unfolding fill_rows rev_onto
fill_rows-row_of [] r hyp i e =
    ap (λ n. last_entry n (row_of r [] hyp)) (e ∙ sym (lev-empty r)) ∙ last_entry-row_of r [] hyp
fill_rows-row_of (w ∷ ref) r hyp i e =
    let row : next_row w hyp i (row_of r [] hyp) (i + 1) ≡ row_of (w ∷ r) [] hyp =
      ap₂ (λ m n. next_row w hyp m (row_of r [] hyp) n) (e ∙ sym (lev-empty r))
        (omega (arith, lev-empty (w ∷ r)))
      ∙ next_row-row_of w r [] hyp in
    ap (λ t. fill_rows ref hyp (i + 1) t) row
    ∙ fill_rows-row_of ref (w ∷ r) hyp (i + 1) (omega arith)

distance-lev : (ref hyp : List String) → distance ref hyp ≡ lev (rev_onto ref []) (rev_onto hyp [])
unfolding distance
distance-lev ref hyp =
    ap (λ t. fill_rows ref hyp 0 t) (first_row-row_of 1 [] hyp refl)
    ∙ fill_rows-row_of ref [] hyp 0 refl

-- A script works from either end.
edits_rev_onto :
    (r h a b : List String) (n m : ℕ)
    → Edits r h n
    → Edits a b m
    → Edits (rev_onto r a) (rev_onto h b) (n + m)
unfolding rev_onto
edits_rev_onto [] [] a b n m done t = subst (Edits a b) (omega arith) t
edits_rev_onto (w ∷ r) (v ∷ h) a b n m (keep s) t =
    edits_rev_onto r h (w ∷ a) (v ∷ b) n m s (keep t)
edits_rev_onto (w ∷ r) (v ∷ h) a b n m (substitute {n = k} s) t =
    subst (Edits _ _) (omega arith) (edits_rev_onto r h (w ∷ a) (v ∷ b) k (m + 1) s (substitute t))
edits_rev_onto (w ∷ r) h a b n m (delete {n = k} s) t =
    subst (Edits _ _) (omega arith) (edits_rev_onto r h (w ∷ a) b k (m + 1) s (delete t))
edits_rev_onto r (v ∷ h) a b n m (insert {n = k} s) t =
    subst (Edits _ _) (omega arith) (edits_rev_onto r h a (v ∷ b) k (m + 1) s (insert t))

rev_onto-rev_onto : (r a b : List String) → rev_onto (rev_onto r a) b ≡ rev_onto a (r ++ b)
unfolding rev_onto
rev_onto-rev_onto [] a b = refl
rev_onto-rev_onto (x ∷ r) a b = rev_onto-rev_onto r (x ∷ a) b

rev_onto-back : (r : List String) → rev_onto (rev_onto r []) [] ≡ r
unfolding rev_onto
rev_onto-back r = rev_onto-rev_onto r [] [] ∙ append-nil r

-- What wordErrorRate counts is the least number of substitutions, deletions and insertions of words
-- that turn the reference into the hypothesis: a script of that cost does it, and none costs less.
pub distance_least :
    (ref hyp : List String)
    → Edits ref hyp (distance ref hyp) × ((n : ℕ) → Edits ref hyp n → distance ref hyp ≤ n)
distance_least ref hyp =
    let r = rev_onto ref [] in
    let h = rev_onto hyp [] in
    let e = distance-lev ref hyp in
    let no_more : lev r h + 0 ≡ lev r h = omega arith in
    let back =
      subst (Edits (rev_onto r []) (rev_onto h [])) no_more
        (edits_rev_onto r h [] [] (lev r h) 0 (lev-attained r h) done) in
    (
      subst (Edits ref hyp) (sym e) (
          subst (λ t. Edits ref t (lev r h)) (rev_onto-back hyp)
            (subst (λ t. Edits t (rev_onto h []) (lev r h)) (rev_onto-back ref) back)),
      λ n s.
          subst (λ k. k ≤ n) (sym e)
            (lev-least r h n
              (subst (Edits r h) (omega arith) (edits_rev_onto ref hyp [] [] n 0 s done))),
    )
