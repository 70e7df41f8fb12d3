-- ===== src/Metrics/Counter.antt =====
-- A map from keys to counts, as Go's map[K]int64 with `m[k]++`: a key that is not there counts 0.
use lang_stream.Prelude.{
  ℕ, ◌+◌, ◌≡◌, ◌↔◌, Bool, true, false, List, [], ◌∷◌, if◌then◌else◌, arith, sym, Bool-cases, inl,
  inr, ap, ◌∙◌,
}

-- Equality of keys.
pub record Key (K : Type 0) : Type 0 where
  pub same : K → K → Bool
  pub same_iff : (a b : K) → (same a b ≡ true) ↔ (a ≡ b)

module _ {K : Type 0} (key : Key K) where
  unfoldable pub bump : K → List (K × ℕ) → List (K × ℕ)
  bump k [] = (k, 1) ∷ []
  bump k ((i, n) ∷ m) = if key.same i k then (i, n + 1) ∷ m else (i, n) ∷ bump k m

  unfoldable pub count_of : K → List (K × ℕ) → ℕ
  count_of k [] = 0
  count_of k ((i, n) ∷ m) = if key.same i k then n else count_of k m

  apart : (i j k : K) → key.same i k ≡ false → key.same i j ≡ true → key.same k j ≡ false
  apart i j k ne e = elim (Bool-cases (key.same k j)) [
    | inl t ↦
        let met = (key.same_iff i k).1 ((key.same_iff i j).0 e ∙ sym ((key.same_iff k j).0 t)) in cc
    | inr f ↦ f
  ]

  pub count_of-bump :
      (j k : K) (m : List (K × ℕ))
      → count_of j (bump k m) ≡ count_of j m + (if key.same k j then 1 else 0)
  unfolding count_of bump
  count_of-bump j k [] = ground arith
  count_of-bump j k ((i, n) ∷ m) = elim (Bool-cases (key.same i k)) [
    | inl e ↦
        let ik : i ≡ k = (key.same_iff i k).0 e in
        let same : key.same i j ≡ key.same k j = ap (λ x. key.same x j) ik in
        rw e (ground (arith, same))
    | inr e ↦ rw e (ground (arith, apart i j k e, count_of-bump j k m))
  ]
