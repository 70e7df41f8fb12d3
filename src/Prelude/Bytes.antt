-- ===== src/Prelude/Bytes.antt =====
-- Lists of byte strings, and the bytes of all of them in order.
use mathlib.Core.List.{append_assoc}
use mathlib.Core.Path.{◌≡◌, refl, sym, ap, ◌∙◌}
use mathlib.Core.List.{List, [], ◌∷◌, ◌++◌}
use lang_stream.Prelude.Lists.{All}

module _ {ℓ} {A : Type ℓ} where
  abbrev pub joined : List (List A) → List A
  joined [] = []
  joined (xs ∷ xss) = xs ++ joined xss

module _ {ℓ} {A : Type ℓ} where
  pub joined-append : (a b : List (List A)) → joined (a ++ b) ≡ joined a ++ joined b
  joined-append [] b = refl
  joined-append (x ∷ a) b =
      ap (◌++◌ x) (joined-append a b) ∙ sym (append_assoc x (joined a) (joined b))

  pub All-append {κ} : (P : A → Type κ) (a b : List A) → All P a → All P b → All P (a ++ b)
  All-append P [] b h k = k
  All-append P (x ∷ a) b h k = (h.0, All-append P a b h.1 k)
