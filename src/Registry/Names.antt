-- ===== src/Registry/Names.antt =====
-- What pkg/langstream/backends.go finds by a name, and the names that it lists.
use lang_stream.Prelude.{
  ◌≡◌, refl, sym, subst, ◌⊎◌, inl, inr, Bool-cases, Option-cases, some, List, [], ◌∷◌, arith,
  if◌then◌else◌,
}
use Prim.Native.String.{String, compare}
use Prim.Native.Nat.{Ordering}
use text.Mathlib.Text.{◌==◌ as str_eq}
use text.Mathlib.TextEquality.{eq_iff}
use lang_stream.Registry.{
  placed, BackendRegistry, put, factory_of, insert_sorted, sorted_keys, new_backend, new_asr,
  names_asr, register_asr,
}

-- One of the names.
pub data Named (k : String) : List String → Type 0 where
  named_here : {is : List String} → Named k (k ∷ is)
  named_later : {i : String} {is : List String} → Named k is → Named k (i ∷ is)

Named-cons : (j k : String) (is : List String) → Named j (k ∷ is) → (j ≡ k) ⊎ Named j is
Named-cons j k is named_here = inl refl
Named-cons j k is (named_later h) = inr h

placed-Named :
    (o : Ordering) (j k i : String) (rest inserted : List String)
    → ((j ≡ k) ⊎ Named j rest → Named j inserted)
    → (j ≡ k) ⊎ Named j (i ∷ rest)
    → Named j (placed o k i rest inserted)
unfolding placed
placed-Named Ordering.gt j k i rest inserted h (inl e) = named_later (h (inl e))
placed-Named Ordering.gt j k i rest inserted h (inr t) = elim (Named-cons j i rest t) [
  | inl e ↦ subst (λ x. Named j (x ∷ inserted)) e named_here
  | inr u ↦ named_later (h (inr u))
]
placed-Named Ordering.lt j k i rest inserted h (inl e) =
    subst (λ x. Named j (x ∷ i ∷ rest)) e named_here
placed-Named Ordering.lt j k i rest inserted h (inr t) = named_later t
placed-Named Ordering.eq j k i rest inserted h (inl e) =
    subst (λ x. Named j (x ∷ i ∷ rest)) e named_here
placed-Named Ordering.eq j k i rest inserted h (inr t) = named_later t

placed-only :
    (o : Ordering) (j k i : String) (rest inserted : List String)
    → (Named j inserted → (j ≡ k) ⊎ Named j rest)
    → Named j (placed o k i rest inserted)
    → (j ≡ k) ⊎ Named j (i ∷ rest)
unfolding placed
placed-only Ordering.gt j k i rest inserted h t = elim (Named-cons j i inserted t) [
  | inl e ↦ inr (subst (λ x. Named j (x ∷ rest)) e named_here)
  | inr u ↦ elim (h u) [ inl e ↦ inl e | inr w ↦ inr (named_later w) ]
]
placed-only Ordering.lt j k i rest inserted h t = Named-cons j k (i ∷ rest) t
placed-only Ordering.eq j k i rest inserted h t = Named-cons j k (i ∷ rest) t

insert_sorted-Named :
    (j k : String) (is : List String) → (j ≡ k) ⊎ Named j is → Named j (insert_sorted k is)
unfolding insert_sorted
insert_sorted-Named j k [] (inl e) = subst (λ x. Named j (x ∷ [])) e named_here
insert_sorted-Named j k [] (inr t) = elim t [ ]
insert_sorted-Named j k (i ∷ is) h =
    placed-Named (compare k i) j k i is (insert_sorted k is) (insert_sorted-Named j k is) h

insert_sorted-only :
    (j k : String) (is : List String) → Named j (insert_sorted k is) → (j ≡ k) ⊎ Named j is
unfolding insert_sorted
insert_sorted-only j k [] h = Named-cons j k [] h
insert_sorted-only j k (i ∷ is) h =
    placed-only (compare k i) j k i is (insert_sorted k is) (insert_sorted-only j k is) h

module _ {V : Type 0} where
  factory_of-put :
      (j k : String) (v : V) (m : List (String × V))
      → factory_of j (put k v m) ≡ (if str_eq k j then some v else factory_of j m)
  unfolding factory_of put
  factory_of-put j k v [] = refl
  factory_of-put j k v ((i, w) ∷ m) =
      ground (arith, eq_iff k j, eq_iff i k, eq_iff i j, factory_of-put j k v m)

  known :
      (k : String) (m : List (String × V))
      → Named k (sorted_keys m)
      → (v : V) × (factory_of k m ≡ some v)
  unfolding sorted_keys factory_of
  known k [] h = elim h [ ]
  known k ((i, w) ∷ m) h = elim (Bool-cases (str_eq i k)) [
    | inl e ↦ (w, ground arith)
    | inr e ↦ elim (insert_sorted-only k i (sorted_keys m) h) [
      | inl same ↦ absurd (cc ((eq_iff i k).1 (sym same), e))
      | inr t ↦ let (v, found) = known k m t in (v, ground (arith, found))
    ]
  ]

  listed :
      (k : String) (v : V) (m : List (String × V))
      → factory_of k m ≡ some v
      → Named k (sorted_keys m)
  unfolding sorted_keys factory_of
  listed k v [] h = ground (arith, h)
  listed k v ((i, w) ∷ m) h = elim (Bool-cases (str_eq i k)) [
    | inl e ↦ insert_sorted-Named k i (sorted_keys m) (inl (sym ((eq_iff i k).0 e)))
    | inr e ↦ insert_sorted-Named k i (sorted_keys m) (inr (listed k v m (ground (arith, h, e))))
  ]

  listed_after :
      (j k : String) (v : V) (m : List (String × V))
      → (j ≡ k) ⊎ Named j (sorted_keys m)
      → Named j (sorted_keys (put k v m))
  listed_after j k v m (inl e) =
      listed j v (put k v m) (ground (arith, factory_of-put j k v m, eq_iff k j))
  listed_after j k v m (inr h) =
      let (w, found) = known j m h in
      elim (Bool-cases (str_eq k j)) [
        | inl e ↦ listed j v (put k v m) (ground (arith, factory_of-put j k v m, e))
        | inr e ↦ listed j w (put k v m) (ground (arith, factory_of-put j k v m, e, found))
      ]

  listed_before :
      (j k : String) (v : V) (m : List (String × V))
      → Named j (sorted_keys (put k v m))
      → (j ≡ k) ⊎ Named j (sorted_keys m)
  listed_before j k v m h =
      let (w, found) = known j (put k v m) h in
      elim (Bool-cases (str_eq k j)) [
        | inl e ↦ inl (sym ((eq_iff k j).0 e))
        | inr e ↦ inr (listed j w m (ground (arith, factory_of-put j k v m, e, found)))
      ]

  unlisted :
      (j : String) (m : List (String × V))
      → ¬ (Named j (sorted_keys m))
      → new_backend j m ≡ inr (sorted_keys m)
  unfolding new_backend
  unlisted j m h = elim (Option-cases (factory_of j m)) [
    | inl e ↦ ground (arith, e)
    | inr (v, e) ↦ absurd (h (listed j v m e))
  ]

  factory_made : (k : String) (v : V) (m : List (String × V)) → new_backend k (put k v m) ≡ inl v
  unfolding new_backend
  factory_made k v m = ground (arith, factory_of-put k k v m, eq_iff k k)

-- After a recognizer is registered under a name, that name makes it, whatever the name stood for
-- before; the names listed are this one and those of before; and a name that is not listed makes
-- the error that lists them.
pub registered :
    {A T S : Type 0} (r : BackendRegistry A T S) (k j : String) (factory : A)
    → let r' = register_asr r k factory in
      (new_asr r' k ≡ inl factory)
      × ((Named j (names_asr r') → (j ≡ k) ⊎ Named j (names_asr r))
          × ((j ≡ k) ⊎ Named j (names_asr r) → Named j (names_asr r')))
      × (¬ (Named j (names_asr r')) → new_asr r' j ≡ inr (names_asr r'))
unfolding new_asr names_asr register_asr
registered r k j factory =
    let m = r.asr_fac in
    (
      factory_made k factory m,
      ((λ h. listed_before j k factory m h), (λ h. listed_after j k factory m h)),
      λ h. unlisted j (put k factory m) h,
    )
