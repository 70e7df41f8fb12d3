-- ===== src/Registry.antt =====
-- pkg/langstream/backends.go: the backends by their names. A factory stands for what a call of it
-- returns, of the types A, T and S. The lock makes each method one step.
pub mod Names
use lang_stream.Prelude.{
  ℕ, zero, suc, ◌+◌, ◌-◌, ◌*◌, ◌/◌, ◌%◌, ◌^◌, ◌≤◌, ◌<◌, ◌≡◌, refl, sym, ap, ap₂, subst, ◌∙◌, ◌≢◌,
  ◌↔◌, ◌⊎◌, inl, inr, Bool, Bool-cases, Option-cases, true, false, not, ◌&&◌, ◌||◌, Option, none,
  some, List, [], ◌∷◌, ◌++◌, map, arith, ltb, leb, ◌==◌, if◌then◌else◌, if_cases, length, take,
  ==_iff,
}
use Prim.Native.String.{String, compare}
use Prim.Native.Nat.{Ordering}
use text.Mathlib.Text.{◌==◌ as str_eq}

abbrev pub backend_mock : String
backend_mock = "mock"

pub record BackendRegistry (A T S : Type 0) : Type 0 where
  pub asr_fac : List (String × A)
  pub transl_fac : List (String × T)
  pub tts_fac : List (String × S)

-- k before i and its rest, or i before the rest with k in it.
unfoldable pub placed : Ordering → (k i : String) → (rest inserted : List String) → List String
placed Ordering.gt k i rest inserted = i ∷ inserted
placed Ordering.lt k i rest inserted = k ∷ i ∷ rest
placed Ordering.eq k i rest inserted = k ∷ i ∷ rest

unfoldable pub insert_sorted : String → List String → List String
unfolding placed
insert_sorted k [] = k ∷ []
insert_sorted k (i ∷ is) = placed (compare k i) k i is (insert_sorted k is)

module _ {V : Type 0} where
  -- m[name] = factory.
  unfoldable pub put : String → V → List (String × V) → List (String × V)
  put k v [] = (k, v) ∷ []
  put k v ((i, w) ∷ m) = if str_eq i k then (i, v) ∷ m else (i, w) ∷ put k v m

  unfoldable pub factory_of : String → List (String × V) → Option V
  factory_of k [] = none
  factory_of k ((i, v) ∷ m) = if str_eq i k then some v else factory_of k m

  -- sort.Strings, by insertion.
  unfoldable pub sorted_keys : List (String × V) → List String
  unfolding insert_sorted
  sorted_keys [] = []
  sorted_keys ((k, v) ∷ m) = insert_sorted k (sorted_keys m)

  -- A backend by its name, or the error that names those there are.
  unfoldable pub new_backend : String → List (String × V) → V ⊎ List String
  unfolding factory_of sorted_keys
  new_backend name m = elim (factory_of name m) [ none ↦ inr (sorted_keys m) | some v ↦ inl v ]

module _ {A T S : Type 0} where
  unfoldable pub register_asr : BackendRegistry A T S → String → A → BackendRegistry A T S
  unfolding put
  register_asr r name factory = record r { asr_fac = put name factory r.asr_fac }

  unfoldable pub register_translator : BackendRegistry A T S → String → T → BackendRegistry A T S
  unfolding put
  register_translator r name factory = record r { transl_fac = put name factory r.transl_fac }

  unfoldable pub register_tts : BackendRegistry A T S → String → S → BackendRegistry A T S
  unfolding put
  register_tts r name factory = record r { tts_fac = put name factory r.tts_fac }

  unfoldable pub new_asr : BackendRegistry A T S → String → A ⊎ List String
  unfolding new_backend
  new_asr r name = new_backend name r.asr_fac

  unfoldable pub new_translator : BackendRegistry A T S → String → T ⊎ List String
  unfolding new_backend
  new_translator r name = new_backend name r.transl_fac

  unfoldable pub new_tts : BackendRegistry A T S → String → S ⊎ List String
  unfolding new_backend
  new_tts r name = new_backend name r.tts_fac

  unfoldable pub names_asr : BackendRegistry A T S → List String
  unfolding sorted_keys
  names_asr r = sorted_keys r.asr_fac

  unfoldable pub names_translator : BackendRegistry A T S → List String
  unfolding sorted_keys
  names_translator r = sorted_keys r.transl_fac

  unfoldable pub names_tts : BackendRegistry A T S → List String
  unfolding sorted_keys
  names_tts r = sorted_keys r.tts_fac

  -- With the three mocks.
  unfoldable pub new_backend_registry : A → T → S → BackendRegistry A T S
  unfolding register_asr register_translator register_tts
  new_backend_registry mock_recognizer mock_translator mock_synthesizer =
      let empty : BackendRegistry A T S = record { asr_fac = []; transl_fac = []; tts_fac = [] } in
      register_tts
        (register_translator (register_asr empty backend_mock mock_recognizer) backend_mock
          mock_translator)
        backend_mock mock_synthesizer
