-- ===== src/Personas.antt =====
-- pkg/langstream/personas.go: the voice of each language. The map is a list of its entries; the
-- mutex makes each method one step.
use Prim.Native.String.{String, ◌++◌ as str_append}
use text.Mathlib.Text.{◌==◌ as str_eq}
use text.Mathlib.TextEquality.{eq_iff}
use lang_stream.Prelude.{
  ◌≡◌, ◌∙◌, ap, sym, refl, true, false, List, [], ◌∷◌, if◌then◌else◌, arith, Bool-cases, inl, inr,
}
use lang_stream.Audio.{Persona}

pub record PersonaManager : Type 0 where
  pub personas : List (String × Persona)

unfoldable pub new_persona_manager : PersonaManager
new_persona_manager = record { personas = [] }

unfoldable pub default_persona : String → Persona
default_persona lang = record {
  voice_id = str_append "default-" lang;
  language = lang;
  gender = "neutral";
  cloned_from = "";
}

unfoldable pub assigned : String → List (String × Persona) → Persona
unfolding default_persona
assigned lang [] = default_persona lang
assigned lang ((l, p) ∷ m) = if str_eq l lang then p else assigned lang m

unfoldable pub get : PersonaManager → String → Persona
unfolding assigned
get pm lang = assigned lang pm.personas

unfoldable pub assign : String → Persona → List (String × Persona) → List (String × Persona)
assign lang p [] = (lang, p) ∷ []
assign lang p ((l, q) ∷ m) = if str_eq l lang then (l, p) ∷ m else (l, q) ∷ assign lang p m

unfoldable pub set : PersonaManager → String → Persona → PersonaManager
unfolding assign
set pm lang p = record { personas = assign lang p pm.personas }

apart :
    (l lang other : String)
    → str_eq l lang ≡ false
    → str_eq l other ≡ true
    → str_eq lang other ≡ false
apart l lang other e f = elim (Bool-cases (str_eq lang other)) [
  | inl t ↦ let met = (eq_iff l lang).1 ((eq_iff l other).0 f ∙ sym ((eq_iff lang other).0 t)) in cc
  | inr g ↦ g
]

assigned-assign :
    (lang other : String) (p : Persona) (m : List (String × Persona))
    → assigned other (assign lang p m) ≡ (if str_eq lang other then p else assigned other m)
unfolding assigned assign
assigned-assign lang other p [] = refl
assigned-assign lang other p ((l, q) ∷ m) = elim (Bool-cases (str_eq l lang)) [
  | inl e ↦
      let same : str_eq l other ≡ str_eq lang other =
        ap (λ x. str_eq x other) ((eq_iff l lang).0 e) in
      rw (e, same) (ground arith)
  | inr e ↦ elim (Bool-cases (str_eq l other)) [
    | inl f ↦ rw (e, f) (ground (arith, apart l lang other e f))
    | inr f ↦ rw (e, f) (assigned-assign lang other p m)
  ]
]

-- After `set` a language has exactly the persona given, also a zero one, and every other language has
-- the persona that it had.
pub get-set :
    (pm : PersonaManager) (lang other : String) (p : Persona)
    → get (set pm lang p) other ≡ (if str_eq lang other then p else get pm other)
unfolding get set
get-set pm lang other p = assigned-assign lang other p pm.personas
