-- ===== src/DocTypes/Lookup.antt =====
-- Lookups in the two tables of document types of backend/app/engine/adapters.py.
use researchhub_engine.Prelude.{
  contains, AreDistinct, sym, ◌∙◌, String, ◌≡◌, refl, true, false, some, arith, eq_iff, List, [],
  ◌∷◌, inl, inr, Bool-cases, ◌↔◌,
}
use researchhub_engine.DocTypes.{step_to_doc_type, doc_type_to_step, lookup, has_key, canonical_of}

abbrev pub IsRequestable : String → Type 0
IsRequestable t = has_key t doc_type_to_step ≡ true

abbrev values : List (String × String) → List String
values [] = []
values ((_, v) ∷ d) = v ∷ values d

abbrev inverse : List (String × String) → List (String × String)
inverse [] = []
inverse ((k, v) ∷ d) = (v, k) ∷ inverse d

contains-values :
    (k v : String) (d : List (String × String)) → lookup k d ≡ some v → contains v (values d) ≡ true
unfolding lookup
contains-values k v [] h = cc
contains-values k v ((j, w) ∷ d) h = ground (arith, eq_iff v w, contains-values k v d)

-- A table without repeated values is inverted by its inverse.
lookup-inverse :
    (k v : String) (d : List (String × String))
    → AreDistinct (values d)
    → lookup k d ≡ some v
    → lookup v (inverse d) ≡ some k
unfolding lookup
lookup-inverse k v [] distinct h = cc
lookup-inverse k v ((j, w) ∷ d) distinct h =
    ground (arith, eq_iff k j, eq_iff v w, contains-values k v d, lookup-inverse k v d distinct.1)

-- The two tables are inverse: a step stands for a requestable type exactly when that type stands for the
-- step. So every step key leads to a type and back, and every requestable type to a step and back.
pub lookup-eq-some_iff :
    (step doc_type : String)
    → (lookup step step_to_doc_type ≡ some doc_type)
      ↔ (lookup doc_type doc_type_to_step ≡ some step)
lookup-eq-some_iff step doc_type = (
  lookup-inverse step doc_type step_to_doc_type (refl, (refl, (refl, (refl, (refl, (refl, tt)))))),
  lookup-inverse doc_type step doc_type_to_step (refl, (refl, (refl, (refl, (refl, (refl, tt)))))),
)

pub canonical_of_requestable :
    (lower : String → String) (t : String) → IsRequestable t → canonical_of lower t ≡ some t
unfolding canonical_of
canonical_of_requestable lower t h = rw h refl

canonical_of_alias :
    (lower : String → String) (t : String)
    → has_key t doc_type_to_step ≡ false
    → canonical_of lower t ≡ lookup (lower t) step_to_doc_type
unfolding canonical_of
canonical_of_alias lower t h = rw h refl

has_key_of_lookup :
    (t s : String) → lookup t doc_type_to_step ≡ some s → has_key t doc_type_to_step ≡ true
unfolding has_key
has_key_of_lookup t s h = rw h refl

-- What a requested name stands for can be requested itself.
pub canonical_of-IsRequestable :
    (lower : String → String) (t c : String) → canonical_of lower t ≡ some c → IsRequestable c
canonical_of-IsRequestable lower t c h = elim (Bool-cases (has_key t doc_type_to_step)) [
  | inl known ↦
      let same : c ≡ t = ground (arith, canonical_of_requestable lower t known) in rw same known
  | inr alias ↦
      has_key_of_lookup c (lower t)
        ((lookup-eq-some_iff (lower t) c).0 (sym (canonical_of_alias lower t alias) ∙ h))
]
