-- ===== src/DocTypes.antt =====
-- The document types that can be requested: `STEP_TO_DOC_TYPE` and `DOC_TYPE_TO_STEP` of
-- backend/app/engine/adapters.py, and `_validate_doc_types` of backend/app/engine/service.py.
-- `lower` stands for Python's `str.lower`.
pub mod Order
pub mod Lookup
pub mod Validation
use researchhub_engine.Prelude.{
  String, Bool, true, false, Option, none, some, List, [], ◌∷◌, ◌++◌, map, if◌then◌else◌, str_eq,
  contains, is_none, not,
}
use researchhub_engine.DocTypes.Order.{sorted}
use researchhub_engine.Errors.{invalid_doc_types, engine}
use researchhub_engine.World.{Result, ok, err}

abbrev pub step_to_doc_type : List (String × String)
step_to_doc_type =
    ("parcel", "PARCEL_RECORD")
    ∷ ("appraiser", "PROPERTY_APPRAISER_TAX_RECORD")
    ∷ ("plat", "RECORDED_PLAT_SUBDIVISION_MAP")
    ∷ ("deed", "DEED_SUBJECT_PARCEL")
    ∷ ("flood", "FEMA_FLOOD_ZONE_FIRM")
    ∷ ("benchmarks", "NGS_CONTROL")
    ∷ []

-- `{v: k for k, v in STEP_TO_DOC_TYPE.items()}`
abbrev pub doc_type_to_step : List (String × String)
doc_type_to_step = map (λ (e : String × String). (e.1, e.0)) step_to_doc_type

-- `d.get(k)`
unfoldable pub lookup : String → List (String × String) → Option String
lookup k [] = none
lookup k ((j, v) ∷ d) = if str_eq k j then some v else lookup k d

-- `k in d`
unfoldable pub has_key : String → List (String × String) → Bool
has_key k d = not (is_none (lookup k d))

-- the document type that one requested name stands for
unfoldable pub canonical_of : (String → String) → String → Option String
canonical_of lower t =
    if has_key t doc_type_to_step then some t else lookup (lower t) step_to_doc_type

-- `canonical.append(...)`, where the name is known
abbrev pub append_known : List String → Option String → List String
append_known canonical none = canonical
append_known canonical (some c) = canonical ++ c ∷ []

-- `unknown.append(t)`, where it is not
abbrev pub append_unknown : List String → String → Option String → List String
append_unknown unknown t none = unknown ++ t ∷ []
append_unknown unknown t (some _) = unknown

-- the loop: canonical names and unknown ones, each in the order of the request
unfoldable pub collect :
    (String → String) → List String → List String → List String → List String × List String
collect lower canonical unknown [] = (canonical, unknown)
collect lower canonical unknown (t ∷ ts) =
    collect lower (append_known canonical (canonical_of lower t))
      (append_unknown unknown t (canonical_of lower t)) ts

-- `list(dict.fromkeys(xs))`, on from the keys already there
unfoldable pub from_keys : List String → List String → List String
from_keys seen [] = seen
from_keys seen (x ∷ xs) = from_keys (if contains x seen then seen else seen ++ x ∷ []) xs

abbrev finish : List String × List String → Result (List String)
finish (canonical, []) = ok (from_keys [] canonical)
finish (canonical, t ∷ ts) = err (engine (invalid_doc_types (sorted (t ∷ ts))))

-- `_validate_doc_types`
unfoldable pub validate_doc_types : (String → String) → List String → Result (List String)
validate_doc_types lower [] = ok (map (λ (e : String × String). e.0) doc_type_to_step)
validate_doc_types lower (t ∷ ts) = finish (collect lower [] [] (t ∷ ts))
