-- ===== src/DocTypes/Validation.antt =====
-- What `_validate_doc_types` accepts, and what it makes of a request.
use mathlib.Core.List.{append-nil, append_assoc}
use researchhub_engine.Prelude.{
  any_by, String, ◌≡◌, ◌≢◌, ◌↔◌, refl, sym, ap, ◌∙◌, Bool, false, ◌||◌, Option, none, some, List,
  [], ◌∷◌, ◌++◌, map, arith, inl, inr, str_eq, eq_iff, contains, is_none, All, AreDistinct,
  contains-append, AreDistinct-concat, All-append, Bool-cases, Option-cases, str_eq_comm,
  str_eq_refl, filter_by,
}
use researchhub_engine.Errors.{Raised, invalid_doc_types, engine}
use researchhub_engine.World.{ok, err}
use researchhub_engine.DocTypes.{
  doc_type_to_step, lookup, has_key, canonical_of, collect, from_keys, finish, validate_doc_types,
}
use researchhub_engine.DocTypes.Order.{
  sorted, IsAscending, sorted-IsAscending, count_of, count_of-sorted,
}
use researchhub_engine.DocTypes.Lookup.{
  IsRequestable, canonical_of-IsRequestable, canonical_of_requestable,
}

-- `from_keys` keeps the first of each text.
contains-from_keys :
    (t : String) (seen xs : List String)
    → contains t (from_keys seen xs) ≡ (contains t seen || contains t xs)
unfolding from_keys
contains-from_keys t seen [] = ground arith
contains-from_keys t seen (x ∷ xs) = elim (Bool-cases (contains x seen)) [
  | inl old ↦ rw (old, contains-from_keys t seen xs) (ground (arith, eq_iff t x, old))
  | inr new ↦
      rw (new, contains-from_keys t (seen ++ x ∷ []) xs, contains-append t seen (x ∷ []))
        (ground arith)
]

from_keys-AreDistinct : (seen xs : List String) → AreDistinct seen → AreDistinct (from_keys seen xs)
unfolding from_keys
from_keys-AreDistinct seen [] h = h
from_keys-AreDistinct seen (x ∷ xs) h = elim (Bool-cases (contains x seen)) [
  | inl old ↦ rw old (from_keys-AreDistinct seen xs h)
  | inr new ↦ rw new (from_keys-AreDistinct (seen ++ x ∷ []) xs (AreDistinct-concat seen x h new))
]

from_keys-All {κ} :
    (P : String → Type κ) (seen xs : List String)
    → All P seen
    → All P xs
    → All P (from_keys seen xs)
unfolding from_keys
from_keys-All P seen [] h k = h
from_keys-All P seen (x ∷ xs) h k = elim (Bool-cases (contains x seen)) [
  | inl old ↦ rw old (from_keys-All P seen xs h k.1)
  | inr new ↦
      rw new (from_keys-All P (seen ++ x ∷ []) xs (All-append P seen (x ∷ []) h (k.0, tt)) k.1)
]

-- the test `o == some c`
abbrev is_some_of : String → Option String → Bool
is_some_of c none = false
is_some_of c (some d) = str_eq c d

-- the requested name `t` stands for the type `c`
abbrev pub stands_for : (String → String) → String → String → Bool
stands_for lower t c = is_some_of c (canonical_of lower t)

abbrev prepend_known : Option String → List String → List String
prepend_known none cs = cs
prepend_known (some c) cs = c ∷ cs

-- The loop in one pass each: what the names stand for, and the names that stand for nothing.
abbrev pub known_types : (String → String) → List String → List String
known_types lower [] = []
known_types lower (t ∷ ts) = prepend_known (canonical_of lower t) (known_types lower ts)

abbrev pub unknown_types : (String → String) → List String → List String
unknown_types lower = filter_by (λ t. is_none (canonical_of lower t))

module _ (lower : String → String) where
  collect_lem :
      (canonical unknown ts : List String)
      → collect lower canonical unknown ts
        ≡ (canonical ++ known_types lower ts, unknown ++ unknown_types lower ts)
  unfolding collect
  collect_lem canonical unknown [] = rw (append-nil, append-nil) refl
  collect_lem canonical unknown (t ∷ ts) = elim (Option-cases (canonical_of lower t)) [
    | inl absent ↦
        rw (absent, collect_lem canonical (unknown ++ t ∷ []) ts) (simp (append_assoc, absent))
    | inr (c, known) ↦
        rw (known, collect_lem (canonical ++ c ∷ []) unknown ts) (simp (append_assoc, known))
  ]

  All-prepend_known :
      (t : String) (o : Option String) (cs : List String)
      → canonical_of lower t ≡ o
      → All IsRequestable cs
      → All IsRequestable (prepend_known o cs)
  All-prepend_known t none cs e h = h
  All-prepend_known t (some c) cs e h = (canonical_of-IsRequestable lower t c e, h)

  known_types-IsRequestable : (ts : List String) → All IsRequestable (known_types lower ts)
  known_types-IsRequestable [] = tt
  known_types-IsRequestable (t ∷ ts) =
      All-prepend_known t (canonical_of lower t) (known_types lower ts) refl
        (known_types-IsRequestable ts)

  known_types_of_requestable : (ts : List String) → All IsRequestable ts → known_types lower ts ≡ ts
  known_types_of_requestable [] h = refl
  known_types_of_requestable (t ∷ ts) h =
      cc (canonical_of_requestable lower t h.0, known_types_of_requestable ts h.1)

  unknown_types_of_requestable :
      (ts : List String) → All IsRequestable ts → unknown_types lower ts ≡ []
  unknown_types_of_requestable [] h = refl
  unknown_types_of_requestable (t ∷ ts) h =
      rw (canonical_of_requestable lower t h.0) (unknown_types_of_requestable ts h.1)

  -- A request that names something unknown leaves something unknown; without, each name is known.
  contains-known_types :
      (c : String) (ts : List String)
      → contains c (known_types lower ts) ≡ any_by (λ t. stands_for lower t c) ts
  contains-known_types c [] = refl
  contains-known_types c (t ∷ ts) =
      rw (← contains-known_types c ts) (stands (canonical_of lower t) refl)
    where
      stands :
          (o : Option String)
          → canonical_of lower t ≡ o
          → contains c (prepend_known o (known_types lower ts))
            ≡ (is_some_of c o || contains c (known_types lower ts))
      stands none e = refl
      stands (some d) e = refl

-- Texts without repetition are their own keys.
contains-append_false :
    (x : String) (seen xs : List String) → AreDistinct (seen ++ x ∷ xs) → contains x seen ≡ false
contains-append_false x [] xs h = refl
contains-append_false x (y ∷ seen) xs h =
    ground
      (arith, str_eq_comm x y, contains-append y seen (x ∷ xs), contains-append_false x seen xs h.1)

from_keys_of_AreDistinct :
    (seen xs : List String) → AreDistinct (seen ++ xs) → from_keys seen xs ≡ seen ++ xs
unfolding from_keys
from_keys_of_AreDistinct seen [] h = rw append-nil refl
from_keys_of_AreDistinct seen (x ∷ xs) h = rw (contains-append_false x seen xs h) (
    from_keys_of_AreDistinct (seen ++ x ∷ []) xs (rw append_assoc h)
    ∙ append_assoc seen (x ∷ []) xs)

module _ (lower : String → String) where
  validate_cons :
      (t : String) (ts : List String)
      → validate_doc_types lower (t ∷ ts)
        ≡ finish (known_types lower (t ∷ ts), unknown_types lower (t ∷ ts))
  unfolding validate_doc_types
  validate_cons t ts = rw (collect_lem lower [] [] (t ∷ ts)) refl

  finish-eq-err_iff :
      (known unknown : List String) (e : Raised)
      → (finish (known, unknown) ≡ err e)
        ↔ ((unknown ≢ []) × (e ≡ engine (invalid_doc_types (sorted unknown))))
  finish-eq-err_iff known [] e = (λ h. cc, λ h. absurd (h.0 refl))
  finish-eq-err_iff known (u ∷ us) e = (λ h. (cc, ground arith), λ h. rw h.1 refl)

  -- what an accepted request with a name in it is made of
  finish-eq-ok :
      (known unknown : List String) {types : List String}
      → finish (known, unknown) ≡ ok types
      → (unknown ≡ []) × (types ≡ from_keys [] known)
  finish-eq-ok known [] h = (refl, ground arith)
  finish-eq-ok known (u ∷ us) h = cc

  known-ne-nil :
      (t : String) (ts : List String)
      → unknown_types lower (t ∷ ts) ≡ []
      → known_types lower (t ∷ ts) ≢ []
  known-ne-nil t ts h = elim (Option-cases (canonical_of lower t)) [
    | inl absent ↦ ground (arith, absent)
    | inr (c, known) ↦ rw known (cc)
  ]

  from_keys-ne-nil : (x : String) (xs : List String) → from_keys [] (x ∷ xs) ≢ []
  from_keys-ne-nil x xs h =
      ground (arith, contains-from_keys x [] (x ∷ xs), ap (contains x) h, str_eq_refl x)

  from_keys-ne-nil_of : (xs : List String) → xs ≢ [] → from_keys [] xs ≢ []
  from_keys-ne-nil_of [] h = absurd (h refl)
  from_keys-ne-nil_of (x ∷ xs) h = from_keys-ne-nil x xs

  IsRequestable-keys :
      let types = map (λ (e : String × String). e.0) doc_type_to_step in
      All IsRequestable types × AreDistinct types × (types ≢ [])
  unfolding has_key lookup
  IsRequestable-keys = (
    (refl, (refl, (refl, (refl, (refl, (refl, tt)))))),
    (refl, (refl, (refl, (refl, (refl, (refl, tt)))))),
    cc,
  )

  validate_requestable :
      (types : List String)
      → All IsRequestable types
      → AreDistinct types
      → types ≢ []
      → validate_doc_types lower types ≡ ok types
  validate_requestable [] r d h = absurd (h refl)
  validate_requestable (t ∷ ts) r d h =
      rw
        (
          validate_cons,
          known_types_of_requestable lower (t ∷ ts) r,
          unknown_types_of_requestable lower (t ∷ ts) r,
        )
        (ap ok (from_keys_of_AreDistinct [] (t ∷ ts) d))

  -- A request is refused exactly when a name in it stands for no document type, and the error then
  -- lists the names that do not, each as often as the request does, in the order of their code points.
  pub validate_doc_types-eq-err_iff :
      (ts : List String) (e : Raised)
      → let unknown = unknown_types lower ts in
        ((validate_doc_types lower ts ≡ err e)
          ↔ ((unknown ≢ []) × (e ≡ engine (invalid_doc_types (sorted unknown)))))
        × IsAscending (sorted unknown)
        × ((t : String) → count_of t (sorted unknown) ≡ count_of t unknown)
  validate_doc_types-eq-err_iff ts e = (
    refused ts,
    sorted-IsAscending (unknown_types lower ts),
    λ t. count_of-sorted t (unknown_types lower ts),
  )
    where
      refused :
          (ts : List String)
          → (validate_doc_types lower ts ≡ err e) ↔ (
              (unknown_types lower ts ≢ [])
              × (e ≡ engine (invalid_doc_types (sorted (unknown_types lower ts)))))
      refused [] = (unfold validate_doc_types in cc, λ h. absurd (h.0 refl))
      refused (t ∷ ts) =
          rw validate_cons
            (finish-eq-err_iff (known_types lower (t ∷ ts)) (unknown_types lower (t ∷ ts)) e)

  -- An accepted request yields at least one document type, each of them once, and each can be
  -- requested.
  pub validate_doc_types_sound :
      (ts : List String) {types : List String}
      → validate_doc_types lower ts ≡ ok types
      → All IsRequestable types × AreDistinct types × (types ≢ [])
  validate_doc_types_sound [] {types} h =
      let e : types ≡ map (λ (e : String × String). e.0) doc_type_to_step =
        unfold validate_doc_types in ground arith in
      rw e IsRequestable-keys
  validate_doc_types_sound (t ∷ ts) h =
      let (every, same) =
        finish-eq-ok (known_types lower (t ∷ ts)) (unknown_types lower (t ∷ ts))
          (sym (validate_cons t ts) ∙ h) in
      rw same (
        from_keys-All IsRequestable [] (known_types lower (t ∷ ts)) tt
            (known_types-IsRequestable lower (t ∷ ts)),
        from_keys-AreDistinct [] (known_types lower (t ∷ ts)) tt,
        from_keys-ne-nil_of (known_types lower (t ∷ ts)) (known-ne-nil t ts every),
      )

  -- For a request that names something, the types it yields are those that its names stand for.
  pub contains-validate_doc_types :
      (t : String) (ts : List String) {types : List String} (c : String)
      → validate_doc_types lower (t ∷ ts) ≡ ok types
      → contains c types ≡ any_by (λ r. stands_for lower r c) (t ∷ ts)
  contains-validate_doc_types t ts c h =
      let (every, same) =
        finish-eq-ok (known_types lower (t ∷ ts)) (unknown_types lower (t ∷ ts))
          (sym (validate_cons t ts) ∙ h) in
      rw (same, contains-from_keys c [] (known_types lower (t ∷ ts)))
        (contains-known_types lower c (t ∷ ts))

  -- What was accepted once is accepted again, unchanged: the types that a job stores can be retried.
  pub validate_doc_types_idem :
      (ts : List String) {types : List String}
      → validate_doc_types lower ts ≡ ok types
      → validate_doc_types lower types ≡ ok types
  validate_doc_types_idem ts {types} h =
      let (requestable, distinct, nonempty) = validate_doc_types_sound ts h in
      validate_requestable types requestable distinct nonempty
