-- ===== src/Parcels/Lookups.antt =====
-- What `resolve_by_id` of backend/app/services/parcel.py finds, and when it finds nothing.
use researchhub_engine.Prelude.{
  String, ◌≡◌, refl, ap, ◌⊎◌, inl, inr, true, false, Option, none, some, List, [], ◌∷◌, ◌++◌, All,
  contains, str_eq, str_eq_refl, arith,
}
use researchhub_engine.Sources.Services.{Python}
use researchhub_engine.Resolution.{ParcelById}
use researchhub_engine.Resolution.Phases.{is_confirmed}
use researchhub_engine.Parcels.Choice.{Layers, or_next}
use researchhub_engine.Parcels.Identifiers.{
  Feature, Answers, IdService, id_fields, variants, wheres, first_answer, by_wheres, by_values,
  by_fields, query_by_id, enriched, parcel_of, services_for, found_or_next, by_services,
  resolve_by_id,
}

-- A fact of a member of the tail is one of a member of the list.
contains-cons :
    (x y : String) (ys : List String) → contains x ys ≡ true → contains x (y ∷ ys) ≡ true
contains-cons x y ys h = ground (arith, h)

contains_head : (x : String) (xs : List String) → contains x (x ∷ xs) ≡ true
contains_head x xs = rw (str_eq_refl x) refl

-- The end of a loop that returns the first feature it comes to: `Missed` holds of every text before, and
-- `Hit` of the text and the feature.
module _ (Missed : String → Type 0) (Hit : String → Feature → Type 0) where
  abbrev pub LoopEnds : List String → Option Feature → Type 0
  LoopEnds xs none = All Missed xs
  LoopEnds xs (some feat) = (x : String) × (contains x xs ≡ true) × Hit x feat

  abbrev pub StepEnds : String → Option Feature → Type 0
  StepEnds x none = Missed x
  StepEnds x (some feat) = Hit x feat

  LoopEnds-or_next :
      (x : String) (xs : List String) (o rest : Option Feature)
      → StepEnds x o
      → LoopEnds xs rest
      → LoopEnds (x ∷ xs) (or_next o rest)
  LoopEnds-or_next x xs (some feat) rest h k = (x, contains_head x xs, h)
  LoopEnds-or_next x xs none none h k = (h, k)
  LoopEnds-or_next x xs none (some feat) h (y, among, hit) = (y, contains-cons y x xs among, hit)

module _ (python : Python) (answers : Answers) (layer_url : String) where
  -- The layer has no row for a predicate, or raises; and the first row that it has is `feat`.
  abbrev pub HasNone : String → Type 0
  HasNone w =
      ((e : String) × (answers.ask layer_url w ≡ inl e)) ⊎ (answers.ask layer_url w ≡ inr [])

  abbrev pub HasRow : String → Feature → Type 0
  HasRow w feat = (feats : List Feature) × (answers.ask layer_url w ≡ inr (feat ∷ feats))

  -- The same for the predicates of a field and a value, and for all values.
  abbrev pub HasNoneFor : String → String → Type 0
  HasNoneFor f val = All HasNone (wheres python answers f val)

  abbrev pub HasRowFor : String → String → Feature → Type 0
  HasRowFor f val feat = LoopEnds HasNone HasRow (wheres python answers f val) (some feat)

  abbrev pub HasNoneIn : String → String → Type 0
  HasNoneIn pid f = All (HasNoneFor f) (variants python answers pid)

  abbrev pub HasRowIn : String → String → Feature → Type 0
  HasRowIn pid f feat =
      LoopEnds (HasNoneFor f) (HasRowFor f) (variants python answers pid) (some feat)

  by_wheres-end :
      (ws : List String) → LoopEnds HasNone HasRow ws (by_wheres python answers layer_url ws)
  unfolding by_wheres
  by_wheres-end [] = tt
  by_wheres-end (w ∷ ws) =
      LoopEnds-or_next HasNone HasRow w ws (first_answer python answers (answers.ask layer_url w))
        (by_wheres python answers layer_url ws) (go (answers.ask layer_url w) refl)
        (by_wheres-end ws)
    where
      go :
          (r : String ⊎ List Feature)
          → answers.ask layer_url w ≡ r
          → StepEnds HasNone HasRow w (first_answer python answers r)
      go (inl e) same = inl (e, same)
      go (inr []) same = inr same
      go (inr (feat ∷ feats)) same = (feats, same)

  by_values-end :
      (f : String) (vals : List String)
      → LoopEnds (HasNoneFor f) (HasRowFor f) vals (by_values python answers layer_url f vals)
  unfolding by_values
  by_values-end f [] = tt
  by_values-end f (val ∷ vals) =
      let ws = wheres python answers f val in
      LoopEnds-or_next (HasNoneFor f) (HasRowFor f) val vals (by_wheres python answers layer_url ws)
        (by_values python answers layer_url f vals)
        (go (by_wheres python answers layer_url ws) (by_wheres-end ws)) (by_values-end f vals)
    where
      go :
          (o : Option Feature)
          → LoopEnds HasNone HasRow (wheres python answers f val) o
          → StepEnds (HasNoneFor f) (HasRowFor f) val o
      go none h = h
      go (some feat) h = h

  by_fields-end :
      (pid : String) (fs : List String)
      → LoopEnds (HasNoneIn pid) (HasRowIn pid) fs (by_fields python answers layer_url pid fs)
  unfolding by_fields
  by_fields-end pid [] = tt
  by_fields-end pid (f ∷ fs) =
      let vals = variants python answers pid in
      LoopEnds-or_next (HasNoneIn pid) (HasRowIn pid) f fs
        (by_values python answers layer_url f vals) (by_fields python answers layer_url pid fs)
        (go (by_values python answers layer_url f vals) (by_values-end f vals))
        (by_fields-end pid fs)
    where
      go :
          (o : Option Feature)
          → LoopEnds (HasNoneFor f) (HasRowFor f) (variants python answers pid) o
          → StepEnds (HasNoneIn pid) (HasRowIn pid) f o
      go none h = h
      go (some feat) h = h

module _ (python : Python) (layers : Layers) (answers : Answers) where
  -- No exact predicate of the service's identifier fields has a row; and the first one that has a row has
  -- `feat` as the first.
  abbrev pub IsUnknownTo : String → IdService → Type 0
  IsUnknownTo pid s =
      All (HasNoneIn python answers s.layer_url pid)
        (id_fields python answers s.layer_url s.id_fields)

  abbrev pub IsKnownTo : String → IdService → Feature → Type 0
  IsKnownTo pid s feat =
      LoopEnds (HasNoneIn python answers s.layer_url pid) (HasRowIn python answers s.layer_url pid)
        (id_fields python answers s.layer_url s.id_fields) (some feat)

  -- The parcel is the feature's, confirmed, with the rows of related tables joined.
  abbrev pub IsParcelOf : IdService → Feature → ParcelById → Type 0
  IsParcelOf s feat r =
      (r.parcel.parcels ≡ enriched python layers answers s.related feat.attributes ∷ [])
      × (r.parcel.source ≡ some s.layer_url)
      × (is_confirmed r.parcel ≡ true)

  parcel_of-IsParcelOf :
      (s : IdService) (feat : Feature) → IsParcelOf s feat (parcel_of python layers answers s feat)
  unfolding parcel_of is_confirmed
  parcel_of-IsParcelOf s feat = (refl, refl, refl)

  -- No service knows the identifier, or the parcel is that of the first service that does.
  abbrev pub IsLookup : String → List IdService → Option ParcelById → Type 0
  IsLookup pid services none = All (IsUnknownTo pid) services
  IsLookup pid services (some r) =
      (before : List IdService) × (s : IdService) × (after : List IdService) × (feat : Feature)
      × (services ≡ before ++ s ∷ after)
      × All (IsUnknownTo pid) before
      × IsKnownTo pid s feat
      × IsParcelOf s feat r

  by_services-IsLookup :
      (pid : String) (services : List IdService)
      → IsLookup pid services (by_services python layers answers pid services)
  unfolding by_services query_by_id
  by_services-IsLookup pid [] = tt
  by_services-IsLookup pid (s ∷ services) =
      go (query_by_id python answers s.layer_url pid s.id_fields)
        (by_fields-end python answers s.layer_url pid
          (id_fields python answers s.layer_url s.id_fields))
        (by_services python layers answers pid services) (by_services-IsLookup pid services)
    where
      go :
          (o : Option Feature)
          → LoopEnds
              (HasNoneIn python answers s.layer_url pid)
              (HasRowIn python answers s.layer_url pid)
              (id_fields python answers s.layer_url s.id_fields)
              o
          → (rest : Option ParcelById) → IsLookup pid services rest
          → IsLookup pid (s ∷ services) (found_or_next python layers answers s o rest)
      go (some feat) h rest k = ([], s, services, feat, refl, tt, h, parcel_of-IsParcelOf s feat)
      go none h none k = (h, k)
      go none h (some r) (before, s', after, feat, split, missed, hit, parcel) =
          (s ∷ before, s', after, feat, ap (λ l. s ∷ l) split, (h, missed), hit, parcel)

  -- For an identifier that is not blank: where some service of `services_for` has a row for one of the
  -- exact predicates on its identifier fields, the parcel is that of the first such service, it is the
  -- first row for such a predicate, with the rows of related tables, and it counts as confirmed. Nothing
  -- is found exactly where each predicate of each service raises or has no row.
  pub resolve_by_id-IsLookup :
      (state_abbr parcel_id county_fips : String)
      → str_eq (python.strip parcel_id) "" ≡ false
      → IsLookup
          (python.strip parcel_id)
          (services_for python layers answers state_abbr county_fips)
          (resolve_by_id python layers answers state_abbr parcel_id county_fips)
  unfolding resolve_by_id
  resolve_by_id-IsLookup state_abbr parcel_id county_fips given = rw given (
      by_services-IsLookup (python.strip parcel_id)
        (services_for python layers answers state_abbr county_fips))
