-- ===== src/Parcels/Identifiers.antt =====
-- `resolve_by_id` of backend/app/services/parcel.py: a parcel by its identifier. Arguments, beyond those of
-- the choice by address: the names of a layer's fields, the answer of a layer to a predicate, the test for
-- a text of digits, and the mean of coordinates. What a layer answers is not an empty object.
use researchhub_engine.Prelude.{
  ℕ, ◌+◌, String, ◌⊎◌, inl, inr, Bool, true, false, Option, none, some, List, [], ◌∷◌, ◌++◌, map,
  any_by, filter_by, leb, str_eq, if◌then◌else◌, concat,
}
use researchhub_engine.Sources.Context.{Attributes}
use researchhub_engine.Sources.Services.{Python}
use researchhub_engine.Sources.Legal.{is_full}
use researchhub_engine.Resolution.{ParcelById, full_else}
use researchhub_engine.Parcels.Situs.{norm, situs_of}
use researchhub_engine.Parcels.Choice.{CountyService, StateService, Layers, extract_hints, or_next}

-- a geometry: a point, given as y and x like the centroid, and rings of points, given as x and y
pub record Geometry : Type 0 where
  pub point : Option (String × String)
  pub centre : Option (String × String)
  pub rings : List (List (String × String))

pub record Feature : Type 0 where
  pub attributes : Attributes
  pub geometry : Option Geometry

-- what a layer is asked, each of which may raise, and the functions on texts and floats
pub record Answers : Type 0 where
  pub field_names : String → String ⊎ List String
  pub ask : (layer_url predicate : String) → String ⊎ List Feature
  pub is_digits : String → Bool
  pub mean : List String → String

-- one of the `services` to ask
pub record IdService : Type 0 where
  pub layer_url : String
  pub label : String
  pub id_fields : List String
  pub situs_fn : Attributes → String
  pub related : Option (Attributes → Attributes)

-- `_ID_CANDIDATES`
abbrev pub id_candidates : List String
id_candidates =
    "parcelid" ∷ "propid" ∷ "apn" ∷ "folio" ∷ "pin" ∷ "strap" ∷ "parno" ∷ "parcelnumb" ∷ "parcelnum"
    ∷ "parcelno" ∷ "geoid" ∷ "altkey" ∷ "span" ∷ "acct" ∷ "parcel" ∷ "propertyid" ∷ []

-- `sorted` by a key: rows of equal keys keep their order
abbrev pub insert_by {ℓ} : {A : Type ℓ} → (A → ℕ) → A → List A → List A
insert_by key x [] = x ∷ []
insert_by key x (y ∷ ys) =
    let later = insert_by key x ys in if leb (key x) (key y) then x ∷ y ∷ ys else y ∷ later

abbrev pub sort_by {ℓ} : {A : Type ℓ} → (A → ℕ) → List A → List A
sort_by key [] = []
sort_by key (x ∷ xs) = insert_by key x (sort_by key xs)

module _ (python : Python) (answers : Answers) where
  -- the position of the first fragment that occurs, or the number of fragments
  abbrev pub rank : List String → String → ℕ
  rank [] n = 0
  rank (c ∷ cs) n = let later = rank cs n in if python.occurs c n then 0 else 1 + later

  abbrev pub is_id_name : String → Bool
  is_id_name n = any_by (λ c. python.occurs c (norm python n)) id_candidates

  abbrev pub detected : String ⊎ List String → List String
  detected (inl e) = []
  detected (inr names) =
      sort_by (λ n. rank id_candidates (norm python n)) (filter_by is_id_name names)

  -- `_id_fields`
  unfoldable pub id_fields : String → List String → List String
  unfolding norm
  id_fields layer_url [] = detected (answers.field_names layer_url)
  id_fields layer_url (f ∷ override) = f ∷ override

  -- `_centroid`
  abbrev pub ring_mean : List (List (String × String)) → Option (String × String)
  ring_mean [] = none
  ring_mean ([] ∷ rings) = none
  ring_mean ((p ∷ ps) ∷ rings) = some (
    answers.mean (map (λ (q : String × String). q.1) (p ∷ ps)),
    answers.mean (map (λ (q : String × String). q.0) (p ∷ ps)),
  )

  unfoldable pub centroid : Option Geometry → Option (String × String)
  centroid none = none
  centroid (some g) = or_next g.point (or_next g.centre (ring_mean g.rings))

  -- the ways to write an identifier, and the predicates for one of them
  unfoldable pub variants : String → List String
  variants pid = elim (python.search "[-\\s]" pid) [
    | none ↦ pid ∷ []
    | some found ↦ pid ∷ python.substitute "[-\\s]" "" pid ∷ []
  ]

  unfoldable pub wheres : String → String → List String
  wheres f val =
      concat (f ∷ "='" ∷ python.replace "'" "''" val ∷ "'" ∷ [])
      ∷ (if answers.is_digits val then concat (f ∷ "=" ∷ val ∷ []) ∷ [] else [])

  -- the first feature that one of the predicates gives; one that raises is passed over
  abbrev pub first_answer : String ⊎ List Feature → Option Feature
  first_answer (inl e) = none
  first_answer (inr []) = none
  first_answer (inr (feat ∷ feats)) = some feat

  unfoldable pub by_wheres : String → List String → Option Feature
  by_wheres layer_url [] = none
  by_wheres layer_url (w ∷ ws) =
      or_next (first_answer (answers.ask layer_url w)) (by_wheres layer_url ws)

  unfoldable pub by_values : String → String → List String → Option Feature
  unfolding by_wheres wheres
  by_values layer_url f [] = none
  by_values layer_url f (val ∷ vals) =
      or_next (by_wheres layer_url (wheres f val)) (by_values layer_url f vals)

  unfoldable pub by_fields : String → String → List String → Option Feature
  unfolding by_values variants
  by_fields layer_url pid [] = none
  by_fields layer_url pid (f ∷ fs) =
      or_next (by_values layer_url f (variants pid)) (by_fields layer_url pid fs)

  -- `_query_by_id`
  unfoldable pub query_by_id : String → String → List String → Option Feature
  unfolding by_fields id_fields
  query_by_id layer_url pid override = by_fields layer_url pid (id_fields layer_url override)

module _ (python : Python) (layers : Layers) (answers : Answers) where
  -- the layers of a county, of which one that raises is left out
  abbrev pub county_service :
      CountyService → String ⊎ Option (String × Option String) → List IdService
  county_service county (inl e) = []
  county_service county (inr none) = []
  county_service county (inr (some (url, name))) =
      record {
        layer_url = url;
        label = elim name [ none ↦ county.county | some n ↦ full_else n county.county ];
        id_fields = county.id_fields;
        situs_fn = λ attrs. situs_of python attrs county.situs_exclude county.compose_situs;
        related = county.related;
      }
      ∷ []

  abbrev pub county_services : CountyService → List String → List IdService
  county_services county [] = []
  county_services county (one ∷ services) =
      county_service county (layers.layer one) ++ county_services county services

  abbrev pub state_services : Option StateService → List IdService
  state_services none = []
  state_services (some svc) =
      map
        (λ u. record {
          layer_url = u;
          label = svc.label;
          id_fields = svc.id_fields;
          situs_fn = λ attrs. situs_of python attrs [] false;
          related = svc.related;
        })
        svc.urls

  abbrev pub of_registered : Option CountyService → List IdService
  of_registered none = []
  of_registered (some county) = county_services county county.gis_rest

  unfoldable pub services_for : String → String → List IdService
  unfolding situs_of
  services_for state_abbr county_fips =
      (if is_full county_fips then of_registered (layers.county county_fips) else [])
      ++ state_services (layers.state state_abbr)

  -- the attributes with the rows of related tables
  abbrev pub enriched : Option (Attributes → Attributes) → Attributes → Attributes
  enriched none attrs = attrs
  enriched (some enrich) attrs = enrich attrs

  unfoldable pub parcel_of : IdService → Feature → ParcelById
  unfolding centroid extract_hints
  parcel_of s feat =
      let attrs = enriched s.related feat.attributes in
      let cen = centroid python answers feat.geometry in
      let area = layers.land_area attrs in
      record {
        parcel = record {
          method = "arcgis-rest";
          parcels = attrs ∷ [];
          buffered_match = false;
          address_match = some true;
          source = some s.layer_url;
          layer_name = some s.label;
          situs = s.situs_fn attrs;
          land_sqft = area.0;
          land_acres = area.1;
          hints = extract_hints python attrs;
          error = none;
        };
        lat = elim cen [ none ↦ none | some c ↦ some c.0 ];
        lon = elim cen [ none ↦ none | some c ↦ some c.1 ];
      }

  abbrev pub found_or_next : IdService → Option Feature → Option ParcelById → Option ParcelById
  found_or_next s none rest = rest
  found_or_next s (some feat) rest = some (parcel_of s feat)

  unfoldable pub by_services : String → List IdService → Option ParcelById
  unfolding query_by_id parcel_of
  by_services pid [] = none
  by_services pid (s ∷ services) =
      found_or_next s (query_by_id python answers s.layer_url pid s.id_fields)
        (by_services pid services)

  unfoldable pub resolve_by_id : (state_abbr parcel_id county_fips : String) → Option ParcelById
  unfolding by_services services_for
  resolve_by_id state_abbr parcel_id county_fips =
      let pid = python.strip parcel_id in
      if str_eq pid "" then none else by_services pid (services_for state_abbr county_fips)
