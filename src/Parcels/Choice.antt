-- ===== src/Parcels/Choice.antt =====
-- The choice of a parcel among the candidates at a point, and `resolve`, in backend/app/services/parcel.py.
-- Arguments: the services of counties and states, the query of a layer for the parcels at the point or
-- within a distance of it, the look for the layer of a service, and the conversion of areas. A query that
-- raises gives its text. Of the result the keys that are read are kept, so not the texts of layers that
-- raised.
use researchhub_engine.Prelude.{
  ℕ, String, ◌⊎◌, inl, inr, Bool, true, false, ◌&&◌, ◌||◌, not, Option, none, some, List, [], ◌∷◌,
  str_eq, if◌then◌else◌, or_else, any_by, find_by, concat,
}
use researchhub_engine.Sources.Context.{Value, null, text, number, is_zero, Attributes, Parcel}
use researchhub_engine.Sources.Services.{Python}
use researchhub_engine.Sources.Legal.{is_full}
use researchhub_engine.Sources.Property.{is_nonempty}
use researchhub_engine.Parcels.Situs.{situs_of}
use researchhub_engine.Parcels.Matching.{house, addr_match}

-- the keys of a registered county and of a state's service that are read in services/parcel.py; `related`
-- joins the rows of related tables
pub record CountyService : Type 0 where
  pub county : String
  pub id_fields : List String
  pub gis_rest : List String
  pub situs_exclude : List String
  pub compose_situs : Bool
  pub related : Option (Attributes → Attributes)

pub record StateService : Type 0 where
  pub label : String
  pub id_fields : List String
  pub urls : List String
  pub related : Option (Attributes → Attributes)

pub record Layers : Type 0 where
  pub county : String → Option CountyService
  pub state : String → Option StateService
  pub layer : String → String ⊎ Option (String × Option String)
  pub point_query : (url lat lon : String) → Option ℕ → String ⊎ List Attributes
  pub land_area : Attributes → Option String × Option String

abbrev pub is_true : Option Bool → Bool
is_true none = false
is_true (some b) = b

-- the hints of one parcel: `v not in (None, "", 0)`
abbrev pub hint_value : Value → Option String
hint_value null = none
hint_value (text s) = if str_eq s "" then none else some s
hint_value (number n) = if is_zero n then none else some n

abbrev pub cons_hint : String → Option String → List (String × String) → List (String × String)
cons_hint k none hints = hints
cons_hint k (some v) hints = (k, v) ∷ hints

module _ (python : Python) where
  abbrev pub is_hint_key : String → Bool
  is_hint_key kl =
      any_by (λ t. python.occurs t kl)
        ("book" ∷ "page" ∷ "plat" ∷ "instrument" ∷ "legal" ∷ "subdiv" ∷ "owner" ∷ "taxpayer"
          ∷ "deed" ∷ "folio" ∷ "parcel" ∷ [])

  unfoldable pub extract_hints : Attributes → List (String × String)
  extract_hints [] = []
  extract_hints ((k, v) ∷ attrs) =
      let rest = extract_hints attrs in
      if is_hint_key (python.lower k) then cons_hint k (hint_value v) rest else rest

  -- whether the site address of a candidate matches
  abbrev pub matches : String → (Attributes → String) → Attributes → Bool
  matches address situs_fn c = is_true (addr_match python address (situs_fn c))

  abbrev pub has_match : String → (Attributes → String) → List Attributes → Bool
  has_match address situs_fn feats = is_full address && any_by (matches address situs_fn) feats

  -- where none matches: one with the same house number, or else one with a site address, or else the
  -- first
  abbrev pub nearest : String → (Attributes → String) → Attributes → List Attributes → Attributes
  nearest address situs_fn c cs =
      let with_situs = or_else (find_by (λ a. is_full (situs_fn a)) (c ∷ cs)) c in
      if is_full (house python address)
      then or_else
          (find_by (λ a. str_eq (house python (situs_fn a)) (house python address)) (c ∷ cs))
          with_situs
      else with_situs

  abbrev pub chosen_or_nearest :
      String
      → (Attributes → String)
      → Attributes
      → List Attributes
      → Option Attributes
      → Attributes × Bool
  chosen_or_nearest address situs_fn c cs (some m) = (m, true)
  chosen_or_nearest address situs_fn c cs none = (nearest address situs_fn c cs, false)

  -- `_choose`, on candidates of which `c` is the first
  unfoldable pub choose :
      String → (Attributes → String) → Attributes → List Attributes → Attributes × Bool
  unfolding addr_match house
  choose address situs_fn c cs =
      chosen_or_nearest address situs_fn c cs (find_by (matches address situs_fn) (c ∷ cs))

-- the first of two results that is there
abbrev pub or_next {ℓ} : {A : Type ℓ} → Option A → Option A → Option A
or_next none rest = rest
or_next (some a) rest = some a

-- the result where no layer has a parcel
abbrev pub directory_parcel : Parcel
directory_parcel = record {
  method = "directory";
  parcels = [];
  buffered_match = false;
  address_match = none;
  source = none;
  layer_name = none;
  situs = "";
  land_sqft = none;
  land_acres = none;
  hints = [];
  error = none;
}

module _ (python : Python) (layers : Layers) (lat lon address : String) where
  -- the wider queries: the first that has a match, or else the last that gave anything
  unfoldable pub widen :
      String → (Attributes → String) → List ℕ → List Attributes → String ⊎ (List Attributes × Bool)
  widen url situs_fn [] widest = inr (widest, is_nonempty widest)
  widen url situs_fn (d ∷ ds) widest =
      let wider = widen url situs_fn ds in
      elim (layers.point_query url lat lon (some d)) [
        | inl e ↦ inl e
        | inr [] ↦ wider widest
        | inr (f ∷ fs) ↦
            if has_match python address situs_fn (f ∷ fs)
            then inr (f ∷ fs, true)
            else wider (f ∷ fs)
      ]

  -- `_candidates`, with whether they are buffered
  abbrev pub direct_or_wider :
      String → (Attributes → String) → List Attributes → String ⊎ (List Attributes × Bool)
  direct_or_wider url situs_fn direct =
      if is_nonempty direct && (not (is_full address) || has_match python address situs_fn direct)
      then inr (direct, false)
      else widen url situs_fn (75 ∷ 150 ∷ 300 ∷ []) direct

  abbrev pub after_direct :
      String → (Attributes → String) → String ⊎ List Attributes → String ⊎ (List Attributes × Bool)
  after_direct url situs_fn (inl e) = inl e
  after_direct url situs_fn (inr direct) = direct_or_wider url situs_fn direct

  unfoldable pub candidates : String → (Attributes → String) → String ⊎ (List Attributes × Bool)
  unfolding widen
  candidates url situs_fn = after_direct url situs_fn (layers.point_query url lat lon none)

  -- `_finish`
  unfoldable pub finish :
      Attributes → Bool → Bool → String → Option String → (Attributes → String) → Parcel
  unfolding extract_hints addr_match
  finish chosen buffered matched source layer_name situs_fn =
      let area = layers.land_area chosen in
      record {
        method = "arcgis-rest";
        parcels = chosen ∷ [];
        buffered_match = buffered && not matched;
        address_match = addr_match python address (situs_fn chosen);
        source = some source;
        layer_name = layer_name;
        situs = situs_fn chosen;
        land_sqft = area.0;
        land_acres = area.1;
        hints = extract_hints python chosen;
        error = none;
      }

  -- what is chosen, with the rows of related tables, and whether it matches
  abbrev pub joined :
      Option (Attributes → Attributes)
      → (Attributes → String)
      → Attributes × Bool
      → Attributes × Bool
  joined none situs_fn (chosen, matched) = (chosen, matched)
  joined (some enrich) situs_fn (chosen, matched) =
      (enrich chosen, matches python address situs_fn (enrich chosen))

  -- the parcel of a layer, where it has one; a layer that raises is passed over
  abbrev pub at_layer :
      String
      → Option String
      → Option (Attributes → Attributes)
      → (Attributes → String)
      → String ⊎ (List Attributes × Bool)
      → Option Parcel
  at_layer source layer_name related situs_fn (inl e) = none
  at_layer source layer_name related situs_fn (inr ([], buffered)) = none
  at_layer source layer_name related situs_fn (inr (c ∷ cs, buffered)) =
      let r = joined related situs_fn (choose python address situs_fn c cs) in
      some (finish r.0 buffered r.1 source layer_name situs_fn)

  unfoldable pub layer_parcel :
      String
      → Option String
      → Option (Attributes → Attributes)
      → (Attributes → String)
      → Option Parcel
  unfolding candidates choose finish
  layer_parcel source layer_name related situs_fn =
      at_layer source layer_name related situs_fn
        (candidates (concat (source ∷ "/query" ∷ [])) situs_fn)

  abbrev pub at_service : CountyService → String ⊎ Option (String × Option String) → Option Parcel
  at_service county (inl e) = none
  at_service county (inr none) = none
  at_service county (inr (some (source, layer_name))) =
      layer_parcel source layer_name county.related
        (λ attrs. situs_of python attrs county.situs_exclude county.compose_situs)

  -- the first layer of a county's services that has a parcel
  unfoldable pub county_parcel : CountyService → List String → Option Parcel
  unfolding layer_parcel situs_of
  county_parcel county [] = none
  county_parcel county (one ∷ services) =
      or_next (at_service county (layers.layer one)) (county_parcel county services)

  -- the first layer of a state that has a parcel
  unfoldable pub state_parcel : StateService → List String → Option Parcel
  unfolding layer_parcel situs_of
  state_parcel state [] = none
  state_parcel state (u ∷ urls) =
      or_next (layer_parcel u none state.related (λ attrs. situs_of python attrs [] false))
        (state_parcel state urls)

  abbrev pub of_county : Option CountyService → Option Parcel
  of_county none = none
  of_county (some county) = county_parcel county county.gis_rest

  abbrev pub of_state : Option StateService → Option Parcel
  of_state none = none
  of_state (some state) = state_parcel state state.urls

  unfoldable pub resolve : String → String → Parcel
  unfolding county_parcel state_parcel
  resolve county_fips state_abbr =
      or_else (or_next (of_county (layers.county county_fips)) (of_state (layers.state state_abbr)))
        directory_parcel
