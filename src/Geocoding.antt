-- ===== src/Geocoding.antt =====
-- backend/app/services/geocode.py: the chain of geocoders, and the table of state codes. The answers of
-- the hosts are arguments: the Census address file raises, has no match or gives all; the two others
-- give a point, or nothing where they raise or have no match; a lookup of the county by point gives
-- empty texts where it fails. A coordinate is the text that prints it.
use researchhub_engine.Prelude.{
  String, ◌⊎◌, inl, inr, Option, none, some, List, [], ◌∷◌, str_eq, if◌then◌else◌, concat,
}

-- the dict that `geocode` returns
pub record Geo : Type 0 where
  pub matched_address : String
  pub lat : Option String
  pub lon : Option String
  pub county_name : String
  pub county_fips : String
  pub state_fips : String
  pub provider : String

-- what a fallback geocoder gives: latitude, longitude and address
pub record Point : Type 0 where
  pub lat : String
  pub lon : String
  pub matched : String

-- the name, the county code and the state code of a point
pub record County : Type 0 where
  pub county_name : String
  pub county_fips : String
  pub state_fips : String

pub record Geocoders : Type 0 where
  pub census_address : String → String ⊎ Option Geo
  pub arcgis : String → Option Point
  pub nominatim : String → Option Point
  pub county_from_coords : String → String → County

abbrev pub state_codes : List (String × String)
state_codes =
    ("01", "AL")
    ∷ ("02", "AK")
    ∷ ("04", "AZ")
    ∷ ("05", "AR")
    ∷ ("06", "CA")
    ∷ ("08", "CO")
    ∷ ("09", "CT")
    ∷ ("10", "DE")
    ∷ ("11", "DC")
    ∷ ("12", "FL")
    ∷ ("13", "GA")
    ∷ ("15", "HI")
    ∷ ("16", "ID")
    ∷ ("17", "IL")
    ∷ ("18", "IN")
    ∷ ("19", "IA")
    ∷ ("20", "KS")
    ∷ ("21", "KY")
    ∷ ("22", "LA")
    ∷ ("23", "ME")
    ∷ ("24", "MD")
    ∷ ("25", "MA")
    ∷ ("26", "MI")
    ∷ ("27", "MN")
    ∷ ("28", "MS")
    ∷ ("29", "MO")
    ∷ ("30", "MT")
    ∷ ("31", "NE")
    ∷ ("32", "NV")
    ∷ ("33", "NH")
    ∷ ("34", "NJ")
    ∷ ("35", "NM")
    ∷ ("36", "NY")
    ∷ ("37", "NC")
    ∷ ("38", "ND")
    ∷ ("39", "OH")
    ∷ ("40", "OK")
    ∷ ("41", "OR")
    ∷ ("42", "PA")
    ∷ ("44", "RI")
    ∷ ("45", "SC")
    ∷ ("46", "SD")
    ∷ ("47", "TN")
    ∷ ("48", "TX")
    ∷ ("49", "UT")
    ∷ ("50", "VT")
    ∷ ("51", "VA")
    ∷ ("53", "WA")
    ∷ ("54", "WV")
    ∷ ("55", "WI")
    ∷ ("56", "WY")
    ∷ []

-- `STATE_FIPS.get(code, "")`
abbrev pub state_in : String → List (String × String) → String
state_in code [] = ""
state_in code ((c, abbr) ∷ states) = if str_eq code c then abbr else state_in code states

module _ (geocoders : Geocoders) where
  abbrev pub geo_at : String → Point → County → Geo
  geo_at provider p c = record {
    matched_address = p.matched;
    lat = some p.lat;
    lon = some p.lon;
    county_name = c.county_name;
    county_fips = c.county_fips;
    state_fips = c.state_fips;
    provider = provider;
  }

  abbrev pub located : String → Point → Geo
  located provider p = geo_at provider p (geocoders.county_from_coords p.lat p.lon)

  -- the loop over the fallbacks
  abbrev pub first_point : String → Option Point → Option Point → String ⊎ Geo
  first_point address (some p) nominatim = inr (located "arcgis" p)
  first_point address none (some p) = inr (located "nominatim" p)
  first_point address none none = inl (concat ("No geocoder match for: " ∷ address ∷ []))

  abbrev pub after_census : String → String ⊎ Option Geo → String ⊎ Geo
  after_census address (inl e) = inl e
  after_census address (inr (some hit)) = inr hit
  after_census address (inr none) =
      first_point address (geocoders.arcgis address) (geocoders.nominatim address)

  unfoldable pub geocode : String → String ⊎ Geo
  geocode address = after_census address (geocoders.census_address address)
