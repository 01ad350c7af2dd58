-- ===== src/Resolution.antt =====
-- `resolve_property_context` of backend/app/engine/orchestration/context.py, with the references of
-- backend/app/services/clerk.py, the links of backend/app/data/county_platforms.py and the folder of a run
-- of backend/app/engine/orchestration/folders.py. The tables of counties and states, the resolvers of
-- parcels, `float`, and the digest and time of a JSON file that was written are arguments; the disk takes
-- every file. A call that raises gives the text of the exception.
pub mod Phases
pub mod Confirmation
use researchhub_engine.Prelude.{
  ℕ, String, ◌⊎◌, inl, inr, Bool, true, false, ◌&&◌, ◌||◌, not, ◌==◌, Option, none, some, List, [],
  ◌∷◌, ◌++◌, str_eq, if◌then◌else◌, is_none, or_else, any_by, concat,
}
use researchhub_engine.Sources.{ManifestEntry}
use researchhub_engine.Sources.Context.{
  Value, null, text, number, is_zero, Attributes, Parcel, no_appraisal, ClerkReferences, Context,
  add_warning, log,
}
use researchhub_engine.Sources.Services.{Python}
use researchhub_engine.Sources.Legal.{is_full, has_text, head_or_empty}
use researchhub_engine.Sources.Property.{is_nonempty}
use researchhub_engine.Geocoding.{Geo, Geocoders, state_codes, state_in, geocode}
use researchhub_engine.Adapters.Fetching.{RunArguments}

-- the keys of a registered county that are read here
pub record CountyEntry : Type 0 where
  pub appraiser_url : Option String
  pub clerk_url : Option String
  pub plat_url : Option String
  pub clerk_platform : Option String
  pub clerk_note : Option String

-- the dict of `resolve_by_id`, where it found a parcel
pub record ParcelById : Type 0 where
  pub parcel : Parcel
  pub lat : Option String
  pub lon : Option String

pub record Places : Type 0 where
  pub geocoders : Geocoders
  pub county_name : String → String
  pub lookup : String → Option CountyEntry
  pub state_appraiser : String → Option String
  pub state_deed : String → Option String
  pub state_plat : String → Option String
  pub platform_label : String → Option String
  pub has_adapter : String → Bool
  pub resolve : (fips state_abbr county lat lon address : String) → String ⊎ Parcel
  pub resolve_by_id : (state_abbr parcel_id county_fips : String) → String ⊎ Option ParcelById
  pub float : String → Option String
  pub save_json : (folder filename : String) → String × String
  pub jobs_dir : String

-- `x or y`, for texts
abbrev pub full_else : String → String → String
full_else x y = if is_full x then x else y

-- the first of two optional texts that is full, or else a default
abbrev pub first_full : Option String → Option String → String → String
first_full x y d = if has_text x then or_else x d else if has_text y then or_else y d else d

module _ (python : Python) where
  unfoldable pub netronline : String → String → String
  netronline state_abbr county_name = concat (
      "https://publicrecords.netronline.com/state/"
      ∷ state_abbr
      ∷ "/county/"
      ∷ python.replace " " "-" (python.lower (python.strip county_name))
      ∷ [])

  abbrev pub id_keys : List String
  id_keys =
      "folio" ∷ "parcelid" ∷ "parcel_id" ∷ "parcelno" ∷ "parcel_no" ∷ "parno" ∷ "parcelnum" ∷ "pin"
      ∷ "strap" ∷ "apn" ∷ "altkey" ∷ "gid" ∷ "span" ∷ "acct" ∷ "parcel" ∷ "prop_id" ∷ "propid"
      ∷ "property_id" ∷ "sbl" ∷ "locid" ∷ "ssl" ∷ []

  abbrev pub bad_keys : List String
  bad_keys = "addr" ∷ "street" ∷ "situs" ∷ "owner" ∷ "city" ∷ "zip" ∷ "mail" ∷ []

  -- `str(v)`, where `v not in (None, "", 0)`
  abbrev pub id_value : Value → Option String
  id_value null = none
  id_value (text s) = if str_eq s "" then none else some s
  id_value (number n) = if is_zero n then none else some n

  -- the identifier of one parcel, where it has one
  abbrev pub id_of : Attributes → Option String
  id_of [] = none
  id_of ((k, v) ∷ attrs) =
      let rest = id_of attrs in
      let kl = python.remove "-" (python.remove " " (python.lower k)) in
      if any_by (λ b. python.occurs b kl) bad_keys || not (any_by (λ t. python.occurs t kl) id_keys)
      then rest
      else elim (id_value v) [ none ↦ rest | some s ↦ some s ]

  unfoldable pub find_parcel_id : List Attributes → String
  find_parcel_id [] = ""
  find_parcel_id (attrs ∷ parcels) = or_else (id_of attrs) (find_parcel_id parcels)

  unfoldable pub slug : String → String
  slug s = python.substitute "\\s+" " " (python.strip (python.substitute "[<>:\"/\\\\|?*]" "" s))

  -- the name of `job_folder`
  unfoldable pub folder_name : String → String → String
  unfolding slug
  folder_name job_number address =
      let street = python.strip (head_or_empty (python.split "," address)) in
      full_else (python.strip_chars " -" (concat (slug job_number ∷ " - " ∷ slug street ∷ [])))
        "job"

module _ (python : Python) (places : Places) where
  unfoldable pub references : String → String → String → List (String × String) → ClerkReferences
  unfolding netronline
  references county_fips state_abbr county hints =
      let entry = places.lookup county_fips in
      let read : (CountyEntry → Option String) → Option String =
        λ f. elim entry [ none ↦ none | some c ↦ f c ] in
      let platform = or_else (read (λ c. c.clerk_platform)) "unknown" in
      let directory = netronline python state_abbr county in
      let clerk_url =
        first_full (read (λ c. c.clerk_url)) (places.state_deed state_abbr) directory in
      record {
        county = county;
        platform = platform;
        platform_label = or_else (places.platform_label platform) platform;
        official_records_search = clerk_url;
        plat_search = first_full (read (λ c. c.plat_url)) (places.state_plat state_abbr) clerk_url;
        appraiser_url = read (λ c. c.appraiser_url);
        directory_url = directory;
        clerk_note = or_else (read (λ c. c.clerk_note)) "";
        search_hints = hints;
        automation_status =
            if places.has_adapter county_fips
            then "auto-download available (deed + plat)"
            else "deep-link only (adapter not yet built for this platform)";
      }

  -- Phase 1a: where the run starts, with the state that was selected and the parcel that was found by
  -- its identifier, if it was
  pub record Origin : Type 0 where
    pub geo : Geo
    pub st : String
    pub preresolved : Option Parcel
    pub address : String

  abbrev pub selected_state : String → String
  selected_state selected =
      let st = python.upper (python.strip selected) in
      if python.len st == 2 && python.is_alpha st
      then st
      else state_in (python.strip selected) state_codes

  abbrev pub not_found : String → String → String
  not_found search_parcel_id st = concat (
      "Parcel ID '"
      ∷ python.strip search_parcel_id
      ∷ "' not found"
      ∷ (if is_full st then concat (" in " ∷ st ∷ "." ∷ []) else " — pick the state and try again.")
      ∷ [])

  abbrev pub at_parcel : String → String → ParcelById → String → Option String → Origin
  at_parcel search_parcel_id st pr lat lon =
      let c = places.geocoders.county_from_coords lat (or_else lon "None") in
      let matched =
        full_else pr.parcel.situs (concat ("Parcel " ∷ python.strip search_parcel_id ∷ [])) in
      record {
        geo = record {
          matched_address = matched;
          lat = some lat;
          lon = lon;
          county_name = c.county_name;
          county_fips = c.county_fips;
          state_fips = c.state_fips;
          provider = "parcel-id";
        };
        st = st;
        preresolved = some pr.parcel;
        address = matched;
      }

  abbrev pub located_parcel : String → String → ParcelById → Option String → String ⊎ Origin
  located_parcel search_parcel_id st pr none = inl (not_found search_parcel_id st)
  located_parcel search_parcel_id st pr (some lat) =
      inr (at_parcel search_parcel_id st pr lat pr.lon)

  abbrev pub by_parcel : String → String → String ⊎ Option ParcelById → String ⊎ Origin
  by_parcel search_parcel_id st (inl e) = inl e
  by_parcel search_parcel_id st (inr none) = inl (not_found search_parcel_id st)
  by_parcel search_parcel_id st (inr (some pr)) = located_parcel search_parcel_id st pr pr.lat

  abbrev pub by_address : String → String ⊎ Geo → String ⊎ Origin
  by_address address (inl e) = inl e
  by_address address (inr geo) =
      inr (record { geo = geo; st = ""; preresolved = none; address = address })

  unfoldable pub origin : RunArguments → String ⊎ Origin
  unfolding geocode
  origin args =
      if is_full (python.strip args.search_parcel_id) && not (is_full (python.strip args.address))
      then by_parcel args.search_parcel_id (selected_state args.selected_state) (
          places.resolve_by_id (selected_state args.selected_state)
            (python.strip args.search_parcel_id) (python.strip args.selected_county_fips))
      else by_address args.address (geocode places.geocoders args.address)
