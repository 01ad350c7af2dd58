-- ===== src/Resolution/Confirmation.antt =====
-- What a context that `resolve_property_context` of backend/app/engine/orchestration/context.py returns
-- says of its parcel.
use mathlib.Core.Path.{subst}
use researchhub_engine.Prelude.{
  String, ◌≡◌, refl, ◌⊎◌, inl, inr, Bool, true, false, Option, none, some, List, [], ◌∷◌, str_eq,
  arith, contains, Bool-cases, str_eq_refl, contains-append,
}
use researchhub_engine.Sources.Context.{Parcel, no_appraisal, Context, add_warning, log}
use researchhub_engine.Sources.Services.{Python}
use researchhub_engine.Adapters.Fetching.{RunArguments}
use researchhub_engine.Prelude.{◌≢◌, ◌↔◌, ◌&&◌, not, if◌then◌else◌}
use researchhub_engine.Sources.Context.{Attributes}
use researchhub_engine.Sources.Legal.{is_full}
use researchhub_engine.Sources.Property.{is_nonempty}
use researchhub_engine.Geocoding.{Geo, geocode}
use researchhub_engine.Resolution.{
  find_parcel_id, Places, ParcelById, Origin, origin, selected_state, by_parcel, by_address,
  located_parcel, at_parcel,
}
use researchhub_engine.Resolution.Phases.{
  is_not_false, resolved_or_failed, is_confirmed, unconfirmed_warning, geocoder_warnings, Location,
  with_coordinates, parcel_at, finished_context, checked_context, after_location, after_origin,
  resolve_property_context,
}

-- Nothing is known of the parcel, and a warning says so.
pub record IsUnknown (parcel_id : String) (hints : List (String × String)) (warnings : List String)
    : Type 0 where
  pub no_id : parcel_id ≡ ""
  pub no_hints : hints ≡ []
  pub warned : contains unconfirmed_warning warnings ≡ true

-- A parcel that was found, that the address does not contradict and that no buffer was needed for.
abbrev pub IsSound : Parcel → Type 0
IsSound p = (p.parcels ≢ []) × (p.address_match ≢ some false) × (p.buffered_match ≡ false)

-- The parcel counts as confirmed exactly where it is sound, and otherwise nothing is known of it. Its
-- record card is empty, and there are no documents of the clerk yet.
pub record IsResolved (ctx : Context) : Type 0 where
  pub confirmed : (ctx.parcel_ok ≡ true) ↔ IsSound ctx.parcel
  pub known : (ctx.parcel_ok ≡ true) ⊎ IsUnknown ctx.parcel_id ctx.parcel_hints ctx.warnings
  pub no_record : ctx.appr ≡ some no_appraisal
  pub no_documents : ctx.clerk_docs ≡ none

is_confirmed_iff : (p : Parcel) → (is_confirmed p ≡ true) ↔ IsSound p
unfolding is_confirmed
is_confirmed_iff p = go p.parcels p.address_match p.buffered_match
  where
    go :
        (l : List Attributes) (m : Option Bool) (b : Bool)
        → ((is_nonempty l && is_not_false m && not b) ≡ true)
          ↔ ((l ≢ []) × (m ≢ some false) × (b ≡ false))
    go [] m b = ((λ h. cc), λ h. absurd (h.0 refl))
    go (x ∷ l) none true = ((λ h. cc), λ h. cc (h.2))
    go (x ∷ l) none false = ((λ h. ((λ e. cc), (λ e. cc), refl)), λ h. refl)
    go (x ∷ l) (some false) b = ((λ h. cc), λ h. absurd (h.1 refl))
    go (x ∷ l) (some true) true = ((λ h. cc), λ h. cc (h.2))
    go (x ∷ l) (some true) false = ((λ h. ((λ e. cc), (λ e. cc), refl)), λ h. refl)

contains-add_warning :
    (message : String) (items : List String)
    → str_eq message "" ≡ false
    → contains message (add_warning message items) ≡ true
unfolding add_warning
contains-add_warning message items full = elim (Bool-cases (contains message items)) [
  | inl there ↦ rw (full, there) there
  | inr missing ↦
      rw (full, missing, contains-append message items (message ∷ []), str_eq_refl message)
        (ground arith)
]

module _ (python : Python) (places : Places) where
  finished-IsResolved :
      (job_number order_number survey_type : String) (l : Location python places) (p : Parcel)
      (b : Bool) (pid : String) (hints : List (String × String)) (warnings : List String)
      → ((b ≡ true) ↔ IsSound p)
      → (b ≡ true) ⊎ IsUnknown pid hints warnings
      → IsResolved (
          finished_context python places job_number order_number survey_type l p b pid hints
            warnings)
  unfolding finished_context log
  finished-IsResolved job_number order_number survey_type l p b pid hints warnings c k = record {
    confirmed = c;
    known = k;
    no_record = refl;
    no_documents = refl;
  }

  checked_context-IsResolved :
      (job_number : String) (args : RunArguments) (l : Location python places) (p : Parcel)
      → IsResolved (checked_context python places job_number args l p)
  unfolding checked_context
  checked_context-IsResolved job_number args l p = elim (Bool-cases (is_confirmed p)) [
    | inl sure ↦ rw sure (
        finished-IsResolved job_number args.order_number args.survey_type l p true _ _ _
          (subst (λ b. (b ≡ true) ↔ IsSound p) sure (is_confirmed_iff p)) (inl refl))
    | inr unsure ↦ rw unsure (
        finished-IsResolved job_number args.order_number args.survey_type l p false _ _ _
          (subst (λ b. (b ≡ true) ↔ IsSound p) unsure (is_confirmed_iff p))
          (inr (record {
            no_id = refl;
            no_hints = refl;
            warned =
                contains-add_warning unconfirmed_warning (geocoder_warnings python l.geo.provider)
                  refl;
          })))
  ]

  module _ (args : RunArguments) where
    -- the search is by the identifier of a parcel
    abbrev pub is_by_parcel : Bool
    is_by_parcel =
        is_full (python.strip args.search_parcel_id) && not (is_full (python.strip args.address))

    -- Where the search is by an identifier, the parcel is the one that this finds.
    abbrev pub IsFoundById : Parcel → Type 0
    IsFoundById p =
        (is_by_parcel ≡ true)
        × ((r : ParcelById) × (places.resolve_by_id
                (selected_state python places args.selected_state)
                (python.strip args.search_parcel_id) (python.strip args.selected_county_fips)
              ≡ inr (some r))
            × (p ≡ r.parcel))

    -- Otherwise it is what the resolver gives at the place of the context; nothing, where it raises.
    abbrev pub IsFoundAt : Context → Type 0
    IsFoundAt ctx =
        (is_by_parcel ≡ false)
        × (let answer =
              places.resolve ctx.county_fips ctx.state ctx.county ctx.lat ctx.lon
                ctx.matched_address in
            (answer ≡ inr ctx.parcel)
            ⊎ ((e : String) × (answer ≡ inl e) × (ctx.parcel.parcels ≡ [])))

    abbrev CameBy : Option Parcel → Type 0
    CameBy none = is_by_parcel ≡ false
    CameBy (some p) = IsFoundById p

    origin-CameBy :
        (o : Origin python places) → origin python places args ≡ inr o → CameBy o.preresolved
    unfolding origin
    origin-CameBy o h = go is_by_parcel refl h
      where
        found :
            (r : String ⊎ Option ParcelById)
            → is_by_parcel ≡ true
            → places.resolve_by_id
                (selected_state python places args.selected_state)
                (python.strip args.search_parcel_id)
                (python.strip args.selected_county_fips)
              ≡ r
            → by_parcel python places args.search_parcel_id
                (selected_state python places args.selected_state)
                r
              ≡ inr o
            → CameBy o.preresolved
        found (inl e) b hr h = cc
        found (inr none) b hr h = cc
        found (inr (some pr)) b hr h = at_lat pr.lat h
          where
            at_lat :
                (lat : Option String)
                → located_parcel python places args.search_parcel_id
                    (selected_state python places args.selected_state)
                    pr
                    lat
                  ≡ inr o
                → CameBy o.preresolved
            at_lat none h = cc
            at_lat (some lat) h =
                let same : at_parcel python places args.search_parcel_id
                      (selected_state python places args.selected_state) pr lat pr.lon
                    ≡ o =
                  cc in
                rw (← same) (b, (pr, hr, refl))

        geocoded :
            (r : String ⊎ Geo)
            → is_by_parcel ≡ false
            → by_address python places args.address r ≡ inr o
            → CameBy o.preresolved
        geocoded (inl e) b h = cc
        geocoded (inr geo) b h =
            let same : record { geo = geo; st = ""; preresolved = none; address = args.address }
                ≡ o =
              cc in
            rw (← same) b

        go :
            (b : Bool)
            → is_by_parcel ≡ b
            → (if b
                then by_parcel python places args.search_parcel_id
                    (selected_state python places args.selected_state)
                    (places.resolve_by_id
                      (selected_state python places args.selected_state)
                      (python.strip args.search_parcel_id)
                      (python.strip args.selected_county_fips))
                else by_address python places args.address (geocode places.geocoders args.address))
              ≡ inr o
            → CameBy o.preresolved
        go true hb h = found _ hb refl h
        go false hb h = geocoded _ hb h

    -- Where the parcel of a context comes from.
    abbrev pub IsParcelOf : Context → Type 0
    IsParcelOf ctx = IsFoundById ctx.parcel ⊎ IsFoundAt ctx

    finished-IsParcelOf :
        (job_number order_number survey_type : String) (l : Location python places)
        (preresolved : Option Parcel) (b : Bool) (pid : String) (hints : List (String × String))
        (warnings : List String)
        → CameBy preresolved
        → IsParcelOf (
            finished_context python places job_number order_number survey_type l
              (parcel_at python places preresolved l)
              b
              pid
              hints
              warnings)
    unfolding finished_context log parcel_at
    finished-IsParcelOf job_number order_number survey_type l (some p) b pid hints warnings by_id =
        inl by_id
    finished-IsParcelOf job_number order_number survey_type l none b pid hints warnings by_place =
        inr (
          by_place,
          answered
              (places.resolve l.geo.county_fips l.state l.county l.lat l.lon l.geo.matched_address)
              refl,
        )
      where
        answered :
            (r : String ⊎ Parcel)
            → places.resolve l.geo.county_fips l.state l.county l.lat l.lon l.geo.matched_address
              ≡ r
            → (places.resolve l.geo.county_fips l.state l.county l.lat l.lon l.geo.matched_address
                ≡ inr (resolved_or_failed python places r))
              ⊎ ((e : String) × (places.resolve l.geo.county_fips l.state l.county l.lat l.lon
                      l.geo.matched_address
                    ≡ inl e)
                  × ((resolved_or_failed python places r).parcels ≡ []))
        answered (inl e) h = inr (e, h, refl)
        answered (inr p) h = inl h

    checked_context-IsParcelOf :
        (job_number : String) (l : Location python places) (preresolved : Option Parcel)
        → CameBy preresolved
        → IsParcelOf (
            checked_context python places job_number args l (parcel_at python places preresolved l))
    unfolding checked_context
    checked_context-IsParcelOf job_number l preresolved came =
        elim (Bool-cases (is_confirmed (parcel_at python places preresolved l))) [
          | inl sure ↦ rw sure (
              finished-IsParcelOf job_number args.order_number args.survey_type l preresolved true
                (find_parcel_id python (parcel_at python places preresolved l).parcels)
                (parcel_at python places preresolved l).hints
                (geocoder_warnings python l.geo.provider) came)
          | inr unsure ↦ rw unsure (
              finished-IsParcelOf job_number args.order_number args.survey_type l preresolved false
                "" [] (add_warning unconfirmed_warning (geocoder_warnings python l.geo.provider))
                came)
        ]

  -- The parcel of the context of a run is the one that the identifier finds, where the search is by an
  -- identifier; otherwise it is what the resolver gives at the context's place, and no parcel where this
  -- raises. It counts as confirmed exactly where it was found, the address does not contradict it and no
  -- buffer was needed for it. Otherwise the context has no identifier and no hints of the parcel, and a
  -- warning that says so.
  pub resolve_property_context-IsResolved :
      (job_number : String) (args : RunArguments) (ctx : Context)
      → resolve_property_context python places job_number args ≡ inr ctx
      → IsResolved ctx × IsParcelOf args ctx
  unfolding resolve_property_context
  resolve_property_context-IsResolved job_number args ctx =
      from_origin (origin python places args) refl
    where
      from_location :
          (preresolved : Option Parcel) (r : String ⊎ Location python places)
          → CameBy args preresolved
          → after_location python places job_number args preresolved r ≡ inr ctx
          → IsResolved ctx × IsParcelOf args ctx
      from_location preresolved (inl e) came h = cc
      from_location preresolved (inr l) came h =
          let same : checked_context python places job_number args l
                (parcel_at python places preresolved l)
              ≡ ctx =
            cc in
          rw (← same) (
            checked_context-IsResolved job_number args l (parcel_at python places preresolved l),
            checked_context-IsParcelOf args job_number l preresolved came,
          )

      from_origin :
          (r : String ⊎ Origin python places)
          → origin python places args ≡ r
          → after_origin python places job_number args r ≡ inr ctx
          → IsResolved ctx × IsParcelOf args ctx
      from_origin (inl e) hr h = cc
      from_origin (inr o) hr h =
          from_location o.preresolved (with_coordinates python places o o.geo.lat o.geo.lon)
            (origin-CameBy args o hr) h
