-- ===== src/Reference.antt =====
-- `RESIDENTIAL_DOCS` of backend/app/data/reference.py: the documents of a survey, in the order of the
-- reference. Of an entry the keys that `steps.py` reads are kept.
use researchhub_engine.Prelude.{String, Option, none, some, List, [], ◌∷◌}

pub record DocSpec : Type 0 where
  pub key : String
  pub label : String
  pub requirement : String
  pub condition : Option String
  pub description : Option String

abbrev parcel : DocSpec
parcel = record {
  key = "parcel";
  label = "Parcel record & Parcel ID";
  requirement = "mandatory";
  condition = none;
  description =
      some
        "The Property Appraiser's record for the parcel — its unique Parcel ID, owner, legal description, subdivision and (often) the deed & plat book/page. It's the anchor that identifies the property and seeds every other lookup.";
}

abbrev appraiser : DocSpec
appraiser = record {
  key = "appraiser";
  label = "Property Appraiser / Tax record";
  requirement = "mandatory";
  condition = none;
  description =
      some
        "The county tax-roll record — owner, situs, use code, land & living area, just/assessed/taxable values and the last recorded sale (OR book/page). Used to confirm identity, size and the authoritative deed reference.";
}

abbrev deed : DocSpec
deed = record {
  key = "deed";
  label = "Deed — subject parcel";
  requirement = "mandatory";
  condition = none;
  description =
      some
        "The recorded instrument that conveys ownership. It carries the record legal description the survey must retrace, plus the OR book/page reference.";
}

abbrev plat : DocSpec
plat = record {
  key = "plat";
  label = "Recorded plat / subdivision map";
  requirement = "mandatory";
  condition = some "if the parcel is in a recorded subdivision";
  description =
      some
        "The recorded map that created the subdivision's lots, blocks, streets and easements — giving platted lot dimensions, bearings and dedicated easements.";
}

abbrev adjoiners : DocSpec
adjoiners = record {
  key = "adjoiners";
  label = "Deeds — adjoining parcels";
  requirement = "mandatory";
  condition = none;
  description =
      some
        "The deeds of the neighboring parcels — used to resolve gaps, overlaps and boundary conflicts with adjoiners (required by FL Rule 5J-17.052).";
}

abbrev easements : DocSpec
easements = record {
  key = "easements";
  label = "Easements / ROW / covenants (CC&Rs)";
  requirement = "mandatory";
  condition = none;
  description =
      some
        "Recorded rights that affect the land — utility/access easements, rights-of-way and restrictive covenants — which must be located and shown on the survey.";
}

abbrev prior_survey : DocSpec
prior_survey = record {
  key = "prior_survey";
  label = "Prior recorded surveys";
  requirement = "recommended";
  condition = none;
  description =
      some
        "Earlier recorded surveys of the parcel or subdivision — prior monumentation and measurements to compare against and reconcile.";
}

abbrev flood : DocSpec
flood = record {
  key = "flood";
  label = "FEMA flood zone / FIRM";
  requirement = "conditional";
  condition = some "lender-required; if near a Special Flood Hazard Area";
  description =
      some
        "The FEMA flood-hazard designation for the parcel — flood zone (e.g. X, AE, VE), FIRM panel and Base Flood Elevation — i.e. whether it sits in a Special Flood Hazard Area. Lenders and insurers require this determination.";
}

abbrev benchmarks : DocSpec
benchmarks = record {
  key = "benchmarks";
  label = "NGS geodetic control (benchmarks)";
  requirement = "recommended";
  condition = none;
  description =
      some
        "Nearby NGS survey monuments with published coordinates and elevations — used to tie the survey to the correct datum (e.g. NAVD88) and horizontal control.";
}

abbrev glo : DocSpec
glo = record {
  key = "glo";
  label = "GLO / PLSS plats & field notes";
  requirement = "conditional";
  condition = some "if the legal is section-township-range (PLSS) / metes-and-bounds";
  description =
      some
        "The original U.S. General Land Office township plats and field notes that established the PLSS section corners — the basis for section / metes-and-bounds descriptions.";
}

abbrev condo : DocSpec
condo = record {
  key = "condo";
  label = "Condominium declaration & exhibits";
  requirement = "conditional";
  condition = some "if the property is a condominium unit";
  description =
      some
        "The recorded declaration (with its survey / plot-plan exhibits) that legally creates the condominium and defines the units and common elements (FL s.718.104).";
}

abbrev zoning : DocSpec
zoning = record {
  key = "zoning";
  label = "Zoning / setback ordinance";
  requirement = "conditional";
  condition = some "if setbacks / permitted use affect the survey (most boundary work)";
  description =
      some
        "The zoning classification and applicable setback / land-use ordinances for the parcel — used to check conforming use, buildable area and setback lines shown on the survey.";
}

abbrev pub residential_docs : List DocSpec
residential_docs =
    parcel ∷ appraiser ∷ deed ∷ plat ∷ adjoiners ∷ easements ∷ prior_survey ∷ flood ∷ benchmarks
    ∷ glo ∷ condo ∷ zoning ∷ []
