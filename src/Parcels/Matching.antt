-- ===== src/Parcels/Matching.antt =====
-- How backend/app/services/parcel.py matches a site address with the address that is searched.
use researchhub_engine.Prelude.{
  String, Bool, true, false, ◌&&◌, not, Option, none, some, List, [], ◌∷◌, str_eq, map,
  if◌then◌else◌, is_none, or_else, any_by, contains, filter_by, reverse,
}
use researchhub_engine.Sources.Services.{Python}
use researchhub_engine.Sources.Legal.{is_full, head_or_empty, group}

abbrev pub suffixes : List String
suffixes =
    "AVE" ∷ "AVENUE" ∷ "ST" ∷ "STREET" ∷ "RD" ∷ "ROAD" ∷ "DR" ∷ "DRIVE" ∷ "LN" ∷ "LANE" ∷ "BLVD"
    ∷ "BOULEVARD" ∷ "CT" ∷ "COURT" ∷ "CIR" ∷ "CIRCLE" ∷ "PL" ∷ "PLACE" ∷ "WAY" ∷ "TER" ∷ "TERRACE"
    ∷ "HWY" ∷ "HIGHWAY" ∷ "PKWY" ∷ "PARKWAY" ∷ "TRL" ∷ "TRAIL" ∷ "LOOP" ∷ "RUN" ∷ "PASS" ∷ "PT"
    ∷ "POINT" ∷ "SQ" ∷ "SQUARE" ∷ "PATH" ∷ "XING" ∷ "CV" ∷ "COVE" ∷ "BND" ∷ "BEND" ∷ "ROW" ∷ "WALK"
    ∷ "PLZ" ∷ "PLAZA" ∷ []

abbrev pub directions : List String
directions =
    "N" ∷ "S" ∷ "E" ∷ "W" ∷ "NE" ∷ "NW" ∷ "SE" ∷ "SW" ∷ "NORTH" ∷ "SOUTH" ∷ "EAST" ∷ "WEST" ∷ []

module _ (python : Python) where
  -- the part of an address before its first comma
  abbrev pub street_part : String → String
  street_part addr = python.strip (head_or_empty (python.split "," addr))

  -- `_house`: a leading number, or else a trailing one
  unfoldable pub house : String → String
  house addr =
      let a = street_part addr in
      or_else (group 0 (python.search "^\\s*(\\d+)" a))
        (or_else (group 0 (python.search "(\\d+)\\s*$" a)) "")

  abbrev pub drop_house : String → List String → List String
  drop_house pattern [] = []
  drop_house pattern (t ∷ ts) = if is_none (python.search pattern t) then t ∷ ts else ts

  -- `_street_tokens`
  unfoldable pub street_tokens : String → List String
  street_tokens addr =
      let leading = drop_house "^\\d+[A-Za-z]?$" (python.words (street_part addr)) in
      let words = reverse (drop_house "^\\d+$" (reverse leading)) in
      filter_by (λ t. is_full t && not (contains t suffixes) && not (contains t directions))
        (map (λ t. python.upper (python.substitute "[^A-Za-z0-9]" "" t)) words)

  abbrev pub is_nonempty_list : List String → Bool
  is_nonempty_list [] = false
  is_nonempty_list (_ ∷ _) = true

  -- the streets, where both sides carry one
  abbrev pub streets_match : List String → List String → Bool
  streets_match st ct =
      if is_nonempty_list st && is_nonempty_list ct then any_by (λ t. contains t ct) st else true

  -- `_addr_match`
  unfoldable pub addr_match : String → String → Option Bool
  unfolding house street_tokens
  addr_match search situs =
      let sh = house search in
      let ch = house situs in
      if is_full sh && is_full ch
      then (if str_eq sh ch
          then some (streets_match (street_tokens search) (street_tokens situs))
          else some false)
      else none
