-- ===== src/Parcels/Situs.antt =====
-- `situs_of` of backend/app/services/parcel.py: the site address in a parcel's attributes, from one field or
-- composed of several, with the fields that a county excludes.
use researchhub_engine.Prelude.{
  String, Bool, true, false, ◌&&◌, ◌||◌, not, Option, none, some, List, [], ◌∷◌, str_eq, map,
  if◌then◌else◌, or_else, any_by, contains, filter_by,
}
use researchhub_engine.Sources.Context.{Value, null, text, number, is_zero, Attributes}
use researchhub_engine.Sources.Services.{Python}
use researchhub_engine.Sources.Legal.{is_full}

-- `str(v)`
abbrev pub str : Value → String
str null = "None"
str (text s) = s
str (number n) = n

-- `v not in (None, "", " ", 0, "0")`
abbrev pub is_value : Value → Bool
is_value null = false
is_value (text s) = not (str_eq s "" || str_eq s " " || str_eq s "0")
is_value (number n) = not (is_zero n)

module _ (python : Python) where
  -- `_norm`
  unfoldable pub norm : String → String
  norm k = python.remove "_" (python.remove "-" (python.remove " " (python.lower k)))

  -- whether one of the fragments occurs in a key
  abbrev pub has_any : List String → String → Bool
  has_any fragments kl = any_by (λ f. python.occurs f kl) fragments

  -- `_isblank`
  unfoldable pub is_blank : Value → Bool
  is_blank null = true
  is_blank v =
      contains (python.upper (python.strip (str v))) ("" ∷ "NULL" ∷ "NONE" ∷ "N/A" ∷ "<NULL>" ∷ [])

  abbrev pub is_mail : String → Bool
  is_mail kl = has_any ("owner" ∷ "mail" ∷ []) kl

  -- The first attribute that serves as a component, with the keys that are taken then. `wanted` is the
  -- test of a key.
  abbrev pub take_first :
      (String → Bool) → List String → List String → Attributes → String × List String
  take_first wanted excl taken [] = ("", taken)
  take_first wanted excl taken ((k, v) ∷ attrs) =
      let rest = take_first wanted excl taken attrs in
      let kl = norm k in
      if contains kl excl || contains kl taken || is_mail kl || not (wanted kl) || is_blank v
      then rest
      else (python.strip (str v), kl ∷ taken)

  abbrev pub number_keys : List String
  number_keys =
      "housenumb" ∷ "houseno" ∷ "housenum" ∷ "stnumber" ∷ "stnum" ∷ "strnum" ∷ "addrnum"
      ∷ "addressnu" ∷ "situsnum" ∷ "addno" ∷ "propnum" ∷ "propertynum" ∷ "bldgnum" ∷ "locations"
      ∷ "streetnum" ∷ []

  abbrev pub direction_keys : List String
  direction_keys = "predir" ∷ "prefixdir" ∷ "streetdir" ∷ "stdir" ∷ "direction1" ∷ "situsdir" ∷ []

  abbrev pub type_keys : List String
  type_keys =
      "suffixtype" ∷ "streettype" ∷ "sttype" ∷ "posttype" ∷ "strtype" ∷ "situstype" ∷ "rdtype" ∷ []

  -- the test of the key of a street name
  abbrev pub is_name_key : String → Bool
  is_name_key kl =
      (has_any
          ("streetname" ∷ "strname" ∷ "stname" ∷ "streetnam" ∷ "locate" ∷ "location1" ∷ "situsstr"
            ∷ "road" ∷ "addr" ∷ "street" ∷ [])
          kl
        || (python.occurs "str" kl && python.occurs "name" kl))
      && not (has_any ("type" ∷ "dir" ∷ "num" ∷ "city" ∷ "zip" ∷ []) kl)

  -- a number that was read as a float
  abbrev pub without_point : String → String
  without_point num = if python.ends_with ".0" num then python.drop_end 2 num else num

  unfoldable pub compose_situs : Attributes → List String → String
  unfolding norm is_blank
  compose_situs attrs exclude =
      let excl = map norm exclude in
      let (num, taken1) = take_first (has_any number_keys) excl [] attrs in
      let (predir, taken2) = take_first (has_any direction_keys) excl taken1 attrs in
      let (name, taken3) = take_first is_name_key excl taken2 attrs in
      let (suftype, taken4) = take_first (has_any type_keys) excl taken3 attrs in
      let (sufdir, taken5) =
        take_first (has_any ("suffixdir" ∷ "postdir" ∷ "direction2" ∷ [])) excl taken4 attrs in
      if is_full (without_point num) && is_full name
      then python.join
          (filter_by is_full (without_point num ∷ predir ∷ name ∷ suftype ∷ sufdir ∷ []))
      else ""

  -- `_has_street`
  unfoldable pub has_street : Value → Bool
  has_street v = is_value v && python.has_alpha (str v) && python.has_digit (str v)

  abbrev pub skip_keys : List String
  skip_keys =
      "zip" ∷ "mail" ∷ "billing" ∷ "owner" ∷ "city" ∷ "state" ∷ "pstl" ∷ "postal" ∷ "taxpayer"
      ∷ "type" ∷ "desc" ∷ []

  abbrev pub aliases : List String
  aliases =
      "situsaddress" ∷ "situsaddr" ∷ "siteaddress" ∷ "siteaddr" ∷ "siteadd" ∷ "phyaddr" ∷ "physaddr"
      ∷ "physicala" ∷ "propaddr" ∷ "propadd" ∷ "propertya" ∷ "proploc" ∷ "locaddr" ∷ "e911"
      ∷ "fulladdr" ∷ "fuladd" ∷ "parceladd" ∷ "paradd" ∷ "boaaddr" ∷ "location" ∷ "address"
      ∷ "adress" ∷ "situs" ∷ "site" ∷ []

  -- the first attribute with a street whose key passes the test
  abbrev pub first_street : (String → Bool) → List String → Attributes → Option String
  first_street wanted excl [] = none
  first_street wanted excl ((k, v) ∷ attrs) =
      let rest = first_street wanted excl attrs in
      let kl = norm k in
      if not (contains kl excl) && wanted kl && not (has_any skip_keys kl) && has_street v
      then some (python.join (python.words (str v)))
      else rest

  -- the key of a complete address
  abbrev pub is_complete_key : String → Bool
  is_complete_key kl = python.occurs "addr" kl && has_any ("full" ∷ "complete" ∷ "situs" ∷ []) kl

  -- the first alias that some attribute has
  abbrev pub by_alias : List String → List String → Attributes → Option String
  by_alias [] excl attrs = none
  by_alias (a ∷ rest) excl attrs = elim (first_street (python.occurs a) excl attrs) [
    | none ↦ by_alias rest excl attrs
    | some s ↦ some s
  ]

  -- a complete address, or else an alias, or else one that is composed
  unfoldable pub situs_of : Attributes → List String → Bool → String
  unfolding norm has_street compose_situs
  situs_of attrs exclude true = compose_situs attrs exclude
  situs_of attrs exclude false =
      let excl = map norm exclude in
      elim (first_street is_complete_key excl attrs) [
        | some s ↦ s
        | none ↦ or_else (by_alias aliases excl attrs) (compose_situs attrs exclude)
      ]
