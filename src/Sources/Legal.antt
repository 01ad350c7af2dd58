-- ===== src/Sources/Legal.antt =====
-- The references that backend/app/engine/orchestration/sources.py reads from a parcel's attributes and
-- its legal description, and what it asks of the county clerk for them.
use researchhub_engine.Prelude.{
  ℕ, zero, suc, String, Bool, false, ◌&&◌, ◌||◌, not, Option, none, some, List, [], ◌∷◌, str_eq,
  if◌then◌else◌, is_none, any_by, concat,
}
use researchhub_engine.Sources.{ManifestEntry}
use researchhub_engine.Sources.Context.{Value, null, text, number, is_zero, Attributes, Appraisal}
use researchhub_engine.Sources.Services.{Python, PlatRequest, DeedRequest, by_reference, by_owner}

-- the truth of a text, and of one that may be missing
abbrev pub is_full : String → Bool
is_full s = not (str_eq s "")

abbrev pub has_text : Option String → Bool
has_text none = false
has_text (some s) = is_full s

-- `x or y`
abbrev pub text_else : Option String → Option String → Option String
text_else x y = if has_text x then x else y

-- `v not in (None, "", " ")`, with what `str(v)` is, and the same where 0 is excluded too
abbrev pub printed : Value → Option String
printed null = none
printed (text s) = if str_eq s "" || str_eq s " " then none else some s
printed (number n) = some n

abbrev pub printed_nonzero : Value → Option String
printed_nonzero (number n) = if is_zero n then none else some n
printed_nonzero v = printed v

-- the `n`-th group of a match, from 0 on
abbrev pub group_at : ℕ → List (Option String) → Option String
group_at n [] = none
group_at zero (g ∷ gs) = g
group_at (suc n) (g ∷ gs) = group_at n gs

abbrev pub group : ℕ → Option (List (Option String)) → Option String
group n none = none
group n (some groups) = group_at n groups

-- the entry of the manifest for a file in documents/
abbrev pub document_entry : String → String → ManifestEntry
document_entry file source = record {
  source = some source;
  fetched_utc = none;
  file = some (concat ("documents/" ∷ file ∷ []));
  sha256 = none;
}

abbrev pub first_six : List String → List String
first_six (a ∷ b ∷ c ∷ d ∷ e ∷ f ∷ _) = a ∷ b ∷ c ∷ d ∷ e ∷ f ∷ []
first_six xs = xs

abbrev pub head_or_empty : List String → String
head_or_empty [] = ""
head_or_empty (x ∷ _) = x

-- `plat_arg`: the book and page of the legal description, or else of the appraiser's record
abbrev pub plat_request_at : Option String × Option String → String → Appraisal → Option PlatRequest
plat_request_at (book, page) subdiv appr =
    let ours = has_text book in
    let book' = if ours then book else text_else appr.plat_book book in
    let page' = if ours || not (has_text appr.plat_book) then page else appr.plat_page in
    elim book' [
      | none ↦ none
      | some b ↦
          if is_full b then some (record { book = b; page = page'; subdivision = subdiv }) else none
    ]

-- the book and page of the deed: those of the columns, or else of the legal description
abbrev pub deed_reference : String × String → Option String × Option String → String × String
deed_reference (book, page) (some b, some p) =
    if is_full book && is_full page
    then (book, page)
    else if is_full b && is_full p
    then (b, p)
    else (book, page)
deed_reference columns _ = columns

abbrev pub deed_request_at : String → String × String → String → String → Option DeedRequest
deed_request_at doc_number (book, page) owner subdiv =
    if is_full doc_number || (is_full book && is_full page)
    then some (by_reference doc_number book page)
    else if is_full owner
    then some (by_owner owner subdiv)
    else none

module _ (python : Python) where
  -- the first attribute that qualifies, stripped
  abbrev pub first_value : (String → Bool) → (Value → Option String) → Attributes → String
  first_value wanted print [] = ""
  first_value wanted print ((k, v) ∷ attrs) =
      let rest = first_value wanted print attrs in
      if wanted k then elim (print v) [ none ↦ rest | some s ↦ python.strip s ] else rest

  unfoldable pub attr : Attributes → List String → String
  attr attrs needles =
      first_value (λ k. any_by (λ n. python.occurs n (python.remove "_" (python.lower k))) needles)
        printed_nonzero attrs

  unfoldable pub field : Attributes → String → String
  field attrs name = first_value (λ k. str_eq (python.upper k) name) printed attrs

  unfoldable pub numref : String → String
  numref value =
      let v = python.strip value in
      if python.has_digit v && is_full (python.strip_chars "0 " v) then v else ""

  unfoldable pub plat_ref : String → Option String × Option String
  plat_ref legal =
      let book = python.search "\\bP\\.?\\s?B\\.?\\s*(\\d+)" legal in
      (
        group 0 (if is_none book then python.search "PLAT\\s*BOOK\\s*(\\d+)" legal else book),
        group 0 (python.search "\\bP(?:G|AGE)\\.?\\s*(\\d+)" legal),
      )

  unfoldable pub or_ref : String → Option String × Option String
  or_ref legal =
      let m =
        python.search
          "\\bO\\.?\\s?R\\.?\\s*(?:BOOK\\s*)?(\\d{2,6})\\s*(?:/\\s*(\\d{1,6})|(?:PG|PAGE|P)\\.?\\s*(\\d{1,6}))"
          legal in
      (group 0 m, text_else (group 1 m) (group 2 m))

  unfoldable pub subdivision : String → String
  subdivision legal =
      let head =
        head_or_empty
          (python.split "\\b(BLK|BLOCK|LOT|LT|PB|P\\s?B|PLAT|SEC|BEG)\\b" (python.upper legal)) in
      python.strip (python.join (first_six (python.words head)))

  unfoldable pub plat_request : String → Appraisal → Option PlatRequest
  unfolding plat_ref subdivision
  plat_request legal appr = plat_request_at (plat_ref legal) (subdivision legal) appr

  -- `deed_arg`
  unfoldable pub deed_request : Attributes → String → Option DeedRequest
  unfolding attr field numref or_ref subdivision
  deed_request attrs legal =
      deed_request_at (numref (field attrs "CLERK_NO1"))
        (deed_reference (numref (field attrs "OR_BOOK1"), numref (field attrs "OR_PAGE1"))
          (or_ref legal))
        (attr attrs ("ownname" ∷ "owner" ∷ [])) (subdivision legal)
