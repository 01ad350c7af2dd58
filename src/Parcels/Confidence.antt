-- ===== src/Parcels/Confidence.antt =====
-- What it takes for a parcel of `resolve` in backend/app/services/parcel.py to count as confirmed.
use researchhub_engine.Prelude.{
  ℕ, String, ◌≡◌, refl, ◌⊎◌, inl, inr, Bool, true, false, ◌&&◌, not, Option, none, some, List, [],
  ◌∷◌, if◌then◌else◌, arith, any_by, find_by, find_by-eq-some, Bool-cases, concat, or_else,
}
use researchhub_engine.Sources.Context.{Attributes, Parcel}
use researchhub_engine.Sources.Services.{Python}
use researchhub_engine.Sources.Legal.{is_full}
use researchhub_engine.Resolution.Phases.{is_confirmed}
use researchhub_engine.Parcels.Situs.{situs_of}
use researchhub_engine.Parcels.Matching.{addr_match}
use researchhub_engine.Parcels.Choice.{
  CountyService, StateService, Layers, is_true, matches, has_match, chosen_or_nearest, choose,
  widen, after_direct, candidates, finish, at_layer, layer_parcel, or_next, at_service,
  county_parcel, state_parcel, directory_parcel, of_county, of_state, resolve,
}

any-find :
    {A : Type 0} (p : A → Bool) (xs : List A)
    → any_by p xs ≡ true
    → (a : A) × (find_by p xs ≡ some a)
any-find p [] h = cc
any-find p (x ∷ xs) h = elim (Bool-cases (p x)) [
  | inl e ↦ (x, rw e refl)
  | inr e ↦ let (a, found) = any-find p xs (ground (arith, h, e)) in (a, rw e found)
]

is_true-eq : (o : Option Bool) → is_true o ≡ true → o ≡ some true
is_true-eq none h = cc
is_true-eq (some b) h = rw h refl

module _ (python : Python) (layers : Layers) (lat lon address : String)
    (searched : is_full address ≡ true) where
  -- A parcel that counts as confirmed has a site address that matches.
  abbrev IsConfident : Parcel → Type 0
  IsConfident p = is_confirmed p ≡ true → addr_match python address p.situs ≡ some true

  -- candidates that are not buffered hold one that matches
  abbrev IsSound : (Attributes → String) → String ⊎ (List Attributes × Bool) → Type 0
  IsSound situs_fn (inl e) = Unit
  IsSound situs_fn (inr ([], b)) = Unit
  IsSound situs_fn (inr (c ∷ cs, b)) =
      b ≡ false → any_by (matches python address situs_fn) (c ∷ cs) ≡ true

  widen-IsSound :
      (url : String) (situs_fn : Attributes → String) (ds : List ℕ) (widest : List Attributes)
      → IsSound situs_fn (widen python layers lat lon address url situs_fn ds widest)
  unfolding widen
  widen-IsSound url situs_fn [] [] = tt
  widen-IsSound url situs_fn [] (c ∷ cs) = λ e. cc
  widen-IsSound url situs_fn (d ∷ ds) widest =
      go (layers.point_query url lat lon (some d)) (widen-IsSound url situs_fn ds)
    where
      go :
          (r : String ⊎ List Attributes)
          → ((w : List Attributes)
              → IsSound situs_fn (widen python layers lat lon address url situs_fn ds w))
          → IsSound situs_fn (elim r [
            | inl e ↦ inl e
            | inr [] ↦ widen python layers lat lon address url situs_fn ds widest
            | inr (f ∷ fs) ↦
                if has_match python address situs_fn (f ∷ fs)
                then inr (f ∷ fs, true)
                else widen python layers lat lon address url situs_fn ds (f ∷ fs)
          ])
      go (inl e) rest = tt
      go (inr []) rest = rest widest
      go (inr (f ∷ fs)) rest = elim (Bool-cases (has_match python address situs_fn (f ∷ fs))) [
        | inl e ↦ rw e (λ h. cc)
        | inr e ↦ rw e (rest (f ∷ fs))
      ]

  candidates-IsSound :
      (url : String) (situs_fn : Attributes → String)
      → IsSound situs_fn (candidates python layers lat lon address url situs_fn)
  unfolding candidates
  candidates-IsSound url situs_fn = go (layers.point_query url lat lon none)
    where
      wide :
          (direct : List Attributes)
          → IsSound situs_fn
              (widen python layers lat lon address url situs_fn (75 ∷ 150 ∷ 300 ∷ []) direct)
      wide direct = widen-IsSound url situs_fn (75 ∷ 150 ∷ 300 ∷ []) direct

      go :
          (r : String ⊎ List Attributes)
          → IsSound situs_fn (after_direct python layers lat lon address url situs_fn r)
      go (inl e) = tt
      go (inr []) = wide []
      go (inr (c ∷ cs)) = elim (Bool-cases (any_by (matches python address situs_fn) (c ∷ cs))) [
        | inl e ↦ rw (searched, e) (λ h. e)
        | inr e ↦ rw (searched, e) (wide (c ∷ cs))
      ]

  -- What is chosen matches, where anything does.
  choose-matches :
      (situs_fn : Attributes → String) (c : Attributes) (cs : List Attributes)
      → ((choose python address situs_fn c cs).1 ≡ true
          → matches python address situs_fn (choose python address situs_fn c cs).0 ≡ true)
        × (any_by (matches python address situs_fn) (c ∷ cs) ≡ true
            → (choose python address situs_fn c cs).1 ≡ true)
  unfolding choose
  choose-matches situs_fn c cs = (
    go (find_by (matches python address situs_fn) (c ∷ cs)) refl,
    λ h. let (a, found) = any-find (matches python address situs_fn) (c ∷ cs) h in rw found refl,
  )
    where
      go :
          (o : Option Attributes)
          → find_by (matches python address situs_fn) (c ∷ cs) ≡ o
          → (chosen_or_nearest python address situs_fn c cs o).1 ≡ true
          → matches python address situs_fn (chosen_or_nearest python address situs_fn c cs o).0
            ≡ true
      go none found h = cc
      go (some m) found h = find_by-eq-some (matches python address situs_fn) (c ∷ cs) m found

  finish-IsConfident :
      (chosen : Attributes) (buffered matched : Bool) (source : String) (layer_name : Option String)
      (situs_fn : Attributes → String)
      → (matched ≡ true → matches python address situs_fn chosen ≡ true)
      → (buffered ≡ false → matched ≡ true)
      → IsConfident
          (finish python layers lat lon address chosen buffered matched source layer_name situs_fn)
  unfolding finish is_confirmed
  finish-IsConfident chosen buffered matched source layer_name situs_fn found sure h =
      is_true-eq (addr_match python address (situs_fn chosen))
        (found (must buffered matched sure (ground (arith, h))))
    where
      must : (b m : Bool) → (b ≡ false → m ≡ true) → not (b && not m) ≡ true → m ≡ true
      must false m sure h = sure refl
      must true m sure h = ground (arith, h)

  -- a parcel that was found, if one was, is confident
  abbrev IsConfidentIfAny : Option Parcel → Type 0
  IsConfidentIfAny none = Unit
  IsConfidentIfAny (some p) = IsConfident p

  layer_parcel-IsConfident :
      (source : String) (layer_name : Option String) (situs_fn : Attributes → String)
      → IsConfidentIfAny
          (layer_parcel python layers lat lon address source layer_name none situs_fn)
  unfolding layer_parcel
  layer_parcel-IsConfident source layer_name situs_fn =
      go (candidates python layers lat lon address (concat (source ∷ "/query" ∷ [])) situs_fn)
        (candidates-IsSound (concat (source ∷ "/query" ∷ [])) situs_fn)
    where
      go :
          (r : String ⊎ (List Attributes × Bool))
          → IsSound situs_fn r
          → IsConfidentIfAny
              (at_layer python layers lat lon address source layer_name none situs_fn r)
      go (inl e) sound = tt
      go (inr ([], b)) sound = tt
      go (inr (c ∷ cs, b)) sound =
          let (found, any) = choose-matches situs_fn c cs in
          finish-IsConfident _ b _ source layer_name situs_fn found (λ e. any (sound e))

  or_next-IsConfident :
      (o rest : Option Parcel)
      → IsConfidentIfAny o
      → IsConfidentIfAny rest
      → IsConfidentIfAny (or_next o rest)
  or_next-IsConfident none rest h k = k
  or_next-IsConfident (some p) rest h k = h

  county_parcel-IsConfident :
      (county : CountyService) (services : List String)
      → county.related ≡ none
      → IsConfidentIfAny (county_parcel python layers lat lon address county services)
  unfolding county_parcel
  county_parcel-IsConfident county [] alone = tt
  county_parcel-IsConfident county (one ∷ services) alone =
      or_next-IsConfident (at_service python layers lat lon address county (layers.layer one))
        (county_parcel python layers lat lon address county services) (go (layers.layer one))
        (county_parcel-IsConfident county services alone)
    where
      go :
          (r : String ⊎ Option (String × Option String))
          → IsConfidentIfAny (at_service python layers lat lon address county r)
      go (inl e) = tt
      go (inr none) = tt
      go (inr (some (source, layer_name))) = rw alone (
          layer_parcel-IsConfident source layer_name
            (λ attrs. situs_of python attrs county.situs_exclude county.compose_situs))

  state_parcel-IsConfident :
      (state : StateService) (urls : List String)
      → state.related ≡ none
      → IsConfidentIfAny (state_parcel python layers lat lon address state urls)
  unfolding state_parcel
  state_parcel-IsConfident state [] alone = tt
  state_parcel-IsConfident state (u ∷ urls) alone =
      or_next-IsConfident _ (state_parcel python layers lat lon address state urls)
        (rw alone (layer_parcel-IsConfident u none (λ attrs. situs_of python attrs [] false)))
        (state_parcel-IsConfident state urls alone)

  directory-IsConfident : IsConfident directory_parcel
  unfolding is_confirmed
  directory-IsConfident h = cc

  -- For an address that is not empty, and a county and a state whose services join no related tables, a
  -- parcel that `resolve` gives counts as confirmed only if its site address matches the address that was
  -- searched: it is not enough that the parcel lies at the point and nothing contradicts it.
  pub resolve-addr_match :
      (county_fips state_abbr : String)
      → ((county : CountyService) → layers.county county_fips ≡ some county → county.related ≡ none)
      → ((state : StateService) → layers.state state_abbr ≡ some state → state.related ≡ none)
      → let p = resolve python layers lat lon address county_fips state_abbr in
        is_confirmed p ≡ true → addr_match python address p.situs ≡ some true
  unfolding resolve
  resolve-addr_match county_fips state_abbr alone alone' = go _ (
      or_next-IsConfident (of_county python layers lat lon address (layers.county county_fips))
        (of_state python layers lat lon address (layers.state state_abbr))
        (by_county (layers.county county_fips) alone) (by_state (layers.state state_abbr) alone'))
    where
      by_county :
          (o : Option CountyService)
          → ((county : CountyService) → o ≡ some county → county.related ≡ none)
          → IsConfidentIfAny (of_county python layers lat lon address o)
      by_county none h = tt
      by_county (some county) h = county_parcel-IsConfident county county.gis_rest (h county refl)

      by_state :
          (o : Option StateService)
          → ((state : StateService) → o ≡ some state → state.related ≡ none)
          → IsConfidentIfAny (of_state python layers lat lon address o)
      by_state none h = tt
      by_state (some state) h = state_parcel-IsConfident state state.urls (h state refl)

      go : (o : Option Parcel) → IsConfidentIfAny o → IsConfident (or_else o directory_parcel)
      go none h = directory-IsConfident
      go (some p) h = h
