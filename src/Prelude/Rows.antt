-- ===== src/Prelude/Rows.antt =====
-- Tables of rows with a numeric key: what an update by key does to a query, and constraints that
-- hold between every two rows.
use Prim.Native.Nat.{ℕ}
use mathlib.Core.Path.{◌≡◌, refl, sym, ap}
use mathlib.Core.Logic.{◌≢◌, inl, inr}
use mathlib.Core.Bool.{Bool, false}
use mathlib.Core.Option
use mathlib.Core.Option.{Option}
use mathlib.Core.List.{List, [], ◌∷◌, ◌++◌, map}
use native.Mathlib.Omega.{arith}
use researchhub_engine.Prelude.Tests.{◌==◌, if◌then◌else◌, Bool-cases, ==_refl}
use researchhub_engine.Prelude.Lists.{All, All-filter_by, filter_by, find_by, any_by}

module _ {ℓ} {A : Type ℓ} where
  -- `R` holds between every two rows, the earlier one first.
  abbrev pub AllPairs {κ} : (A → A → Type κ) → List A → Type κ
  AllPairs R [] = Unit
  AllPairs R (x ∷ xs) = All (R x) xs × AllPairs R xs

  pub All-any_by-false :
      (p : A → Bool) (xs : List A) → any_by p xs ≡ false → All (λ x. p x ≡ false) xs
  All-any_by-false p [] h = tt
  All-any_by-false p (x ∷ xs) h = ground (arith, All-any_by-false p xs)

  pub All-weaken {κ ι} :
      {P : A → Type κ} {Q : A → Type ι} (xs : List A) → ((x : A) → P x → Q x) → All P xs → All Q xs
  All-weaken [] f h = tt
  All-weaken (x ∷ xs) f h = (f x h.0, All-weaken xs f h.1)

  pub AllPairs-concat {κ} :
      (R : A → A → Type κ) (xs : List A) (y : A)
      → AllPairs R xs
      → All (λ x. R x y) xs
      → AllPairs R (xs ++ y ∷ [])
  AllPairs-concat R [] y h k = (tt, tt)
  AllPairs-concat R (x ∷ xs) y h k = (All-concat xs h.0 k.0, AllPairs-concat R xs y h.1 k.1)
    where
      All-concat : (zs : List A) → All (R x) zs → R x y → All (R x) (zs ++ y ∷ [])
      All-concat [] _ r = (r, tt)
      All-concat (z ∷ zs) a r = (a.0, All-concat zs a.1 r)

module _ {ℓ} {A : Type ℓ} where
  -- Rows that are all rewritten in a way that `P`, or `R`, allows.
  pub All-map {κ} :
      (f : A → A) (P : A → Type κ) (xs : List A)
      → ((x : A) → P x → P (f x))
      → All P xs
      → All P (map f xs)
  All-map f P [] keep h = tt
  All-map f P (x ∷ xs) keep h = (keep x h.0, All-map f P xs keep h.1)

  pub AllPairs-map {κ} :
      (f : A → A) (R : A → A → Type κ) (xs : List A)
      → ((x y : A) → R x y → R (f x) y)
      → ((x y : A) → R x y → R x (f y))
      → AllPairs R xs
      → AllPairs R (map f xs)
  AllPairs-map f R [] left right h = tt
  AllPairs-map f R (x ∷ xs) left right h = (
    All-map f (R (f x)) xs (right (f x)) (All-weaken xs (left x) h.0),
    AllPairs-map f R xs left right h.1,
  )

  pub AllPairs-filter_by {κ} :
      (R : A → A → Type κ) (p : A → Bool) (xs : List A)
      → AllPairs R xs
      → AllPairs R (filter_by p xs)
  AllPairs-filter_by R p [] h = tt
  AllPairs-filter_by R p (x ∷ xs) h = elim (Bool-cases (p x)) [
    | inl kept ↦ rw kept (All-filter_by (R x) p xs h.0, AllPairs-filter_by R p xs h.1)
    | inr dropped ↦ rw dropped (AllPairs-filter_by R p xs h.1)
  ]

module _ {ℓ} {A : Type ℓ} (key : A → ℕ) (k : ℕ) (f : A → A) where
  -- `UPDATE ... WHERE id = k`
  abbrev pub update_by : List A → List A
  update_by [] = []
  update_by (x ∷ xs) = (if key x == k then f x else x) ∷ update_by xs

  pub update_by_absent : (xs : List A) → All (λ x. key x ≢ k) xs → update_by xs ≡ xs
  update_by_absent [] h = refl
  update_by_absent (x ∷ xs) h = ground (arith, update_by_absent xs h.1)

  pub update_by-append : (xs ys : List A) → update_by (xs ++ ys) ≡ update_by xs ++ update_by ys
  update_by-append [] ys = refl
  update_by-append (x ∷ xs) ys = ground (arith, update_by-append xs ys)

  -- A query whose test the update does not change finds the same rows, updated.
  pub find_by-update_by :
      (p : A → Bool) (xs : List A)
      → ((x : A) → p (f x) ≡ p x)
      → find_by p (update_by xs) ≡ Option.map (λ x. if key x == k then f x else x) (find_by p xs)
  find_by-update_by p [] h = refl
  find_by-update_by p (x ∷ xs) h = ground (arith, h x, find_by-update_by p xs h)

  pub filter_by-update_by :
      (p : A → Bool) (xs : List A)
      → ((x : A) → p (f x) ≡ p x)
      → filter_by p (update_by xs) ≡ update_by (filter_by p xs)
  filter_by-update_by p [] h = refl
  filter_by-update_by p (x ∷ xs) h = ground (arith, h x, filter_by-update_by p xs h)

  -- An update that does not change what `P` reads keeps `P` of every row.
  pub All-update_by {κ} :
      (P : A → Type κ) (xs : List A) → ((x : A) → P x → P (f x)) → All P xs → All P (update_by xs)
  All-update_by P [] keep h = tt
  All-update_by P (x ∷ xs) keep h = elim (Bool-cases (key x == k)) [
    | inl hit ↦ rw hit (keep x h.0, All-update_by P xs keep h.1)
    | inr miss ↦ rw miss (h.0, All-update_by P xs keep h.1)
  ]

  pub AllPairs-update_by {κ} :
      (R : A → A → Type κ) (xs : List A)
      → ((x y : A) → R x y → R (f x) y)
      → ((x y : A) → R x y → R x (f y))
      → AllPairs R xs
      → AllPairs R (update_by xs)
  AllPairs-update_by R [] left right h = tt
  AllPairs-update_by R (x ∷ xs) left right h = elim (Bool-cases (key x == k)) [
    | inl hit ↦ rw hit (
      All-update_by (R (f x)) xs (right (f x)) (All-weaken xs (left x) h.0),
      AllPairs-update_by R xs left right h.1,
    )
    | inr miss ↦
        rw miss (All-update_by (R x) xs (right x) h.0, AllPairs-update_by R xs left right h.1)
  ]

module _ {ℓ} {A : Type ℓ} (key : A → ℕ) where
  abbrev pub keys : List A → List ℕ
  keys [] = []
  keys (x ∷ xs) = key x ∷ keys xs

  -- No two rows have one key.
  abbrev pub HasDistinctKeys : List A → Type 0
  HasDistinctKeys xs = AllPairs (λ (a b : ℕ). b ≢ a) (keys xs)

  pub keys-append : (xs ys : List A) → keys (xs ++ ys) ≡ keys xs ++ keys ys
  keys-append [] ys = refl
  keys-append (x ∷ xs) ys = ap (λ l. key x ∷ l) (keys-append xs ys)

  -- Around one row of a table with distinct keys, the other rows have other keys.
  pub before_distinct :
      (xs : List A) (y : A) (ys : List A)
      → HasDistinctKeys (xs ++ y ∷ ys)
      → All (λ x. key x ≢ key y) xs
  before_distinct [] y ys h = tt
  before_distinct (x ∷ xs) y ys h = (λ e. All-keys-at xs h.0 (sym e), before_distinct xs y ys h.1)
    where
      All-keys-at : (zs : List A) → All (λ (b : ℕ). b ≢ key x) (keys (zs ++ y ∷ ys)) → key y ≢ key x
      All-keys-at [] a = a.0
      All-keys-at (z ∷ zs) a = All-keys-at zs a.1

  pub after_distinct :
      (xs : List A) (y : A) (ys : List A)
      → HasDistinctKeys (xs ++ y ∷ ys)
      → All (λ x. key x ≢ key y) ys
  after_distinct [] y ys h = All-keys ys h.0
    where
      All-keys : (zs : List A) → All (λ (b : ℕ). b ≢ key y) (keys zs) → All (λ x. key x ≢ key y) zs
      All-keys [] a = tt
      All-keys (z ∷ zs) a = (a.0, All-keys zs a.1)
  after_distinct (x ∷ xs) y ys h = after_distinct xs y ys h.1

  -- An update by the key of one row changes that row alone.
  pub update_by_at :
      (f : A → A) (xs : List A) (y : A) (ys : List A)
      → HasDistinctKeys (xs ++ y ∷ ys)
      → update_by key (key y) f (xs ++ y ∷ ys) ≡ xs ++ f y ∷ ys
  update_by_at f xs y ys h =
      rw
        (
          update_by-append key (key y) f xs (y ∷ ys),
          update_by_absent key (key y) f xs (before_distinct xs y ys h),
          update_by_absent key (key y) f ys (after_distinct xs y ys h),
          ==_refl (key y),
        )
        refl
