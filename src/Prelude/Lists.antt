-- ===== src/Prelude/Lists.antt =====
-- Lists measured by native numbers, Boolean filters and counts, and predicates by recursion.
use Prim.Native.Nat.{ℕ, suc, ◌+◌, ◌≤◌}
use Prim.Native.String.{String}
use mathlib.Core.Path.{◌≡◌, refl, ap}
use mathlib.Core.Bool.{Bool, true, false, ◌||◌}
use mathlib.Core.Option
use mathlib.Core.Option.{Option, none, some}
use mathlib.Core.List.{List, [], ◌∷◌, ◌++◌, map}
use native.Mathlib.Omega.{arith}
use text.Mathlib.Text.{◌==◌ as str_eq}
use mathlib.Core.Logic.{inl, inr}
use researchhub_engine.Prelude.Tests.{if◌then◌else◌, Bool-cases}

module _ {ℓ} {A : Type ℓ} where
  abbrev pub length : List A → ℕ
  length [] = 0
  length (x ∷ xs) = suc (length xs)

  abbrev pub All {κ} : (A → Type κ) → List A → Type κ
  All P [] = Unit
  All P (x ∷ xs) = P x × All P xs

  -- `[x for x in xs if p(x)]`
  abbrev pub filter_by : (A → Bool) → List A → List A
  filter_by p [] = []
  filter_by p (x ∷ xs) = if p x then x ∷ filter_by p xs else filter_by p xs

  -- `sum(p(x) for x in xs)`
  abbrev pub count_by : (A → Bool) → List A → ℕ
  count_by p [] = 0
  count_by p (x ∷ xs) = (if p x then 1 else 0) + count_by p xs

  -- the first element that passes, as `db.scalar` and `.first()` return it
  abbrev pub find_by : (A → Bool) → List A → Option A
  find_by p [] = none
  find_by p (x ∷ xs) = if p x then some x else find_by p xs

  abbrev pub any_by : (A → Bool) → List A → Bool
  any_by p [] = false
  any_by p (x ∷ xs) = p x || any_by p xs

  pub length-append : (xs ys : List A) → length (xs ++ ys) ≡ length xs + length ys
  length-append [] ys = omega arith
  length-append (x ∷ xs) ys = omega (arith, length-append xs ys)

  pub count_by-le-length : (p : A → Bool) (xs : List A) → count_by p xs ≤ length xs
  count_by-le-length p [] = omega arith
  count_by-le-length p (x ∷ xs) = ground (arith, count_by-le-length p xs)

  pub count_by-append :
      (p : A → Bool) (xs ys : List A) → count_by p (xs ++ ys) ≡ count_by p xs + count_by p ys
  count_by-append p [] ys = omega arith
  count_by-append p (x ∷ xs) ys = omega (arith, count_by-append p xs ys)

  pub All-append {κ} : (P : A → Type κ) (xs ys : List A) → All P xs → All P ys → All P (xs ++ ys)
  All-append P [] ys hx hy = hy
  All-append P (x ∷ xs) ys hx hy = (hx.0, All-append P xs ys hx.1 hy)

  pub All-filter_by {κ} :
      (P : A → Type κ) (p : A → Bool) (xs : List A) → All P xs → All P (filter_by p xs)
  All-filter_by P p [] h = tt
  All-filter_by P p (x ∷ xs) h = elim (Bool-cases (p x)) [
    | inl kept ↦ rw kept (h.0, All-filter_by P p xs h.1)
    | inr dropped ↦ rw dropped (All-filter_by P p xs h.1)
  ]

  -- What the filter keeps passes the test.
  pub filter_by-All : (p : A → Bool) (xs : List A) → All (λ x. p x ≡ true) (filter_by p xs)
  filter_by-All p [] = tt
  filter_by-All p (x ∷ xs) = ground (arith, filter_by-All p xs)

  pub filter_by-append :
      (p : A → Bool) (xs ys : List A) → filter_by p (xs ++ ys) ≡ filter_by p xs ++ filter_by p ys
  filter_by-append p [] ys = refl
  filter_by-append p (x ∷ xs) ys = ground (arith, filter_by-append p xs ys)

  pub find_by-eq-some : (p : A → Bool) (xs : List A) (a : A) → find_by p xs ≡ some a → p a ≡ true
  find_by-eq-some p [] a h = cc
  find_by-eq-some p (x ∷ xs) a h = ground (arith, find_by-eq-some p xs a)

pub find_by-append {ℓ} :
    {A : Type ℓ} (p : A → Bool) (xs ys : List A)
    → find_by p xs ≡ none
    → find_by p (xs ++ ys) ≡ find_by p ys
find_by-append p [] ys h = refl
find_by-append p (x ∷ xs) ys h = ground (arith, find_by-append p xs ys)

pub find_by-append-some {ℓ} :
    {A : Type ℓ} (p : A → Bool) (xs ys : List A) (a : A)
    → find_by p xs ≡ some a
    → find_by p (xs ++ ys) ≡ some a
find_by-append-some p [] ys a h = cc
find_by-append-some p (x ∷ xs) ys a h = ground (arith, find_by-append-some p xs ys a, h)

pub find_by-eq-none {ℓ} :
    {A : Type ℓ} (p : A → Bool) (xs : List A) → All (λ x. p x ≡ false) xs → find_by p xs ≡ none
find_by-eq-none p [] h = refl
find_by-eq-none p (x ∷ xs) h = rw h.0 (find_by-eq-none p xs h.1)

-- A query over rows that are all rewritten in a way that its test does not see.
pub find_by-map {ℓ} :
    {A : Type ℓ} (f : A → A) (p : A → Bool) (xs : List A)
    → ((x : A) → p (f x) ≡ p x)
    → find_by p (map f xs) ≡ Option.map f (find_by p xs)
find_by-map f p [] h = refl
find_by-map f p (x ∷ xs) h = ground (arith, h x, find_by-map f p xs h)

pub length-map {ℓ κ} :
    {A : Type ℓ} {B : Type κ} (f : A → B) (xs : List A) → length (map f xs) ≡ length xs
length-map f [] = refl
length-map f (x ∷ xs) = ap suc (length-map f xs)

-- `t in xs`, for texts
abbrev pub contains : String → List String → Bool
contains t = any_by (str_eq t)
