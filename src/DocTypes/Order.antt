-- ===== src/DocTypes/Order.antt =====
-- The order of texts by code points, and Python's `sorted` on texts.
use Prim.Native.Nat.{Ordering, compare as compare_ℕ}
use Prim.Native.Char.{code}
use Prim.Native.String.{compare, then as or_by}
use Prim.Native.String.compare.{nil-cons, cons-nil, cons-cons}
use researchhub_engine.Prelude.{
  ℕ, String, ◌≡◌, ap, refl, sym, ◌∙◌, Bool, true, false, List, [], ◌∷◌, inl, inr, ◌+◌, str_eq,
  if◌then◌else◌, Bool-cases, arith,
}

abbrev pub is_after : Ordering → Bool
is_after Ordering.gt = true
is_after _ = false

abbrev pub insert_text : String → List String → List String
insert_text x [] = x ∷ []
insert_text x (y ∷ ys) =
    let later = insert_text x ys in if is_after (compare x y) then y ∷ later else x ∷ y ∷ ys

-- `sorted` of texts
unfoldable pub sorted : List String → List String
sorted [] = []
sorted (x ∷ xs) = insert_text x (sorted xs)

-- Each text is followed by none that compares less.
abbrev pub IsAscending : List String → Type 0
IsAscending [] = Unit
IsAscending (x ∷ []) = Unit
IsAscending (x ∷ y ∷ ys) = (is_after (compare x y) ≡ false) × IsAscending (y ∷ ys)

abbrev flip : Ordering → Ordering
flip Ordering.lt = Ordering.gt
flip Ordering.eq = Ordering.eq
flip Ordering.gt = Ordering.lt

flip-then : (a b : Ordering) → flip (or_by a b) ≡ or_by (flip a) (flip b)
flip-then Ordering.lt b = refl
flip-then Ordering.eq b = refl
flip-then Ordering.gt b = refl

flip-compare_ℕ : (m n : ℕ) → compare_ℕ n m ≡ flip (compare_ℕ m n)
flip-compare_ℕ m n = ground arith

flip-compare : (s t : String) → compare t s ≡ flip (compare s t)
flip-compare String.[] String.[] = refl
flip-compare String.[] (String.◌∷◌ d t) = cons-nil d t ∙ ap flip (sym (nil-cons d t))
flip-compare (String.◌∷◌ c s) String.[] = nil-cons c s ∙ ap flip (sym (cons-nil c s))
flip-compare (String.◌∷◌ c s) (String.◌∷◌ d t) =
    cons-cons d c t s
    ∙ ap (λ o. or_by o (compare t s)) (flip-compare_ℕ (code c) (code d))
    ∙ ap (or_by (flip (compare_ℕ (code c) (code d)))) (flip-compare s t)
    ∙ sym (flip-then (compare_ℕ (code c) (code d)) (compare s t))
    ∙ ap flip (sym (cons-cons c d s t))

before_of_after : (x y : String) → is_after (compare x y) ≡ true → is_after (compare y x) ≡ false
before_of_after x y h = go (compare x y) refl h
  where
    go : (o : Ordering) → compare x y ≡ o → is_after o ≡ true → is_after (compare y x) ≡ false
    go Ordering.lt e h = cc
    go Ordering.eq e h = cc
    go Ordering.gt e h = rw (flip-compare x y, e) refl

insert_text-IsAscending :
    (x : String) (ys : List String) → IsAscending ys → IsAscending (insert_text x ys)
insert_text-IsAscending x [] h = tt
insert_text-IsAscending x (y ∷ ys) h = elim (Bool-cases (is_after (compare x y))) [
  | inl after ↦ rw after (below y ys after h)
  | inr before ↦ rw before (before, h)
]
  where
    below :
        (y : String) (ys : List String)
        → is_after (compare x y) ≡ true
        → IsAscending (y ∷ ys)
        → IsAscending (y ∷ insert_text x ys)
    below y [] after h = (before_of_after x y after, tt)
    below y (z ∷ ys) after h = elim (Bool-cases (is_after (compare x z))) [
      | inl later ↦ rw later (h.0, below z ys later h.1)
      | inr sooner ↦ rw sooner (before_of_after x y after, (sooner, h.1))
    ]

pub sorted-IsAscending : (xs : List String) → IsAscending (sorted xs)
unfolding sorted
sorted-IsAscending [] = tt
sorted-IsAscending (x ∷ xs) = insert_text-IsAscending x (sorted xs) (sorted-IsAscending xs)

-- How often a text occurs.
abbrev pub count_of : String → List String → ℕ
count_of t [] = 0
count_of t (x ∷ xs) = let rest = count_of t xs in if str_eq t x then 1 + rest else rest

count_of-insert_text :
    (t x : String) (ys : List String) → count_of t (insert_text x ys) ≡ count_of t (x ∷ ys)
count_of-insert_text t x [] = refl
count_of-insert_text t x (y ∷ ys) = ground (arith, count_of-insert_text t x ys)

pub count_of-sorted : (t : String) (xs : List String) → count_of t (sorted xs) ≡ count_of t xs
unfolding sorted
count_of-sorted t [] = refl
count_of-sorted t (x ∷ xs) =
    ground (arith, count_of-insert_text t x (sorted xs), count_of-sorted t xs)
