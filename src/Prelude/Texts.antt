-- ===== src/Prelude/Texts.antt =====
-- Lists of texts without repetition, under the Boolean membership test.
use mathlib.Core.Path.{◌≡◌, refl}
use mathlib.Core.Logic.{inl, inr}
use mathlib.Core.Bool.{true, false, ◌||◌}
use mathlib.Core.List.{List, [], ◌∷◌, ◌++◌}
use Prim.Native.String
use Prim.Native.String.{String}
use native.Mathlib.Omega.{arith}
use text.Mathlib.Text.{◌==◌ as str_eq}
use text.Mathlib.TextEquality.{eq_iff}
use researchhub_engine.Prelude.Tests.{Bool-cases}
use researchhub_engine.Prelude.Lists.{All, contains}

-- texts one after the other
abbrev pub concat : List String → String
concat [] = ""
concat (x ∷ xs) = String.◌++◌ x (concat xs)

-- No text is listed twice.
abbrev pub AreDistinct : List String → Type 0
AreDistinct [] = Unit
AreDistinct (x ∷ xs) = (contains x xs ≡ false) × AreDistinct xs

pub str_eq_comm : (s t : String) → str_eq s t ≡ str_eq t s
str_eq_comm s t = ground (arith, eq_iff s t, eq_iff t s)

pub str_eq_refl : (s : String) → str_eq s s ≡ true
str_eq_refl s = (eq_iff s s).1 refl

pub contains-append :
    (t : String) (xs ys : List String) → contains t (xs ++ ys) ≡ (contains t xs || contains t ys)
contains-append t [] ys = refl
contains-append t (x ∷ xs) ys = ground (arith, contains-append t xs ys)

pub AreDistinct-concat :
    (xs : List String) (y : String)
    → AreDistinct xs
    → contains y xs ≡ false
    → AreDistinct (xs ++ y ∷ [])
AreDistinct-concat [] y h k = (refl, tt)
AreDistinct-concat (x ∷ xs) y h k = (
  rw (contains-append x xs (y ∷ [])) (ground (arith, h.0, str_eq_comm x y)),
  AreDistinct-concat xs y h.1 (ground arith),
)

pub All-contains {κ} :
    (P : String → Type κ) (t : String) (xs : List String) → All P xs → contains t xs ≡ true → P t
All-contains P t [] h k = cc
All-contains P t (x ∷ xs) h k = elim (Bool-cases (str_eq t x)) [
  | inl here ↦ rw ((eq_iff t x).0 here) h.0
  | inr there ↦ All-contains P t xs h.1 (ground arith)
]
