-- ===== src/Objstore/Compare/Prefix.antt =====
-- The common prefix of two byte strings, which CompareStreams looks for.
use io_stress.Common.{
  ℕ, suc, ◌<◌, ◌≡◌, ◌≢◌, refl, List, [], ◌∷◌, ◌++◌, arith, length, ◌==◌, if◌then◌else◌,
}

-- How many bytes agree from the start.
abbrev pub common : List ℕ → List ℕ → ℕ
common [] acts = 0
common (e ∷ exps) [] = 0
common (e ∷ exps) (a ∷ acts) = let rest = suc (common exps acts) in if e == a then rest else 0

pub common_self : (xs : List ℕ) → common xs xs ≡ length xs
common_self [] = refl
common_self (x ∷ xs) = ground (arith, common_self xs)

-- Behind a first difference nothing matters, nor behind the end of the first string.
pub common-append :
    (exps acts xs ys : List ℕ)
    → common exps acts < length exps
    → common exps acts < length acts
    → common (exps ++ xs) (acts ++ ys) ≡ common exps acts
common-append [] acts xs ys h k = absurd (omega arith)
common-append (e ∷ exps) [] xs ys h k = absurd (omega arith)
common-append (e ∷ exps) (a ∷ acts) xs ys h k = ground (arith, common-append exps acts xs ys)

pub common-append_right :
    (exps acts ys : List ℕ)
    → common exps acts < length acts
    → common exps (acts ++ ys) ≡ common exps acts
common-append_right [] acts ys k = refl
common-append_right (e ∷ exps) [] ys k = absurd (omega arith)
common-append_right (e ∷ exps) (a ∷ acts) ys k = ground (arith, common-append_right exps acts ys)

-- Where one string ends, the common prefix is all of it.
pub common_left : (exps ys : List ℕ) → common exps (exps ++ ys) ≡ length exps
common_left [] ys = refl
common_left (e ∷ exps) ys = ground (arith, common_left exps ys)

pub common_right : (acts xs : List ℕ) → common (acts ++ xs) acts ≡ length acts
common_right [] [] = refl
common_right [] (x ∷ xs) = refl
common_right (a ∷ acts) xs = ground (arith, common_right acts xs)

-- The first difference right behind a common part.
pub common-differ :
    (exps : List ℕ) (x y : ℕ) (xs ys : List ℕ)
    → x ≢ y
    → common (exps ++ x ∷ xs) (exps ++ y ∷ ys) ≡ length exps
common-differ [] x y xs ys h = ground arith
common-differ (e ∷ exps) x y xs ys h = ground (arith, common-differ exps x y xs ys h)
