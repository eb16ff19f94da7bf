-- ===== src/Worker/Walk/Counts.antt =====
-- How often an index stands in a list.
use io_stress.Common.{
  ℕ, suc, ◌+◌, ◌≡◌, refl, List, [], ◌∷◌, ◌++◌, arith, ◌==◌, if◌then◌else◌, length,
}

unfoldable pub occurs : ℕ → List ℕ → ℕ
occurs j [] = 0
occurs j (i ∷ is) = (if i == j then 1 else 0) + occurs j is

abbrev pub one_if : ℕ → ℕ → ℕ
one_if i j = if i == j then 1 else 0

pub occurs-middle :
    (j i : ℕ) (before after : List ℕ)
    → occurs j (before ++ i ∷ after) ≡ one_if i j + occurs j (before ++ after)
unfolding occurs
occurs-middle j i [] after = refl
occurs-middle j i (k ∷ before) after = omega (arith, occurs-middle j i before after)

pub length-middle {ℓ} :
    {A : Type ℓ} (x : A) (before after : List A)
    → length (before ++ x ∷ after) ≡ suc (length (before ++ after))
length-middle x [] after = refl
length-middle x (y ∷ before) after = omega (arith, length-middle x before after)

module _ {E : Type 0} where
  -- The indices of goroutines that hold an error.
  abbrev pub holders : List (ℕ × E) → List ℕ
  holders [] = []
  holders ((i, e) ∷ rest) = i ∷ holders rest

  pub occurs-holders :
      (j i : ℕ) (e : E) (before after : List (ℕ × E))
      → occurs j (holders (before ++ (i, e) ∷ after))
        ≡ one_if i j + occurs j (holders (before ++ after))
  unfolding occurs
  occurs-holders j i e [] after = refl
  occurs-holders j i e ((k, f) ∷ before) after = omega (arith, occurs-holders j i e before after)
