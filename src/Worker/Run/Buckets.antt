-- ===== src/Worker/Run/Buckets.antt =====
-- pkg/worker/run.go, each and Run: one result for each bucket, and what they say.
use io_stress.Common.{
  ℕ, ◌≡◌, refl, inl, inr, ◌⊎◌, Bool, true, false, ◌||◌, ◌&&◌, String, List, [], ◌∷◌, Option, none,
  some, str_eq, arith, if◌then◌else◌, length, Bool-cases,
}
use io_stress.Worker.Acc.{Acc, ObjectResult}
use io_stress.Worker.Spec.{BucketSpec}
use io_stress.Worker.Run.{
  Setting, Phase, delete_keys, purge, assert, phase_of, is_failure, each, verdict, first_err,
}

-- No bucket has a failure, a kept mismatch or a counted one.
abbrev pub Clean : List ObjectResult → Type 0
Clean [] = Unit {0}
Clean (res ∷ more) =
    ((res.objects_fail ≡ 0) × (length res.mismatches ≡ 0) × (res.mismatch_more ≡ 0)) × Clean more

no_failure :
    (res : ObjectResult)
    → is_failure res ≡ false
    → (res.objects_fail ≡ 0) × (length res.mismatches ≡ 0) × (res.mismatch_more ≡ 0)
unfolding is_failure
no_failure res fine = ground arith

some_failure :
    (res : ObjectResult)
    → is_failure res ≡ true
    → ¬ ((res.objects_fail ≡ 0) × (length res.mismatches ≡ 0) × (res.mismatch_more ≡ 0))
unfolding is_failure
some_failure res bad c = ground arith

-- Run returns no error behind its results exactly if all of them are clean.
pub verdict-Clean :
    (show : ℕ → String) (results : List ObjectResult)
    → ((verdict show results ≡ none) × Clean results)
      ⊎ ((message : String) × (verdict show results ≡ some message) × ¬ Clean results)
unfolding verdict
verdict-Clean show [] = inl (refl, tt)
verdict-Clean show (res ∷ more) = elim (Bool-cases (is_failure res)) [
  | inl bad ↦ inr (first_err show res, rw bad refl, λ c. some_failure res bad c.0)
  | inr fine ↦ elim (verdict-Clean show more) [
    | inl (none_, clean) ↦ inl (rw fine none_, (no_failure res fine, clean))
    | inr (message, e, dirty) ↦ inr (message, rw fine e, λ c. dirty c.1)
  ]
]

-- The phases that empty a bucket or assert that it is empty
abbrev pub empties : Option Phase → Bool
empties (some delete_keys) = true
empties (some purge) = true
empties (some assert) = true
empties phase = false

-- A bucket is left alone by those phases if its deletion is left to its OBC.
abbrev pub left_alone : String → BucketSpec → Bool
left_alone role b = str_eq b.delete_path "obc-only" && empties (phase_of role)

-- The four roles, as skipClient has them.
abbrev emptying : String → Bool
emptying role =
    str_eq role "delete"
    || (str_eq role "delete-keys" || (str_eq role "delete-purge" || str_eq role "assert"))

module _ (show : ℕ → String) (World : Type 0) (st : Setting show World) (role : String) where
  open st use {ended}

  -- The buckets that the role touches
  abbrev pub touched : List BucketSpec → List BucketSpec
  touched [] = []
  touched (b ∷ bs) = if left_alone role b then touched bs else b ∷ touched bs

  -- The flag and the servers behind each.
  abbrev pub after : Bool → List BucketSpec → World → Bool × World
  after canceled bs w = let r = each show World st role canceled bs w in (r.1, r.2)
