-- ===== src/Worker/Reading/Ranges.antt =====
-- pkg/worker/phases.go, rangeHeader: a range lies within its object.
use io_stress.Common.{
  ℕ, ◌+◌, ◌≤◌, ◌<◌, ◌≡◌, refl, subst, Bool, true, false, not, ◌||◌, String, Option, none, some,
  some_inj, arith, if◌then◌else◌,
}
use native.Mathlib.Nat.{mod-lt}
use io_stress.Common.{List}
use io_stress.Common.Int.{ℤ, pos, negsuc, at_least_zero, ltb_ℤ}
use io_stress.Objstore.Payload.{SizeWeight}
use io_stress.Objstore.Calls.{S3}
use io_stress.Worker.Spec.{BucketSpec, Spec}
use io_stress.Worker.Platform.{Platform}
use io_stress.Worker.Reading.{range_of, range_header}

-- A range is not empty, not longer than the limit, and ends with the object at the latest.
abbrev pub Within : ℕ → ℕ × ℕ → Type 0
Within size (start, length) = (0 < length) × (length ≤ 65536) × (start + length ≤ size)

range_of-Within : (hash size : ℕ) → 0 < size → Within size (range_of hash size)
unfolding range_of
range_of-Within hash size h = ground (arith, mod-lt hash h)

no_range : (range : ℕ × ℕ) → ¬ (none ≡ some range)
no_range range e = cc

drawn_range :
    (c : Bool) (r range : ℕ × ℕ)
    → (if◌then◌else◌ {A = Option (ℕ × ℕ)} c none (some r)) ≡ some range
    → (c ≡ false) × (r ≡ range)
drawn_range true r range e = absurd (no_range range e)
drawn_range false r range e = (refl, some_inj e)

middle_of : (a b c : Bool) → (a || (b || c)) ≡ false → b ≡ false
middle_of false false c h = refl
middle_of false true c h = h
middle_of true b c h = cc

two_bytes : (size : ℤ) → not (ltb_ℤ (pos 1) size) ≡ false → 1 < at_least_zero size
two_bytes (pos n) h = ground arith
two_bytes (negsuc n) h = ground arith

module _ (p : Platform) (s3 : S3) (spec : Spec p.percents.F) (seed : List ℕ) (mix : List SizeWeight)
    (b : BucketSpec) where
  -- A range that rangeHeader draws lies within the object and has at most 64 KiB; it draws one only
  -- for objects of at least two bytes.
  pub range_header-Within :
      (key : String) (size : ℤ) (range : ℕ × ℕ)
      → range_header p s3 spec seed mix b key size ≡ some range
      → (1 < at_least_zero size) × Within (at_least_zero size) range
  unfolding range_header
  range_header-Within key size range e =
      let (off, same) = drawn_range _ _ range e in
      let two = two_bytes size (middle_of _ (not (ltb_ℤ (pos 1) size)) _ off) in
      (
        two,
        subst (Within (at_least_zero size)) same
            (range_of-Within _ (at_least_zero size) (omega arith)),
      )
