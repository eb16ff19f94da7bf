-- ===== src/Objstore/Retry/Backoff.antt =====
-- pkg/objstore/client.go, backoff: how long the loop sleeps, and where the shift overflows.
use native.Mathlib.Nat.{pow-le-pow_right}
use io_stress.Common.{
  ℕ, ◌+◌, ◌*◌, ◌/◌, ◌^◌, ◌≤◌, ◌<◌, ◌≡◌, refl, none, some, ltb, lt→ltb, arith, u64, i64_mod,
  if◌then◌else◌,
}
use io_stress.Common.Int.{pos}
use io_stress.Objstore.Retry.{grown, longest, halved, capped, backoff}

-- The doubled time before the cap.
abbrev doubled : ℕ → ℕ
doubled attempt = 200000000 * 2 ^ attempt

doubled-bounds :
    (attempt : ℕ) → attempt < 36 → (200000000 ≤ doubled attempt) × (doubled attempt < i64_mod)
doubled-bounds attempt h =
    let low : 2 ^ 0 ≤ 2 ^ attempt = pow-le-pow_right (omega arith) {i = 0} (omega arith) in
    let high : 2 ^ attempt ≤ 2 ^ 35 = pow-le-pow_right (omega arith) {j = 35} (omega arith) in
    (omega arith, omega arith)

grown-doubled : (attempt : ℕ) → attempt < 36 → grown attempt ≡ pos (doubled attempt)
grown-doubled attempt h =
    let (low, high) = doubled-bounds attempt h in
    let e : u64 (200000000 * u64 (2 ^ attempt)) ≡ doubled attempt = omega arith in
    rw e (rw (lt→ltb (doubled attempt) i64_mod high) refl)

abbrev pub slept_at_most : ℕ → ℕ
slept_at_most attempt = if ltb longest (doubled attempt) then longest else doubled attempt

-- Up to attempt 35 the backoff is at least half of 200 ms doubled for every attempt, at most all of
-- it, with 30 s as the cap: so it stays between 100 ms and 30 s, whatever number below its bound
-- the generator draws.
pub backoff-bounds :
    (random : ℕ → ℕ) (attempt : ℕ)
    → ((n : ℕ) → 0 < n → random n < n)
    → attempt < 36
    → (d : ℕ) × (backoff random attempt ≡ some d)
      × (slept_at_most attempt / 2 ≤ d)
      × (d ≤ slept_at_most attempt)
      × (100000000 ≤ d)
      × (d ≤ 30000000000)
unfolding backoff capped halved
backoff-bounds random attempt fair h =
    let (low, high) = doubled-bounds attempt h in
    let t = slept_at_most attempt in
    let drawn = fair (t / 2 + 1) (omega arith) in
    let bounded : (200000000 ≤ t) × (t ≤ 30000000000) = ground (arith, low) in
    (
      t / 2 + random (t / 2 + 1),
      rw (grown-doubled attempt h) refl,
      omega arith,
      omega arith,
      omega arith,
      omega arith,
    )

pub backoff-some :
    (random : ℕ → ℕ) (attempt : ℕ) → attempt < 36 → (d : ℕ) × (backoff random attempt ≡ some d)
unfolding backoff capped halved
backoff-some random attempt h =
    let t = slept_at_most attempt in (t / 2 + random (t / 2 + 1), rw (grown-doubled attempt h) refl)

pub backoff-overflow : (random : ℕ → ℕ) → backoff random 36 ≡ none
unfolding backoff capped halved
backoff-overflow random = refl
