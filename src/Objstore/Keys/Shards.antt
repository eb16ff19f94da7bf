-- ===== src/Objstore/Keys/Shards.antt =====
-- pkg/objstore/keys.go, Shard: the workers' ranges.
use native.Mathlib.Nat.{
  le_trans, le-div_iff_mul-le, div-mul-le_self, mul-div_cancel_left, mul-le-mul_right, zero-div,
  lt-div-mul-add, div-lt_iff_lt-mul, suc-le-suc_iff,
}
use native.Mathlib.Numerals.{add-one}
use io_stress.Common.{
  ℕ, zero, suc, ◌+◌, ◌*◌, ◌/◌, ◌≤◌, ◌<◌, ◌≡◌, ◌⊎◌, inl, inr, refl, ap, arith, dec_lt, ℕ_discrete,
  u64_mod,
}
use io_stress.Common.Int.{pos}
use io_stress.Objstore.Keys.{shard}

-- The first index of worker w's range, and the end of worker w - 1's.
cut : ℕ → ℕ → ℕ → ℕ
cut workers count w = w * count / workers

cut_mono : (workers count v w : ℕ) → 0 < workers → v ≤ w → cut workers count v ≤ cut workers count w
unfolding cut
cut_mono workers count v w h le =
    (le-div_iff_mul-le h).1
      (le_trans (div-mul-le_self (v * count) workers) (mul-le-mul_right count le))

shard-cut :
    (workers count w : ℕ)
    → 0 < count
    → workers * count < u64_mod
    → w < workers
    → shard (pos w) (pos workers) count ≡ (cut workers count w, cut workers count (w + 1))
unfolding shard cut
shard-cut workers count w some fits h =
    let below : w * count ≤ workers * count = mul-le-mul_right count (omega arith) in
    let end : (w + 1) * count ≤ workers * count = mul-le-mul_right count (omega arith) in
    ground (arith, below, end)

cut-zero : (workers count : ℕ) → cut workers count 0 ≡ 0
unfolding cut
cut-zero workers count = omega (arith, zero-div workers)

cut_self : (workers count : ℕ) → 0 < workers → cut workers count workers ≡ count
unfolding cut
cut_self workers count h = mul-div_cancel_left count h

find_owner :
    (workers count i k : ℕ)
    → i < cut workers count k
    → (w : ℕ) × (w < k) × (cut workers count w ≤ i) × (i < cut workers count (w + 1))
find_owner workers count i zero h = absurd (omega (arith, cut-zero workers count))
find_owner workers count i (suc k) h = elim (dec_lt i (cut workers count k)) [
  | yes earlier ↦
      let (w, below, from, to) = find_owner workers count i k earlier in (w, omega arith, from, to)
  | no here ↦ (k, omega arith, omega arith, rw (add-one k) h)
]

-- Index i is in the half-open range that `shard` gives to worker w of `workers`.
abbrev pub Owns : ℕ → ℕ → ℕ → ℕ → Type 0
Owns workers count w i =
    ((shard (pos w) (pos workers) count).0 ≤ i) × (i < (shard (pos w) (pos workers) count).1)

unique_owner :
    (workers count v w i : ℕ)
    → 0 < workers
    → i < cut workers count (v + 1)
    → cut workers count w ≤ i
    → w ≤ v
unique_owner workers count v w i h below above = elim (dec_lt v w) [
  | yes lt ↦ absurd (omega (arith, cut_mono workers count (v + 1) w h (omega arith)))
  | no ge ↦ omega arith
]

-- Every index below the count belongs to exactly one worker, as long as the product of workers and
-- count fits in a uint64.
pub shard-partition :
    (workers count i : ℕ)
    → workers * count < u64_mod
    → 0 < workers
    → i < count
    → (w : ℕ) × (w < workers)
      × Owns workers count w i
      × ((v : ℕ) → v < workers → Owns workers count v i → v ≡ w)
shard-partition workers count i fits h lt =
    let (w, below, from, to) =
      find_owner workers count i workers (omega (arith, cut_self workers count h)) in
    let e : shard (pos w) (pos workers) count ≡ (cut workers count w, cut workers count (w + 1)) =
      shard-cut workers count w (omega arith) fits below in
    (
      w,
      below,
      rw e (from, to),
      λ v v_below owns.
          let mine = rw (shard-cut workers count v (omega arith) fits v_below) at owns in
          let le = unique_owner workers count v w i h mine.1 from in
          let ge = unique_owner workers count w v i h to mine.0 in omega arith,
    )

cut_step :
    (workers count w : ℕ)
    → 0 < workers
    → (cut workers count w + count / workers ≤ cut workers count (w + 1))
      × (cut workers count (w + 1) ≤ cut workers count w + count / workers + 1)
unfolding cut
cut_step workers count w h =
    let (a, q) : ℕ × ℕ = (w * count / workers, count / workers) in
    let a_low : a * workers ≤ w * count = div-mul-le_self (w * count) workers in
    let a_high : w * count < a * workers + workers = lt-div-mul-add h in
    let q_low : q * workers ≤ count = div-mul-le_self count workers in
    let q_high : count < q * workers + workers = lt-div-mul-add h in
    (
      (le-div_iff_mul-le h).1 (omega arith),
      suc-le-suc_iff.0 ((div-lt_iff_lt-mul h).1 (omega arith)),
    )

-- Within the same bound, the first range starts at 0 and every other one where the one before it
-- ends, the last ends at the count, and every range holds the rounded mean or one index more.
pub shard-balanced :
    (workers count w : ℕ)
    → workers * count < u64_mod
    → 0 < count
    → w < workers
    → let (start, end) = shard (pos w) (pos workers) count in
      (((w ≡ 0) × (start ≡ 0))
        ⊎ ((v : ℕ) × (w ≡ v + 1) × ((shard (pos v) (pos workers) count).1 ≡ start)))
      × (((w + 1 ≡ workers) × (end ≡ count)) ⊎ (w + 1 < workers))
      × (start + count / workers ≤ end)
      × (end ≤ start + count / workers + 1)
shard-balanced workers count w fits filled below =
    let (low, high) = cut_step workers count w (omega arith) in
    rw (shard-cut workers count w filled fits below)
      (starts w below, ends (ℕ_discrete (w + 1) workers), low, high)
  where
    starts :
        (w : ℕ)
        → w < workers
        → ((w ≡ 0) × (cut workers count w ≡ 0))
          ⊎ ((v : ℕ) × (w ≡ v + 1) × ((shard (pos v) (pos workers) count).1 ≡ cut workers count w))
    starts zero h = inl (refl, cut-zero workers count)
    starts (suc v) h = inr (
      v,
      omega arith,
      rw (shard-cut workers count v filled fits (omega arith))
          (ap (λ k. cut workers count k) (omega arith)),
    )

    ends :
        Dec (w + 1 ≡ workers)
        → ((w + 1 ≡ workers) × (cut workers count (w + 1) ≡ count)) ⊎ (w + 1 < workers)
    ends (yes e) = inl (e, rw e (cut_self workers count (omega arith)))
    ends (no ne) = inr (omega arith)
