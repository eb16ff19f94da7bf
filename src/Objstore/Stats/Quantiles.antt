-- ===== src/Objstore/Stats/Quantiles.antt =====
-- pkg/objstore/stats.go, percentile and histPercentile: the rank is always met.
use io_stress.Common.{
  ℕ, zero, suc, ◌+◌, ◌≤◌, ◌<◌, ◌≡◌, refl, ap, ◌∙◌, some, List, [], ◌∷◌, arith, length, get_or,
  get_elem?, take, u64, u64_mod, dec_le, le→leb, not-le→leb,
}
use io_stress.Common.Int.{ℤ, pos, negsuc}
use io_stress.Objstore.Stats.{
  Floats, rank_index, percentile, find_bucket, target_rank, hist_percentile,
}
use io_stress.Objstore.Stats.Samples.{sum}

get_elem?_of_lt {ℓ} :
    {A : Type ℓ} (xs : List A) (i : ℕ) (d : A)
    → i < length xs
    → get_elem? xs i ≡ some (get_or xs i d)
get_elem?_of_lt [] i d h = absurd (omega arith)
get_elem?_of_lt (x ∷ xs) zero d h = refl
get_elem?_of_lt (x ∷ xs) (suc i) d h = get_elem?_of_lt xs i d (omega arith)

module _ (fl : Floats) where
  open fl use {F, ceil_mul, bound}

  rank_index-lt : (z : ℤ) (len : ℕ) → 0 < len → rank_index fl z len < len
  unfolding rank_index
  rank_index-lt (negsuc n) len h = h
  rank_index-lt (pos r) len h = ground arith

  -- Whatever the rounding of the rank, percentile answers one of the samples.
  pub percentile-elem :
      (sorted : List F) (q : F)
      → 0 < length sorted
      → (i : ℕ) × (i < length sorted) × (get_elem? sorted i ≡ some (percentile fl sorted q))
  percentile-elem sorted q h =
      let i = rank_index fl (ceil_mul q (length sorted)) (length sorted) in
      let below = rank_index-lt (ceil_mul q (length sorted)) (length sorted) h in
      (i, below, unfold percentile in ground (arith, get_elem?_of_lt sorted i fl.nought below))

  target_rank_pos : (z : ℤ) → 0 < target_rank fl z
  unfolding target_rank
  target_rank_pos (negsuc n) = omega arith
  target_rank_pos (pos r) = ground arith

  hist_percentile-eq :
      (hist : List ℕ) (count : ℕ) (q : F)
      → 0 < count
      → hist_percentile fl hist count q
        ≡ find_bucket fl hist 0 0 (target_rank fl (ceil_mul q count))
  hist_percentile-eq hist zero q h = absurd (omega arith)
  hist_percentile-eq hist (suc n) q h = unfold hist_percentile in ground arith

  -- Bucket i of `hist` is the first where at least `target` are counted, acc of them before.
  abbrev pub Reaches : List ℕ → ℕ → ℕ → ℕ → F → Type 0
  Reaches hist i acc target v =
      (k : ℕ) × (k < length hist)
      × (v ≡ bound (i + k))
      × (acc + sum (take k hist) < target)
      × (target ≤ acc + sum (take (suc k) hist))

  find_bucket-Reaches :
      (hist : List ℕ) (i acc target : ℕ)
      → acc + sum hist < u64_mod
      → acc < target
      → target ≤ acc + sum hist
      → Reaches hist i acc target (find_bucket fl hist i acc target)
  unfolding find_bucket
  find_bucket-Reaches [] i acc target fits lo hi = absurd (omega arith)
  find_bucket-Reaches (n ∷ hist) i acc target fits lo hi =
      let e : u64 (acc + n) ≡ acc + n = omega arith in
      rw e (elim (dec_le target (acc + n)) [
        | yes here ↦
            rw (le→leb target (acc + n) here)
              (0, omega arith, ap bound (omega arith), omega arith, omega arith)
        | no later ↦
            let (k, below, at, before, reached) =
              find_bucket-Reaches hist (i + 1) (acc + n) target (omega arith) (omega arith)
                (omega arith) in
            rw (not-le→leb target (acc + n) later)
              (suc k, omega arith, at ∙ ap bound (omega arith), omega arith, omega arith)
      ])

  -- On a histogram whose buckets sum to the count, with a rank within the count, histPercentile
  -- answers the bound of the first bucket by which that many observations, or one if the rank is
  -- not positive, are counted.
  pub hist_percentile-Reaches :
      (hist : List ℕ) (count : ℕ) (q : F)
      → 0 < count
      → count < u64_mod
      → sum hist ≡ count
      → target_rank fl (ceil_mul q count) ≤ count
      → Reaches hist 0 0 (target_rank fl (ceil_mul q count)) (hist_percentile fl hist count q)
  hist_percentile-Reaches hist count q seen fits total rank =
      rw (hist_percentile-eq hist count q seen) (
        find_bucket-Reaches hist 0 0 (target_rank fl (ceil_mul q count)) (omega arith)
          (target_rank_pos (ceil_mul q count)) (omega arith))
