-- ===== src/Objstore/Stats/Samples.antt =====
-- pkg/objstore/stats.go, latency.add: every observation is kept once.
use mathlib.Core.List.{append_assoc, append-nil}
use io_stress.Common.{
  ℕ, zero, suc, ◌+◌, ◌≤◌, ◌<◌, ◌≡◌, refl, ap, ◌∙◌, inl, inr, ◌⊎◌, true, false, List, [], ◌∷◌, ◌++◌,
  arith, length, length-append, get_or, set, length-set, u64, u64_mod, dec_lt, lt→ltb, not-lt→ltb,
  if◌then◌else◌,
}
use io_stress.Common.Int.{ℤ, pos, negsuc}
use io_stress.Objstore.Stats.{
  Floats, Latency, buckets, exact_limit, empty_latency, count_at, clamp_bucket, hist_bucket,
  count_all, add,
}

abbrev pub sum : List ℕ → ℕ
sum [] = 0
sum (n ∷ ns) = n + sum ns

get_or-le-sum : (hist : List ℕ) (i : ℕ) → get_or hist i 0 ≤ sum hist
get_or-le-sum [] i = omega arith
get_or-le-sum (n ∷ hist) zero = omega arith
get_or-le-sum (n ∷ hist) (suc i) = omega (arith, get_or-le-sum hist i)

sum-set :
    (hist : List ℕ) (i v : ℕ)
    → i < length hist
    → sum (set hist i v) + get_or hist i 0 ≡ sum hist + v
sum-set [] i v h = absurd (omega arith)
sum-set (n ∷ hist) zero v h = omega arith
sum-set (n ∷ hist) (suc i) v h = omega (arith, sum-set hist i v)

sum-count_at :
    (i : ℕ) (hist : List ℕ)
    → i < length hist
    → sum hist + 1 < u64_mod
    → sum (count_at i hist) ≡ sum hist + 1
unfolding count_at
sum-count_at i hist h fits =
    omega (arith, sum-set hist i (u64 (get_or hist i 0 + 1)) h, get_or-le-sum hist i)

length-count_at : (i : ℕ) (hist : List ℕ) → length (count_at i hist) ≡ length hist
unfolding count_at
length-count_at i hist = length-set hist i _

clamp_bucket-lt : (z : ℤ) → clamp_bucket z < buckets
unfolding clamp_bucket
clamp_bucket-lt (negsuc n) = omega arith
clamp_bucket-lt (pos i) = ground arith

module _ (fl : Floats) where
  open fl use {F}

  hist_bucket-lt : (ms : F) → hist_bucket fl ms < buckets
  unfolding hist_bucket
  hist_bucket-lt ms = ground (arith, clamp_bucket-lt (fl.log_index ms))

  count_all_lem :
      (vs : List F) (hist : List ℕ)
      → length hist ≡ buckets
      → sum hist + length vs < u64_mod
      → (length (count_all fl vs hist) ≡ buckets)
        × (sum (count_all fl vs hist) ≡ sum hist + length vs)
  unfolding count_all
  count_all_lem [] hist len fits = (len, omega arith)
  count_all_lem (v ∷ vs) hist len fits =
      let b = hist_bucket fl v in
      let below = hist_bucket-lt v in
      let one = sum-count_at b hist (omega arith) (omega arith) in
      omega (
        arith,
        one,
        count_all_lem vs (count_at b hist) (length-count_at b hist ∙ len) (omega arith),
      )

  -- After the observations seen, in order.
  pub record Kept (seen : List F) (l : Latency fl) : Type 0 where
    pub counted : l.count ≡ length seen
    pub buckets_fixed : length l.hist ≡ buckets
    pub exact :
        ((l.overflow ≡ false) × (l.samples ≡ seen) × (length seen ≤ exact_limit) × (sum l.hist ≡ 0))
        ⊎ ((l.overflow ≡ true)
            × (l.samples ≡ [])
            × (exact_limit < length seen)
            × (sum l.hist ≡ length seen))

  -- The fields that every branch of `add` sets.
  abbrev bumped : F → Latency fl → Latency fl
  bumped ms l = record l { count = u64 (l.count + 1); max = if fl.less l.max ms then ms else l.max }

  add_exact :
      (ms : F) (l : Latency fl)
      → l.overflow ≡ false
      → length l.samples < exact_limit
      → add fl ms l ≡ record (bumped ms l) { samples = l.samples ++ ms ∷ [] }
  unfolding add
  add_exact ms l o h = rw (o, lt→ltb (length l.samples) exact_limit h) refl

  add_spilled :
      (ms : F) (l : Latency fl)
      → l.overflow ≡ false
      → ¬ (length l.samples < exact_limit)
      → add fl ms l ≡ record (bumped ms l) {
        samples = [];
        overflow = true;
        hist = count_at (hist_bucket fl ms) (count_all fl l.samples l.hist);
      }
  unfolding add
  add_spilled ms l o h = rw (o, not-lt→ltb (length l.samples) exact_limit h) refl

  add_logged :
      (ms : F) (l : Latency fl)
      → l.overflow ≡ true
      → add fl ms l ≡ record (bumped ms l) { hist = count_at (hist_bucket fl ms) l.hist }
  unfolding add
  add_logged ms l o = rw o refl

  add-Kept :
      (seen : List F) (ms : F) (l : Latency fl)
      → length seen + 1 < u64_mod
      → Kept seen l
      → Kept (seen ++ ms ∷ []) (add fl ms l)
  add-Kept seen ms l fits k = elim k.exact [
    | inr (o, s, large, full) ↦
        let one = sum-count_at (hist_bucket fl ms) l.hist in
        rw (add_logged ms l o) (record {
          counted = omega (arith, k.counted, grown);
          buckets_fixed = length-count_at (hist_bucket fl ms) l.hist ∙ k.buckets_fixed;
          exact = inr (
            o,
            s,
            omega (arith, grown),
            omega (arith, one, k.buckets_fixed, hist_bucket-lt ms, grown),
          );
        })
    | inl (o, s, small, empty) ↦ elim (dec_lt (length l.samples) exact_limit) [
      | yes room ↦ rw (add_exact ms l o room) (record {
        counted = omega (arith, k.counted, grown);
        buckets_fixed = k.buckets_fixed;
        exact = inl (o, ap (λ t. t ++ ms ∷ []) s, omega (arith, grown, ap length s), empty);
      })
      | no over ↦
          let all = count_all_lem l.samples l.hist k.buckets_fixed (omega (arith, ap length s)) in
          let one = sum-count_at (hist_bucket fl ms) (count_all fl l.samples l.hist) in
          rw (add_spilled ms l o over) (record {
            counted = omega (arith, k.counted, grown);
            buckets_fixed =
                length-count_at (hist_bucket fl ms) (count_all fl l.samples l.hist) ∙ all.0;
            exact = inr (
              refl,
              refl,
              omega (arith, grown, ap length s),
              omega (arith, one, all.0, all.1, hist_bucket-lt ms, grown, ap length s),
            );
          })
    ]
  ]
    where
      grown : length (seen ++ ms ∷ []) ≡ length seen + 1
      grown = length-append seen (ms ∷ [])

  -- All observations of one operation, in order.
  pub add_all : List F → Latency fl → Latency fl
  add_all [] l = l
  add_all (ms ∷ more) l = add_all more (add fl ms l)

  add_all-Kept :
      (more seen : List F) (l : Latency fl)
      → length seen + length more < u64_mod
      → Kept seen l
      → Kept (seen ++ more) (add_all more l)
  unfolding add_all
  add_all-Kept [] seen l fits k = rw (append-nil seen) k
  add_all-Kept (ms ∷ more) seen l fits k = rw (← append_assoc seen (ms ∷ []) more) (
      add_all-Kept more (seen ++ ms ∷ []) (add fl ms l)
        (omega (arith, length-append seen (ms ∷ []))) (add-Kept seen ms l (omega arith) k))

  -- After any observations, fewer than 2 ^ 64, the count is their number. Up to 8192 of them are
  -- kept as they came; from then on none is, and the histogram's 160 buckets sum to the count.
  pub add_all-empty-Kept :
      (more : List F) → length more < u64_mod → Kept more (add_all more (empty_latency fl))
  add_all-empty-Kept more fits = add_all-Kept more [] (empty_latency fl) (omega arith) (
      unfold empty_latency in
      (record {
        counted = refl;
        buckets_fixed = refl;
        exact = inl (refl, refl, omega arith, refl);
      }))
