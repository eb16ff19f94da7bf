-- ===== src/Config/Object/Checks.antt =====
-- pkg/config/object.go, validateObject: what a configuration that passes is good for.
use io_stress.Common.{
  ℕ, zero, suc, ◌≤◌, ◌≡◌, refl, subst, inl, inr, Bool, true, false, not, ◌||◌, Bool-cases, String,
  Option, none, some, List, [], ◌∷◌, str_eq, arith, if◌then◌else◌, get_elem?, drop,
}
use io_stress.Common.Int.{ℤ, pos, negsuc, ltb_ℤ}
use io_stress.Objstore.Keys.{key, pad16, flat_key, deep_key, hashed_key}
use io_stress.Config.Object.{
  Texts, ObjectConfig, SizeWeight, Complaint, bad_phases, Ordered, ordered, refused, listed,
  first_of, below, size_checks, shape_checks, late_checks, refuses, or_else, ordered_phases,
  validate_normal, validate_enabled, resume_checks, mix_checks,
}

first_of-none :
    (cs : List (Bool × Complaint)) (i : ℕ) (b : Bool) (c : Complaint)
    → first_of cs ≡ none
    → get_elem? cs i ≡ some (b, c)
    → b ≡ false
unfolding first_of
first_of-none [] i b c h e = cc
first_of-none ((false, d) ∷ cs) zero b c h e = cc
first_of-none ((false, d) ∷ cs) (suc i) b c h e = first_of-none cs i b c h e
first_of-none ((true, d) ∷ cs) i b c h e = cc

first_of-drop :
    (cs : List (Bool × Complaint)) (n : ℕ) → first_of cs ≡ none → first_of (drop n cs) ≡ none
unfolding first_of
first_of-drop cs zero h = h
first_of-drop [] (suc n) h = refl
first_of-drop ((false, c) ∷ cs) (suc n) h = first_of-drop cs n h
first_of-drop ((true, c) ∷ cs) (suc n) h = cc

or_else-none :
    (go : Texts) (a b : Option Complaint) → or_else go a b ≡ none → (a ≡ none) × (b ≡ none)
or_else-none go none b h = (refl, h)
or_else-none go (some c) b h = cc

-- A positive number.
abbrev Positive : ℤ → Type 0
Positive z = (n : ℕ) × (z ≡ pos (suc n))

below-Positive : (z : ℤ) → below z 1 ≡ false → Positive z
below-Positive (pos zero) h = cc
below-Positive (pos (suc n)) h = (n, refl)
below-Positive (negsuc n) h = absurd (ground arith)

-- A number that is not negative.
abbrev pub Counts : ℤ → Type 0
Counts z = (n : ℕ) × (z ≡ pos n)

below-Counts : (z : ℤ) → below z 0 ≡ false → Counts z
below-Counts (pos n) h = (n, refl)
below-Counts (negsuc n) h = absurd (ground arith)

-- The weights of the size mix are positive.
abbrev AllWeighted : List SizeWeight → Type 0
AllWeighted [] = Unit {0}
AllWeighted (sw ∷ mix) = Positive sw.weight × AllWeighted mix

module _ (go : Texts) where
  size_checks-AllWeighted :
      (mix : List SizeWeight) → first_of (size_checks go mix) ≡ none → AllWeighted mix
  unfolding size_checks first_of
  size_checks-AllWeighted [] h = tt
  size_checks-AllWeighted (sw ∷ mix) h = (
    below-Positive sw.weight (first_of-none (size_checks go (sw ∷ mix)) 0 _ _ h refl),
    size_checks-AllWeighted mix (first_of-drop (size_checks go (sw ∷ mix)) 2 h),
  )

  -- A configuration that the phases can run on.
  pub record Runnable (o : ObjectConfig go) : Type 0 where
    pub workers : Positive o.workers
    pub concurrency : Positive o.worker_concurrency
    pub buckets : Positive o.buckets
    pub objects : Positive o.objects_per_bucket
    pub versioned : (v b : ℕ) × (o.versioned_buckets ≡ pos v) × (o.buckets ≡ pos b) × (v ≤ b)
    pub versions : Positive o.versions_per_key
    pub retries : Counts o.max_retries
    pub weights : AllWeighted o.size_mix
    pub keyed :
        (first_sha_byte : List ℕ → ℕ) (prefix : List ℕ) (i : ℕ)
        → (k : List ℕ) × (key first_sha_byte o.key_layout prefix i ≡ some k)
    pub phased : (ps : List String) × (ordered_phases go o.phases ≡ ordered ps)

  listed_layout :
      (layout : String) (f : List ℕ → ℕ) (prefix : List ℕ) (i : ℕ)
      → listed layout ("hashed" ∷ "flat" ∷ "deep" ∷ []) ≡ true
      → (k : List ℕ) × (key f layout prefix i ≡ some k)
  unfolding key listed
  listed_layout layout f prefix i h = elim (Bool-cases (str_eq layout "flat")) [
    | inl flat ↦ (flat_key prefix (pad16 i), rw flat refl)
    | inr other ↦ elim (Bool-cases (str_eq layout "deep")) [
      | inl deep ↦ (deep_key prefix i (pad16 i), rw (other, deep) refl)
      | inr neither ↦
          let hashed : str_eq layout "hashed" ≡ true = ground (arith, other, neither, h) in
          (hashed_key prefix (f (pad16 i)) (pad16 i), rw (other, neither, hashed) refl)
    ]
  ]

  not_refused : (r : Ordered) → refuses go r ≡ false → (ps : List String) × (r ≡ ordered ps)
  not_refused (ordered ps) h = (ps, refl)
  not_refused (refused e) h = cc

  versioned_bounds :
      (v b : ℤ)
      → (below v 0 || ltb_ℤ b v) ≡ false
      → Positive b
      → (m n : ℕ) × (v ≡ pos m) × (b ≡ pos n) × (m ≤ n)
  versioned_bounds (negsuc m) b h p = absurd (ground arith)
  versioned_bounds (pos m) (negsuc n) h (k, e) = cc
  versioned_bounds (pos m) (pos n) h p = (m, n, refl, refl, ground arith)

  not-false : (b : Bool) → not b ≡ false → b ≡ true
  not-false true h = refl
  not-false false h = cc

  phases_checked :
      (o : ObjectConfig go)
      → first_of (late_checks go o) ≡ none
      → refuses go (ordered_phases go o.phases) ≡ false
  unfolding late_checks
  phases_checked o h =
      first_of-none (late_checks go o) 0 (refuses go (ordered_phases go o.phases)) bad_phases h refl

  passed :
      (o : ObjectConfig go)
      → validate_enabled go o ≡ none
      → (first_of (shape_checks go o) ≡ none)
        × (or_else go (first_of (mix_checks go o)) (first_of (late_checks go o)) ≡ none)
  unfolding validate_enabled
  passed o h =
      or_else-none go (first_of (shape_checks go o))
        (or_else go (first_of (mix_checks go o)) (first_of (late_checks go o))) h

  -- An enabled configuration that passes the validation can be run on: the counts of workers,
  -- goroutines, buckets, objects and versions are positive, no more buckets are versioned than there
  -- are, every weight is positive, its layout has a key for each index, and its phases are known.
  pub validate_normal-Runnable :
      (o : ObjectConfig go) → o.enabled ≡ true → validate_normal go o ≡ none → Runnable o
  unfolding validate_normal
  validate_normal-Runnable o on h =
      let enabled_checks =
        subst (λ b. (if b then validate_enabled go o else none) ≡ none) on
          (or_else-none go (first_of (resume_checks go o))
            (if o.enabled then validate_enabled go o else none) h).1 in
      let (shape, more) = passed o enabled_checks in
      let (sizes, late) =
        or_else-none go (first_of (mix_checks go o)) (first_of (late_checks go o)) more in
      record {
        workers = below-Positive o.workers (first_of-none (shape_checks go o) 3 _ _ shape refl);
        concurrency =
            below-Positive o.worker_concurrency
              (first_of-none (shape_checks go o) 4 _ _ shape refl);
        buckets = below-Positive o.buckets (first_of-none (shape_checks go o) 5 _ _ shape refl);
        objects =
            below-Positive o.objects_per_bucket
              (first_of-none (shape_checks go o) 7 _ _ shape refl);
        versioned =
            versioned_bounds o.versioned_buckets o.buckets
              (first_of-none (shape_checks go o) 8 _ _ shape refl)
              (below-Positive o.buckets (first_of-none (shape_checks go o) 5 _ _ shape refl));
        versions =
            below-Positive o.versions_per_key (first_of-none (shape_checks go o) 9 _ _ shape refl);
        retries = below-Counts o.max_retries (first_of-none (shape_checks go o) 10 _ _ shape refl);
        weights = size_checks-AllWeighted o.size_mix (first_of-drop (mix_checks go o) 1 sizes);
        keyed = λ f prefix i.
            listed_layout o.key_layout f prefix i
              (not-false _ (first_of-none (shape_checks go o) 17 _ _ shape refl));
        phased = not_refused (ordered_phases go o.phases) (phases_checked o late);
      }
