-- ===== src/Workload/Object/Claims.antt =====
-- pkg/workload/object.go, provision: each bucket is bound, in whatever order its goroutines finish.
use io_stress.Common.{
  ℕ, zero, suc, ◌+◌, ◌<◌, ◌≤◌, ◌≡◌, refl, sym, ap, subst, ◌∙◌, false, String, List, [], ◌∷◌, Option,
  none, some, if◌then◌else◌, arith, inl, inr, ◌⊎◌, set, get_elem?, get_elem?-set_self,
  get_elem?-set_ne, length, length-set, str_eq, ℕ_discrete,
}
use io_stress.Common.Int.{ℤ, pos, negsuc, at_least_zero, eq_ℤ}
use io_stress.Workload.Finalize.{RunError}
use io_stress.Workload.Object.{BucketBind, Run, or_default}
use io_stress.Workload.Object.Buckets.{BucketBinding, bucket_name, binding, ordinals_from}
use io_stress.Workload.Object.Phases.{Access, call, zero_binds}
use io_stress.Workload.Object.Provision.{
  note_bound, claimed, created, going_on, earlier_error, provision_one, provision_from, provision,
}

-- How often an ordinal stands in a list.
abbrev pub times : ℤ → List ℤ → ℕ
times i [] = 0
times i (j ∷ js) = if eq_ℤ j i then suc (times i js) else times i js

module _ (x : Access) where
  open x use {control, cluster, order_ordinals}
  open cluster use {World}

  -- The claim of an ordinal was created in some state, with the given class, and the wait for that
  -- claim, right behind, was answered by this binding.
  abbrev pub Answered : String → ℤ → BucketBinding → Type 0
  Answered class ordinal bind =
      let name = bucket_name control ordinal in
      (w : World) × ((x.create_obc name class w).0 ≡ none)
      × ((x.wait_obc_bound name (x.create_obc name class w).1).0 ≡ inl bind)

  -- Bucket j is made of what the cluster answered for the claim of ordinal j.
  abbrev pub Bound : String → ℕ → List BucketBind → Type 0
  Bound class j bs =
      (bind : BucketBinding) × Answered class (pos j) bind
      × (get_elem? bs j ≡ some (binding control (pos j) (bucket_name control (pos j)) bind))

  abbrev Sets : ℤ → BucketBinding → List BucketBind → List BucketBind → Type 0
  Sets ordinal bind before after =
      after
      ≡ set before (at_least_zero ordinal)
          (binding control ordinal (bucket_name control ordinal) bind)

  note_bound-Sets :
      (ordinal : ℤ) (start : ℕ) (got : BucketBinding ⊎ RunError) (run : Run World)
      → (note_bound x ordinal start got run).0 ≡ none
      → (bind : BucketBinding) × (got ≡ inl bind)
        × Sets ordinal bind run.buckets (note_bound x ordinal start got run).1.buckets
  unfolding note_bound
  note_bound-Sets ordinal start (inl bind) run h = (bind, refl, refl)
  note_bound-Sets ordinal start (inr e) run h = absurd (cc)

  created-Sets :
      (ordinal : ℤ) (start : ℕ) (err : Option RunError) (run : Run World)
      → (created x ordinal start (err, run)).0 ≡ none
      → (err ≡ none)
        × (bind : BucketBinding) × ((x.wait_obc_bound (bucket_name control ordinal) run.world).0
            ≡ inl bind)
        × Sets ordinal bind run.buckets (created x ordinal start (err, run)).1.buckets
  unfolding created
  created-Sets ordinal start (some e) run h = absurd (cc)
  created-Sets ordinal start none run h =
      let (bind, answer, sets) = note_bound-Sets ordinal start _ _ h in (refl, bind, answer, sets)

  provision_one-Sets :
      (class : String) (ordinal : ℤ) (run : Run World)
      → (provision_one x class ordinal run).0 ≡ none
      → (bind : BucketBinding) × Answered class ordinal bind
        × Sets ordinal bind run.buckets (provision_one x class ordinal run).1.buckets
  unfolding provision_one
  provision_one-Sets class ordinal run h =
      let (made, bind, answer, sets) = created-Sets ordinal _ _ _ h in
      (bind, (run.world, made, answer), sets)

  Bound-Sets :
      (class : String) (i j : ℕ) (bind : BucketBinding) (before after : List BucketBind)
      → j < length before
      → Answered class (pos i) bind
      → Sets (pos i) bind before after
      → Bound class j before ⊎ (i ≡ j)
      → Bound class j after
  Bound-Sets class i j bind before after lt answered e b = elim (ℕ_discrete i j) [
    | yes same ↦
        subst (λ k. Bound class k after) same
          (
            bind,
            answered,
            ap (λ bs. get_elem? bs i) e ∙ get_elem?-set_self before i _ (omega arith),
          )
    | no other ↦ elim b [
      | inr same ↦ absurd (other same)
      | inl (old, asked, at) ↦
          (old, asked, ap (λ bs. get_elem? bs j) e ∙ get_elem?-set_ne before _ other ∙ at)
    ]
  ]

  earlier_error-none :
      (e later : Option RunError) → earlier_error x e later ≡ none → (e ≡ none) × (later ≡ none)
  unfolding earlier_error
  earlier_error-none none later h = (refl, h)
  earlier_error-none (some e) later h = absurd (cc)

  going_on-buckets :
      (e : Option RunError) (run : Run World) → (going_on x e run).buckets ≡ run.buckets
  unfolding going_on
  going_on-buckets none run = refl
  going_on-buckets (some e) run = refl

  provision_from-Bound :
      (class : String) (ords : List ℤ) (run : Run World) (j : ℕ)
      → ((k : ℕ) → times (negsuc k) ords ≡ 0)
      → j < length run.buckets
      → Bound class j run.buckets ⊎ (0 < times (pos j) ords)
      → (provision_from x class ords run).0 ≡ none
      → Bound class j (provision_from x class ords run).1.buckets
  unfolding provision_from
  provision_from-Bound class [] run j neg lt (inl b) h = b
  provision_from-Bound class [] run j neg lt (inr t) h = absurd (omega arith)
  provision_from-Bound class (negsuc k ∷ ords) run j neg lt b h =
      let one = neg k in absurd (ground (arith, one))
  provision_from-Bound class (pos i ∷ ords) run j neg lt b h =
      let (err, run1) = provision_one x class (pos i) run in
      let fine = earlier_error-none err _ h in
      let sets = provision_one-Sets class (pos i) run fine.0 in
      let same = going_on-buckets err run1 in
      let long : length run1.buckets ≡ length run.buckets =
        ap (λ bs. length bs) sets.2 ∙ length-set run.buckets i _ in
      let now : (Bound class j run.buckets ⊎ (i ≡ j))
          → Bound class j (going_on x err run1).buckets =
        λ o.
          subst (λ bs. Bound class j bs) (sym same)
            (Bound-Sets class i j sets.0 run.buckets run1.buckets lt sets.1 sets.2 o) in
      let later : Bound class j (going_on x err run1).buckets ⊎ (0 < times (pos j) ords) = elim b [
        | inl old ↦ inl (now (inl old))
        | inr t ↦ elim (ℕ_discrete i j) [
          | yes e ↦ inl (now (inr e))
          | no other ↦ inr (ground (arith, other, t))
        ]
      ] in
      provision_from-Bound class ords (going_on x err run1) j
        (λ k. let one = neg k in ground (arith, one))
        (subst (λ bs. j < length bs) (sym same) (omega arith)) later fine.1

  times-negative : (k a n : ℕ) → times (negsuc k) (ordinals_from a n) ≡ 0
  unfolding ordinals_from
  times-negative k a zero = refl
  times-negative k a (suc n) = times-negative k (a + 1) n

  times-ordinals : (j a n : ℕ) → a ≤ j → j < a + n → 0 < times (pos j) (ordinals_from a n)
  unfolding ordinals_from
  times-ordinals j a zero le lt = omega arith
  times-ordinals j a (suc n) le lt = elim (ℕ_discrete a j) [
    | yes e ↦ ground (arith, e)
    | no other ↦
        let rest = times-ordinals j (a + 1) n (omega arith) (omega arith) in ground (arith, rest)
  ]

  length-zero_binds : (n : ℕ) → length (zero_binds n) ≡ n
  unfolding zero_binds
  length-zero_binds zero = refl
  length-zero_binds (suc n) = ap suc (length-zero_binds n)

  -- What the order of the goroutines has to keep
  abbrev pub Schedules : Type 0
  Schedules = (w : World) (is : List ℤ) (i : ℤ) → times i (order_ordinals w is) ≡ times i is

  claimed-Bound :
      (class : String) (err : Option RunError) (run : Run World) (j : ℕ)
      → Schedules
      → j < at_least_zero control.obj.buckets
      → (claimed x class (err, run)).0 ≡ none
      → Bound class j (claimed x class (err, run)).1.buckets
  unfolding claimed
  claimed-Bound class (some e) run j order lt h = absurd (cc)
  claimed-Bound class none run j order lt h =
      let n = at_least_zero control.obj.buckets in
      let ords = order_ordinals run.world (ordinals_from 0 n) in
      let stands = order run.world (ordinals_from 0 n) (pos j) in
      let there : 0 < times (pos j) ords =
        omega (arith, stands, times-ordinals j 0 n (omega arith) (omega arith)) in
      provision_from-Bound class ords (record run { buckets = zero_binds n }) j
        (λ k. order run.world (ordinals_from 0 n) (negsuc k) ∙ times-negative k 0 n)
        (omega (arith, length-zero_binds n)) (inr there) h

  -- If provision returns no error, each bucket of the run, by its ordinal, is made of the binding that
  -- the cluster answered for the claim of just that ordinal, which was created with the backend's
  -- storage class, or with the configured one where that is empty; in whatever order the
  -- goroutines finish: the order only has to have the ordinals that it is given, each as often.
  -- Provisioning is not by `s3`.
  pub provision-Bound :
      (run : Run World) (j : ℕ)
      → str_eq control.obj.provisioning "s3" ≡ false
      → Schedules
      → j < at_least_zero control.obj.buckets
      → (provision x run).0 ≡ none
      → Bound
          (or_default control.backend.storage_class control.obj.storage_class)
          j
          (provision x run).1.buckets
  unfolding provision
  provision-Bound run j claims order lt h =
      let class = or_default control.backend.storage_class control.obj.storage_class in
      let same : provision x run ≡ claimed x class (call x (x.storage_class_exists class) run) =
        rw (provision, claims) refl in
      subst (λ d. Bound class j d.1.buckets) (sym same)
        (claimed-Bound class _ _ j order lt (sym (ap (λ d. d.0) same) ∙ h))
