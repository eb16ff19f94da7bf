-- ===== src/Workload/Object/Cover.antt =====
-- pkg/workload/object.go, sharded: the workers of a wave share the objects out.
use io_stress.Common.{
  ℕ, suc, ◌+◌, str_eq, Bool, ◌&&◌, String, List, [], ◌∷◌, map, leb, ltb, if◌then◌else◌,
}
use io_stress.Common.Int.{ℤ, at_least_zero}
use io_stress.Objstore.Keys.{shard}
use io_stress.Workload.Object.{BucketBind, WaveJob}
use io_stress.Workload.Object.Buckets.{Control}
use io_stress.Workload.Object.Spec.{WorkerSpec, WorkerBucketSpec, worker_spec}

-- Whether the range that `shard` gives to worker w of `workers` has the index i.
abbrev pub owns : ℤ → ℤ → ℕ → ℕ → Bool
owns w workers count i = leb (shard w workers count).0 i && ltb i (shard w workers count).1

-- How many of the buckets of a run have a name.
abbrev pub named : String → List BucketBind → ℕ
named name [] = 0
named name (b ∷ bs) = if str_eq b.name name then suc (named name bs) else named name bs

-- How many of the buckets of a specification have a name.
abbrev pub listed : String → List WorkerBucketSpec → ℕ
listed name [] = 0
listed name (b ∷ bs) = if str_eq b.name name then suc (listed name bs) else listed name bs

-- How often the workers of the specifications see to object i of the buckets of a name: by what each
-- specification says of its worker, of the number of objects, and of the buckets.
abbrev pub visits : {F : Type 0} → String → ℕ → List (WorkerSpec F) → ℕ
visits name i [] = 0
visits name i (s ∷ ss) =
    if owns s.worker s.workers (at_least_zero s.objects_per_bucket) i
    then listed name s.buckets + visits name i ss
    else visits name i ss

module _ (c : Control) (show : ℤ → String) (show_ℕ : ℕ → String) (ca phase role : String)
    (t p : ℤ) where
  abbrev pub specs : List WaveJob → List (WorkerSpec c.texts.F)
  specs jobs = map (worker_spec c show show_ℕ ca t p phase role) jobs

  -- The number of objects in each bucket of the run
  abbrev pub count : ℕ
  count = at_least_zero c.obj.objects_per_bucket
