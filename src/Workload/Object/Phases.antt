-- ===== src/Workload/Object/Phases.antt =====
-- pkg/workload/object.go: the phases of the object workload, and runObject from its loop on. The
-- goroutines of `provision` are, like those of a wave, each taken as a whole, in the order in which
-- they finish.
use io_stress.Common.{
  ℕ, Bool, true, false, String, List, [], ◌∷◌, map, Option, none, some, str_eq, if◌then◌else◌, ◌⊎◌,
  zero, suc,
}
use io_stress.Common.Int.{ℤ, pos}
use io_stress.Workload.Finalize.{RunError}
use io_stress.Workload.Object.{BucketBind, WaveJob, Output, Run, entry, made, add_entry, or_default}
use io_stress.Workload.Object.Pod.{Cluster, run_wave, since}
use io_stress.Workload.Object.Buckets.{
  BucketBinding, Control, sharded_jobs, bucket_job, split_buckets, by_name, with_probe,
}

-- What a read of an object in the cluster finds.
pub data Found (A : Type 0) : Type 0 where
  missing : Found A
  unread : RunError → Found A
  found : A → Found A

-- The calls of pkg/k8s that the phases make on claims and secrets, by name, and of the preflight.
pub record Access : Type 1 where
  pub control : Control
  pub cluster : Cluster
  -- ensurePodCapacity, where no other pods are planned, and prepareTLS, where TLS is not insecure
  pub prepare : cluster.World → Option RunError × cluster.World
  pub storage_class_exists : String → cluster.World → Option RunError × cluster.World
  -- name, storage class
  pub create_obc : String → String → cluster.World → Option RunError × cluster.World
  pub wait_obc_bound : String → cluster.World → (BucketBinding ⊎ RunError) × cluster.World
  pub get_obc : String → cluster.World → Found String × cluster.World  -- its phase
  pub delete_obc : String → cluster.World → Option RunError × cluster.World
  pub wait_obc_gone : String → String → cluster.World → Option RunError × cluster.World
  pub copy_secret : String → cluster.World → Option RunError × cluster.World
  pub get_secret : String → cluster.World → Found (Unit {0}) × cluster.World
  pub projected_bytes : ℤ ⊎ RunError
  pub free_bytes : cluster.World → Option ℤ × cluster.World  -- none, where it could not be read
  pub order_ordinals : cluster.World → List ℤ → List ℤ
  pub show : ℤ → String

-- A slice of n zero values
unfoldable pub zero_binds : ℕ → List BucketBind
zero_binds zero = []
zero_binds (suc n) =
    record {
      name = "";
      obc_name = "";
      object_bucket_name = "";
      ordinal = pos 0;
      versioned = false;
      delete_path = "";
      endpoint = "";
      region = "";
      secret = "";
      capabilities = [];
      probe_detail = [];
    }
    ∷ zero_binds n

module _ (x : Access) where
  open x use {
    control, cluster, storage_class_exists, create_obc, wait_obc_bound, get_obc, delete_obc,
    wait_obc_gone, copy_secret, get_secret, projected_bytes, free_bytes, order_ordinals, show,
  }
  open control use {obj, backend, no_cleanup}
  open cluster use {World, now, ended, cancel}

  abbrev pub Done : Type 0
  Done = Option RunError × Run World

  abbrev storage : String
  storage = backend.report_storage

  -- record
  abbrev pub note_result : String → String → Output → String → ℤ → String → Run World → Run World
  note_result pod phase out status dur text run =
      add_entry (entry storage obj.seed pod phase out status dur text) run

  abbrev wave :
      String → String → Bool → List WaveJob → Run World → List Output × Option RunError × Run World
  wave phase role cleanup_fail jobs run =
      run_wave cluster storage obj.seed phase role cleanup_fail jobs run

  abbrev pub call : {A : Type 0} → (World → A × World) → Run World → A × Run World
  call f run = let (a, w) = f run.world in (a, record run { world = w })

  abbrev pub then_ : Done → (Run World → Done) → Done
  then_ (some e, run) f = (some e, run)
  then_ (none, run) f = f run

  abbrev wave_done : String → String → Bool → List WaveJob → Run World → Done
  wave_done phase role cleanup_fail jobs run =
      let (outs, err, run1) = wave phase role cleanup_fail jobs run in (err, run1)

  -- sharded
  unfoldable pub sharded : String → String → Run World → Done
  unfolding run_wave sharded_jobs
  sharded phase role run = wave_done phase role false (sharded_jobs obj.workers run.buckets) run

  -- perBucket
  unfoldable pub per_bucket : String → String → List BucketBind → Bool → Run World → Done
  unfolding run_wave
  per_bucket phase role [] cleanup_fail run = (none, run)
  per_bucket phase role (b ∷ bs) cleanup_fail run =
      wave_done phase role cleanup_fail (map bucket_job (b ∷ bs)) run

  -- setup
  unfoldable pub setup : Run World → Done
  unfolding by_name with_probe
  setup run =
      let all : WaveJob = record {
        worker = pos 0;
        workers = pos 1;
        ordinal = pos 0;
        buckets = run.buckets;
      } in
      let (outs, err, run1) = wave "create" "setup" false (all ∷ []) run in
      then_ (err, run1)
        (λ r. (none, record r { buckets = map (with_probe (by_name outs [])) r.buckets }))

  -- delete: the buckets whose claim is deleted as it stands get a result that says so.
  unfoldable pub note_kept : List BucketBind → Run World → Run World
  note_kept [] run = run
  note_kept (b ∷ bs) run =
      let blank = made b.name "delete" obj.seed b.ordinal in
      let out : Output = record blank {
        res = record blank.res {
          skip_reason = "obc-only: OBC will be deleted while the bucket is still full";
        };
      } in
      note_kept bs (note_result "" "delete" out "skip" (pos 0) "" run)

  unfoldable pub delete_recursive : List BucketBind → Run World → Done
  unfolding sharded_jobs per_bucket
  delete_recursive [] run = (none, run)
  delete_recursive (b ∷ bs) run =
      then_ (wave_done "delete" "delete-keys" false (sharded_jobs obj.workers (b ∷ bs)) run)
        (per_bucket "delete" "delete-purge" (b ∷ bs) false)

  unfoldable pub delete : Run World → Done
  unfolding split_buckets note_kept delete_recursive
  delete run =
      let (recursive, kept) = split_buckets run.buckets in
      delete_recursive recursive (note_kept kept run)

  -- The loops of teardown
  unfoldable pub note_left : List BucketBind → Run World → Run World
  note_left [] run = run
  note_left (b ∷ bs) run =
      let blank = made b.name "teardown" obj.seed (pos 0) in
      let out : Output = record blank {
        res = record blank.res { skip_reason = "no-cleanup: bucket left in place" };
      } in
      note_left bs (note_result "" "teardown" out "skip" (pos 0) "" run)

  unfoldable pub note_gone : ℕ → String → BucketBind → Option RunError → Run World → Run World
  note_gone start name b err run =
      let blank = made b.name "teardown" obj.seed (pos 0) in
      let dur = since cluster storage obj.seed start run in
      let good : Output = record blank { res = record blank.res { objects_ok = 1 } } in
      elim err [
        | some e ↦ note_result name "teardown" blank "cleanup-fail" dur e.text run
        | none ↦ note_result name "teardown" good "pass" dur "" run
      ]

  unfoldable pub delete_claim : BucketBind → Run World → Run World
  unfolding note_gone
  delete_claim b run =
      let start = now run.world in
      let name = or_default b.obc_name b.name in
      let (err, run1) = call (delete_obc name) run in
      let (gone, run2) = call (wait_obc_gone name b.object_bucket_name) run1 in
      elim err [
        | some e ↦ note_gone start name b (some e) run1
        | none ↦ note_gone start name b gone run2
      ]

  unfoldable pub delete_claims : List BucketBind → Run World → Run World
  unfolding delete_claim
  delete_claims [] run = run
  delete_claims (b ∷ bs) run = delete_claims bs (delete_claim b run)

  -- teardown
  unfoldable pub dismantle : Run World → Done
  unfolding note_left per_bucket delete_claims
  dismantle run =
      if no_cleanup
      then (none, note_left run.buckets run)
      else if str_eq obj.provisioning "s3"
      then per_bucket "teardown" "delete-bucket" run.buckets true run
      else (none, delete_claims run.buckets run)

  unfoldable pub teardown : Run World → Done
  unfolding split_buckets per_bucket dismantle
  teardown run =
      let asserted = per_bucket "teardown" "assert" (split_buckets run.buckets).0 false run in
      then_ (if run.delete_ran then asserted else (none, run)) dismantle
