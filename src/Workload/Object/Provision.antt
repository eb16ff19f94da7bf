-- ===== src/Workload/Object/Provision.antt =====
-- pkg/workload/object.go: where the buckets of a run come from, and the preflight.
use Prim.Native.String.{◌++◌}
use io_stress.Common.{
  ℕ, not, ◌||◌, String, List, [], ◌∷◌, map, Option, none, some, str_eq, if◌then◌else◌, ◌⊎◌, inl,
  inr, set,
}
use io_stress.Common.Int.{ℤ, at_least_zero, ltb_ℤ}
use io_stress.Workload.Finalize.{RunError, plain}
use io_stress.Workload.Object.{Output, Run, made, as_usage, or_default}
use io_stress.Workload.Object.Pod.{since, contains}
use io_stress.Workload.Object.Buckets.{
  BucketBinding, bucket_name, admin_secret, s3_bucket, binding, ordinals_from,
}
use io_stress.Workload.Object.Phases.{
  Found, missing, unread, found, Access, Done, note_result, call, then_, zero_binds,
}

-- An error with a prefix, as `%w` wraps it
abbrev pub wrapped : String → RunError → RunError
wrapped text e = record e { text = text ++ e.text }

abbrev pub usage_error : String → RunError
usage_error text = as_usage (plain text)

module _ (x : Access) where
  open x use {
    control, cluster, storage_class_exists, create_obc, wait_obc_bound, get_obc, copy_secret,
    get_secret, projected_bytes, free_bytes, order_ordinals, show,
  }
  open control use {obj, backend, namespace, quote}
  open cluster use {World, now, cancel}

  -- The number of buckets, which a checked configuration has at least one of
  abbrev bucket_count : ℕ
  bucket_count = at_least_zero obj.buckets

  -- provisionS3
  unfoldable pub provision_s3 : Run World → Done x
  unfolding s3_bucket ordinals_from
  provision_s3 run =
      let (err, run1) = call x (copy_secret (admin_secret control)) run in
      elim err [
        | some e ↦ (some (wrapped "copy noobaa-admin: " e), run1)
        | none ↦
            (none, record run1 { buckets = map (s3_bucket control) (ordinals_from 0 bucket_count) })
      ]

  -- What a goroutine of provision does behind WaitOBCBound
  unfoldable pub note_bound : ℤ → ℕ → (BucketBinding ⊎ RunError) → Run World → Done x
  unfolding binding bucket_name
  note_bound ordinal start got run =
      let name = bucket_name control ordinal in
      let dur = since cluster backend.report_storage obj.seed start run in
      let blank = made name "create" obj.seed ordinal in
      let good : Output = record blank { res = record blank.res { objects_ok = 1 } } in
      elim got [
        | inr e ↦ (some e, note_result x name "create" blank "fail" dur e.text run)
        | inl bind ↦
            let b = binding control ordinal name bind in
            (
              none,
              note_result x name "create" good "pass" dur ""
                  (record run { buckets = set run.buckets (at_least_zero ordinal) b }),
            )
      ]

  -- ... and behind CreateOBC
  unfoldable pub created : ℤ → ℕ → Done x → Done x
  unfolding note_bound bucket_name
  created ordinal start (some e, run) =
      (some (if contains e.text "pick a different seed" then as_usage e else e), run)
  created ordinal start (none, run) =
      let (got, run1) = call x (wait_obc_bound (bucket_name control ordinal)) run in
      note_bound ordinal start got run1

  -- The goroutine of provision for one ordinal
  unfoldable pub provision_one : String → ℤ → Run World → Done x
  unfolding created bucket_name
  provision_one class ordinal run =
      created ordinal (now run.world) (call x (create_obc (bucket_name control ordinal) class) run)

  -- An error cancels the context of the others.
  unfoldable pub going_on : Option RunError → Run World → Run World
  going_on none run = run
  going_on (some e) run = record run { world = cancel run.world }

  unfoldable pub earlier_error : Option RunError → Option RunError → Option RunError
  earlier_error none later = later
  earlier_error (some e) later = some e

  -- All of the goroutines
  unfoldable pub provision_from : String → List ℤ → Run World → Done x
  unfolding provision_one going_on earlier_error
  provision_from class [] run = (none, run)
  provision_from class (ordinal ∷ ordinals) run =
      let (err, run1) = provision_one class ordinal run in
      let (later, run2) = provision_from class ordinals (going_on err run1) in
      (earlier_error err later, run2)

  -- provision behind StorageClassExists
  unfoldable pub claimed : String → Done x → Done x
  unfolding provision_from zero_binds ordinals_from
  claimed class (some e, run) = (some (wrapped ("backend " ++ (backend.name ++ ": ")) e), run)
  claimed class (none, run) =
      provision_from class (order_ordinals run.world (ordinals_from 0 bucket_count))
        (record run { buckets = zero_binds bucket_count })

  -- provision
  unfoldable pub provision : Run World → Done x
  unfolding provision_s3 claimed
  provision run =
      let class = or_default backend.storage_class obj.storage_class in
      let claims = claimed class (call x (storage_class_exists class) run) in
      if str_eq obj.provisioning "s3" then provision_s3 run else claims

  -- loadExisting, one claim behind GetOBC
  unfoldable pub reuse : ℤ → String → Found String → Run World → Done x
  unfolding binding
  reuse ordinal name missing run = (
    some (
        usage_error (
          "resume: OBC "
          ++ (name ++ (" is not in namespace " ++ (namespace ++ "; it must already be Bound"))))),
    run,
  )
  reuse ordinal name (unread e) run = (some e, run)
  reuse ordinal name (found phase) run =
      let (got, run1) = call x (wait_obc_bound name) run in
      let bound : Done x = elim got [
        | inr e ↦ (some (as_usage (wrapped ("resume: OBC " ++ (name ++ ": ")) e)), run1)
        | inl bind ↦ (
          none,
          record run1 {
            buckets = set run1.buckets (at_least_zero ordinal) (binding control ordinal name bind);
          },
        )
      ] in
      if str_eq phase "Bound" then bound else (
        some (
            usage_error
              ("resume: OBC " ++ (name ++ (" phase is " ++ (quote phase ++ ", want Bound"))))),
        run,
      )

  unfoldable pub reuse_from : List ℤ → Run World → Done x
  unfolding reuse bucket_name
  reuse_from [] run = (none, run)
  reuse_from (ordinal ∷ ordinals) run =
      let name = bucket_name control ordinal in
      let (state, run1) = call x (get_obc name) run in
      then_ x (reuse ordinal name state run1) (reuse_from ordinals)

  unfoldable pub reuse_s3 : Found (Unit {0}) → Run World → Done x
  unfolding provision_s3
  reuse_s3 missing run = (
    some (
        usage_error (
          "resume: secret "
          ++ (admin_secret control ++ " is missing; s3 buckets from this seed are not available"))),
    run,
  )
  reuse_s3 (unread e) run = (some e, run)
  reuse_s3 (found u) run = provision_s3 run

  -- loadExisting
  unfoldable pub load_existing : Run World → Done x
  unfolding reuse_s3 reuse_from zero_binds ordinals_from
  load_existing run =
      let (secret, run1) = call x (get_secret (admin_secret control)) run in
      let claims =
        reuse_from (ordinals_from 0 bucket_count)
          (record run { buckets = zero_binds bucket_count }) in
      if str_eq obj.provisioning "s3" then reuse_s3 secret run1 else claims

  -- capacityRefusal
  unfoldable pub capacity_refusal : ℤ → ℤ → RunError
  capacity_refusal projected free =
      if str_eq backend.name "rgw"
      then plain (
          "projected logical "
          ++ (show projected
              ++ (" bytes exceed raw bytesAvailable "
                  ++ (show free ++ " bytes; pass --object-force to continue"))))
      else plain (
          "projected "
          ++ (show projected
              ++ (" bytes exceeds NooBaa free capacity "
                  ++ (show free ++ " bytes; pass --object-force to continue"))))

  -- preflight
  unfoldable pub preflight : Run World → Done x
  unfolding capacity_refusal
  preflight run =
      let (free, run1) = call x free_bytes run in
      let measured : ℤ → Done x = λ projected. elim free [
        | none ↦ (none, run1)
        | some n ↦
            if ltb_ℤ n projected
            then (some (as_usage (capacity_refusal projected n)), run1)
            else (none, run1)
      ] in
      let checked : Done x = elim projected_bytes [
        | inr e ↦ (some e, run)
        | inl projected ↦ measured projected
      ] in
      if not obj.capacity_preflight || obj.force then (none, run) else checked
