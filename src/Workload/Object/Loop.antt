-- ===== src/Workload/Object/Loop.antt =====
-- pkg/workload/object.go, runObject: the checks in front of the phases, and the loop over them. There
-- is no Disrupt function, and the backend and the seed are given.
use Prim.Native.String.{◌++◌}
use io_stress.Common.{true, false, not, String, List, [], ◌∷◌, none, some, str_eq, if◌then◌else◌}
use io_stress.Config.Object.{ordered, refused, PhaseError, ordered_phases}
use io_stress.Workload.Finalize.{plain}
use io_stress.Workload.Object.{Run, contains_phase}
use io_stress.Workload.Object.Phases.{
  Access, Done, call, then_, sharded, per_bucket, setup, delete, teardown,
}
use io_stress.Workload.Object.Provision.{provision, load_existing, preflight, usage_error}

module _ (x : Access) where
  open x use {control, cluster, prepare}
  open control use {texts, obj}
  open cluster use {World, ended}

  -- What follows a delete phase that went well
  abbrev deleted : Run World → Done x
  deleted run = (none, record run { delete_ran = true })

  -- The switch of runObject
  unfoldable pub run_phase : String → Run World → Done x
  unfolding provision setup preflight sharded per_bucket delete teardown
  run_phase phase run =
      if str_eq phase "create"
      then then_ x (if not obj.resume then provision x run else (none, run)) (setup x)
      else if str_eq phase "write"
      then then_ x (preflight x run) (sharded x "write" "write")
      else if str_eq phase "read"
      then sharded x "read" "read" run
      else if str_eq phase "verify"
      then sharded x "verify" "verify" run
      else if str_eq phase "list"
      then per_bucket x "list" "list" run.buckets false run
      else if str_eq phase "copy"
      then sharded x "copy" "copy" run
      else if str_eq phase "delete"
      then then_ x (delete x run) deleted
      else if str_eq phase "teardown"
      then teardown x run
      else (some (plain ("unknown object phase " ++ control.quote phase)), run)

  -- The loop
  unfoldable pub run_phases : List String → Run World → Done x
  unfolding run_phase
  run_phases [] run = (none, run)
  run_phases (phase ∷ phases) run = elim (ended run.world) [
    | some f ↦ (some f.err, run)
    | none ↦ then_ x (run_phase phase run) (run_phases phases)
  ]

  -- The last checks before the loop
  unfoldable pub enter : List String → Run World → Done x
  unfolding load_existing contains_phase
  enter phases run =
      if obj.resume
      then load_existing x run
      else if not (contains_phase phases "create")
      then (
        some (
            usage_error (
              "object phases omit create; pass --object-resume --object-only --object-seed to reuse"
              ++ " buckets, or include create")),
        run,
      )
      else (none, run)

  -- runObject from OrderedPhases on
  unfoldable pub run_object : (PhaseError → String) → Run World → Done x
  unfolding ordered_phases enter run_phases
  run_object phase_text run = elim (ordered_phases texts obj.phases) [
    | refused e ↦ (some (usage_error (phase_text e)), run)
    | ordered phases ↦
        then_ x (call x prepare run) (λ r. then_ x (enter phases r) (run_phases phases))
  ]
