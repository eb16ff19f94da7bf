-- ===== src/Worker/Run.antt =====
-- pkg/worker/run.go: Run, dispatch, each and finish. The phases are an argument, and so is all that
-- each needs from the outside: opening a client, the statistics and the context.
use Prim.Native.String.{◌++◌}
use io_stress.Common.{
  ℕ, zero, suc, ◌+◌, Bool, true, false, not, ◌&&◌, ◌||◌, String, List, [], ◌∷◌, map, Option, none,
  some, str_eq, ltb, ◌==◌, if◌then◌else◌, length,
}
use mathlib.Core.List.{◌++◌ as append}
use io_stress.Objstore.Retry.{Err}
use io_stress.Worker.Acc.{Acc, ObjectResult, Mismatch, new_acc, fail, skip}
use io_stress.Worker.Spec.{BucketSpec, skip_client}
pub mod Buckets
pub mod Tests

-- What a role runs on each bucket
pub data Phase : Type 0 where
  setup write read verify list copy delete_keys purge assert delete_bucket : Phase

-- dispatch
unfoldable pub phase_of : String → Option Phase
phase_of role =
    if str_eq role "setup" || str_eq role "create"
    then some setup
    else if str_eq role "write"
    then some write
    else if str_eq role "read"
    then some read
    else if str_eq role "verify"
    then some verify
    else if str_eq role "list"
    then some list
    else if str_eq role "copy"
    then some copy
    else if str_eq role "delete" || str_eq role "delete-keys"
    then some delete_keys
    else if str_eq role "delete-purge"
    then some purge
    else if str_eq role "assert"
    then some assert
    else if str_eq role "delete-bucket"
    then some delete_bucket
    else none

-- skipClientReason
abbrev pub skip_client_reason : String → String
skip_client_reason role =
    if str_eq role "assert"
    then "obc-only: bucket left full for the OBC finalizer"
    else "obc-only: bucket left full; OBC delete is the finalizer case"

-- What finish reads of a bucket's statistics: the retries, the calls, and the message if the rate of
-- retries is above the threshold that the spec sets.
pub record Rate : Type 0 where
  pub checked : Bool  -- a threshold above 0
  pub retries : ℕ
  pub calls : ℕ
  pub above : Bool
  pub message : String

-- finish
unfoldable pub finish : Rate → ObjectResult → ObjectResult
finish r res =
    let failed = record res {
      error = if str_eq res.error "" then r.message else res.error;
      objects_fail = if res.objects_fail == 0 then 1 else res.objects_fail;
    } in
    if r.checked && (ltb 0 r.retries && (ltb 0 r.calls && r.above)) then failed else res

-- Whether a result makes Run return an error
unfoldable pub is_failure : ObjectResult → Bool
is_failure res =
    ltb 0 res.objects_fail || (ltb 0 (length res.mismatches) || ltb 0 res.mismatch_more)

module _ (show : ℕ → String) (World : Type 0) where
  -- What each bucket takes from outside: the context's end before it, the client or an error, the
  -- phase's function and the statistics behind it. `World` is the servers and all the rest.
  pub record Setting : Type 0 where
    pub ended : World → Bool
    pub open_client : BucketSpec → World → Option Err × World
    pub phase : BucketSpec → Acc → World → Acc × World
    pub rate : BucketSpec → World → Rate

  module _ (st : Setting) (role : String) where
    open st use {ended, open_client, phase, rate}

    -- One bucket whose client was asked for
    unfoldable pub opened : BucketSpec → Acc → Option Err × World → Acc × World
    opened b a (some e, w) = (fail show e a, w)
    opened b a (none, w) = phase b a w

    -- One bucket; the cancel function is one for all buckets.
    unfoldable pub one_bucket : Bool → BucketSpec → World → Acc × World
    unfolding opened
    one_bucket canceled b w =
        let a : Acc = record (new_acc b.name) { canceled = canceled } in
        let run = opened b a (open_client b w) in
        if skip_client role b then (skip (skip_client_reason role) a, w) else run

    -- each: the results and whether the context has been canceled
    unfoldable pub each : Bool → List BucketSpec → World → List ObjectResult × Bool × World
    unfolding one_bucket finish
    each canceled [] w = ([], canceled, w)
    each canceled (b ∷ bs) w =
        let (a, w1) = one_bucket canceled b w in
        let (rest, canceled', w2) = each a.canceled bs w1 in
        if canceled || ended w
        then ([], canceled, w)
        else (finish (rate b w1) a.res ∷ rest, canceled', w2)

-- firstErr
unfoldable pub first_err : (ℕ → String) → ObjectResult → String
first_err show res =
    let of_mismatch : List Mismatch → String = λ ms. elim ms [
      | [] ↦ "object workload failed"
      | m ∷ more ↦
          "verification mismatch key=" ++ (m.key ++ (" offset=" ++ show m.stream.first_bad_byte))
    ] in
    if not (str_eq res.error "") then res.error else of_mismatch res.mismatches

-- The end of Run: the message of the first bucket that failed
unfoldable pub verdict : (ℕ → String) → List ObjectResult → Option String
unfolding is_failure first_err
verdict show [] = none
verdict show (res ∷ more) =
    let later = verdict show more in if is_failure res then some (first_err show res) else later
