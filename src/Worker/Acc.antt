-- ===== src/Worker/Acc.antt =====
-- pkg/worker/run.go, acc: what one bucket's phase adds up to. The mutex makes each method atomic, so
-- the goroutines of a phase are a sequence of calls. The progress lines are left out, and so are the
-- fields that no method changes.
use Prim.Native.String.{◌++◌, find, len}
use io_stress.Common.{
  ℕ, suc, ◌+◌, Bool, true, false, not, String, List, [], ◌∷◌, str_eq, ltb, leb, ◌==◌, if◌then◌else◌,
  length, u64,
}
use mathlib.Core.List.{◌++◌ as append}
use io_stress.Common.Int.{ℤ}
use io_stress.Objstore.Compare.{StreamMismatch}
use io_stress.Objstore.Retry.{Err, api_code, is_capacity}
mod Sound
mod Tests

-- report.Mismatch; `stream` holds its size's, digests', offset's and windows' fields.
pub record Mismatch : Type 0 where
  pub key : String
  pub version_id : String
  pub size : ℤ
  pub stream : StreamMismatch
  pub expected_etag : List ℕ
  pub actual_etag : List ℕ
  pub request_id : String

-- report.ObjectResult, without the statistics
pub record ObjectResult : Type 0 where
  pub bucket : String
  pub skip_reason : String
  pub objects_ok : ℕ
  pub objects_fail : ℕ
  pub bytes_moved : ℕ
  pub mismatches : List Mismatch
  pub mismatch_more : ℕ
  pub error : String

-- acc; `canceled` is whether its cancel function has been called.
pub record Acc : Type 0 where
  pub res : ObjectResult
  pub stopped : Bool
  pub canceled : Bool

-- newAcc
abbrev pub new_acc : String → Acc
new_acc bucket = record {
  res = record {
    bucket = bucket;
    skip_reason = "";
    objects_ok = 0;
    objects_fail = 0;
    bytes_moved = 0;
    mismatches = [];
    mismatch_more = 0;
    error = "";
  };
  stopped = false;
  canceled = false;
}

-- acc.ok
unfoldable pub ok : ℕ → ℕ → Acc → Acc
ok n bytes a = record a {
  res = record a.res {
    objects_ok = u64 (a.res.objects_ok + n);
    bytes_moved = u64 (a.res.bytes_moved + bytes);
  };
}

-- The error, where there is none yet.
abbrev pub first_error : String → String → String
first_error old new = if str_eq old "" then new else old

abbrev pub mismatch_limit : ℕ
mismatch_limit = 100

module _ (show : ℕ → String) where
  abbrev pub described : Err → String
  described e =
      e.text
      ++ (" (code="
          ++ (api_code show e
              ++ (" status=" ++ (show e.status ++ (" requestId=" ++ (e.request_id ++ ")"))))))

  -- The branch of acc.fail for a full cluster.
  unfoldable pub capacity_stop : Err → Acc → Acc
  capacity_stop e a =
      let failed = if a.res.objects_fail == 0 then 1 else a.res.objects_fail in
      let stop : Acc = record a {
        res = record a.res { error = "capacity stop: " ++ e.text; objects_fail = failed };
        stopped = true;
        canceled = true;
      } in
      if a.stopped then record a { canceled = true } else stop

  -- acc.fail
  unfoldable pub fail : Err → Acc → Acc
  unfolding capacity_stop
  fail e a =
      let counted = record a {
        res = record a.res {
          objects_fail = u64 (a.res.objects_fail + 1);
          error = first_error a.res.error (described e);
        };
      } in
      if is_capacity show e
      then capacity_stop e a
      else if e.canceled
      then a
      else if a.stopped
      then a
      else counted

  -- acc.mismatch
  unfoldable pub mismatch : Mismatch → Acc → Acc
  mismatch m a =
      let room = ltb (length a.res.mismatches) mismatch_limit in
      let text =
        "verification mismatch bucket="
        ++ (a.res.bucket
            ++ (" key="
                ++ (m.key
                    ++ (" offset="
                        ++ (show m.stream.first_bad_byte ++ (" requestId=" ++ m.request_id)))))) in
      record a {
        res = record a.res {
          objects_fail = u64 (a.res.objects_fail + 1);
          mismatches = if room then append a.res.mismatches (m ∷ []) else a.res.mismatches;
          mismatch_more = if room then a.res.mismatch_more else u64 (a.res.mismatch_more + 1);
          error = first_error a.res.error text;
        };
      }

-- acc.skip
unfoldable pub skip : String → Acc → Acc
skip reason a =
    let old = a.res.skip_reason in
    let longer = if leb (find old reason) (len old) then old else old ++ ("; " ++ reason) in
    let new = if str_eq old "" then reason else longer in
    if str_eq reason "" then a else record a { res = record a.res { skip_reason = new } }

-- A call that a goroutine of the phase makes.
pub data Event : Type 0 where
  succeeds : ℕ → ℕ → Event
  fails : Err → Event
  differs : Mismatch → Event
  skips : String → Event

module _ (show : ℕ → String) where
  unfoldable pub event : Event → Acc → Acc
  unfolding ok fail mismatch skip
  event (succeeds n bytes) a = ok n bytes a
  event (fails e) a = fail show e a
  event (differs m) a = mismatch show m a
  event (skips reason) a = skip reason a

  unfoldable pub events : List Event → Acc → Acc
  unfolding event
  events [] a = a
  events (e ∷ es) a = events es (event e a)
