-- ===== src/Worker/Deleting.antt =====
-- pkg/worker/phases.go: deleteKeysBucket and assertDeleteMarker.
use Prim.Native.String.{◌++◌}
use io_stress.Common.{
  ℕ, zero, suc, ◌+◌, ◌-◌, Bool, true, false, not, ◌&&◌, ◌||◌, String, List, [], ◌∷◌, Option, none,
  some, str_eq, ltb, ◌==◌, if◌then◌else◌, length,
}
use mathlib.Core.List.{◌++◌ as append}
use io_stress.Common.Int.{pos}
use io_stress.Objstore.Keys.{shard}
use io_stress.Objstore.Retry.{Err, is_unsupported}
use io_stress.Objstore.Calls.{ObjectId, VersionInfo, VersionPage, Listing, Result, good, bad, S3}
use io_stress.Worker.Acc.{Acc, events, fails, skips, ok, fail}
use io_stress.Worker.Spec.{BucketSpec, Spec, supported, unsupported_detail, workers_of}
use io_stress.Worker.Purge.{made_up, delete_ids}
use io_stress.Worker.Platform.{Platform}
use io_stress.Worker.Script.{Script, ◌>>=◌, ◌>>◌, call, emit, when}

abbrev pub flush_limit : ℕ
flush_limit = 1000

-- A plain listing that still shows a key
unfoldable pub has_key : String → List String → Bool
has_key key [] = false
has_key key (k ∷ ks) = str_eq k key || has_key key ks

-- A listing of versions that shows a delete marker of a key
unfoldable pub has_marker : String → List VersionInfo → Bool
has_marker key [] = false
has_marker key (v ∷ vs) = (str_eq v.id.key key && v.delete_marker) || has_marker key vs

module _ (p : Platform) (s3 : S3) (spec : Spec p.percents.F) (b : BucketSpec) where
  open p use {show}
  open s3 use {client, listing, version_page}
  open client use {Server}

  -- assertDeleteMarker behind the listing of versions
  unfoldable pub marker_checked : String → Result VersionPage → Script Server (Unit {0})
  unfolding has_marker
  marker_checked key (bad e) =
      if is_unsupported show e
      then emit (skips ("list-object-versions unsupported: " ++ e.text))
      else emit (fails e)
  marker_checked key (good page) = when (not (has_marker key page.versions)) (emit (fails made_up))

  unfoldable pub check_marker : String → Script Server (Unit {0})
  unfolding marker_checked
  check_marker key =
      if supported b "list-object-versions"
      then (do page ← call (version_page key 20); marker_checked key page)
      else emit (
          skips (
            "list-object-versions unsupported: "
            ++ (unsupported_detail b "list-object-versions" ++ "; delete-marker check skipped")))

  unfoldable pub hidden_checked : String → Result Listing → Script Server (Unit {0})
  unfolding has_key check_marker
  hidden_checked key (bad e) = emit (fails e)
  hidden_checked key (good page) = do
    when (has_key key page.keys) (emit (fails made_up))
    check_marker key

  -- assertDeleteMarker
  unfoldable pub assert_delete_marker : String → Script Server (Unit {0})
  unfolding hidden_checked
  assert_delete_marker key = do page ← call (listing key "" 10); hidden_checked key page

  -- flush: whether the phase goes on.
  unfoldable pub flushed : ℕ → Option Err × Acc × Server → Bool × Acc × Server
  flushed n (none, a, s) = (true, ok n 0 a, s)
  flushed n (some e, a, s) = (false, a, s)

  unfoldable pub flush : List ObjectId → Acc → Server → Bool × Acc × Server
  unfolding flushed
  flush [] a s = (true, a, s)
  flush (id ∷ ids) a s = flushed (length (id ∷ ids)) (delete_ids client show b (id ∷ ids) a s)

  -- The loop of deleteKeysBucket over the keys that are left, with the batch so far. Its end is a
  -- context that is done, as `outer` says for each index if the bucket has not canceled it itself.
  unfoldable pub delete_from :
      (ℕ → Option String) → (ℕ → Bool) → ℕ → ℕ → List ObjectId → Acc → Server → Bool × Acc × Server
  unfolding flush
  delete_from key outer zero i batch a s = flush batch a s
  delete_from key outer (suc left) i batch a s =
      let keyed : Bool × Acc × Server = elim (key i) [
        | none ↦ (false, fail show made_up a, s)
        | some k ↦
            let more = append batch (record { key = k; version_id = "" } ∷ []) in
            let go_on = delete_from key outer left (i + 1) more a s in
            let flushed_first : Bool × Acc × Server =
              (let (on, a1, s1) = flush more a s in
                let rest = delete_from key outer left (i + 1) [] a1 s1 in
                if on then rest else (false, a1, s1)) in
            if length more == flush_limit then flushed_first else go_on
      ] in
      if a.canceled || outer i then (false, a, s) else keyed

  -- deleteKeysBucket behind the loop
  unfoldable pub after_keys : Option String → Bool × Acc × Server → Acc × Server
  unfolding assert_delete_marker
  after_keys first (false, a, s) = (a, s)
  after_keys none (true, a, s) = (a, s)
  after_keys (some k) (true, a, s) =
      let done = assert_delete_marker k s in
      if b.versioned && spec.worker == 0 then (events show done.1 a, done.2) else (a, s)

  -- deleteKeysBucket
  unfoldable pub delete_keys_bucket : (ℕ → Option String) → (ℕ → Bool) → Acc → Server → Acc × Server
  unfolding delete_from after_keys shard
  delete_keys_bucket key outer a s =
      let (start, end) = shard (pos spec.worker) (pos (workers_of spec)) spec.objects_per_bucket in
      let first = if ltb start end then key start else none in
      after_keys first (delete_from key outer (end - start) start [] a s)
