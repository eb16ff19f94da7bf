-- ===== src/Worker/Purge.antt =====
-- pkg/worker/phases.go: how a bucket is emptied and counted, over an interface of the S3 calls. The
-- calls are those of pkg/objstore/ops.go, retries included, as functions of the server's state.
use io_stress.Common.{
  ℕ, zero, suc, ◌+◌, Bool, true, false, not, ◌&&◌, ◌||◌, String, List, [], ◌∷◌, map, Option, none,
  some, str_eq, starts_with, ltb, leb, ◌==◌, if◌then◌else◌, length,
}
use Prim.Native.String.{◌++◌}
use io_stress.Objstore.Retry.{Err, api_code, is_unsupported}
use io_stress.Objstore.Calls.{
  ObjectId, VersionInfo, KeyError, ListPage, VersionPage, Result, good, bad, Client,
}
use io_stress.Objstore.Probe.{is_unsupported_code}
use io_stress.Worker.Acc.{Acc, ok, fail, skip}
use io_stress.Worker.Spec.{BucketSpec, supported, unsupported_detail}
mod Pages
mod Passes
mod Tests

-- An error that the phases make up with fmt.Errorf; the texts are not modelled.
abbrev pub made_up : Err
made_up = record {
  text = "worker";
  mismatch = false;
  canceled = false;
  deadline = false;
  ended = false;
  net_timeout = false;
  net_op = false;
  code = "";
  status = 0;
  request_id = "";
}

-- The limit of pages that a count reads, and of passes that a purge makes.
abbrev pub page_limit : ℕ
page_limit = 1000000

abbrev pub pass_limit : ℕ
pass_limit = 64

-- How many of the versions are delete markers, and how many are not.
pub tally : List VersionInfo → ℕ × ℕ → ℕ × ℕ
tally [] seen = seen
tally (v ∷ vs) (versions, markers) =
    tally vs (if v.delete_marker then (versions, suc markers) else (suc versions, markers))

module _ (c : Client) (show : ℕ → String) where
  open c use {Server, list_objects, list_versions, delete_keys, delete_object}

  -- Whether a count goes on behind a page, to the rest from the token and the number so far.
  pub after_page :
      (String → ℕ → Server → Result ℕ × Server) → ℕ → Result ListPage × Server → Result ℕ × Server
  after_page rest count (bad e, s) = (bad e, s)
  after_page rest count (good page, s) =
      let count1 = count + length page.objects in
      if not page.truncated || str_eq page.next_token ""
      then (good count1, s)
      else rest page.next_token count1 s

  -- countObjects, from a token on
  pub count_from : ℕ → String → String → ℕ → Server → Result ℕ × Server
  unfolding after_page
  count_from zero prefix token count s = (bad made_up, s)
  count_from (suc pages) prefix token count s =
      after_page (λ t n s1. count_from pages prefix t n s1) count (list_objects prefix token s)

  pub count_objects : String → Server → Result ℕ × Server
  unfolding count_from
  count_objects prefix s = count_from page_limit prefix "" 0 s

  pub after_versions :
      (String → String → ℕ × ℕ → Server → Result (ℕ × ℕ) × Server)
      → ℕ × ℕ
      → Result VersionPage × Server
      → Result (ℕ × ℕ) × Server
  unfolding tally
  after_versions rest seen (bad e, s) = (bad e, s)
  after_versions rest seen (good page, s) =
      let seen1 = tally page.versions seen in
      if not page.truncated then (good seen1, s) else rest page.next_key page.next_ver seen1 s

  -- countVersions, from a pair of markers on
  pub versions_from : ℕ → String → String → String → ℕ × ℕ → Server → Result (ℕ × ℕ) × Server
  unfolding after_versions
  versions_from zero prefix k v seen s = (bad made_up, s)
  versions_from (suc pages) prefix k v seen s =
      after_versions (λ k1 v1 seen1 s1. versions_from pages prefix k1 v1 seen1 s1) seen
        (list_versions prefix k v s)

  pub count_versions : String → Server → Result (ℕ × ℕ) × Server
  unfolding versions_from
  count_versions prefix s = versions_from page_limit prefix "" "" (0, 0) s

  -- The errors that DeleteObjects returned for single keys.
  pub note_key_errors : List KeyError → Acc → Acc
  note_key_errors [] a = a
  note_key_errors (e ∷ es) a =
      note_key_errors es
        (if str_eq e.code "" || str_eq e.code "NoSuchKey" then a else fail show made_up a)

  -- The loop of deleteIDs over single objects.
  delete_each : List ObjectId → Acc → Server → Option Err × Acc × Server
  delete_each [] a s = (none, a, s)
  delete_each (id ∷ ids) a s =
      let (got, s1) = delete_object id s in
      elim got [
        | none ↦ delete_each ids a s1
        | some e ↦
            let rest = delete_each ids a s1 in
            if str_eq (api_code show e) "NoSuchKey" then rest else (some e, fail show e a, s1)
      ]

  -- deleteIDs behind DeleteKeys
  pub after_batch :
      List ObjectId → Acc → Result (List KeyError) × Server → Option Err × Acc × Server
  unfolding note_key_errors delete_each
  after_batch ids a (good errs, s) = (none, note_key_errors errs a, s)
  after_batch ids a (bad e, s) =
      let singly = delete_each ids (skip ("batch-delete unsupported: " ++ e.text) a) s in
      if not (is_unsupported show e) && not (is_unsupported_code (api_code show e))
      then (some e, fail show e a, s)
      else singly

  -- deleteIDs
  pub delete_ids : BucketSpec → List ObjectId → Acc → Server → Option Err × Acc × Server
  unfolding after_batch delete_each
  delete_ids b [] a s = (none, a, s)
  delete_ids b (id ∷ more) a s =
      if supported b "batch-delete"
      then after_batch (id ∷ more) a (delete_keys (id ∷ more) s)
      else delete_each (id ∷ more) a s

  -- deletePass: how many it deleted, or none after an error
  pub deleted_of : ℕ → (Option Err × Acc × Server) → Option ℕ × Acc × Server
  deleted_of n (none, a, s) = (some n, a, s)
  deleted_of n (some e, a, s) = (none, a, s)

  pub versions_pass : BucketSpec → Acc → Result VersionPage × Server → Option ℕ × Acc × Server
  unfolding delete_ids deleted_of
  versions_pass b a (bad e, s) = (none, fail show e a, s)
  versions_pass b a (good page, s) =
      let ids = map (λ v. v.id) page.versions in deleted_of (length ids) (delete_ids b ids a s)

  objects_pass : BucketSpec → Acc → Result ListPage × Server → Option ℕ × Acc × Server
  unfolding delete_ids deleted_of
  objects_pass b a (bad e, s) = (none, fail show e a, s)
  objects_pass b a (good page, s) =
      let ids = map (λ k. record { key = k; version_id = "" }) page.objects in
      deleted_of (length ids) (delete_ids b ids a s)

  pub delete_pass : BucketSpec → Bool → Acc → Server → Option ℕ × Acc × Server
  unfolding versions_pass objects_pass
  delete_pass b true a s = versions_pass b a (list_versions "" "" "" s)
  delete_pass b false a s = objects_pass b a (list_objects "" "" s)

  -- Whether another pass follows one.
  pub after_pass : (Option ℕ × Acc × Server) → Bool × Acc × Server → Bool × Acc × Server
  after_pass (none, a, s) rest = (false, a, s)
  after_pass (some n, a, s) rest = if n == 0 then (true, a, s) else rest

  -- The passes of purgeBucket: whether it goes on to the counts.
  pub passes : ℕ → BucketSpec → Bool → Acc → Server → Bool × Acc × Server
  unfolding delete_pass after_pass
  passes zero b versioned a s = (true, a, s)
  passes (suc left) b versioned a s =
      let (n, a1, s1) = delete_pass b versioned a s in
      after_pass (n, a1, s1) (passes left b versioned a1 s1)

  -- The checks behind the passes.
  pub versions_left : Acc → Result (ℕ × ℕ) × Server → Acc × Server
  versions_left a (bad e, s) = (fail show e a, s)
  versions_left a (good (versions, markers), s) =
      (if versions == 0 && markers == 0 then ok 1 0 a else fail show made_up a, s)

  pub objects_left : Bool → Acc → Result ℕ × Server → Acc × Server
  objects_left versioned a (bad e, s) = (fail show e a, s)
  objects_left versioned a (good left, s) =
      let checked = versions_left a (count_versions "" s) in
      let rest = if versioned then checked else (ok 1 0 a, s) in
      if not (left == 0) then (fail show made_up a, s) else rest

  pub after_passes : Bool → Bool × Acc × Server → Acc × Server
  after_passes versioned (false, a, s) = (a, s)
  after_passes versioned (true, a, s) = objects_left versioned a (count_objects "" s)

  -- purgeBucket behind its guards
  pub purge_from : ℕ → Bool → BucketSpec → Acc → Server → Acc × Server
  purge_from limit versioned b a s = after_passes versioned (passes limit b versioned a s)

  -- purgeBucket
  pub purge_bucket : ℕ → BucketSpec → Acc → Server → Acc × Server
  purge_bucket worker b a s =
      let listed = supported b "list-object-versions" in
      let a0 =
        if b.versioned && not listed
        then skip
            ("list-object-versions unsupported: "
              ++ (unsupported_detail b "list-object-versions" ++ "; version purge skipped"))
            a
        else a in
      let versioned = b.versioned && listed in
      let purged = purge_from pass_limit versioned b a0 s in
      if not (worker == 0) then (skip "purge runs on worker 0 only" a, s) else purged

  -- assertBucket behind the count of versions
  pub assert_versions : Acc → Result (ℕ × ℕ) × Server → Acc × Server
  assert_versions a (bad e, s) = (
    if is_unsupported show e
        then ok 1 0 (skip ("list-object-versions unsupported: " ++ e.text) a)
        else fail show e a,
    s,
  )
  assert_versions a (good (versions, markers), s) =
      (if versions == 0 && markers == 0 then ok 1 0 a else fail show made_up a, s)

  pub assert_objects : Bool → Acc → Result ℕ × Server → Acc × Server
  assert_objects versioned a (bad e, s) = (fail show e a, s)
  assert_objects versioned a (good left, s) =
      let checked = assert_versions a (count_versions "" s) in
      let rest = if versioned then checked else (ok 1 0 a, s) in
      if not (left == 0) then (fail show made_up a, s) else rest

  -- assertBucket
  pub assert_bucket : ℕ → BucketSpec → Acc → Server → Acc × Server
  assert_bucket worker b a s =
      let asserted =
        assert_objects (b.versioned && supported b "list-object-versions") a (count_objects "" s) in
      if not (worker == 0) then (skip "assert runs on worker 0 only" a, s) else asserted
