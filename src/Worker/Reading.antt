-- ===== src/Worker/Reading.antt =====
-- pkg/worker/phases.go: what a goroutine of the phases read and copy does with one object.
use Prim.Native.String.{◌++◌}
use io_stress.Common.{
  ℕ, ◌+◌, ◌-◌, ◌%◌, Bool, true, false, not, ◌&&◌, ◌||◌, String, List, [], ◌∷◌, Option, none, some,
  inl, inr, ◌⊎◌, ltb, leb, ◌==◌, if◌then◌else◌, take,
}
use mathlib.Core.List.{◌++◌ as append}
use io_stress.Common.Int.{ℤ, pos, to_u64, at_least_zero, ltb_ℤ}
use io_stress.Objstore.Reader.{ReadErr}
use io_stress.Objstore.Compare.{Outcome}
use io_stress.Objstore.Keys.{shard}
use io_stress.Objstore.Payload.{SizeWeight, from_big_endian}
use io_stress.Objstore.Stream.{headed}
use io_stress.Objstore.Retry.{Err, is_unsupported, is_copy_limit}
use io_stress.Objstore.Calls.{GetResult, HeadResult, Result, good, bad, S3}
use io_stress.Worker.Acc.{succeeds, fails, differs, skips}
use io_stress.Worker.Spec.{BucketSpec, Spec, latest_version, use_multipart, workers_of}
use io_stress.Worker.Purge.{made_up}
use io_stress.Worker.Platform.{Platform}
use io_stress.Worker.Ranged.{compare_skip}
use io_stress.Worker.Object.{key_text, object_size, payload, sampled, mismatch_of, verify_get}
use io_stress.Worker.Script.{Script, ◌>>=◌, ◌>>◌, ret, call, emit, when}
pub mod Ranges

-- The longest range that is read.
abbrev pub range_limit : ℕ
range_limit = 65536

-- The start and the length of a range, from the hash of a key and the size of its object.
unfoldable pub range_of : ℕ → ℕ → ℕ × ℕ
range_of hash size =
    let start = hash % size in
    let length = size - start in
    let capped = if ltb range_limit length then range_limit else length in
    (start, (if ltb capped 1 then 1 else capped))

-- The copies that a bucket's phase makes at most.
abbrev pub copy_limit : ℕ
copy_limit = 32

module _ (p : Platform) (s3 : S3) (spec : Spec p.percents.F) (seed : List ℕ) (mix : List SizeWeight)
    (b : BucketSpec) where
  open p use {percents, sha256, show, codes, read_error}
  open percents use {nought, one, at_most}
  open s3 use {client, get_object, head_object, copy_object}
  open client use {Server}

  -- rangeHeader: the range, if there is one.
  unfoldable pub range_header : String → ℤ → Option (ℕ × ℕ)
  unfolding range_of headed from_big_endian
  range_header key size =
      let sum = sha256 (
        headed seed b.ordinal (
          append (codes key)
            (b'r' ∷ b'a' ∷ b'n' ∷ b'g' ∷ b'e' ∷ b'-' ∷ b'o' ∷ b'f' ∷ b'f' ∷ []))) in
      let ranged = range_of (from_big_endian (take 8 sum) 0) (at_least_zero size) in
      let drawn =
        sampled p s3 spec seed mix b key (b'r' ∷ b'a' ∷ b'n' ∷ b'g' ∷ b'e' ∷ [])
          spec.range_reads_pct in
      if at_most spec.range_reads_pct nought || (not (ltb_ℤ (pos 1) size) || not drawn)
      then none
      else some ranged

  -- The end of readBucket's body.
  abbrev counted : ℤ → Script Server (Option Err)
  counted size = do emit (succeeds 1 (to_u64 size)); ret none

  -- readBucket behind compareSkip. Its third case does not occur: CompareStreams ends.
  unfoldable pub range_compared :
      String → ℤ → GetResult → ReadErr ⊎ Option Outcome → Script Server (Option Err)
  range_compared key size got (inl e) = do emit (fails (read_error e)); ret (some (read_error e))
  range_compared key size got (inr (some (Outcome.failed e))) = do
    emit (fails (read_error e))
    ret (some (read_error e))
  range_compared key size got (inr none) = counted size
  range_compared key size got (inr (some Outcome.same)) = counted size
  range_compared key size got (inr (some (Outcome.differs mm))) = do
    emit (differs (mismatch_of key "" size mm [] got.etag got.request_id))
    counted size

  unfoldable pub range_read : String → ℤ → ℕ × ℕ → Result GetResult → Script Server (Option Err)
  unfolding range_compared
  range_read key size range (bad e) = do emit (fails e); ret (some e)
  range_read key size (start, length) (good got) = range_compared key size got (
      compare_skip sha256 (payload p s3 spec seed mix b key (pos (latest_version spec b)) size)
        got.body start length)

  unfoldable pub read_whole : String → ℤ → Script Server (Option Err)
  read_whole key size = do
    verify_get p s3 spec seed mix b key (pos (latest_version spec b)) size "" []
        (use_multipart spec b size)
    counted size

  abbrev header_of : ℕ × ℕ → String
  header_of (start, length) = "bytes=" ++ (show start ++ ("-" ++ show (start + length - 1)))

  unfoldable pub read_key : String → ℤ → Script Server (Option Err)
  unfolding range_read read_whole range_header
  read_key key size = do
    head ← call (head_object key "")
    elim head [
      | bad e ↦ do emit (fails e); ret (some e)
      | good h ↦ elim (range_header key size) [
        | none ↦ read_whole key size
        | some range ↦ do
          got ← call (get_object key "" (header_of range))
          range_read key size range got
      ]
    ]

  -- readBucket, one object
  unfoldable pub read_index : ℕ → Script Server (Option Err)
  unfolding read_key
  read_index i = elim (key_text p s3 spec seed mix b i) [
    | none ↦ do emit (fails made_up); ret none
    | some k ↦ read_key k (object_size p s3 spec seed mix b i)
  ]

  -- The state of copyBucket: the server, and the counter that the goroutines share.
  abbrev pub Copying : Type 0
  Copying = Server × ℕ

  abbrev on_server : {A : Type 0} → Script Server A → Script Copying A
  on_server m s = let got = m s.0 in (got.0, got.1, (got.2, s.1))

  -- copied.Add(1)
  abbrev add_one : Copying → ℕ × Copying
  add_one (s, n) = (n + 1, (s, n + 1))

  -- copyBucket behind CopyObject
  unfoldable pub copy_checked : String → ℤ → Option Err → Script Server (Option Err)
  copy_checked dest size (some e) =
      if is_unsupported show e
      then (do emit (skips ("copy unsupported: " ++ e.text)); ret none)
      else if is_copy_limit show e
      then (do emit (skips ("copy skipped: " ++ e.text)); ret none)
      else (do emit (fails e); ret none)
  copy_checked dest size none = do
    verify_get p s3 spec seed mix b dest (pos (latest_version spec b)) size "" []
        (use_multipart spec b size)
    counted size

  unfoldable pub copy_object_of : String → ℤ → Script Server (Option Err)
  unfolding copy_checked
  copy_object_of key size = do
    failed ← call (copy_object key ("copies/" ++ key))
    copy_checked ("copies/" ++ key) size failed

  -- Whether copyBucket takes a key: the first of the shard, and a sample of the others.
  unfoldable pub copies_key : ℕ → String → Bool
  unfolding shard
  copies_key i key =
      let (start, end) = shard (pos spec.worker) (pos (workers_of spec)) spec.objects_per_bucket in
      let pct = if at_most spec.verify_sample_pct nought then one else spec.verify_sample_pct in
      (i == start && ltb start end)
      || sampled p s3 spec seed mix b key (b'c' ∷ b'o' ∷ b'p' ∷ b'y' ∷ []) pct

  unfoldable pub copy_key : ℕ → String → Script Copying (Option Err)
  unfolding copies_key copy_object_of
  copy_key i key =
      let copy : Script Copying (Option Err) = (do
        n ← call add_one
        if ltb copy_limit n
            then ret none
            else on_server (copy_object_of key (object_size p s3 spec seed mix b i))) in
      if copies_key i key then copy else ret none

  -- copyBucket, one object
  unfoldable pub copy_index : ℕ → Script Copying (Option Err)
  unfolding copy_key
  copy_index i = do
    n ← call (λ s. (s.1, s))
    let keyed : Script Copying (Option Err) = elim (key_text p s3 spec seed mix b i) [
      | none ↦ do emit (fails made_up); ret none
      | some k ↦ copy_key i k
    ]
    if leb copy_limit n then ret none else keyed
