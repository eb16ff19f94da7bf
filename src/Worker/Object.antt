-- ===== src/Worker/Object.antt =====
-- pkg/worker/phases.go: what a goroutine of the phases write, read and verify does with one object.
use Prim.Native.String.{◌++◌, len, slice}
use io_stress.Common.{
  ℕ, zero, suc, ◌+◌, ◌-◌, ◌%◌, Bool, true, false, not, ◌&&◌, ◌||◌, String, List, [], ◌∷◌, Option,
  none, some, inl, inr, ◌⊎◌, str_eq, starts_with, ltb, leb, ◌==◌, if◌then◌else◌, u64, take,
}
use mathlib.Core.List.{◌++◌ as append}
use io_stress.Common.Int.{ℤ, pos, to_u64, at_least_zero, ltb_ℤ}
use io_stress.Common.Dict.{lookup}
use io_stress.Objstore.Keys.{key}
use io_stress.Objstore.Reader.{ReadErr, Reader, content}
use io_stress.Objstore.Compare.{StreamMismatch, Outcome, compare_streams}
use io_stress.Objstore.Payload.{SizeWeight, from_big_endian, size_for}
use io_stress.Objstore.Stream.{Percents, headed, payload_reader, hit}
use io_stress.Objstore.Etag.{normalize_etag, expected_etag}
use io_stress.Objstore.Retry.{Err, is_unsupported}
use io_stress.Objstore.Calls.{
  VersionInfo, VersionPage, PutResult, GetResult, HeadResult, Result, good, bad, S3,
}
use io_stress.Worker.Acc.{Event, Mismatch, succeeds, fails, differs, skips}
use io_stress.Worker.Spec.{
  BucketSpec, Spec, supported, unsupported_detail, version_span, latest_version, use_multipart,
}
use io_stress.Worker.Purge.{made_up}
use io_stress.Worker.Platform.{Platform}
use io_stress.Worker.Ranged.{compare_skip}
use io_stress.Worker.Script.{Script, ◌>>=◌, ◌>>◌, ret, call, emit, when}
pub mod Writes
pub mod Stored

-- VersionMeta, and VersionOrdinal's other spellings
abbrev pub version_meta : String
version_meta = "odf-version"

unfoldable pub first_found : List String → List (String × String) → Option String
first_found [] meta = none
first_found (k ∷ ks) meta =
    let later = first_found ks meta in elim (lookup k meta) [ none ↦ later | some v ↦ some v ]

-- What a failed comparison says of the object.
abbrev pub mismatch_of : String → String → ℤ → StreamMismatch → List ℕ → List ℕ → String → Mismatch
mismatch_of key version_id size mm expected actual request = record {
  key = key;
  version_id = version_id;
  size = size;
  stream = mm;
  expected_etag = expected;
  actual_etag = actual;
  request_id = request;
}

module _ (p : Platform) where
  open p use {
    percents, sha256, md5, chacha, show, decimal, int_text, parse_int, text, codes, read_error,
  }
  open percents use {F, nought, one, at_most}

  -- VersionOrdinal
  unfoldable pub version_ordinal : List (String × String) → Option ℤ
  unfolding first_found
  version_ordinal meta =
      elim (first_found (version_meta ∷ "Odf-Version" ∷ "odf-version" ∷ []) meta) [
        | none ↦ none
        | some v ↦ parse_int v
      ]

  module _ (s3 : S3) (spec : Spec F) (seed : List ℕ) (mix : List SizeWeight) (b : BucketSpec) where
    open s3 use {client, put_object, upload_multipart, get_object, head_object, version_page}
    open client use {Server}

    -- Key
    abbrev pub key_text : ℕ → Option String
    key_text i =
        elim (key (λ bs. from_big_endian (take 1 (sha256 bs)) 0) spec.key_layout spec.key_prefix
          i) [ none ↦ none | some k ↦ some (text k) ]

    abbrev pub object_size : ℕ → ℤ
    object_size i = size_for sha256 seed i mix

    -- The prefix of a copy is not part of the payload's key.
    abbrev pub payload_key : String → String
    payload_key key =
        if ltb 7 (len key) && starts_with key "copies/" then slice key 7 (len key) else key

    abbrev pub payload : String → ℤ → ℤ → Reader
    payload key ver size = payload_reader sha256 chacha seed b.ordinal (codes key) ver size

    abbrev pub sampled : String → List ℕ → F → Bool
    sampled key salt pct = hit sha256 percents seed b.ordinal (codes key) salt pct

    -- The ETag for a report: the expected one where ExpectedETag's second result is true.
    unfoldable pub reported_etag : String → ℤ → ℤ → Bool → List ℕ → List ℕ
    unfolding expected_etag
    reported_etag key ver size multipart etag =
        elim (expected_etag md5 decimal (content (payload key ver size)) size
          spec.multipart_part_size multipart) [
            | none ↦ etag
            | some (exp, flag) ↦ if flag then exp else etag
          ]

    -- verifyGet behind CompareStreams. Its first case does not occur: CompareStreams ends.
    unfoldable pub compared :
        (StreamMismatch → Mismatch) → Option Outcome → Script Server (Unit {0})
    compared report none = ret tt
    compared report (some Outcome.same) = ret tt
    compared report (some (Outcome.differs mm)) = emit (differs (report mm))
    compared report (some (Outcome.failed e)) = emit (fails (read_error e))

    -- verifyGet behind GetObject
    unfoldable pub after_get :
        String → ℤ → ℤ → String → List ℕ → Bool → Result GetResult → Script Server (Unit {0})
    unfolding compared reported_etag
    after_get key ver size version_id etag multipart (bad e) = emit (fails e)
    after_get key ver size version_id etag multipart (good got) =
        let from = payload_key key in
        compared
          (λ mm.
            mismatch_of key version_id size mm (reported_etag from ver size multipart etag) got.etag
              got.request_id)
          (compare_streams sha256 (payload from ver size) got.body)

    -- verifyGet
    unfoldable pub verify_get : String → ℤ → ℤ → String → List ℕ → Bool → Script Server (Unit {0})
    unfolding after_get
    verify_get key ver size version_id etag multipart = do
      got ← call (get_object key version_id "")
      after_get key ver size version_id etag multipart got

    -- The metadata of a version
    abbrev pub meta_of : ℕ → List (String × String)
    meta_of ver = if ltb 0 ver then (version_meta, int_text (pos ver)) ∷ [] else []

    -- Whether a written object is read back at once, by the salt "raw"
    abbrev pub reads_back : String → Bool
    reads_back key = sampled key (b'r' ∷ b'a' ∷ b'w' ∷ []) one

    unfoldable pub send :
        Bool → String → ℤ → List (String × String) → Reader → Server → Result PutResult × Server
    send true key size meta body s = upload_multipart key size spec.multipart_part_size meta body s
    send false key size meta body s = put_object key size meta body s

    -- The rest of a round of putIndex behind the upload
    unfoldable pub after_send :
        String
        → ℤ
        → ℤ
        → Bool
        → Script Server (Option Err)
        → Result PutResult
        → Script Server (Option Err)
    unfolding verify_get
    after_send key ver size multipart rest (bad e) = do emit (fails e); ret (some e)
    after_send key ver size multipart rest (good r) = do
      when (reads_back key) (verify_get key ver size r.version_id r.etag multipart)
      rest

    -- The loop of putIndex over the versions
    unfoldable pub put_versions : String → ℤ → ℕ → Bool → ℕ → ℕ → ℕ → Script Server (Option Err)
    unfolding after_send send
    put_versions key size first multipart zero v moved = do emit (succeeds 1 moved); ret none
    put_versions key size first multipart (suc left) v moved =
        let ver = if ltb 0 first then v + 1 else first in
        let rest = put_versions key size first multipart left (v + 1) (u64 (moved + to_u64 size)) in
        do
          done ← call (send multipart key size (meta_of ver) (payload key (pos ver) size))
          after_send key (pos ver) size multipart rest done

    -- putIndex behind Key
    unfoldable pub put_keyed : ℤ → Option String → Script Server (Option Err)
    unfolding put_versions
    put_keyed size none = do emit (fails made_up); ret none
    put_keyed size (some k) =
        let (count, first) = version_span spec b in
        put_versions k size first (use_multipart spec b size) count 0 0

    -- putIndex
    unfoldable pub put_index : ℕ → Script Server (Option Err)
    unfolding put_keyed
    put_index i = put_keyed (object_size i) (key_text i)
