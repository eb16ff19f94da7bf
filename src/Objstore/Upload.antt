-- ===== src/Objstore/Upload.antt =====
-- pkg/objstore/ops.go, uploadMultipartOnce: one multipart upload, with the calls that it makes on the
-- S3 API. The body is the bytes that it delivers, and UploadPart reads a part's body to its end.
use io_stress.Common.{
  ℕ, zero, suc, ◌+◌, ◌-◌, ◌%◌, Bool, true, false, List, [], ◌∷◌, ◌++◌, Option, none, some, ltb,
  if◌then◌else◌, take, drop,
}
use io_stress.Objstore.Retry.{Err}
use io_stress.Objstore.Calls.{Result, good, bad, PutResult}
use io_stress.Objstore.Etag.{normalize_etag}
mod Settled
mod Tests

-- A call on the API: a part has its number and its bytes, and the last call names the parts' numbers
-- and ETags.
pub data Call : Type 0 where
  created aborted : Call
  uploaded : ℕ → List ℕ → Call
  completed : List (ℕ × List ℕ) → Call

pub record Api : Type 1 where
  pub World : Type 0
  pub Handle : Type 0
  pub create : World → Result Handle × World
  pub upload_part : Handle → ℕ → List ℕ → World → Result (List ℕ) × World
  pub complete : Handle → List (ℕ × List ℕ) → World → Result PutResult × World
  pub abort : Handle → World → World

-- MultipartResult
pub record MultipartResult : Type 0 where
  pub put : PutResult
  pub part_etags : List (List ℕ)

-- The bits of an int32 after an increment
abbrev pub next_number : ℕ → ℕ
next_number n = (n + 1) % 4294967296

module _ (api : Api) where
  open api use {World, Handle, create, upload_part, complete, abort}

  -- The parts so far, or the error, behind the calls that were made
  abbrev pub Parts : Type 0
  Parts = Result (List (ℕ × List ℕ)) × List Call × World

  abbrev with_call : Call → Parts → Parts
  with_call c (got, calls, w) = (got, c ∷ calls, w)

  abbrev with_part : ℕ × List ℕ → Parts → Parts
  with_part p (good ps, calls, w) = (good (p ∷ ps), calls, w)
  with_part p (bad e, calls, w) = (bad e, calls, w)

  -- A round of the loop behind UploadPart, and what the rounds after it come to
  unfoldable pub after_part : Call → ℕ → Result (List ℕ) × World → Option Parts → Option Parts
  after_part c number (bad e, w) rest = some (bad e, c ∷ [], w)
  after_part c number (good etag, w) none = none
  after_part c number (good etag, w) (some more) =
      some (with_call c (with_part (number, etag) more))

  -- The loop, with `left` bytes to go, of which each round takes at least one if part_size is not 0:
  -- `left` is fuel enough then.
  unfoldable pub parts_from : ℕ → Handle → ℕ → ℕ → ℕ → List ℕ → World → Option Parts
  unfolding after_part
  parts_from fuel id part_size num zero body w = some (good [], [], w)
  parts_from zero id part_size num (suc left) body w = none
  parts_from (suc fuel) id part_size num (suc left) body w =
      let n = if ltb (suc left) part_size then suc left else part_size in
      let number = next_number num in
      let sent = upload_part id number (take n body) w in
      let rest = parts_from fuel id part_size number (suc left - n) (drop n body) sent.1 in
      after_part (uploaded number (take n body)) number sent rest

  abbrev pub Uploaded : Type 0
  Uploaded = Result MultipartResult × List Call × World

  abbrev etags_of : List (ℕ × List ℕ) → List (List ℕ)
  etags_of [] = []
  etags_of (p ∷ ps) = normalize_etag p.1 ∷ etags_of ps

  -- Behind CompleteMultipartUpload; the deferred function aborts unless that went well.
  unfoldable pub after_complete :
      Handle → List (ℕ × List ℕ) → List Call → Result PutResult × World → Uploaded
  unfolding normalize_etag
  after_complete id ps calls (bad e, w) = (bad e, calls ++ completed ps ∷ aborted ∷ [], abort id w)
  after_complete id ps calls (good put, w) = (
    good (record { put = record put { etag = normalize_etag put.etag }; part_etags = etags_of ps }),
    calls ++ completed ps ∷ [],
    w,
  )

  unfoldable pub after_parts : Handle → Parts → Uploaded
  unfolding after_complete
  after_parts id (bad e, calls, w) = (bad e, calls ++ aborted ∷ [], abort id w)
  after_parts id (good ps, calls, w) = after_complete id ps calls (complete id ps w)

  abbrev pub opened_with : Call → Uploaded → Uploaded
  opened_with c (got, calls, w) = (got, c ∷ calls, w)

  -- Behind CreateMultipartUpload
  unfoldable pub upload_into : ℕ → ℕ → List ℕ → Result Handle × World → Option Uploaded
  unfolding parts_from after_parts
  upload_into size part_size body (bad e, w) = some (bad e, created ∷ [], w)
  upload_into size part_size body (good id, w) = elim (parts_from size id part_size 0 size body w) [
    | none ↦ none
    | some parts ↦ some (opened_with created (after_parts id parts))
  ]

  -- uploadMultipartOnce; `none` only where it would not end.
  unfoldable pub upload_multipart_once : ℕ → ℕ → List ℕ → World → Option Uploaded
  unfolding upload_into
  upload_multipart_once size part_size body w = upload_into size part_size body (create w)
