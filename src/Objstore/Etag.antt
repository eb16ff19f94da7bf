-- ===== src/Objstore/Etag.antt =====
-- pkg/objstore/etag.go: the ETag that an upload is expected to have. A text is its bytes; the digest
-- and `%d` are parameters.
use io_stress.Common.{
  ℕ, zero, suc, ◌-◌, Bool, true, false, ◌&&◌, List, [], ◌∷◌, ◌++◌, map, Option, none, some, ltb,
  leb, ◌==◌, if◌then◌else◌, length, take, drop, get_or,
}
use mathlib.Core.Option
use io_stress.Common.Int.{ℤ, pos, at_least_zero, ltb_ℤ}
use io_stress.Objstore.Compare.{hex}
pub mod Parts
mod Quotes
mod Tests

abbrev pub quote : ℕ
quote = b'"'

abbrev dash : ℕ
dash = b'-'

-- NormalizeETag
unfoldable pub normalize_etag : List ℕ → List ℕ
normalize_etag s =
    if leb 2 (length s) && (get_or s 0 0 == quote && get_or s (length s - 1) 0 == quote)
    then take (length s - 2) (drop 1 s)
    else s

-- All that is written to the digest in MultipartETag.
unfoldable pub concat : List (List ℕ) → List ℕ
concat [] = []
concat (p ∷ ps) = p ++ concat ps

-- The loop of ExpectedETag over the parts, with `left` bytes to go. io.CopyN fails on a body that
-- ends before a part is full. A round takes at least one byte, so `left` rounds are enough.
unfoldable pub cut_parts : ℕ → ℕ → ℕ → List ℕ → Option (List (List ℕ))
cut_parts zero left part_size body = if left == 0 then some [] else none
cut_parts (suc fuel) left part_size body =
    let n = if ltb left part_size then left else part_size in
    let rest = cut_parts fuel (left - n) part_size (drop n body) in
    let cut = Option.map (λ ps. take n body ∷ ps) rest in
    if left == 0 then some [] else if ltb (length (take n body)) n then none else cut

module _ (md5 : List ℕ → List ℕ) (decimal : ℕ → List ℕ) where
  -- MultipartETag, on the digests of the parts
  unfoldable pub multipart_etag : List (List ℕ) → List ℕ
  unfolding concat hex
  multipart_etag sums = hex (md5 (concat sums)) ++ dash ∷ decimal (length sums)

  -- ExpectedETag, on the bytes of the payload: the tag and whether the check is to be skipped.
  unfoldable pub expected_etag : List ℕ → ℤ → ℤ → Bool → Option (List ℕ × Bool)
  unfolding multipart_etag cut_parts
  expected_etag body size part_size multipart =
      let left = at_least_zero size in
      let single = some (hex (md5 body), false) in
      let tagged =
        Option.map (λ parts. (multipart_etag (map md5 parts), false))
          (cut_parts left left (at_least_zero part_size) body) in
      if multipart
      then (if ltb_ℤ (pos 0) part_size
          then (if left == 0 then some (hex (md5 []), false) else tagged)
          else some ([], true))
      else single
