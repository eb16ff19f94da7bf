-- ===== src/Objstore/Reader.antt =====
-- io.Reader, as pkg/objstore/verify.go uses it: a script of what the calls of Read return.
use io_stress.Common.{
  ℕ, zero, suc, ◌+◌, ◌-◌, Bool, true, false, ◌&&◌, List, [], ◌∷◌, ◌++◌, Option, none, some, ltb,
  leb, if◌then◌else◌, length, take, drop,
}
pub mod Laws

-- io.EOF, io.ErrUnexpectedEOF, and any other error by its number.
pub data ReadErr : Type 0 where
  eof unexpected_eof : ReadErr
  broken : ℕ → ReadErr

-- The bytes that one call can return, and the error that comes with the last of them.
pub record Piece : Type 0 where
  pub bytes : List ℕ
  pub err : Option ReadErr

abbrev pub Reader : Type 0
Reader = List Piece

-- The bytes, the error and the reader behind them.
abbrev pub Got : Type 0
Got = List ℕ × Option ReadErr × Reader

-- Read into a buffer of n bytes. What does not fit stays; after the script it is io.EOF for ever.
unfoldable pub read : ℕ → Reader → Got
read n [] = ([], some eof, [])
read n (p ∷ r) =
    if leb (length p.bytes) n
    then (p.bytes, p.err, r)
    else (take n p.bytes, none, record p { bytes = drop n p.bytes } ∷ r)

-- The loop of readFull, with `want` bytes of the buffer still empty. A call that leaves some of
-- them empty has used up a piece, so one more than the pieces is fuel enough.
read_more : ℕ → ℕ → List ℕ → Reader → Got
read_more zero want got r = (got, none, r)
read_more (suc fuel) want got r =
    let (bs, err, r') = read want r in
    let more : Got = read_more fuel (want - length bs) (got ++ bs) r' in
    let after : Got = elim err [
      | none ↦ if leb (length bs) 0 then (got ++ bs, some unexpected_eof, r') else more
      | some x ↦ (got ++ bs, some x, r')
    ] in
    if leb want 0 then (got, none, r) else after

-- readFull of a buffer of n bytes.
unfoldable pub read_full : ℕ → Reader → Got
unfolding read_more
read_full n r = read_more (suc (length r)) n [] r

-- All that a reader delivers.
abbrev pub content : Reader → List ℕ
content [] = []
content (p ∷ r) = p.bytes ++ content r

-- More than the number of calls that the reader can answer before io.EOF.
abbrev pub size : Reader → ℕ
size [] = 0
size (p ∷ r) = suc (length p.bytes) + size r
