-- ===== src/Worker/Ranged.antt =====
-- pkg/worker/phases.go: compareSkip and discard, with io.ReadFull and io.LimitReader over scripts.
use io_stress.Common.{
  ℕ, zero, suc, ◌+◌, ◌-◌, ◌/◌, List, [], ◌∷◌, ◌++◌, Option, none, some, inl, inr, ◌⊎◌, ltb, leb,
  ◌==◌, if◌then◌else◌, length, take,
}
use io_stress.Objstore.Reader.{ReadErr, eof, unexpected_eof, broken, Reader, Got, read}
use io_stress.Objstore.Compare.{Outcome, compare_streams}

-- io.LimitReader
unfoldable pub limit : ℕ → Reader → Reader
limit n [] = []
limit n (p ∷ r) =
    let rest = p ∷ limit (n - length p.bytes) r in
    if n == 0
    then []
    else if ltb n (length p.bytes)
    then record { bytes = take n p.bytes; err = none } ∷ []
    else rest

-- What io.ReadFull makes of an error before its buffer is full.
unfoldable pub short_error : List ℕ → ReadErr → ReadErr
short_error [] e = e
short_error (b ∷ bs) eof = unexpected_eof
short_error (b ∷ bs) unexpected_eof = unexpected_eof
short_error (b ∷ bs) (broken n) = broken n

-- The loop of io.ReadFull with `want` bytes of the buffer still empty. A call that leaves some of
-- them empty has used up a piece, so one more than the pieces is fuel enough.
unfoldable pub fill : ℕ → ℕ → List ℕ → Reader → Got
unfolding short_error
fill zero want got r = (got, none, r)
fill (suc fuel) want got r =
    let (bs, err, r') = read want r in
    let more : Got = fill fuel (want - length bs) (got ++ bs) r' in
    let after : Got = elim err [
      | none ↦ more
      | some x ↦
          if leb want (length bs)
          then (got ++ bs, none, r')
          else (got ++ bs, some (short_error (got ++ bs) x), r')
    ] in
    if want == 0 then (got, none, r) else after

-- io.ReadFull of a buffer of n bytes
unfoldable pub io_read_full : ℕ → Reader → Got
unfolding fill
io_read_full n r = fill (suc (length r)) n [] r

abbrev pub chunk_limit : ℕ
chunk_limit = 1048576

-- discard, in chunks of 1 MiB. A round that fails ends the loop and any other takes off a chunk, so
-- one more than the chunks is fuel enough.
unfoldable pub discard_from : ℕ → ℕ → Reader → Option ReadErr × Reader
unfolding io_read_full
discard_from zero n r = (none, r)
discard_from (suc fuel) n r =
    let (got, err, r') = io_read_full (if ltb n chunk_limit then n else chunk_limit) r in
    let rest = discard_from fuel (n - length got) r' in
    if n == 0 then (none, r) else elim err [ some e ↦ (some e, r') | none ↦ rest ]

unfoldable pub discard : ℕ → Reader → Option ReadErr × Reader
unfolding discard_from
discard n r = discard_from (n / chunk_limit + 2) n r

-- compareSkip
unfoldable pub compare_skip : (List ℕ → List ℕ) → Reader → Reader → ℕ → ℕ → ReadErr ⊎ Option Outcome
unfolding discard limit
compare_skip sha256 expected actual skip n =
    let (err, r) = discard skip expected in
    elim err [ some e ↦ inl e | none ↦ inr (compare_streams sha256 (limit n r) actual) ]
