-- ===== src/Objstore/Batch.antt =====
-- pkg/objstore/ops.go, DeleteKeys and splitID: a deletion in batches. Keys and version ids are bytes;
-- DeleteObjects, retries included, is a function of the server's state.
use io_stress.Common.{
  ℕ, Bool, true, false, List, [], ◌∷◌, ◌++◌, map, Option, none, some, ◌==◌, if◌then◌else◌,
}
use io_stress.Common.Int.{pos}
use io_stress.Objstore.Keys.{chunk}
use io_stress.Objstore.Retry.{Err}
use io_stress.Objstore.Calls.{Result, good, bad, KeyError}
mod Sent
mod Tests

-- ObjectID
pub record ByteId : Type 0 where
  pub key : List ℕ
  pub version_id : List ℕ

-- types.ObjectIdentifier
pub record ObjectIdentifier : Type 0 where
  pub key : List ℕ
  pub version_id : Option (List ℕ)

-- A key and a version id in one string, with a zero byte between them
unfoldable pub pack : ByteId → List ℕ
pack id = id.key ++ 0 ∷ id.version_id

-- splitID
unfoldable pub split_id : List ℕ → List ℕ × List ℕ × Bool
split_id [] = ([], [], false)
split_id (c ∷ cs) =
    let (key, version, found) = split_id cs in
    if c == 0 then ([], cs, true) else (c ∷ key, version, found)

-- The version id of an identifier, where there is one
abbrev pub version_of : List ℕ → Option (List ℕ)
version_of [] = none
version_of (c ∷ cs) = some (c ∷ cs)

unfoldable pub identifier : List ℕ → ObjectIdentifier
unfolding split_id
identifier packed =
    let (key, version, found) = split_id packed in
    record { key = key; version_id = version_of version }

module _ (World : Type 0)
    (delete_objects : List ObjectIdentifier → World → Result (List KeyError) × World) where
  -- The errors by key, the error, the batches that were sent, and the server behind them
  abbrev pub Deleted : Type 0
  Deleted = List KeyError × Option Err × List (List ObjectIdentifier) × World

  abbrev behind : List ObjectIdentifier → List KeyError → Deleted → Deleted
  behind objs errs (all, err, sent, w) = (errs ++ all, err, objs ∷ sent, w)

  -- One batch, and what the later ones come to
  unfoldable pub batch_end :
      List ObjectIdentifier → Result (List KeyError) × World → Deleted → Deleted
  batch_end objs (bad e, w) rest = ([], some e, objs ∷ [], w)
  batch_end objs (good errs, w) rest = behind objs errs rest

  -- The loop of DeleteKeys
  unfoldable pub delete_batches : List (List (List ℕ)) → World → Deleted
  unfolding batch_end identifier
  delete_batches [] w = ([], none, [], w)
  delete_batches (batch ∷ batches) w =
      let objs = map identifier batch in
      let got = delete_objects objs w in batch_end objs got (delete_batches batches got.1)

  -- DeleteKeys
  unfoldable pub delete_all : List ByteId → World → Deleted
  unfolding delete_batches pack chunk
  delete_all [] w = ([], none, [], w)
  delete_all (id ∷ ids) w = delete_batches (chunk (map pack (id ∷ ids)) (pos 1000)) w
