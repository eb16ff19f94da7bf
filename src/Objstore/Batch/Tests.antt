-- ===== src/Objstore/Batch/Tests.antt =====
-- pkg/objstore/ops.go, DeleteKeys at two ids, one with a version.
use io_stress.Common.{ℕ, ◌+◌, ◌≡◌, refl, List, [], ◌∷◌, map, true}
use io_stress.Objstore.Calls.{Result, good, KeyError}
use io_stress.Objstore.Batch.{ByteId, ObjectIdentifier, delete_all, split_id}
use io_stress.Objstore.Batch.Sent.{wanted, Covers, delete_all-Covers}

abbrev two : List ByteId
two =
    record { key = 107 ∷ []; version_id = [] }
    ∷ record { key = 108 ∷ []; version_id = 118 ∷ 0 ∷ 49 ∷ [] }
    ∷ []

abbrev ready : List ObjectIdentifier → ℕ → Result (List KeyError) × ℕ
ready objs w = (good [], w + 1)

split : split_id (107 ∷ 0 ∷ 118 ∷ 0 ∷ []) ≡ (107 ∷ [], 118 ∷ 0 ∷ [], true)
unfolding split_id
split = refl

delete_all-Covers_example : Covers ℕ ready 1000 (map wanted two) (delete_all ℕ ready two 0)
delete_all-Covers_example = delete_all-Covers ℕ ready two 0 refl
