-- ===== src/Objstore/Keys/Tests.antt =====
-- pkg/objstore/keys.go at concrete inputs.
use mathlib.Core.List.{flatten}
use io_stress.Common.{
  ℕ, ◌+◌, ◌/◌, ◌≤◌, ◌<◌, ◌≡◌, ◌≢◌, ◌⊎◌, refl, List, [], ◌∷◌, some, arith, eq_iff, true, false,
}
use io_stress.Common.Int.{pos, negsuc}
use io_stress.Objstore.Keys.{shard, chunk, delete_path, versioned, digits, key, flat_key, pad16}
use io_stress.Objstore.Keys.Shards.{Owns, shard-partition, shard-balanced}
use io_stress.Objstore.Keys.Chunks.{Batches, chunk-Batches}
use io_stress.Objstore.Keys.Names.{key-injective, delete_path-alternates}

three_workers :
    (shard (pos 0) (pos 3) 10 ≡ (0, 3))
    × (shard (pos 1) (pos 3) 10 ≡ (3, 6))
    × (shard (pos 2) (pos 3) 10 ≡ (6, 10))
    × (shard (pos 3) (pos 3) 10 ≡ (0, 0))
unfolding shard
three_workers = (refl, refl, refl, refl)

shard-partition_example :
    (w : ℕ) × (w < 3) × Owns 3 10 w 5 × ((v : ℕ) → v < 3 → Owns 3 10 v 5 → v ≡ w)
shard-partition_example = shard-partition 3 10 5 (omega arith) (omega arith) (omega arith)

shard-balanced_example :
    let (start, end) = shard (pos 1) (pos 3) 10 in
    (((◌≡◌ {A = ℕ} 1 0) × (start ≡ 0))
      ⊎ ((v : ℕ) × (1 ≡ v + 1) × ((shard (pos v) (pos 3) 10).1 ≡ start)))
    × (((1 + 1 ≡ 3) × (end ≡ 10)) ⊎ (1 + 1 < 3))
    × (start + 10 / 3 ≤ end)
    × (end ≤ start + 10 / 3 + 1)
shard-balanced_example = shard-balanced 3 10 1 (omega arith) (omega arith) (omega arith)

abbrev letters : List ℕ
letters = b'a' ∷ b'b' ∷ b'c' ∷ b'd' ∷ b'e' ∷ []

by_two : chunk letters (pos 2) ≡ (b'a' ∷ b'b' ∷ []) ∷ (b'c' ∷ b'd' ∷ []) ∷ (b'e' ∷ []) ∷ []
unfolding chunk
by_two = refl

chunk-Batches_example :
    (flatten (chunk letters (pos 2)) ≡ letters) × Batches 2 (chunk letters (pos 2))
chunk-Batches_example = chunk-Batches letters (pos 2)

paths :
    (delete_path "both" (pos 2) (pos 4) ≡ "recursive")
    × (delete_path "both" (pos 3) (pos 4) ≡ "obc-only")
    × (delete_path "both" (pos 0) (pos 1) ≡ "obc-only")
    × (delete_path "recursive" (pos 3) (pos 4) ≡ "recursive")
unfolding delete_path
paths = (refl, refl, refl, refl)

first_two_versioned :
    (versioned (pos 1) (pos 2) ≡ true)
    × (versioned (pos 2) (pos 2) ≡ false)
    × (versioned (negsuc 0) (pos 2) ≡ false)
unfolding versioned
first_two_versioned = (refl, refl, refl)

flat_text :
    key (λ _. 0) "flat" (b'p' ∷ []) 42
    ≡ some (
        b'p' ∷ b'/' ∷ 48 ∷ 48 ∷ 48 ∷ 48 ∷ 48 ∷ 48 ∷ 48 ∷ 48 ∷ 48 ∷ 48 ∷ 48 ∷ 48 ∷ 48 ∷ 48 ∷ 52 ∷ 50
        ∷ [])
unfolding key digits flat_key pad16
flat_text = refl

key-injective_example : ◌≡◌ {A = ℕ} 42 42
unfolding key digits flat_key pad16
key-injective_example =
    key-injective (λ _. 0) "flat" (b'p' ∷ []) 42 42 _ (omega arith) (omega arith) flat_text
      flat_text

delete_path_run :
    ((5 ≤ 1) × (delete_path "both" (pos 2) (pos 5) ≡ "obc-only"))
    ⊎ ((1 < 5) × (delete_path "both" (pos 2) (pos 5) ≢ delete_path "both" (pos (2 + 1)) (pos 5)))
delete_path_run =
    delete_path-alternates "both" 2 5 (ground (arith, eq_iff "both" "recursive"))
      (ground (arith, eq_iff "both" "obc-only"))
