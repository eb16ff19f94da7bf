-- ===== src/Objstore/Payload/Tests.antt =====
-- pkg/objstore/payload.go: runs with a digest that repeats the index.
use io_stress.Common.{
  ℕ, ◌%◌, ◌≡◌, refl, some, List, [], ◌∷◌, arith, get_elem?, length, drop, replicate,
}
use io_stress.Common.Int.{pos, negsuc}
use io_stress.Objstore.Payload.{
  SizeWeight, hashed, size_for, total_from, pick_from, add_weight, last_bytes, big_endian,
  from_big_endian,
}
use io_stress.Objstore.Payload.Sizes.{spread, shares, size_for-spread}

abbrev three_sizes : List SizeWeight
three_sizes =
    record { bytes = pos 4096; weight = pos 2 }
    ∷ record { bytes = pos 7; weight = negsuc 0 }
    ∷ record { bytes = pos 65536; weight = pos 1 }
    ∷ []

-- In place of SHA-256: the eight bytes of the index.
abbrev tail_digest : List ℕ → List ℕ
tail_digest bs = drop 32 bs

abbrev seed : List ℕ
seed = replicate 32 0

by_weight :
    (size_for tail_digest seed 4 three_sizes ≡ pos 4096)
    × (size_for tail_digest seed 5 three_sizes ≡ pos 65536)
    × (size_for tail_digest seed 5 [] ≡ pos 0)
unfolding size_for hashed total_from pick_from add_weight last_bytes big_endian from_big_endian
by_weight = (refl, refl, refl)

-- With no positive weight, the first size.
no_weight : size_for tail_digest seed 5 (record { bytes = pos 9; weight = negsuc 3 } ∷ []) ≡ pos 9
unfolding size_for hashed total_from pick_from add_weight last_bytes big_endian from_big_endian
no_weight = refl

size_for-spread_run :
    (length (spread three_sizes) ≡ shares three_sizes)
    × (get_elem? (spread three_sizes) (hashed tail_digest seed 5 % shares three_sizes)
        ≡ some (size_for tail_digest seed 5 three_sizes))
size_for-spread_run = size_for-spread tail_digest seed 5 three_sizes (omega arith) (omega arith)
