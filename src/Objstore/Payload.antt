-- ===== src/Objstore/Payload.antt =====
-- pkg/objstore/payload.go: the sizes of a mix, SizeFor.
pub mod Sizes
mod Tests
use io_stress.Common.{
  ℕ, zero, suc, ◌+◌, ◌*◌, ◌/◌, ◌%◌, ◌^◌, Bool, List, [], ◌∷◌, ◌++◌, ltb, ◌==◌, if◌then◌else◌, u64,
  take,
}
use io_stress.Common.Int.{ℤ, pos, negsuc, is_pos}

pub record SizeWeight : Type 0 where
  pub bytes : ℤ
  pub weight : ℤ

-- uint64(m.Weight) added, if the weight is positive.
unfoldable pub add_weight : ℤ → ℕ → ℕ
add_weight (pos n) acc = if ltb 0 n then u64 (acc + n) else acc
add_weight (negsuc n) acc = acc

unfoldable pub total_from : List SizeWeight → ℕ → ℕ
unfolding add_weight
total_from [] total = total
total_from (m ∷ mix) total = total_from mix (add_weight m.weight total)

-- The last n bytes of an integer, the highest first.
unfoldable pub big_endian : ℕ → ℕ → List ℕ
big_endian zero i = []
big_endian (suc n) i = (i / 256 ^ n % 256) ∷ big_endian n i

unfoldable pub from_big_endian : List ℕ → ℕ → ℕ
from_big_endian [] acc = acc
from_big_endian (b ∷ bs) acc = from_big_endian bs (acc * 256 + b)

-- mix[len(mix)-1].Bytes
unfoldable pub last_bytes : SizeWeight → List SizeWeight → ℤ
last_bytes m [] = m.bytes
last_bytes m (n ∷ mix) = last_bytes n mix

unfoldable pub pick_from : ℕ → List SizeWeight → ℕ → ℤ → ℤ
unfolding add_weight
pick_from pick [] acc last = last
pick_from pick (m ∷ mix) acc last =
    let rest = pick_from pick mix (add_weight m.weight acc) last in
    if is_pos m.weight then (if ltb pick (add_weight m.weight acc) then m.bytes else rest) else rest

-- `sha256` is crypto/sha256's digest of the bytes written.
module _ (sha256 : List ℕ → List ℕ) where
  -- The first eight bytes of the digest, as a number.
  unfoldable pub hashed : List ℕ → ℕ → ℕ
  unfolding big_endian from_big_endian
  hashed seed i = from_big_endian (take 8 (sha256 (seed ++ big_endian 8 i))) 0

  unfoldable pub size_for : List ℕ → ℕ → List SizeWeight → ℤ
  unfolding total_from hashed pick_from last_bytes
  size_for seed i [] = pos 0
  size_for seed i (m ∷ mix) =
      let total = total_from (m ∷ mix) 0 in
      if total == 0
      then m.bytes
      else pick_from (hashed seed i % total) (m ∷ mix) 0 (last_bytes m mix)
