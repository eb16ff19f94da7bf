-- ===== src/Objstore/Keys.antt =====
-- pkg/objstore/keys.go: shards, batches, object keys, and what each bucket ordinal is for.
use io_stress.Common.{
  ℕ, zero, suc, ◌+◌, ◌-◌, ◌*◌, ◌/◌, ◌%◌, Bool, true, false, ◌&&◌, ◌||◌, List, [], ◌∷◌, ◌++◌, map,
  String, Option, none, some, str_eq, ltb, leb, ◌==◌, if◌then◌else◌, length, take, drop, replicate,
  u64,
}
use io_stress.Common.Int.{ℤ, pos, negsuc, is_pos, ltb_ℤ, is_even}
pub mod Shards
pub mod Chunks
mod Names
mod Tests

-- Shard. The products are uint64 and wrap; a negative or too large worker owns nothing.
unfoldable pub shard : ℤ → ℤ → ℕ → ℕ × ℕ
shard (negsuc worker) workers count = (0, 0)
shard (pos worker) (negsuc workers) count = (0, 0)
shard (pos worker) (pos workers) count =
    if leb workers 0 || leb workers worker || count == 0
    then (0, 0)
    else (u64 (worker * count) / workers, u64 ((worker + 1) * count) / workers)

-- The S3 limit of one DeleteObjects call.
abbrev batch_limit : ℕ
batch_limit = 1000

abbrev batch_size : ℤ → ℕ
batch_size (pos zero) = batch_limit
batch_size (pos (suc n)) = suc n
batch_size (negsuc n) = batch_limit

module _ {ℓ} {A : Type ℓ} where
  -- keys[i:j]
  slice : List A → ℕ → ℕ → List A
  slice keys i j = take (j - i) (drop i keys)

  -- The loop of Chunk from index i. Each round moves i by at least one, so the number of keys is
  -- fuel enough.
  chunk_from : ℕ → ℕ → List A → ℕ → List (List A)
  unfolding slice
  chunk_from zero n keys i = []
  chunk_from (suc fuel) n keys i =
      let end = if ltb (length keys) (i + n) then length keys else i + n in
      let rest = slice keys i end ∷ chunk_from fuel n keys (i + n) in
      if ltb i (length keys) then rest else []

  -- Chunk, without the capacity of the result, whose sum wraps only for an n near the largest int.
  unfoldable pub chunk : List A → ℤ → List (List A)
  unfolding chunk_from
  chunk keys n = chunk_from (length keys) (batch_size n) keys 0

-- DeletePath
unfoldable pub delete_path : String → ℤ → ℤ → String
delete_path mode ordinal buckets =
    if str_eq mode "recursive" || str_eq mode "obc-only"
    then mode
    else if ltb_ℤ buckets (pos 2)
    then "obc-only"
    else if is_even ordinal
    then "recursive"
    else "obc-only"

-- Versioned
unfoldable pub versioned : ℤ → ℤ → Bool
versioned (pos ordinal) versioned_buckets = ltb_ℤ (pos ordinal) versioned_buckets
versioned (negsuc ordinal) versioned_buckets = false

-- The digits of `%d`. A uint64 has at most twenty.
digits : ℕ → ℕ → List ℕ → List ℕ
digits zero n acc = acc
digits (suc fuel) n acc =
    let more = digits fuel (n / 10) ((b'0' + n % 10) ∷ acc) in
    if ltb n 10 then (b'0' + n) ∷ acc else more

-- `%016d`
unfoldable pub pad16 : ℕ → List ℕ
unfolding digits
pad16 i = let ds = digits 20 i [] in replicate (16 - length ds) b'0' ++ ds

hex_digit : ℕ → ℕ
hex_digit n = if ltb n 10 then b'0' + n else b'a' + (n - 10)

-- `%02x` of a byte
unfoldable pub hex_byte : ℕ → List ℕ
unfolding hex_digit
hex_byte n = hex_digit (n / 16) ∷ hex_digit (n % 16) ∷ []

abbrev slash : ℕ
slash = b'/'

-- <prefix>/<index>
unfoldable pub flat_key : List ℕ → List ℕ → List ℕ
flat_key prefix idx = prefix ++ slash ∷ idx

-- <prefix>/<a>/<b>/<c>/<index>
pub deep_key : List ℕ → ℕ → List ℕ → List ℕ
unfolding hex_byte
deep_key prefix i idx =
    let a = hex_byte (i / 65536 % 256) in
    let b = hex_byte (i / 256 % 256) in
    let c = hex_byte (i % 256) in prefix ++ slash ∷ (a ++ slash ∷ (b ++ slash ∷ (c ++ slash ∷ idx)))

-- <prefix>/<fan-out>/<index>
pub hashed_key : List ℕ → ℕ → List ℕ → List ℕ
unfolding hex_byte
hashed_key prefix first idx = prefix ++ slash ∷ (hex_byte first ++ slash ∷ idx)

-- Key, as bytes. `first_sha_byte` is the first byte of crypto/sha256's digest.
unfoldable pub key : (List ℕ → ℕ) → String → List ℕ → ℕ → Option (List ℕ)
key first_sha_byte layout prefix i =
    let idx = pad16 i in
    if str_eq layout "flat"
    then some (flat_key prefix idx)
    else if str_eq layout "deep"
    then some (deep_key prefix i idx)
    else if str_eq layout "hashed" || str_eq layout ""
    then some (hashed_key prefix (first_sha_byte idx) idx)
    else none
