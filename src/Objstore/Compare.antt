-- ===== src/Objstore/Compare.antt =====
-- pkg/objstore/verify.go: CompareStreams. Offsets count bytes that were read and do not wrap.
pub mod Prefix
mod Rounds
mod Streams
pub mod Loops
mod Windows
mod Tests
use io_stress.Common.{
  ℕ, zero, suc, ◌+◌, ◌-◌, ◌/◌, ◌%◌, Bool, true, false, ◌&&◌, ◌||◌, List, [], ◌∷◌, ◌++◌, map, Option,
  none, some, ◌⊎◌, inl, inr, ltb, leb, ◌==◌, if◌then◌else◌, length, take, drop,
}
use mathlib.Core.Option
use io_stress.Objstore.Keys.{hex_byte}
use io_stress.Objstore.Reader.{ReadErr, eof, unexpected_eof, broken, Reader, read, read_full, size}

-- The bytes kept on each side of the first bad one.
abbrev pub side : ℕ
side = 64

abbrev pub buf_size : ℕ
buf_size = 32768

-- The variables of CompareStreams. `bad` is none for -1, and a hash is the bytes written to it.
pub record Cmp : Type 0 where
  pub offset : ℕ
  pub bad : Option ℕ
  pub exp_before : List ℕ
  pub act_before : List ℕ
  pub exp_win : List ℕ
  pub act_win : List ℕ
  pub exp_hash : List ℕ
  pub act_hash : List ℕ

pub record StreamMismatch : Type 0 where
  pub size : ℕ
  pub expected_sha : List ℕ
  pub actual_sha : List ℕ
  pub first_bad_byte : ℕ
  pub expected_hex : List ℕ
  pub actual_hex : List ℕ

pub data Outcome : Type 0 where
  same : Outcome
  differs : StreamMismatch → Outcome
  failed : ReadErr → Outcome

push_ring : List ℕ → ℕ → ℕ → List ℕ
push_ring buf b n = if ltb (length buf) n then buf ++ b ∷ [] else drop 1 buf ++ b ∷ []

-- noteByte. The result's offset moves on every branch.
note_byte : ℕ → ℕ → Cmp → Cmp
unfolding push_ring
note_byte exp act s = record t { offset = s.offset + 1 }
  where
    t : Cmp
    t = elim s.bad [
      | none ↦
          if exp == act
          then record s {
            exp_before = push_ring s.exp_before exp side;
            act_before = push_ring s.act_before act side;
          }
          else record s {
            bad = some s.offset;
            exp_win = s.exp_before ++ exp ∷ [];
            act_win = s.act_before ++ act ∷ [];
          }
      | some bad ↦
          if leb s.offset (bad + side)
          then record s { exp_win = s.exp_win ++ exp ∷ []; act_win = s.act_win ++ act ∷ [] }
          else s
    ]

-- for i := 0; i < cmp; i++, where cmp is the length of the shorter list.
pub note_bytes : List ℕ → List ℕ → Cmp → Cmp
note_bytes [] acts s = s
note_bytes (e ∷ exps) [] s = s
note_bytes (e ∷ exps) (a ∷ acts) s = note_bytes exps acts (note_byte e a s)

-- Actual went on where expected had ended: `rest` is buf[got:n].
pub expected_ended : List ℕ → Cmp → Cmp
expected_ended rest s = record t { offset = s.offset + length rest }
  where
    t : Cmp
    t = elim s.bad [
      | none ↦
          let win = s.act_before ++ rest in
          record s {
            bad = some s.offset;
            exp_win = s.exp_before;
            act_win = if ltb side (length rest) then take (length s.act_before + side) win else win;
          }
      | some bad ↦ s
    ]

-- One round of the first loop: buf[:n] of the actual stream against the bytes got of the expected.
pub compare_round : List ℕ → List ℕ → Cmp → Cmp
compare_round buf got s =
    let t =
      note_bytes got buf
        (record s { act_hash = s.act_hash ++ buf; exp_hash = s.exp_hash ++ got }) in
    if ltb (length got) (length buf) then expected_ended (drop (length got) buf) t else t

-- Expected bytes that the actual stream never produced.
pub extra_round : List ℕ → Cmp → Cmp
extra_round bs s = record t { offset = s.offset + length bs; exp_hash = s.exp_hash ++ bs }
  where
    t : Cmp
    t = elim s.bad [
      | none ↦ record s {
        bad = some s.offset;
        exp_win = s.exp_before ++ take (if ltb (length bs) side then length bs else side) bs;
        act_win = s.act_before;
      }
      | some bad ↦
          let room = bad + side - s.offset + 1 in
          if leb s.offset (bad + side)
          then record s {
            exp_win = s.exp_win ++ take (if ltb (length bs) room then length bs else room) bs;
          }
          else s
    ]

-- Goes on unless the error is a real one.
abbrev fatal : Option ReadErr → Option ReadErr
fatal none = none
fatal (some eof) = none
fatal (some unexpected_eof) = none
fatal (some (broken n)) = some (broken n)

-- How a read's error leaves a loop: none goes on, io.EOF breaks, any other returns it.
pub data Stop : Type 0 where
  go_on leave : Stop
  give_up : ReadErr → Stop

abbrev stop_of : Option ReadErr → Stop
stop_of none = go_on
stop_of (some eof) = leave
stop_of (some unexpected_eof) = give_up unexpected_eof
stop_of (some (broken n)) = give_up (broken n)

-- What the first loop's body leaves: the new state and expected reader, or the expected error.
pub data Round : Type 0 where
  next : Cmp → Reader → Round
  abort : ReadErr → Round

first_body : List ℕ → Reader → Cmp → Round
first_body [] exp s = next s exp
first_body (b ∷ buf) exp s =
    let (got, err, exp') = read_full (length (b ∷ buf)) exp in
    elim (fatal err) [ none ↦ next (compare_round (b ∷ buf) got s) exp' | some e ↦ abort e ]

-- What the second loop's body does with the bytes of one read.
extra_body : List ℕ → Cmp → Cmp
extra_body [] s = s
extra_body (b ∷ bs) s = extra_round (b ∷ bs) s

-- The loop over the expected stream's rest.
extra_loop : ℕ → Reader → Cmp → Option (Cmp ⊎ ReadErr)
extra_loop zero exp s = none
extra_loop (suc fuel) exp s =
    let (bs, err, exp') = read buf_size exp in
    let s' = extra_body bs s in
    elim (stop_of err) [
      | go_on ↦ extra_loop fuel exp' s'
      | leave ↦ some (inl s')
      | give_up e ↦ some (inr e)
    ]

-- The loop over the actual stream, with the other behind it.
first_loop : ℕ → Reader → Reader → Cmp → Option (Cmp ⊎ ReadErr)
first_loop zero exp act s = none
first_loop (suc fuel) exp act s =
    let (buf, err, act') = read buf_size act in
    elim (first_body buf exp s) [
      | abort e ↦ some (inr e)
      | next s' exp' ↦ elim (stop_of err) [
        | go_on ↦ first_loop fuel exp' act' s'
        | leave ↦ extra_loop (suc (size exp')) exp' s'
        | give_up e ↦ some (inr e)
      ]
    ]

-- encoding/hex.EncodeToString
unfoldable pub hex : List ℕ → List ℕ
hex [] = []
hex (b ∷ bs) = hex_byte b ++ hex bs

report : (List ℕ → List ℕ) → Cmp → Outcome
report sha256 s = elim s.bad [
  | none ↦ same
  | some bad ↦ differs (record {
    size = s.offset;
    expected_sha = hex (sha256 s.exp_hash);
    actual_sha = hex (sha256 s.act_hash);
    first_bad_byte = bad;
    expected_hex = hex s.exp_win;
    actual_hex = hex s.act_win;
  })
]

start : Cmp
start = record {
  offset = 0;
  bad = none;
  exp_before = [];
  act_before = [];
  exp_win = [];
  act_win = [];
  exp_hash = [];
  act_hash = [];
}

abbrev outcome : (List ℕ → List ℕ) → Cmp ⊎ ReadErr → Outcome
outcome sha256 (inl s) = report sha256 s
outcome sha256 (inr e) = failed e

-- CompareStreams. `sha256` is crypto/sha256's digest of the bytes written. One more than the size
-- of a reader is fuel enough, since each read shortens it.
pub compare_streams : (List ℕ → List ℕ) → Reader → Reader → Option Outcome
compare_streams sha256 exp act =
    Option.map (outcome sha256) (first_loop (suc (size act)) exp act start)
