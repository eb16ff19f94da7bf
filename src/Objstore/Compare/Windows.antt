-- ===== src/Objstore/Compare/Windows.antt =====
-- The windows of CompareStreams stay small, whatever the readers do.
use mathlib.Core.Option
use io_stress.Common.{
  ℕ, zero, suc, ◌+◌, ◌-◌, ◌*◌, ◌≤◌, ◌≡◌, refl, subst, inl, inr, ◌⊎◌, Option, some, none, List, [],
  ◌∷◌, ◌++◌, arith, length, length-append, take, drop, length-drop, length-take, if◌then◌else◌, ltb,
  Option-cases, Bool-cases,
}
use io_stress.Objstore.Keys.{hex_byte}
use io_stress.Objstore.Reader.{ReadErr, Reader, read, read_full, size}
use io_stress.Objstore.Compare.{
  Cmp, side, buf_size, push_ring, note_byte, note_bytes, expected_ended, compare_round, extra_round,
  fatal, stop_of, Stop, go_on, leave, give_up, Round, next, abort, first_body, extra_body,
  extra_loop, first_loop, start, report, differs, StreamMismatch, outcome, hex, compare_streams,
}

-- Room for the bytes behind the first bad one, up to 65 of them.
abbrev Fits : ℕ → Option ℕ → List ℕ → List ℕ → Type 0
Fits offset none exp_win act_win = Unit {0}
Fits offset (some b) exp_win act_win =
    (b ≤ offset)
    × (length exp_win ≤ 129)
    × (length act_win ≤ 129)
    × (length exp_win + b ≤ 64 + offset)
    × (length act_win + b ≤ 64 + offset)

record Small (s : Cmp) : Type 0 where
  exp_before_small : length s.exp_before ≤ 64
  act_before_small : length s.act_before ≤ 64
  windows : Fits s.offset s.bad s.exp_win s.act_win

length-push_ring : (buf : List ℕ) (b : ℕ) → length buf ≤ 64 → length (push_ring buf b side) ≤ 64
unfolding push_ring
length-push_ring buf b h =
    ground
      (arith, length-append buf (b ∷ []), length-append (drop 1 buf) (b ∷ []), length-drop 1 buf)

note_byte-Small : (x y : ℕ) (s : Cmp) → Small s → Small (note_byte x y s)
note_byte-Small x y s h = record {
  exp_before_small =
      unfold note_byte in ground (arith, length-push_ring s.exp_before x h.exp_before_small);
  act_before_small =
      unfold note_byte in ground (arith, length-push_ring s.act_before y h.act_before_small);
  windows =
      unfold note_byte in
      ground (
        arith,
        length-append s.exp_before (x ∷ []),
        length-append s.act_before (y ∷ []),
        length-append s.exp_win (x ∷ []),
        length-append s.act_win (y ∷ []),
      );
}

note_bytes-Small : (xs ys : List ℕ) (s : Cmp) → Small s → Small (note_bytes xs ys s)
unfolding note_bytes
note_bytes-Small [] ys s h = h
note_bytes-Small (x ∷ xs) [] s h = h
note_bytes-Small (x ∷ xs) (y ∷ ys) s h =
    note_bytes-Small xs ys (note_byte x y s) (note_byte-Small x y s h)

expected_ended-Small : (ys : List ℕ) (s : Cmp) → Small s → Small (expected_ended ys s)
unfolding expected_ended
expected_ended-Small ys s h = ground (
  arith,
  length-append s.act_before ys,
  length-take (length s.act_before + side) (s.act_before ++ ys),
)

compare_round-Small : (buf got : List ℕ) (s : Cmp) → Small s → Small (compare_round buf got s)
unfolding compare_round
compare_round-Small buf got s h =
    let t = record s { act_hash = s.act_hash ++ buf; exp_hash = s.exp_hash ++ got } in
    let small = note_bytes-Small got buf t (record {
      exp_before_small = h.exp_before_small;
      act_before_small = h.act_before_small;
      windows = h.windows;
    }) in
    elim (Bool-cases (ltb (length got) (length buf))) [
      | inl short ↦
          rw short (expected_ended-Small (drop (length got) buf) (note_bytes got buf t) small)
      | inr full ↦ rw full small
    ]

abbrev clip : ℕ → List ℕ → List ℕ
clip n bs = take (if ltb (length bs) n then length bs else n) bs

length-clip : (n : ℕ) (bs : List ℕ) → (length (clip n bs) ≤ n) × (length (clip n bs) ≤ length bs)
length-clip n bs = ground (arith, length-take (if ltb (length bs) n then length bs else n) bs)

extra_round-Small : (bs : List ℕ) (s : Cmp) → Small s → Small (extra_round bs s)
extra_round-Small bs s h = elim (Option-cases s.bad) [
  | inl clean ↦
      unfold extra_round in
      ground (arith, length-append s.exp_before (clip side bs), length-clip side bs)
  | inr (b, found) ↦
      unfold extra_round in
      ground (
        arith,
        length-append s.exp_win (clip (b + side - s.offset + 1) bs),
        length-clip (b + side - s.offset + 1) bs,
      )
]

extra_body-Small : (bs : List ℕ) (s : Cmp) → Small s → Small (extra_body bs s)
unfolding extra_body
extra_body-Small [] s h = h
extra_body-Small (b ∷ bs) s h = extra_round-Small (b ∷ bs) s h

Stop-cases : (t : Stop) → (t ≡ go_on) ⊎ (t ≡ leave) ⊎ ((e : ReadErr) × (t ≡ give_up e))
Stop-cases go_on = inl refl
Stop-cases leave = inr (inl refl)
Stop-cases (give_up e) = inr (inr (e, refl))

Small-result :
    {s s' : Cmp}
    → ◌≡◌ {A = Option (Cmp ⊎ ReadErr)} (some (inl s)) (some (inl s'))
    → Small s
    → Small s'
Small-result e h = subst Small (cc) h

extra_loop-Small :
    (fuel : ℕ) (exp : Reader) (s : Cmp) {s' : Cmp}
    → Small s
    → extra_loop fuel exp s ≡ some (inl s')
    → Small s'
unfolding extra_loop
extra_loop-Small zero exp s h e = cc
extra_loop-Small (suc fuel) exp s h e =
    let next = extra_body-Small (read buf_size exp).0 s h in
    elim (Stop-cases (stop_of (read buf_size exp).1)) [
      | inl q ↦
          extra_loop-Small fuel (read buf_size exp).2 (extra_body (read buf_size exp).0 s) next
            (rw (q, extra_loop) at e)
      | inr (inl q) ↦ Small-result (rw (q, extra_loop) at e) next
      | inr (inr (x, q)) ↦ let stopped = rw (q, extra_loop) at e in cc
    ]

Round-cases :
    (r : Round) → ((e : ReadErr) × (r ≡ abort e)) ⊎ ((s : Cmp) × (exp : Reader) × (r ≡ next s exp))
Round-cases (abort e) = inl (e, refl)
Round-cases (next s exp) = inr (s, exp, refl)

first_body-Small :
    (buf : List ℕ) (exp : Reader) (s : Cmp) {s' : Cmp} {exp' : Reader}
    → Small s
    → first_body buf exp s ≡ next s' exp'
    → Small s'
unfolding first_body
first_body-Small [] exp s h e = subst Small (cc) h
first_body-Small (b ∷ buf) exp s h e =
    let got = read_full (length (b ∷ buf)) exp in
    elim (Option-cases (fatal got.1)) [
      | inl q ↦
          let e' = rw (q, first_body) at e in
          subst Small (cc) (compare_round-Small (b ∷ buf) got.0 s h)
      | inr (x, q) ↦ let e' = rw (q, first_body) at e in cc
    ]

first_loop-Small :
    (fuel : ℕ) (exp act : Reader) (s : Cmp) {s' : Cmp}
    → Small s
    → first_loop fuel exp act s ≡ some (inl s')
    → Small s'
unfolding first_loop
first_loop-Small zero exp act s h e = cc
first_loop-Small (suc fuel) exp act s h e =
    elim (Round-cases (first_body (read buf_size act).0 exp s)) [
      | inl (x, q) ↦ let stopped = rw (q, first_loop) at e in cc
      | inr (s1, exp1, r) ↦
          let small = first_body-Small (read buf_size act).0 exp s h r in
          elim (Stop-cases (stop_of (read buf_size act).1)) [
            | inl q ↦
                first_loop-Small fuel exp1 (read buf_size act).2 s1 small
                  (rw (r, q, first_loop) at e)
            | inr (inl q) ↦
                extra_loop-Small (suc (size exp1)) exp1 s1 small (rw (r, q, first_loop) at e)
            | inr (inr (x, q)) ↦ let stopped = rw (r, q, first_loop) at e in cc
          ]
    ]

start-Small : Small start
unfolding start
start-Small = record {
  exp_before_small = omega arith;
  act_before_small = omega arith;
  windows = tt;
}

length-hex : (bs : List ℕ) → length (hex bs) ≡ 2 * length bs
unfolding hex hex_byte
length-hex [] = refl
length-hex (b ∷ bs) = omega (arith, length-hex bs)

report-windows :
    (sha256 : List ℕ → List ℕ) (s : Cmp) (m : StreamMismatch)
    → Small s
    → report sha256 s ≡ differs m
    → (length m.expected_hex ≤ 258) × (length m.actual_hex ≤ 258)
unfolding report
report-windows sha256 s m h e = ground (arith, length-hex s.exp_win, length-hex s.act_win)

outcome-windows :
    (sha256 : List ℕ → List ℕ) (o : Option (Cmp ⊎ ReadErr)) (m : StreamMismatch)
    → ((s : Cmp) → o ≡ some (inl s) → Small s)
    → Option.map (outcome sha256) o ≡ some (differs m)
    → (length m.expected_hex ≤ 258) × (length m.actual_hex ≤ 258)
outcome-windows sha256 none m small e = cc
outcome-windows sha256 (some (inl s)) m small e = report-windows sha256 s m (small s refl) (cc)
outcome-windows sha256 (some (inr x)) m small e = cc

-- Whatever the two readers return, errors and empty reads included, neither hex window of a
-- reported mismatch is longer than 258 digits: 64 bytes before the first bad one and 65 from it.
pub compare_streams-windows :
    (sha256 : List ℕ → List ℕ) (exp act : Reader) (m : StreamMismatch)
    → compare_streams sha256 exp act ≡ some (differs m)
    → (length m.expected_hex ≤ 258) × (length m.actual_hex ≤ 258)
unfolding compare_streams
compare_streams-windows sha256 exp act m e =
    outcome-windows sha256 (first_loop (suc (size act)) exp act start) m
      (λ s runs. first_loop-Small (suc (size act)) exp act start start-Small runs) e
