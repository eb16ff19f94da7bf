-- ===== src/Objstore/Compare/Loops.antt =====
-- CompareStreams from its first read to its result.
use mathlib.Core.List.{append_assoc, append-nil}
use Prim.Native.Nat.{max}
use io_stress.Objstore.Compare.Prefix.{common}
use io_stress.Common.{
  ℕ, zero, suc, ◌<◌, ◌≡◌, ◌≢◌, refl, sym, ap, ◌∙◌, inl, inr, ◌⊎◌, Option, some, none, List, [], ◌∷◌,
  ◌++◌, arith, length,
}
use io_stress.Objstore.Reader.{eof, Reader, read, read_full, content, size}
use io_stress.Objstore.Reader.Laws.{Ends, Steady, Steady-Ends, read-Took, read_full-Filled}
use io_stress.Objstore.Compare.{
  Cmp, buf_size, compare_round, next, first_body, extra_body, extra_loop, first_loop, start, same,
  differs, StreamMismatch, Outcome, hex, report, compare_streams,
}
use io_stress.Objstore.Compare.Streams.{
  Seen, Rest, full-Seen, short-Seen, Seen-Rest, extra_round-Rest,
}

extra_body-Rest :
    (e bs rest A : List ℕ) (s : Cmp)
    → Rest e (bs ++ rest) A s
    → Rest (e ++ bs) rest A (extra_body bs s)
unfolding extra_body
extra_body-Rest e [] rest A s r = rw (append-nil e) r
extra_body-Rest e (b ∷ bs) rest A s r = extra_round-Rest e (b ∷ bs) rest A s (omega arith) r

extra_loop-go :
    (fuel : ℕ) (exp : Reader) (s : Cmp)
    → (read buf_size exp).1 ≡ none
    → extra_loop (suc fuel) exp s
      ≡ extra_loop fuel (read buf_size exp).2 (extra_body (read buf_size exp).0 s)
unfolding extra_loop
extra_loop-go fuel exp s e = rw (e, extra_loop) refl

extra_loop-leave :
    (fuel : ℕ) (exp : Reader) (s : Cmp)
    → (read buf_size exp).1 ≡ some eof
    → extra_loop (suc fuel) exp s ≡ some (inl (extra_body (read buf_size exp).0 s))
unfolding extra_loop
extra_loop-leave fuel exp s e = rw (e, extra_loop) refl

-- The second loop ends, and has then seen all that expected delivers.
extra_loop-Rest :
    (fuel : ℕ) (exp : Reader) (e A : List ℕ) (s : Cmp)
    → size exp < fuel
    → Ends exp
    → Rest e (content exp) A s
    → (s' : Cmp) × (extra_loop fuel exp s ≡ some (inl s')) × Rest (e ++ content exp) [] A s'
extra_loop-Rest zero exp e A s h ends r = absurd (omega arith)
extra_loop-Rest (suc fuel) exp e A s h ends r =
    let g = read buf_size exp in
    let took = read-Took buf_size exp (omega arith) ends in
    let s1 = extra_body g.0 s in
    let r1 : Rest (e ++ g.0) (content g.2) A s1 =
      extra_body-Rest e g.0 (content g.2) A s (rw took.split at r) in
    let all : e ++ content exp ≡ (e ++ g.0) ++ content g.2 =
      ap (λ l. e ++ l) took.split ∙ sym (append_assoc e g.0 (content g.2)) in
    elim took.ending [
      | inl q ↦
          let (s', runs, r') =
            extra_loop-Rest fuel g.2 (e ++ g.0) A s1 (omega (arith, took.shrinks q)) took.ends r1 in
          (s', extra_loop-go fuel exp s q ∙ runs, rw all r')
      | inr (q, done) ↦
          let nothing = ap content done in
          (
            s1,
            extra_loop-leave fuel exp s q,
            rw (all, nothing, append-nil (e ++ g.0)) (rw nothing at r1),
          )
    ]

-- What one round of the first loop takes off the expected reader.
first_body-Seen :
    (e a buf : List ℕ) (exp : Reader) (s : Cmp)
    → Steady exp
    → Seen e a (content exp) s
    → (s' : Cmp) × (exp' : Reader) × (got : List ℕ) × (first_body buf exp s ≡ next s' exp')
      × (content exp ≡ got ++ content exp')
      × Steady exp'
      × Seen (e ++ got) (a ++ buf) (content exp') s'
unfolding first_body
first_body-Seen e a [] exp s st seen =
    (s, exp, [], refl, refl, st, rw (append-nil e, append-nil a) seen)
first_body-Seen e a (b ∷ buf) exp s st seen =
    let n = length (b ∷ buf) in
    let g = read_full n exp in
    let f = read_full-Filled n exp st in
    let seen' : Seen e a (g.0 ++ content g.2) s = rw f.split at seen in
    let s' = compare_round (b ∷ buf) g.0 s in
    (
      s',
      g.2,
      g.0,
      elim f.mild [ inl q ↦ rw (q, first_body) refl | inr q ↦ rw (q, first_body) refl ],
      f.split,
      f.steady,
      elim f.full [
        | inl all ↦ full-Seen e a (b ∷ buf) g.0 (content g.2) s all (omega arith) seen'
        | inr (short, ended) ↦ rw ended (short-Seen e a (b ∷ buf) g.0 s short (rw ended at seen'))
      ],
    )

first_loop-go :
    (fuel : ℕ) (exp exp' act : Reader) (s s' : Cmp)
    → first_body (read buf_size act).0 exp s ≡ next s' exp'
    → (read buf_size act).1 ≡ none
    → first_loop (suc fuel) exp act s ≡ first_loop fuel exp' (read buf_size act).2 s'
unfolding first_loop
first_loop-go fuel exp exp' act s s' b e = rw (b, e, first_loop) refl

first_loop-leave :
    (fuel : ℕ) (exp exp' act : Reader) (s s' : Cmp)
    → first_body (read buf_size act).0 exp s ≡ next s' exp'
    → (read buf_size act).1 ≡ some eof
    → first_loop (suc fuel) exp act s ≡ extra_loop (suc (size exp')) exp' s'
unfolding first_loop
first_loop-leave fuel exp exp' act s s' b e = rw (b, e, first_loop) refl

-- Both loops end, and have then seen all that both streams deliver.
first_loop-Rest :
    (fuel : ℕ) (exp act : Reader) (e a : List ℕ) (s : Cmp)
    → size act < fuel
    → Steady exp
    → Ends act
    → Seen e a (content exp) s
    → (s' : Cmp) × (first_loop fuel exp act s ≡ some (inl s'))
      × Rest (e ++ content exp) [] (a ++ content act) s'
first_loop-Rest zero exp act e a s h st ends seen = absurd (omega arith)
first_loop-Rest (suc fuel) exp act e a s h st ends seen =
    let g = read buf_size act in
    let took = read-Took buf_size act (omega arith) ends in
    let (s1, exp', got, runs, split, st', seen') = first_body-Seen e a g.0 exp s st seen in
    let all_e : e ++ content exp ≡ (e ++ got) ++ content exp' =
      ap (λ l. e ++ l) split ∙ sym (append_assoc e got (content exp')) in
    let all_a : a ++ content act ≡ (a ++ g.0) ++ content g.2 =
      ap (λ l. a ++ l) took.split ∙ sym (append_assoc a g.0 (content g.2)) in
    elim took.ending [
      | inl q ↦
          let (s', more, r) =
            first_loop-Rest fuel exp' g.2 (e ++ got) (a ++ g.0) s1 (omega (arith, took.shrinks q))
              st' took.ends seen' in
          (s', first_loop-go fuel exp exp' act s s1 runs q ∙ more, rw (all_e, all_a) r)
      | inr (q, done) ↦
          let (s', more, r) =
            extra_loop-Rest (suc (size exp')) exp' (e ++ got) (a ++ g.0) s1 (omega arith)
              (Steady-Ends exp' st') (Seen-Rest (e ++ got) (a ++ g.0) (content exp') s1 seen') in
          let end : a ++ content act ≡ a ++ g.0 =
            all_a ∙ ap (λ l. (a ++ g.0) ++ l) (ap content done) ∙ append-nil (a ++ g.0) in
          (s', first_loop-leave fuel exp exp' act s s1 runs q ∙ more, rw (all_e, end) r)
    ]

start-Seen : (rest : List ℕ) → Seen [] [] rest start
unfolding start
start-Seen rest = record {
  exp_seen = refl;
  act_seen = refl;
  at = refl;
  behind = omega arith;
  even = inl refl;
  verdict = inl (refl, refl);
}

-- What CompareStreams reports of expected bytes E and actual bytes A.
abbrev pub Reports : (List ℕ → List ℕ) → List ℕ → List ℕ → Option Outcome → Type 0
Reports sha256 E A r =
    ((E ≡ A) × (r ≡ some same))
    ⊎ ((m : StreamMismatch) × (E ≢ A)
        × (r ≡ some (differs m))
        × (m.first_bad_byte ≡ common E A)
        × (m.size ≡ max (length E) (length A))
        × (m.expected_sha ≡ hex (sha256 E))
        × (m.actual_sha ≡ hex (sha256 A)))

compare_streams-eq :
    (sha256 : List ℕ → List ℕ) (exp act : Reader) (s : Cmp)
    → first_loop (suc (size act)) exp act start ≡ some (inl s)
    → compare_streams sha256 exp act ≡ some (report sha256 s)
unfolding compare_streams
compare_streams-eq sha256 exp act s e = rw e refl

report-same : (sha256 : List ℕ → List ℕ) (s : Cmp) → s.bad ≡ none → report sha256 s ≡ same
unfolding report
report-same sha256 s e = ground arith

abbrev mismatch : (List ℕ → List ℕ) → Cmp → ℕ → StreamMismatch
mismatch sha256 s b = record {
  size = s.offset;
  expected_sha = hex (sha256 s.exp_hash);
  actual_sha = hex (sha256 s.act_hash);
  first_bad_byte = b;
  expected_hex = hex s.exp_win;
  actual_hex = hex s.act_win;
}

report-differs :
    (sha256 : List ℕ → List ℕ) (s : Cmp) (b : ℕ)
    → s.bad ≡ some b
    → report sha256 s ≡ differs (mismatch sha256 s b)
unfolding report
report-differs sha256 s b e = rw (e, report) refl

Rest-size : (e A : List ℕ) (s : Cmp) → Rest e [] A s → s.offset ≡ max (length e) (length A)
Rest-size e A s r = elim r.at [ inl (at, le) ↦ omega arith | inr (at, le, z) ↦ omega arith ]

-- On readers that end without a real error, and where expected never returns zero bytes with no
-- error, CompareStreams ends. It answers `same` exactly for equal streams, however the reads are
-- cut; otherwise the first bad byte is the length of the common prefix, the size is that of the
-- longer stream, and the two digests are those of the whole streams.
pub compare_streams-Reports :
    (sha256 : List ℕ → List ℕ) (exp act : Reader)
    → Steady exp
    → Ends act
    → Reports sha256 (content exp) (content act) (compare_streams sha256 exp act)
compare_streams-Reports sha256 exp act st ends =
    let (s, runs, r) =
      first_loop-Rest (suc (size act)) exp act [] [] start (omega arith) st ends
        (start-Seen (content exp)) in
    let result = compare_streams-eq sha256 exp act s runs in
    elim r.verdict [
      | inl (clean, eq) ↦ inl (eq, result ∙ ap some (report-same sha256 s clean))
      | inr (b, found, at, ne) ↦ inr (
        mismatch sha256 s b,
        rw (append-nil (content exp)) at ne,
        result ∙ ap some (report-differs sha256 s b found),
        sym (rw (append-nil (content exp)) at at),
        Rest-size (content exp) (content act) s r,
        ap (λ l. hex (sha256 l)) r.exp_seen,
        ap (λ l. hex (sha256 l)) r.act_seen,
      )
    ]
