-- ===== src/Objstore/Compare/Streams.antt =====
-- The loops of CompareStreams over whole readers.
use mathlib.Core.List.{append_assoc, append-nil}
use io_stress.Common.{
  ℕ, ◌+◌, ◌≤◌, ◌<◌, ◌≡◌, ◌≢◌, refl, ap, ◌∙◌, inl, inr, ◌⊎◌, some, none, List, [], ◌∷◌, ◌++◌, arith,
  length, length-append, take, drop, take-append-drop, length-drop, length-take, take_all, lt→ltb,
  not-lt→ltb,
}
use io_stress.Objstore.Compare.{Cmp, note_bytes, expected_ended, compare_round, extra_round}
use io_stress.Objstore.Compare.Prefix.{common, common_self, common-append, common_right}
use io_stress.Objstore.Compare.Rounds.{
  Verdict, note_bytes-offset, note_bytes-hashes, note_bytes-Verdict, expected_ended-Verdict,
}

-- What the first loop knows after the parts e and a, where `rest` is what expected still has.
pub record Seen (e a rest : List ℕ) (s : Cmp) : Type 0 where
  pub exp_seen : s.exp_hash ≡ e
  pub act_seen : s.act_hash ≡ a
  pub at : s.offset ≡ length a
  pub behind : length e ≤ length a
  pub even : (length e ≡ length a) ⊎ (rest ≡ [])
  pub verdict : Verdict e a rest s.bad

expected_ended-frame :
    (ys : List ℕ) (s : Cmp)
    → ((expected_ended ys s).offset ≡ s.offset + length ys)
      × ((expected_ended ys s).exp_hash ≡ s.exp_hash)
      × ((expected_ended ys s).act_hash ≡ s.act_hash)
unfolding expected_ended
expected_ended-frame ys s = ground arith

abbrev hashed : List ℕ → List ℕ → Cmp → Cmp
hashed buf got s = record s { act_hash = s.act_hash ++ buf; exp_hash = s.exp_hash ++ got }

compare_round-full :
    (buf got : List ℕ) (s : Cmp)
    → length got ≡ length buf
    → compare_round buf got s ≡ note_bytes got buf (hashed buf got s)
unfolding compare_round
compare_round-full buf got s h = rw (not-lt→ltb (length got) (length buf) (λ lt. omega arith)) refl

compare_round-short :
    (buf got : List ℕ) (s : Cmp)
    → length got < length buf
    → compare_round buf got s
      ≡ expected_ended (drop (length got) buf) (note_bytes got buf (hashed buf got s))
unfolding compare_round
compare_round-short buf got s h = rw (lt→ltb (length got) (length buf) h) refl

pub full-Seen :
    (e a buf got rest : List ℕ) (s : Cmp)
    → length got ≡ length buf
    → 0 < length buf
    → Seen e a (got ++ rest) s
    → Seen (e ++ got) (a ++ buf) rest (compare_round buf got s)
full-Seen e a buf got rest s len more seen =
    let t = hashed buf got s in
    let frame = note_bytes-hashes got buf t in
    let even : length e ≡ length a = level e a got rest (omega arith) seen.even in
    let all : take (length got) buf ≡ buf = take_all (length got) buf (omega arith) in
    rw (compare_round-full buf got s len) (record {
      exp_seen = frame.0 ∙ ap (λ l. l ++ got) seen.exp_seen;
      act_seen = frame.1 ∙ ap (λ l. l ++ buf) seen.act_seen;
      at = omega (arith, note_bytes-offset got buf t, seen.at, length-append a buf);
      behind = omega (arith, length-append e got, length-append a buf);
      even = inl (omega (arith, length-append e got, length-append a buf));
      verdict = rw all at (
          note_bytes-Verdict got buf e a t (got ++ rest) rest (omega arith) even seen.at
            seen.verdict);
    })
  where
    level :
        (e a got rest : List ℕ)
        → 0 < length got
        → (length e ≡ length a) ⊎ (got ++ rest ≡ [])
        → length e ≡ length a
    level e a got rest h (inl q) = q
    level e a [] rest h (inr q) = absurd (omega arith)
    level e a (g ∷ got) rest h (inr q) = cc

-- note_bytes when expected brought something or nothing, just before its end.
tail_Verdict :
    (e a buf got : List ℕ) (t : Cmp)
    → length got < length buf
    → (length e ≡ length a) ⊎ (got ++ [] ≡ [])
    → t.offset ≡ length a
    → Verdict e a (got ++ []) t.bad
    → Verdict (e ++ got) (a ++ take (length got) buf) [] (note_bytes got buf t).bad
unfolding note_bytes
tail_Verdict e a buf [] t h even at v = rw (append-nil e, append-nil a) v
tail_Verdict e a buf (g ∷ got) t h (inl even) at v =
    note_bytes-Verdict (g ∷ got) buf e a t ((g ∷ got) ++ []) [] (omega arith) even at v
tail_Verdict e a buf (g ∷ got) t h (inr q) at v = cc

pub short-Seen :
    (e a buf got : List ℕ) (s : Cmp)
    → length got < length buf
    → Seen e a (got ++ []) s
    → Seen (e ++ got) (a ++ buf) [] (compare_round buf got s)
short-Seen e a buf got s short seen =
    let t = hashed buf got s in
    let n = note_bytes got buf t in
    let frame = note_bytes-hashes got buf t in
    let rest = drop (length got) buf in
    let ended = expected_ended-frame rest n in
    let moved = note_bytes-offset got buf t (omega arith) in
    let left = length-drop (length got) buf in
    let kept = length-take (length got) buf in
    let here : n.offset ≡ length (a ++ take (length got) buf) =
      omega (arith, seen.at, moved, kept, length-append a (take (length got) buf)) in
    let glue : (a ++ take (length got) buf) ++ rest ≡ a ++ buf =
      append_assoc a (take (length got) buf) rest
      ∙ ap (λ l. a ++ l) (take-append-drop (length got) buf) in
    rw (compare_round-short buf got s short) (record {
      exp_seen = ended.1 ∙ frame.0 ∙ ap (λ l. l ++ got) seen.exp_seen;
      act_seen = ended.2 ∙ frame.1 ∙ ap (λ l. l ++ buf) seen.act_seen;
      at = omega (arith, ended.0, moved, left, seen.at, length-append a buf);
      behind = omega (arith, seen.behind, length-append e got, length-append a buf);
      even = inr refl;
      verdict = rw glue at (
          expected_ended-Verdict (e ++ got) (a ++ take (length got) buf) rest n
            (omega (arith, left)) here
            (tail_Verdict e a buf got t short seen.even seen.at seen.verdict));
    })

-- What the second loop knows. E is all that expected delivers, A all that actual delivered.
pub record Rest (e rest A : List ℕ) (s : Cmp) : Type 0 where
  pub exp_seen : s.exp_hash ≡ e
  pub act_seen : s.act_hash ≡ A
  pub at :
      ((s.offset ≡ length e) × (length A ≤ length e))
      ⊎ ((s.offset ≡ length A) × (length e ≤ length A) × (rest ≡ []))
  pub verdict :
      ((s.bad ≡ none) × (e ≡ A))
      ⊎ ((b : ℕ) × (s.bad ≡ some b) × (common (e ++ rest) A ≡ b) × (e ++ rest ≢ A))

differ_of_common : (E A : List ℕ) → (common E A < length E) ⊎ (common E A < length A) → E ≢ A
differ_of_common E A h p = omega (arith, ap (λ t. common t A) p, common_self A, ap length p)

pub Seen-Rest : (e A rest : List ℕ) (s : Cmp) → Seen e A rest s → Rest e rest A s
Seen-Rest e A rest s seen = record {
  exp_seen = seen.exp_seen;
  act_seen = seen.act_seen;
  at = elim seen.even [
    | inl q ↦ inl (omega (arith, seen.at), omega arith)
    | inr q ↦ inr (seen.at, seen.behind, q)
  ];
  verdict = elim seen.verdict [
    | inl clean ↦ inl clean
    | inr (b, found, at, in_a, in_e) ↦ elim in_e [
      | inl in_e ↦
          let same = rw (append-nil A) at (common-append e A rest [] (omega arith) (omega arith)) in
          inr (b, found, same ∙ at, differ_of_common (e ++ rest) A (inr (omega (arith, same))))
      | inr ended ↦
          rw (ended, append-nil e) (inr (b, found, at, differ_of_common e A (inr (omega arith))))
    ]
  ];
}

extra_round-frame :
    (bs : List ℕ) (s : Cmp)
    → ((extra_round bs s).offset ≡ s.offset + length bs)
      × ((extra_round bs s).exp_hash ≡ s.exp_hash ++ bs)
      × ((extra_round bs s).act_hash ≡ s.act_hash)
unfolding extra_round
extra_round-frame bs s = ground arith

extra_round-bad :
    (bs : List ℕ) (s : Cmp)
    → (s.bad ≡ none → (extra_round bs s).bad ≡ some s.offset)
      × ((b : ℕ) → s.bad ≡ some b → (extra_round bs s).bad ≡ some b)
unfolding extra_round
extra_round-bad bs s = (λ q. ground arith, λ b q. ground arith)

pub extra_round-Rest :
    (e bs rest A : List ℕ) (s : Cmp)
    → 0 < length bs
    → Rest e (bs ++ rest) A s
    → Rest (e ++ bs) rest A (extra_round bs s)
extra_round-Rest e bs rest A s h r = record {
  exp_seen = frame.1 ∙ ap (λ l. l ++ bs) r.exp_seen;
  act_seen = frame.2 ∙ r.act_seen;
  at = elim r.at [
    | inl (at, le) ↦
        inl (omega (arith, frame.0, length-append e bs), omega (arith, length-append e bs))
    | inr (at, le, none_left) ↦ absurd (omega (arith, ap length none_left, length-append bs rest))
  ];
  verdict = inr (elim r.verdict [
    | inl (clean, e≡A) ↦
        let here : common ((e ++ bs) ++ rest) A ≡ length A =
          rw (append_assoc e bs rest, e≡A) (common_right A (bs ++ rest)) in
        (
          s.offset,
          bad.0 clean,
          here ∙ offset e≡A r.at,
          differ_of_common ((e ++ bs) ++ rest) A (
              inl (
                omega
                  (arith, here, ap length e≡A, length-append (e ++ bs) rest, length-append e bs))),
        )
    | inr (b, found, at, ne) ↦ rw (append_assoc e bs rest) (b, bad.1 b found, at, ne)
  ]);
}
  where
    frame :
        ((extra_round bs s).offset ≡ s.offset + length bs)
        × ((extra_round bs s).exp_hash ≡ s.exp_hash ++ bs)
        × ((extra_round bs s).act_hash ≡ s.act_hash)
    frame = extra_round-frame bs s

    bad :
        (s.bad ≡ none → (extra_round bs s).bad ≡ some s.offset)
        × ((b : ℕ) → s.bad ≡ some b → (extra_round bs s).bad ≡ some b)
    bad = extra_round-bad bs s

    offset :
        e ≡ A
        → ((s.offset ≡ length e) × (length A ≤ length e))
          ⊎ ((s.offset ≡ length A) × (length e ≤ length A) × (bs ++ rest ≡ []))
        → length A ≡ s.offset
    offset q (inl (at, le)) = omega (arith, ap length q)
    offset q (inr (at, le, z)) = omega arith
