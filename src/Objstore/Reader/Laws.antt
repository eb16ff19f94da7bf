-- ===== src/Objstore/Reader/Laws.antt =====
-- What Read and readFull deliver of a reader that ends without a real error.
use mathlib.Core.List.{append_assoc}
use io_stress.Common.{
  ℕ, zero, suc, ◌+◌, ◌-◌, ◌≤◌, ◌<◌, ◌≡◌, refl, sym, ap, ◌∙◌, inl, inr, ◌⊎◌, some, none, List, [],
  ◌∷◌, ◌++◌, arith, dec_le, dec_lt, le→leb, not-le→leb, length, length-append, take, drop,
  length-take, length-drop, take-append-drop,
}
use io_stress.Objstore.Reader.{eof, Reader, Got, read, read_more, read_full, content, size}

-- io.EOF comes last, alone or with bytes, and there is no other error.
abbrev pub Ends : Reader → Type 0
Ends [] = Unit {0}
Ends (p ∷ r) = ((p.err ≡ none) × Ends r) ⊎ ((p.err ≡ some eof) × (r ≡ []))

-- And no call returns zero bytes with no error.
abbrev pub Steady : Reader → Type 0
Steady [] = Unit {0}
Steady (p ∷ r) =
    ((p.err ≡ none) × (0 < length p.bytes) × Steady r) ⊎ ((p.err ≡ some eof) × (r ≡ []))

pub Steady-Ends : (r : Reader) → Steady r → Ends r
Steady-Ends [] h = tt
Steady-Ends (p ∷ r) (inl (e, n, h)) = inl (e, Steady-Ends r h)
Steady-Ends (p ∷ r) (inr h) = inr h

-- What one call took off a reader that ends.
pub record Took (r : Reader) (g : Got) : Type 0 where
  pub split : content r ≡ g.0 ++ content g.2
  pub ends : Ends g.2
  pub ending : (g.1 ≡ none) ⊎ ((g.1 ≡ some eof) × (g.2 ≡ []))
  pub shrinks : g.1 ≡ none → size g.2 < size r

pub read-Took : (n : ℕ) (r : Reader) → 0 < n → Ends r → Took r (read n r)
unfolding read
read-Took n [] h e = record {
  split = refl;
  ends = tt;
  ending = inr (refl, refl);
  shrinks = λ q. cc;
}
read-Took n (p ∷ r) h e = elim (dec_le (length p.bytes) n) [
  | yes fits ↦ rw (le→leb (length p.bytes) n fits) (elim e [
    | inl (q, er) ↦ record { split = refl; ends = er; ending = inl q; shrinks = λ _. omega arith }
    | inr (q, er) ↦ record {
      split = refl;
      ends = rw er tt;
      ending = inr (q, er);
      shrinks = λ w. cc;
    }
  ])
  | no large ↦ rw (not-le→leb (length p.bytes) n large) (record {
    split =
        ap (λ t. t ++ content r) (sym (take-append-drop n p.bytes))
        ∙ append_assoc (take n p.bytes) (drop n p.bytes) (content r);
    ends = e;
    ending = inl refl;
    shrinks = λ _. omega (arith, length-drop n p.bytes);
  })
]

-- On a steady reader a call into a buffer of some size makes progress.
read-Steady :
    (n : ℕ) (r : Reader)
    → 0 < n
    → Steady r
    → Steady (read n r).2 × ((read n r).1 ≡ none → 0 < length (read n r).0)
unfolding read
read-Steady n [] h e = (tt, λ q. cc)
read-Steady n (p ∷ r) h e = elim (dec_le (length p.bytes) n) [
  | yes fits ↦
      rw (le→leb (length p.bytes) n fits)
        (elim e [ inl (q, more, er) ↦ (er, λ _. more) | inr (q, er) ↦ (rw er tt, λ w. cc) ])
  | no large ↦ rw (not-le→leb (length p.bytes) n large) (
    elim e [
      | inl (q, more, er) ↦ inl (q, omega (arith, length-drop n p.bytes), er)
      | inr q ↦ inr q
    ],
    λ _. omega (arith, length-take n p.bytes),
  )
]

length-read : (n : ℕ) (r : Reader) → length (read n r).0 ≤ n
unfolding read
length-read n [] = omega arith
length-read n (p ∷ r) = ground (arith, length-take n p.bytes)

-- A call that neither fills the buffer nor ends the reader uses up a piece.
length-read-short :
    (n : ℕ) (r : Reader)
    → length (read n r).0 < n
    → (read n r).1 ≡ none
    → length (read n r).2 < length r
unfolding read
length-read-short n [] h e = cc
length-read-short n (p ∷ r) h e = ground (arith, length-take n p.bytes)

-- What the loop of readFull took off a steady reader, with `got` read before and `want` bytes of
-- room: all that fits, or all that there was.
record Fills (want : ℕ) (got : List ℕ) (r : Reader) (g : Got) : Type 0 where
  split : got ++ content r ≡ g.0 ++ content g.2
  steady : Steady g.2
  full : (length g.0 ≡ length got + want) ⊎ ((length g.0 < length got + want) × (content g.2 ≡ []))
  mild : (g.1 ≡ none) ⊎ (g.1 ≡ some eof)

read_more-none :
    (fuel want : ℕ) (got : List ℕ) (r : Reader)
    → want ≡ 0
    → read_more fuel want got r ≡ (got, none, r)
unfolding read_more
read_more-none zero want got r h = refl
read_more-none (suc fuel) want got r h = rw h

read_more-go :
    (fuel want : ℕ) (got : List ℕ) (r : Reader)
    → 0 < want
    → (read want r).1 ≡ none
    → 0 < length (read want r).0
    → read_more (suc fuel) want got r
      ≡ read_more fuel (want - length (read want r).0) (got ++ (read want r).0) (read want r).2
unfolding read_more
read_more-go fuel want got r h e more =
    rw
      (
        not-le→leb want 0 (λ le. omega arith),
        e,
        not-le→leb (length (read want r).0) 0 (λ le. omega arith),
      )
      refl

read_more-eof :
    (fuel want : ℕ) (got : List ℕ) (r : Reader)
    → 0 < want
    → (read want r).1 ≡ some eof
    → read_more (suc fuel) want got r ≡ (got ++ (read want r).0, some eof, (read want r).2)
unfolding read_more
read_more-eof fuel want got r h e = rw (not-le→leb want 0 (λ le. omega arith), e) refl

none_wanted :
    (fuel want : ℕ) (got : List ℕ) (r : Reader)
    → want ≡ 0
    → Steady r
    → Fills want got r (read_more fuel want got r)
none_wanted fuel want got r h st =
    rw (read_more-none fuel want got r h)
      (record { split = refl; steady = st; full = inl (omega arith); mild = inl refl })

-- Before the call: bytes bs were read and r' is left.
Fills-after :
    (want : ℕ) (got bs : List ℕ) (r r' : Reader) (g : Got)
    → content r ≡ bs ++ content r'
    → length bs ≤ want
    → Fills (want - length bs) (got ++ bs) r' g
    → Fills want got r g
Fills-after want got bs r r' g e le f = record {
  split = ap (λ t. got ++ t) e ∙ sym (append_assoc got bs (content r')) ∙ f.split;
  steady = f.steady;
  full = elim f.full [
    | inl n ↦ inl (omega (arith, length-append got bs))
    | inr (short, c) ↦ inr (omega (arith, length-append got bs), c)
  ];
  mild = f.mild;
}

room :
    (fuel want : ℕ) (r : Reader)
    → length r < suc fuel
    → (read want r).1 ≡ none
    → (want - length (read want r).0 ≡ 0) ⊎ (length (read want r).2 < fuel)
room fuel want r h e = elim (dec_lt (length (read want r).0) want) [
  | yes short ↦ inr (omega (arith, length-read-short want r short e))
  | no full ↦ inl (omega arith)
]

at_end :
    (want : ℕ) (got bs : List ℕ) {rest : List ℕ}
    → length bs ≤ want
    → rest ≡ []
    → (length (got ++ bs) ≡ length got + want)
      ⊎ ((length (got ++ bs) < length got + want) × (rest ≡ []))
at_end want got bs le e = elim (dec_lt (length bs) want) [
  | yes short ↦ inr (omega (arith, length-append got bs), e)
  | no full ↦ inl (omega (arith, length-append got bs))
]

read_more-Fills :
    (fuel want : ℕ) (got : List ℕ) (r : Reader)
    → (want ≡ 0) ⊎ (length r < fuel)
    → Steady r
    → Fills want got r (read_more fuel want got r)
read_more-Fills fuel want got r (inl h) st = none_wanted fuel want got r h st
read_more-Fills zero want got r (inr h) st = absurd (omega arith)
read_more-Fills (suc fuel) want got r (inr h) st = elim (dec_lt 0 want) [
  | no done ↦ none_wanted (suc fuel) want got r (omega arith) st
  | yes more ↦
      let took = read-Took want r more (Steady-Ends r st) in
      let steady = read-Steady want r more st in
      elim took.ending [
        | inl e ↦ rw (read_more-go fuel want got r more e (steady.1 e)) (
            Fills-after want got (read want r).0 r (read want r).2 _ took.split (length-read want r)
              (read_more-Fills fuel (want - length (read want r).0) (got ++ (read want r).0)
                (read want r).2 (room fuel want r h e) steady.0))
        | inr (e, done) ↦ rw (read_more-eof fuel want got r more e) (record {
          split =
              ap (λ t. got ++ t) took.split
              ∙ sym (append_assoc got (read want r).0 (content (read want r).2));
          steady = steady.0;
          full = at_end want got (read want r).0 (length-read want r) (ap content done);
          mild = inr refl;
        })
      ]
]

-- readFull of n bytes on a steady reader: the bytes come first in what the reader delivers, they
-- are n or all of it, and the error is none or io.EOF.
pub record Filled (n : ℕ) (r : Reader) (g : Got) : Type 0 where
  pub split : content r ≡ g.0 ++ content g.2
  pub steady : Steady g.2
  pub full : (length g.0 ≡ n) ⊎ ((length g.0 < n) × (content g.2 ≡ []))
  pub mild : (g.1 ≡ none) ⊎ (g.1 ≡ some eof)

pub read_full-Filled : (n : ℕ) (r : Reader) → Steady r → Filled n r (read_full n r)
unfolding read_full
read_full-Filled n r st =
    let f = read_more-Fills (suc (length r)) n [] r (inr (omega arith)) st in
    record {
      split = f.split;
      steady = f.steady;
      full = elim f.full [ inl e ↦ inl (omega arith) | inr (short, c) ↦ inr (omega arith, c) ];
      mild = f.mild;
    }
