-- ===== src/Worker/Walk/Covered.antt =====
-- pkg/worker/phases.go, acc.walk: what holds in every state of a walk.
use io_stress.Common.{
  ℕ, ◌+◌, ◌≤◌, ◌<◌, ◌≡◌, refl, sym, ap, subst, true, false, ◌&&◌, List, ◌∷◌, ◌++◌, arith, ltb, leb,
  dec_lt, if◌then◌else◌, length,
}
use io_stress.Worker.Walk.{
  Walk, begin, Step, cancel, leave, launch, succeed, fail_late, fail_first, store, crash, Reach,
  here, next_step, Waited,
}
use io_stress.Worker.Walk.Counts.{
  occurs, one_if, occurs-middle, length-middle, holders, occurs-holders,
}

-- Whether an index lies between two bounds, as a number.
abbrev pub between : ℕ → ℕ → ℕ → ℕ
between lo hi j = if leb lo j && ltb j hi then 1 else 0

between-suc : (lo hi j : ℕ) → lo ≤ hi → one_if hi j + between lo hi j ≡ between lo (hi + 1) j
between-suc lo hi j h = ground arith

module _ {E : Type 0} (kind : E → ℕ) (start end conc : ℕ) where
  -- How many goroutines an index has had.
  abbrev pub seen : ℕ → Walk kind → ℕ
  seen j w = occurs j w.running + occurs j (holders w.storing) + occurs j w.finished

  pub record Inv (w : Walk kind) : Type 0 where
    pub above : start ≤ w.next
    pub below : w.next ≤ end
    pub few : length w.running + length w.storing ≤ conc
    pub once : w.panicked ≡ false → (j : ℕ) → seen j w ≡ between start w.next j
    pub left : w.broken ≡ true → w.canceled ≡ true

  Inv-begin : start ≤ end → Inv (begin kind start)
  unfolding occurs
  Inv-begin h = record {
    above = omega arith;
    below = h;
    few = omega arith;
    once = λ p j. ground arith;
    left = λ p. cc;
  }

  -- A goroutine that ends: it leaves `running`, with the error that is stored by then.
  ended :
      (w : Walk kind) (i : ℕ) (before after : List ℕ)
      → w.running ≡ before ++ i ∷ after
      → Inv w
      → Inv (record w { running = before ++ after; finished = i ∷ w.finished })
  unfolding occurs
  ended w i before after e inv = record {
    above = inv.above;
    below = inv.below;
    few = omega (arith, inv.few, ap length e, length-middle i before after);
    once = λ p j. omega (arith, inv.once p j, ap (occurs j) e, occurs-middle j i before after);
    left = inv.left;
  }

  Step-Inv : {w v : Walk kind} → w.panicked ≡ false → Step kind end conc w v → Inv w → Inv v
  unfolding occurs
  Step-Inv {w} ok (cancel e) inv = subst Inv (sym e) (record {
    above = inv.above;
    below = inv.below;
    few = inv.few;
    once = inv.once;
    left = λ p. refl;
  })
  Step-Inv {w} ok (leave c b lt e) inv = subst Inv (sym e) (record {
    above = inv.above;
    below = inv.below;
    few = inv.few;
    once = inv.once;
    left = λ p. c;
  })
  Step-Inv {w} ok (launch b lt room e) inv = subst Inv (sym e) (record {
    above = omega (arith, inv.above);
    below = omega arith;
    few = omega arith;
    once = λ p j. omega (arith, inv.once p j, between-suc start w.next j inv.above);
    left = inv.left;
  })
  Step-Inv {w} ok (succeed i before after r e) inv =
      subst Inv (sym e) (ended w i before after r inv)
  Step-Inv {w} ok (fail_late i before after old r f e) inv =
      subst Inv (sym e) (ended w i before after r inv)
  Step-Inv {w} ok (fail_first i before after x r f e) inv = subst Inv (sym e) (record {
    above = inv.above;
    below = inv.below;
    few = omega (arith, inv.few, ap length r, length-middle i before after);
    once = λ p j. omega (arith, inv.once p j, ap (occurs j) r, occurs-middle j i before after);
    left = inv.left;
  })
  Step-Inv {w} ok (store i x before after s fits e) inv = subst Inv (sym e) (record {
    above = inv.above;
    below = inv.below;
    few = omega (arith, inv.few, ap length s, length-middle (i, x) before after);
    once = λ p j.
        omega (
          arith,
          inv.once p j,
          ap (λ l. occurs j (holders l)) s,
          occurs-holders j i x before after,
        );
    left = inv.left;
  })
  Step-Inv {w} ok (crash i x old before after s f ne e) inv = subst Inv (sym e) (record {
    above = inv.above;
    below = inv.below;
    few = omega (arith, inv.few, ap length s, length-middle (i, x) before after);
    once = λ p j. cc;
    left = inv.left;
  })

  pub Reach-Inv : {w : Walk kind} → start ≤ end → Reach kind start end conc w → Inv w
  Reach-Inv h here = Inv-begin h
  Reach-Inv h (next_step r ok s) = Step-Inv ok s (Reach-Inv h r)

-- At any time at most as many goroutines as allowed are at work, and an index has had one goroutine
-- if it lies in the shard and below the loop's next index, and else none.
pub walk-bounded :
    {E : Type 0} (kind : E → ℕ) (start end conc : ℕ) (w : Walk kind)
    → start ≤ end
    → Reach kind start end conc w
    → w.panicked ≡ false
    → (length w.running + length w.storing ≤ conc)
      × (w.next ≤ end)
      × ((j : ℕ)
          → occurs j w.running + occurs j (holders w.storing) + occurs j w.finished
            ≡ between start w.next j)
walk-bounded kind start end conc w h r ok =
    let inv = Reach-Inv kind start end conc h r in (inv.few, inv.below, inv.once ok)

-- When walk has waited for all goroutines, none has panicked and the context was not canceled, every
-- index of the shard has had its body run exactly once, and no other index has.
pub walk-covers :
    {E : Type 0} (kind : E → ℕ) (start end conc : ℕ) (w : Walk kind)
    → start ≤ end
    → Reach kind start end conc w
    → w.panicked ≡ false
    → Waited kind end w
    → w.canceled ≡ false
    → (j : ℕ) → occurs j w.finished ≡ between start end j
unfolding occurs
walk-covers kind start end conc w h r ok done live j =
    let inv = Reach-Inv kind start end conc h r in
    omega (
      arith,
      inv.once ok j,
      ap (occurs j) done.quiet,
      ap (λ l. occurs j (holders l)) done.stored,
      ap (λ n. between start n j) (at_end w end inv.below done.looped inv.left live),
    )
  where
    at_end :
        (w : Walk kind) (end : ℕ)
        → w.next ≤ end
        → (w.next < end → w.broken ≡ true)
        → (w.broken ≡ true → w.canceled ≡ true)
        → w.canceled ≡ false
        → w.next ≡ end
    at_end w end le looped left live = elim (dec_lt w.next end) [
      | yes lt ↦ cc (left (looped lt))
      | no ge ↦ omega arith
    ]
