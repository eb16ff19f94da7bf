-- ===== src/Worker/Walk/Tests.antt =====
-- pkg/worker/phases.go, acc.walk: a walk over two indices with two goroutines.
use io_stress.Common.{ℕ, ◌+◌, ◌≤◌, ◌<◌, ◌≡◌, refl, ◌⊎◌, true, false, [], ◌∷◌, arith}
use io_stress.Worker.Walk.{
  Walk, begin, Step, launch, succeed, fail_first, store, Reach, here, next_step, Waited,
}
use io_stress.Worker.Walk.Counts.{occurs, holders}
use io_stress.Worker.Walk.Covered.{between, walk-bounded, walk-covers}
use io_stress.Worker.Walk.Ends.{work, walk-ends, walk-panics, walk-calm}

abbrev same_kind : ℕ → ℕ
same_kind e = 0

abbrev own_kind : ℕ → ℕ
own_kind e = e

-- Both goroutines are launched; the first index ends first, the second one fails.
abbrev launched : (kind : ℕ → ℕ) → (w : Walk kind) × Reach kind 4 6 2 w × (w.panicked ≡ false)
launched kind = (
  _,
  next_step (next_step here refl (launch refl (omega arith) (omega arith) refl)) refl
      (launch refl (omega arith) (omega arith) refl),
  refl,
)

abbrev waited : (w : Walk same_kind) × Reach same_kind 4 6 2 w × Waited same_kind 6 w
waited =
    let r = (launched same_kind).1 in
    let r1 = next_step r refl (succeed 4 (5 ∷ []) [] refl refl) in
    let r2 = next_step r1 refl (fail_first 5 [] [] 9 refl refl refl) in
    (
      _,
      next_step r2 refl (store 5 9 [] [] refl tt refl),
      record { quiet = refl; stored = refl; looped = λ lt. absurd (omega arith) },
    )

walk-bounded_example :
    (2 ≤ 2)
    × (6 ≤ 6)
    × ((j : ℕ)
        → occurs j (5 ∷ 4 ∷ []) + occurs j (holders {E = ℕ} []) + occurs j [] ≡ between 4 6 j)
walk-bounded_example =
    walk-bounded own_kind 4 6 2 (launched own_kind).0 (omega arith) (launched own_kind).1 refl

walk-covers_example : occurs 5 (waited.0).finished ≡ between 4 6 5
walk-covers_example =
    walk-covers same_kind 4 6 2 waited.0 (omega arith) waited.1 refl waited.2 refl 5

walk-ends_example :
    (Waited own_kind 6 (begin own_kind 4)
      ⊎ ((u : Walk own_kind) × Step own_kind 6 2 (begin own_kind 4) u
          × (work own_kind 6 2 u < work own_kind 6 2 (begin own_kind 4))))
    × ((record (begin own_kind 4) { next = 5; running = 4 ∷ [] }
          ≡ record (begin own_kind 4) { canceled = true })
        ⊎ (work own_kind 6 2 (record (begin own_kind 4) { next = 5; running = 4 ∷ [] })
            < work own_kind 6 2 (begin own_kind 4)))
walk-ends_example =
    walk-ends own_kind 6 2 (begin own_kind 4)
      (record (begin own_kind 4) { next = 5; running = 4 ∷ [] }) (omega arith)
      (launch refl (omega arith) (omega arith) refl)

walk-panics_example : (w : Walk own_kind) × Reach own_kind 4 6 2 w × (w.panicked ≡ true)
walk-panics_example = walk-panics own_kind 4 6 2 1 2 (omega arith) (omega arith) (omega arith)

walk-calm_example : (waited.0).panicked ≡ false
walk-calm_example = walk-calm same_kind 4 6 2 waited.0 (λ e f. refl) waited.1
