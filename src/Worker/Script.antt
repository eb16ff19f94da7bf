-- ===== src/Worker/Script.antt =====
-- What one goroutine of a phase does: calls to the server, in order, and the calls that it makes on
-- its bucket's accumulator. The replies are those of a server that other goroutines use as well, so
-- they depend on a state of which nothing is assumed.
use io_stress.Common.{List, [], ◌∷◌, ◌++◌, Bool, true, false}
use io_stress.Worker.Acc.{Event}

abbrev pub Script : Type 0 → Type 0 → Type 0
Script S A = S → A × List Event × S

infixl 5 ◌>>=◌ ◌>>◌
abbrev pub ◌>>=◌ : {S A B : Type 0} → Script S A → (A → Script S B) → Script S B
◌>>=◌ m f s =
    let first = m s in let second = f first.0 first.2 in (second.0, first.1 ++ second.1, second.2)

abbrev pub ◌>>◌ : {S A B : Type 0} → Script S A → Script S B → Script S B
m >> n = m >>= λ _. n

abbrev pub ret : {S A : Type 0} → A → Script S A
ret a s = (a, [], s)

abbrev pub call : {S A : Type 0} → (S → A × S) → Script S A
call f s = let got = f s in (got.0, [], got.1)

abbrev pub emit : {S : Type 0} → Event → Script S (Unit {0})
emit e s = (tt, e ∷ [], s)

abbrev pub when : {S : Type 0} → Bool → Script S (Unit {0}) → Script S (Unit {0})
when true m = m
when false m = ret tt
