-- ===== src/Objstore/Stats/Whole.antt =====
-- Whole milliseconds as the floats of pkg/objstore/stats.go, for runs at concrete inputs.
use io_stress.Common.{ℕ, ◌+◌, ◌*◌, ◌/◌, ltb}
use io_stress.Common.Int.{ℤ, pos, negsuc}
use io_stress.Objstore.Stats.{Floats}

-- A quantile is given in hundredths.
unfoldable pub whole_of : ℤ → ℕ
whole_of (pos n) = n / 1000000
whole_of (negsuc n) = 0

abbrev pub whole : Floats
whole = record {
  F = ℕ;
  nought = 0;
  lowest = 0;
  highest = 3600000;
  less = ltb;
  of_duration = whole_of;
  ceil_mul = λ q n. pos ((q * n + 99) / 100);
  log_index = λ ms. pos (ms / 22500);
  bound = λ i. i * 22500;
  p50 = 50;
  p95 = 95;
  p99 = 99;
}
