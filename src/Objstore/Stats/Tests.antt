-- ===== src/Objstore/Stats/Tests.antt =====
-- pkg/objstore/stats.go at concrete calls, with whole milliseconds for its floats.
use io_stress.Common.{ℕ, ◌<◌, ◌≡◌, refl, List, [], ◌∷◌, some, arith, get_elem?}
use io_stress.Common.Dict
use io_stress.Common.Dict.{lookup, insert}
use io_stress.Objstore.Stats.{
  rank_index, percentile, target_rank, hist_percentile, empty_latency, add, new_stats, stat, sort,
  insert_sorted,
}
use io_stress.Objstore.Stats.Whole.{whole}
use io_stress.Objstore.Stats.Samples.{add_all, Kept, add_all-empty-Kept}
use io_stress.Objstore.Stats.Quantiles.{percentile-elem, Reaches, hist_percentile-Reaches}
use io_stress.Objstore.Stats.Notes.{Call, retried, failed, calls, calls-new_stats-tally}

three_samples :
    stat whole (add whole 30 (add whole 10 (add whole 20 (empty_latency whole))))
    ≡ record { count = 3; p50_ms = 20; p95_ms = 30; p99_ms = 30; max_ms = 30 }
unfolding stat add sort insert_sorted percentile rank_index empty_latency
three_samples = refl

add_all-empty-Kept_example :
    Kept whole (20 ∷ 10 ∷ []) (add_all whole (20 ∷ 10 ∷ []) (empty_latency whole))
add_all-empty-Kept_example = add_all-empty-Kept whole (20 ∷ 10 ∷ []) (omega arith)

percentile_elem_run :
    (i : ℕ) × (i < 3)
    × (get_elem? (10 ∷ 20 ∷ 30 ∷ []) i ≡ some (percentile whole (10 ∷ 20 ∷ 30 ∷ []) 50))
percentile_elem_run = percentile-elem whole (10 ∷ 20 ∷ 30 ∷ []) 50 (omega arith)

hist_percentile-Reaches_example :
    Reaches whole (2 ∷ 0 ∷ 5 ∷ []) 0 0 4 (hist_percentile whole (2 ∷ 0 ∷ 5 ∷ []) 7 50)
unfolding target_rank
hist_percentile-Reaches_example =
    hist_percentile-Reaches whole (2 ∷ 0 ∷ 5 ∷ []) 7 50 (omega arith) (omega arith) refl
      (omega arith)

abbrev some_calls : List Call
some_calls = retried "SlowDown" "" ∷ failed "SlowDown" "r1" ∷ failed "" "r2" ∷ []

calls-new_stats-tally_example :
    (Dict.get_or "SlowDown" 0 (calls whole some_calls (new_stats whole)).errors ≡ 2)
    × (Dict.get_or "SlowDown" "" (calls whole some_calls (new_stats whole)).samples ≡ "r1")
    × ((calls whole some_calls (new_stats whole)).retries ≡ 1)
calls-new_stats-tally_example = calls-new_stats-tally whole some_calls "SlowDown" (omega arith)
