-- ===== src/Objstore/Stats.antt =====
-- pkg/objstore/stats.go: latencies and S3 error codes with flat memory. The mutex makes each method
-- atomic, so a method is a function of the state.
use io_stress.Common.{
  ℕ, zero, suc, ◌+◌, ◌-◌, Bool, true, false, not, ◌&&◌, ◌||◌, List, [], ◌∷◌, ◌++◌, map, String,
  Option, none, some, str_eq, ltb, leb, ◌==◌, if◌then◌else◌, length, get_or, set, replicate, u64,
}
use io_stress.Common.Dict
use io_stress.Common.Dict.{lookup, insert}
use io_stress.Common.Int.{ℤ, pos, negsuc}
mod Samples
mod Quantiles
mod Notes
pub mod Whole
mod Tests

-- float64, as far as the file uses it: its order, and the results that are turned into an int.
pub record Floats : Type 1 where
  pub F : Type 0
  pub nought : F  -- 0
  pub lowest : F  -- 0.05
  pub highest : F  -- 3600_000.0
  pub less : F → F → Bool
  pub of_duration : ℤ → F  -- float64(d) / float64(time.Millisecond)
  pub ceil_mul : F → ℕ → ℤ  -- math.Ceil(q * float64(n))
  pub log_index : F → ℤ  -- int(pos * float64(len(histBounds)-1)), from the two logarithms
  pub bound : ℕ → F  -- histBounds[i]
  pub p50 : F
  pub p95 : F
  pub p99 : F

-- len(histBounds)
abbrev pub buckets : ℕ
buckets = 160

-- The samples that are kept exactly.
abbrev pub exact_limit : ℕ
exact_limit = 8192

module _ (fl : Floats) where
  open fl use {F, nought, lowest, highest, less, of_duration, ceil_mul, log_index, bound}

  pub record OpStat : Type 0 where
    pub count : ℕ
    pub p50_ms : F
    pub p95_ms : F
    pub p99_ms : F
    pub max_ms : F

  -- type latency
  pub record Latency : Type 0 where
    pub samples : List F
    pub overflow : Bool
    pub hist : List ℕ
    pub count : ℕ
    pub max : F

  -- &latency{}
  pub empty_latency : Latency
  empty_latency = record {
    samples = [];
    overflow = false;
    hist = replicate buckets 0;
    count = 0;
    max = nought;
  }

-- hist[i]++
pub count_at : ℕ → List ℕ → List ℕ
count_at i hist = set hist i (u64 (get_or hist i 0 + 1))

-- An int clamped to the indices of the histogram.
pub clamp_bucket : ℤ → ℕ
clamp_bucket (negsuc n) = 0
clamp_bucket (pos i) = if leb buckets i then buckets - 1 else i

module _ (fl : Floats) where
  open fl use {F, nought, lowest, highest, less, of_duration, ceil_mul, log_index, bound}

  -- histBucket
  pub hist_bucket : F → ℕ
  unfolding clamp_bucket
  hist_bucket ms =
      if not (less lowest ms)
      then 0
      else if not (less ms highest)
      then buckets - 1
      else clamp_bucket (log_index ms)

  -- for _, v := range l.samples { l.hist[histBucket(v)]++ }
  pub count_all : List F → List ℕ → List ℕ
  count_all [] hist = hist
  count_all (v ∷ vs) hist = count_all vs (count_at (hist_bucket v) hist)

  -- latency.add
  pub add : F → Latency fl → Latency fl
  add ms l =
      let l1 = record l { count = u64 (l.count + 1); max = if less l.max ms then ms else l.max } in
      let spilled = record l1 {
        hist = count_all l.samples l.hist;
        samples = [];
        overflow = true;
      } in
      let l2 = if l.overflow then l1 else spilled in
      if not l.overflow && ltb (length l.samples) exact_limit
      then record l1 { samples = l.samples ++ ms ∷ [] }
      else record l2 { hist = count_at (hist_bucket ms) l2.hist }

  -- sort.Float64s
  pub insert_sorted : F → List F → List F
  insert_sorted x [] = x ∷ []
  insert_sorted x (y ∷ ys) = if less y x then y ∷ insert_sorted x ys else x ∷ (y ∷ ys)

  pub sort : List F → List F
  unfolding insert_sorted
  sort [] = []
  sort (x ∷ xs) = insert_sorted x (sort xs)

  -- The index of percentile: one less than the rounded-up rank, clamped to the samples.
  pub rank_index : ℤ → ℕ → ℕ
  rank_index (negsuc n) len = 0
  rank_index (pos r) len = if leb len (r - 1) then len - 1 else r - 1

  -- percentile
  pub percentile : List F → F → F
  unfolding rank_index
  percentile sorted q =
      if length sorted == 0
      then nought
      else get_or sorted (rank_index (ceil_mul q (length sorted)) (length sorted)) nought

  -- The loop of histPercentile from bucket i, with acc counted before it.
  pub find_bucket : List ℕ → ℕ → ℕ → ℕ → F
  find_bucket [] i acc target = bound (buckets - 1)
  find_bucket (n ∷ hist) i acc target =
      let acc' = u64 (acc + n) in
      let rest = find_bucket hist (i + 1) acc' target in if leb target acc' then bound i else rest

  -- uint64(math.Ceil(q * float64(count))), raised to one
  pub target_rank : ℤ → ℕ
  target_rank (negsuc n) = 1
  target_rank (pos r) = if ltb r 1 then 1 else r

  -- histPercentile
  pub hist_percentile : List ℕ → ℕ → F → F
  unfolding find_bucket target_rank
  hist_percentile hist count q =
      if count == 0 then nought else find_bucket hist 0 0 (target_rank (ceil_mul q count))

  -- latency.stat
  pub stat : Latency fl → OpStat fl
  stat l =
      let sorted = sort l.samples in
      let exact : OpStat fl = record {
        count = l.count;
        p50_ms = percentile sorted fl.p50;
        p95_ms = percentile sorted fl.p95;
        p99_ms = percentile sorted fl.p99;
        max_ms = l.max;
      } in
      let logged : OpStat fl = record {
        count = l.count;
        p50_ms = hist_percentile l.hist l.count fl.p50;
        p95_ms = hist_percentile l.hist l.count fl.p95;
        p99_ms = hist_percentile l.hist l.count fl.p99;
        max_ms = l.max;
      } in
      let nothing : OpStat fl = record {
        count = 0;
        p50_ms = nought;
        p95_ms = nought;
        p99_ms = nought;
        max_ms = nought;
      } in
      if l.count == 0 then nothing else if l.overflow then logged else exact

  -- type Stats
  pub record Stats : Type 0 where
    pub ops : List (String × Latency fl)
    pub errors : List (String × ℕ)
    pub samples : List (String × String)
    pub retries : ℕ

  -- NewStats
  abbrev pub new_stats : Stats
  new_stats = record { ops = []; errors = []; samples = []; retries = 0 }

abbrev pub named : String → String
named code = if str_eq code "" then "Unknown" else code

module _ (fl : Floats) where
  open fl use {F, nought, less, of_duration}

  -- Stats.Observe
  pub observe : String → ℤ → Stats fl → Stats fl
  unfolding add
  observe op d s =
      let ms0 = of_duration d in
      let ms = if less ms0 nought then nought else ms0 in
      let l = Dict.get_or op (empty_latency fl) s.ops in
      record s { ops = insert op (add fl ms l) s.ops }

  -- Stats.note
  pub note : String → String → Stats fl → Stats fl
  note code0 req s =
      let code = named code0 in
      let s1 = record s { errors = insert code (u64 (Dict.get_or code 0 s.errors + 1)) s.errors } in
      if not (str_eq req "") && str_eq (Dict.get_or code "" s.samples) ""
      then record s1 { samples = insert code req s.samples }
      else s1

  -- Stats.NoteRetry
  pub note_retry : String → String → Stats fl → Stats fl
  unfolding note
  note_retry code req s = note code req (record s { retries = u64 (s.retries + 1) })

  -- Stats.NoteError
  pub note_error : String → String → Stats fl → Stats fl
  unfolding note
  note_error code req s = note code req s
