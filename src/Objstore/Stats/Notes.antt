-- ===== src/Objstore/Stats/Notes.antt =====
-- pkg/objstore/stats.go, NoteRetry and NoteError: what the error maps hold after any calls.
use io_stress.Common.{
  ℕ, suc, ◌+◌, ◌<◌, ◌≡◌, true, false, List, [], ◌∷◌, String, arith, str_eq, eq_iff, u64, u64_mod,
  if◌then◌else◌, not, ◌&&◌, Bool, length,
}
use io_stress.Common.Dict
use io_stress.Common.Dict.{lookup, insert, lookup-insert}
use io_stress.Objstore.Stats.{Floats, Stats, new_stats, named, note, note_retry, note_error}

-- A call of NoteRetry or NoteError with its code and request id.
pub data Call : Type 0 where
  retried failed : String → String → Call

abbrev code_of : Call → String
code_of (retried code req) = named code
code_of (failed code req) = named code

abbrev req_of : Call → String
req_of (retried code req) = req
req_of (failed code req) = req

abbrev is_retry : Call → Bool
is_retry (retried code req) = true
is_retry (failed code req) = false

-- How many of the calls have the code k.
abbrev pub count : String → List Call → ℕ
count k [] = 0
count k (c ∷ cs) = if str_eq (code_of c) k then suc (count k cs) else count k cs

abbrev retry_count : List Call → ℕ
retry_count [] = 0
retry_count (retried code req ∷ cs) = suc (retry_count cs)
retry_count (failed code req ∷ cs) = retry_count cs

-- The first request id that a call with the code k brought, or none.
abbrev first_req : String → List Call → String
first_req k [] = ""
first_req k (c ∷ cs) =
    if str_eq (code_of c) k && not (str_eq (req_of c) "") then req_of c else first_req k cs

module _ (fl : Floats) where
  call : Call → Stats fl → Stats fl
  call (retried code req) s = note_retry fl code req s
  call (failed code req) s = note_error fl code req s

  pub calls : List Call → Stats fl → Stats fl
  calls [] s = s
  calls (c ∷ cs) s = calls cs (call c s)

  note-errors :
      (code req k : String) (s : Stats fl)
      → Dict.get_or k 0 (note fl code req s).errors ≡ (
          if str_eq (named code) k
          then u64 (Dict.get_or k 0 s.errors + 1)
          else Dict.get_or k 0 s.errors)
  unfolding note
  note-errors code req k s = ground (
    arith,
    eq_iff (named code) k,
    lookup-insert (named code) k (u64 (Dict.get_or (named code) 0 s.errors + 1)) s.errors,
  )

  note-samples :
      (code req k : String) (s : Stats fl)
      → Dict.get_or k "" (note fl code req s).samples ≡ (
          if str_eq (named code) k && not (str_eq req "") && str_eq (Dict.get_or k "" s.samples) ""
          then req
          else Dict.get_or k "" s.samples)
  unfolding note
  note-samples code req k s =
      ground (arith, eq_iff (named code) k, lookup-insert (named code) k req s.samples)

  call-errors :
      (c : Call) (k : String) (s : Stats fl)
      → Dict.get_or k 0 (call c s).errors ≡ (
          if str_eq (code_of c) k
          then u64 (Dict.get_or k 0 s.errors + 1)
          else Dict.get_or k 0 s.errors)
  unfolding call note_retry note_error
  call-errors (retried code req) k s =
      note-errors code req k (record s { retries = u64 (s.retries + 1) })
  call-errors (failed code req) k s = note-errors code req k s

  call-samples :
      (c : Call) (k : String) (s : Stats fl)
      → Dict.get_or k "" (call c s).samples ≡ (
          if str_eq (code_of c) k
            && not (str_eq (req_of c) "")
            && str_eq (Dict.get_or k "" s.samples) ""
          then req_of c
          else Dict.get_or k "" s.samples)
  unfolding call note_retry note_error
  call-samples (retried code req) k s =
      note-samples code req k (record s { retries = u64 (s.retries + 1) })
  call-samples (failed code req) k s = note-samples code req k s

  call-retries :
      (c : Call) (s : Stats fl)
      → (call c s).retries ≡ (if is_retry c then u64 (s.retries + 1) else s.retries)
  unfolding call note_retry note_error note
  call-retries (retried code req) s = ground (arith, eq_iff req "")
  call-retries (failed code req) s = ground (arith, eq_iff req "")

  calls-errors :
      (cs : List Call) (k : String) (s : Stats fl)
      → Dict.get_or k 0 s.errors + length cs < u64_mod
      → Dict.get_or k 0 (calls cs s).errors ≡ Dict.get_or k 0 s.errors + count k cs
  unfolding calls
  calls-errors [] k s h = omega arith
  calls-errors (c ∷ cs) k s h = ground (arith, call-errors c k s, calls-errors cs k (call c s))

  calls-samples :
      (cs : List Call) (k : String) (s : Stats fl)
      → Dict.get_or k "" (calls cs s).samples ≡ (
          if str_eq (Dict.get_or k "" s.samples) ""
          then first_req k cs
          else Dict.get_or k "" s.samples)
  unfolding calls
  calls-samples [] k s = ground (arith, eq_iff (Dict.get_or k "" s.samples) "")
  calls-samples (c ∷ cs) k s = ground (
    arith,
    eq_iff (Dict.get_or k "" s.samples) "",
    eq_iff (req_of c) "",
    call-samples c k s,
    calls-samples cs k (call c s),
  )

  calls-retries :
      (cs : List Call) (s : Stats fl)
      → s.retries + length cs < u64_mod
      → (calls cs s).retries ≡ s.retries + retry_count cs
  unfolding calls
  calls-retries [] s h = omega arith
  calls-retries (retried code req ∷ cs) s h = omega (
    arith,
    call-retries (retried code req) s,
    calls-retries cs (call (retried code req) s) (omega (arith, call-retries (retried code req) s)),
  )
  calls-retries (failed code req ∷ cs) s h = omega (
    arith,
    call-retries (failed code req) s,
    calls-retries cs (call (failed code req) s) (omega (arith, call-retries (failed code req) s)),
  )

  -- After fewer than 2 ^ 64 calls of NoteRetry and NoteError on a new Stats, each code's entry is
  -- the number of calls with that code ("Unknown" for an empty one), the request id kept for a
  -- code is the first non-empty one that came with it, and retries is the number of NoteRetry calls.
  pub calls-new_stats-tally :
      (cs : List Call) (k : String)
      → length cs < u64_mod
      → (Dict.get_or k 0 (calls cs (new_stats fl)).errors ≡ count k cs)
        × (Dict.get_or k "" (calls cs (new_stats fl)).samples ≡ first_req k cs)
        × ((calls cs (new_stats fl)).retries ≡ retry_count cs)
  unfolding lookup
  calls-new_stats-tally cs k h = (
    omega (arith, calls-errors cs k (new_stats fl) (omega arith)),
    calls-samples cs k (new_stats fl),
    omega (arith, calls-retries cs (new_stats fl) (omega arith)),
  )
