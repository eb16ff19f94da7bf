-- ===== src/Worker/Run/Tests.antt =====
-- pkg/worker/run.go: two buckets, of which one is left to the finalizer of its OBC.
use io_stress.Common.{ℕ, suc, ◌≡◌, refl, ◌⊎◌, false, String, List, [], ◌∷◌, none, some}
use io_stress.Common.Int.{pos}
use io_stress.Worker.Acc.{ObjectResult, new_acc, ok, skip}
use io_stress.Worker.Spec.{BucketSpec, skip_client}
use io_stress.Worker.Run.{Setting, each, verdict, phase_of, purge}
use io_stress.Worker.Run.Buckets.{Clean, verdict-Clean, after}

abbrev show : ℕ → String
show n = "0"

-- The servers are the number of buckets that a phase has run on.
abbrev counting : Setting show ℕ
counting = record {
  ended = λ n. false;
  open_client = λ b n. (none, n);
  phase = λ b a n. (ok 1 0 a, suc n);
  rate = λ b n. record { checked = false; retries = 0; calls = 0; above = false; message = "" };
}

abbrev bucket : String → BucketSpec
bucket path = record {
  name = "b";
  ordinal = pos 0;
  delete_path = path;
  versioned = false;
  capabilities = [];
  probe_detail = [];
}

abbrev two_buckets : List BucketSpec
two_buckets = bucket "obc-only" ∷ bucket "both" ∷ []

one_run : after show ℕ counting "delete-purge" false two_buckets 0 ≡ (false, 1)
unfolding each skip_client skip ok
one_run = refl

purges : phase_of "delete-purge" ≡ some purge
unfolding phase_of
purges = refl

abbrev failed : ObjectResult
failed = record (new_acc "b").res { objects_fail = 1 }

verdict-Clean_example :
    ((verdict show (failed ∷ []) ≡ none) × Clean (failed ∷ []))
    ⊎ ((message : String) × (verdict show (failed ∷ []) ≡ some message) × ¬ Clean (failed ∷ []))
verdict-Clean_example = verdict-Clean show (failed ∷ [])
