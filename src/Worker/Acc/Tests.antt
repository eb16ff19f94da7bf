-- ===== src/Worker/Acc/Tests.antt =====
-- acc of pkg/worker/run.go at concrete calls.
use io_stress.Common.{ℕ, ◌≡◌, refl, false, String, List, [], ◌∷◌, arith, length}
use io_stress.Objstore.Retry.{Err, api_code, one_of, is_capacity}
use io_stress.Common.Int.{pos}
use io_stress.Worker.Acc.{
  Event, succeeds, fails, differs, skips, new_acc, events, event, ok, fail, mismatch, skip,
  capacity_stop,
}
use io_stress.Worker.Acc.Sound.{Sound, events-new_acc-Sound}

abbrev show : ℕ → String
show n = "0"

abbrev full : Err
full = record {
  text = "no room";
  mismatch = false;
  canceled = false;
  deadline = false;
  ended = false;
  net_timeout = false;
  net_op = false;
  code = "NoSpace";
  status = 507;
  request_id = "r1";
}

abbrev calls : List Event
calls =
    succeeds 3 4096
    ∷ skips "copy unsupported"
    ∷ skips "copy unsupported"
    ∷ differs (record {
      key = "k";
      version_id = "";
      size = pos 8;
      stream = record {
        size = 8;
        expected_sha = [];
        actual_sha = [];
        first_bad_byte = 7;
        expected_hex = [];
        actual_hex = [];
      };
      expected_etag = [];
      actual_etag = [];
      request_id = "r2";
    })
    ∷ fails full
    ∷ fails full
    ∷ []

after_calls : length (events show calls (new_acc "b")).res.mismatches ≡ 1
unfolding events event ok fail mismatch skip capacity_stop is_capacity api_code one_of
after_calls = refl

events-new_acc-Sound_example : Sound (length calls) (events show calls (new_acc "b"))
events-new_acc-Sound_example = events-new_acc-Sound show "b" calls (omega arith)
