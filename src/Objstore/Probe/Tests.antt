-- ===== src/Objstore/Probe/Tests.antt =====
-- pkg/objstore/probe.go: a server that does not implement copies.
use io_stress.Common.{ℕ, suc, ◌≡◌, refl, false, String, [], Option, none, some}
use io_stress.Common.Dict.{lookup, insert}
use io_stress.Objstore.Retry.{Err, is_unsupported, one_of, api_code}
use io_stress.Objstore.Calls.{Client, S3, good}
use io_stress.Objstore.Probe.{ProbeResult, unprobed, optional_calls, probe}

abbrev show : ℕ → String
show n = "501"

abbrev not_implemented : Err
not_implemented = record {
  text = "no";
  mismatch = false;
  canceled = false;
  deadline = false;
  ended = false;
  net_timeout = false;
  net_op = false;
  code = "NotImplemented";
  status = 501;
  request_id = "";
}

-- It counts the deletions.
abbrev client : Client
client = record {
  Server = ℕ;
  list_objects =
      λ prefix token s. (good (record { objects = []; next_token = ""; truncated = false }), s);
  list_versions = λ prefix k v s.
      (good (record { versions = []; next_key = ""; next_ver = ""; truncated = false }), s);
  delete_keys = λ ids s. (good [], s);
  delete_object = λ id s. (none, suc s);
}

abbrev no_copies : S3
no_copies = record {
  client = client;
  create_bucket = λ s. (none, s);
  delete_bucket = λ s. (none, s);
  put_bucket_versioning = λ s. (none, s);
  get_bucket_versioning = λ s. (none, s);
  put_object = λ k size meta body s. (good (record { version_id = ""; etag = [] }), s);
  upload_multipart = λ k size part meta body s. (good (record { version_id = ""; etag = [] }), s);
  get_object = λ k version range s. (good (record { body = []; etag = []; request_id = "" }), s);
  head_object = λ k version s. (good (record { etag = []; metadata = [] }), s);
  copy_object = λ from to s. (some not_implemented, s);
  abort_multipart = λ k s. (none, s);
  list_uploads = λ prefix s. (good [], s);
  listing = λ prefix delimiter limit s.
      (good (record { keys = []; prefixes = []; truncated = false }), s);
  version_page = λ prefix limit s.
      (good (record { versions = []; next_key = ""; next_ver = ""; truncated = false }), s);
}

abbrev probed : Option Err × ProbeResult × ℕ
probed = probe show no_copies [] 0

no_copies_found :
    (probed.0 ≡ none)
    × (lookup "copy" (probed.1).capabilities ≡ some "unsupported")
    × (lookup "multipart" (probed.1).capabilities ≡ some "supported")
    × (probed.2 ≡ 2)
unfolding probe insert lookup is_unsupported one_of api_code
no_copies_found = (refl, refl, refl, refl)

abbrev calls : Option Err × ProbeResult × ℕ
calls = optional_calls show no_copies unprobed 0
