-- ===== src/Worker/Samples.antt =====
-- A small platform, and a server that keeps the last object of each key.
use io_stress.Common.{
  ℕ, ◌≡◌, refl, sym, ap, subst, ◌∙◌, false, String, List, [], ◌∷◌, Option, none, some, ltb, leb,
  replicate, length, eq_iff, if◌then◌else◌,
}
use io_stress.Common.Int.{pos}
use io_stress.Common.Dict.{lookup, insert, lookup-insert}
use io_stress.Objstore.Reader.{content}
use io_stress.Objstore.Reader.Laws.{Ends, Steady-Ends}
use io_stress.Objstore.Stream.{Percents, full_reader, content-full_reader, full_reader-Steady}
use io_stress.Objstore.Calls.{Client, S3, GetResult, Result, good, bad}
use io_stress.Worker.Spec.{BucketSpec, Spec}
use io_stress.Worker.Purge.{made_up}
use io_stress.Worker.Platform.{Platform}
use io_stress.Worker.Object.Stored.{Keeps}

-- Percentages in thousandths
abbrev thousandths : Percents
thousandths = record {
  F = ℕ;
  nought = 0;
  one = 1000;
  hundred = 100000;
  at_most = leb;
  less = ltb;
  thousandths = λ n. n;
}

-- Digests of four bytes, and a stream that repeats one byte
abbrev pub sample_platform : Platform
sample_platform = record {
  percents = thousandths;
  sha256 = λ bs. length bs ∷ 0 ∷ 0 ∷ 0 ∷ [];
  md5 = λ bs. length bs ∷ [];
  chacha = λ k n. replicate n 7;
  show = λ n. "0";
  decimal = λ n. 48 ∷ [];
  int_text = λ z. "1";
  parse_int = λ t. some (pos 1);
  text = λ bs. "k";
  codes = λ t. 107 ∷ [];
  read_error = λ e. made_up;
}

abbrev pub Store : Type 0
Store = List (String × List ℕ)

abbrev held_under : String → Store → List ℕ
held_under k s = elim (lookup k s) [ none ↦ [] | some bs ↦ bs ]

abbrev pub got_of : List ℕ → GetResult
got_of bs = record { body = full_reader bs; etag = 9 ∷ []; request_id = "r" }

abbrev answer : Option (List ℕ) → Result GetResult
answer none = bad made_up
answer (some bs) = good (got_of bs)

abbrev store_client : Client
store_client = record {
  Server = Store;
  list_objects =
      λ prefix token s. (good (record { objects = []; next_token = ""; truncated = false }), s);
  list_versions = λ prefix k v s.
      (good (record { versions = []; next_key = ""; next_ver = ""; truncated = false }), s);
  delete_keys = λ ids s. (good [], s);
  delete_object = λ id s. (none, s);
}

abbrev pub sample_server : S3
sample_server = record {
  client = store_client;
  create_bucket = λ s. (none, s);
  delete_bucket = λ s. (none, s);
  put_bucket_versioning = λ s. (none, s);
  get_bucket_versioning = λ s. (none, s);
  put_object = λ k size meta body s.
      (good (record { version_id = ""; etag = [] }), insert k (content body) s);
  upload_multipart = λ k size part meta body s.
      (good (record { version_id = ""; etag = [] }), insert k (content body) s);
  get_object = λ k version range s. (answer (lookup k s), s);
  head_object = λ k version s. (good (record { etag = 1 ∷ 2 ∷ []; metadata = [] }), s);
  copy_object = λ from to s. (none, s);
  abort_multipart = λ k s. (none, s);
  list_uploads = λ prefix s. (good [], s);
  listing = λ prefix delimiter limit s.
      (good (record { keys = []; prefixes = []; truncated = false }), s);
  version_page = λ prefix limit s.
      (good (record { versions = []; next_key = ""; next_ver = ""; truncated = false }), s);
}

inserted : (k : String) (bs : List ℕ) (s : Store) → held_under k (insert k bs s) ≡ bs
inserted k bs s =
    ap (λ o. elim o [ none ↦ [] | some x ↦ x ])
      (lookup-insert k k bs s ∙ ap (λ c. if c then some bs else lookup k s) ((eq_iff k k).1 refl))

answered :
    (o : Option (List ℕ)) (got : GetResult)
    → answer o ≡ good got
    → (content got.body ≡ elim o [ none ↦ [] | some bs ↦ bs ]) × Ends got.body
answered none got e = cc e
answered (some bs) got e =
    subst (λ (g : GetResult). (content g.body ≡ bs) × Ends g.body)
      (ap (λ r. elim r [ bad x ↦ got_of bs | good x ↦ x ]) e)
      (content-full_reader bs, Steady-Ends (full_reader bs) (full_reader-Steady bs))

pub sample-Keeps : Keeps sample_server
sample-Keeps = record {
  stored = λ s k. held_under k s;
  put_keeps =
      λ k size meta body s r t e. ap (λ x. held_under k x.1) (sym e) ∙ inserted k (content body) s;
  upload_keeps = λ k size part meta body s r t e.
      ap (λ x. held_under k x.1) (sym e) ∙ inserted k (content body) s;
  get_keeps = λ k version range other s. refl;
  gives = λ k s got t e. answered (lookup k s) got (ap (λ x. x.0) e);
}

-- A bucket without versions, and a spec of one worker.
abbrev pub sample_bucket : BucketSpec
sample_bucket = record {
  name = "b";
  ordinal = pos 0;
  delete_path = "both";
  versioned = false;
  capabilities = [];
  probe_detail = [];
}

abbrev pub sample_spec : Spec ℕ
sample_spec = record {
  phase = "write";
  role = "write";
  worker = 0;
  workers = 1;
  buckets = sample_bucket ∷ [];
  objects_per_bucket = 2;
  key_prefix = 112 ∷ [];
  key_layout = "flat";
  concurrency = 4;
  verify_mode = "etag";
  verify_sample_pct = 1000;
  range_reads_pct = 100000;
  multipart_enabled = false;
  multipart_threshold = pos 100;
  multipart_part_size = pos 5;
  abort_cases = 0;
  versions_per_key = 1;
  error_rate_threshold_pct = 0;
  provisioning = "s3";
  resume = false;
}
