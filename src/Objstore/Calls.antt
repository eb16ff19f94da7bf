-- ===== src/Objstore/Calls.antt =====
-- pkg/objstore/ops.go and client.go: what the S3 calls take and return. The calls themselves, retries
-- included, are functions of the server's state.
use io_stress.Common.{ℕ, Bool, String, List, Option, ◌≡◌, refl, ◌⊎◌, inl, inr}
use io_stress.Common.Int.{ℤ}
use io_stress.Objstore.Retry.{Err}
use io_stress.Objstore.Reader.{Reader}

pub record ObjectId : Type 0 where
  pub key : String
  pub version_id : String

-- VersionInfo, as far as the phases read it
pub record VersionInfo : Type 0 where
  pub id : ObjectId
  pub delete_marker : Bool

pub record KeyError : Type 0 where
  pub id : ObjectId
  pub code : String
  pub message : String

pub record ListPage : Type 0 where
  pub objects : List String
  pub next_token : String
  pub truncated : Bool

pub record VersionPage : Type 0 where
  pub versions : List VersionInfo
  pub next_key : String
  pub next_ver : String
  pub truncated : Bool

-- What a call returns that may fail.
pub data Result (A : Type 0) : Type 0 where
  good : A → Result A
  bad : Err → Result A

-- The client of one bucket, with pages of 1000.
pub record Client : Type 1 where
  pub Server : Type 0
  pub list_objects : String → String → Server → Result ListPage × Server  -- prefix, token
  pub list_versions : String → String → String → Server → Result VersionPage × Server
  pub delete_keys : List ObjectId → Server → Result (List KeyError) × Server
  pub delete_object : ObjectId → Server → Option Err × Server

pub record PutResult : Type 0 where
  pub version_id : String
  pub etag : List ℕ

pub record GetResult : Type 0 where
  pub body : Reader
  pub etag : List ℕ
  pub request_id : String

pub record HeadResult : Type 0 where
  pub etag : List ℕ
  pub metadata : List (String × String)

-- A page of ListObjectsV2 without a token: the keys, the common prefixes and whether there is more.
pub record Listing : Type 0 where
  pub keys : List String
  pub prefixes : List String
  pub truncated : Bool

-- All calls on one bucket. Of those with a context, the phases use one that can end at any call.
pub record S3 : Type 1 where
  pub client : Client
  pub create_bucket : client.Server → Option Err × client.Server
  pub delete_bucket : client.Server → Option Err × client.Server
  pub put_bucket_versioning : client.Server → Option Err × client.Server
  pub get_bucket_versioning : client.Server → Option Err × client.Server
  -- key, size, metadata, body
  pub put_object :
      String
      → ℤ
      → List (String × String)
      → Reader
      → client.Server
      → Result PutResult × client.Server
  -- key, size, part size, metadata, body
  pub upload_multipart :
      String
      → ℤ
      → ℤ
      → List (String × String)
      → Reader
      → client.Server
      → Result PutResult × client.Server
  -- key, version id, range
  pub get_object : String → String → String → client.Server → Result GetResult × client.Server
  pub head_object : String → String → client.Server → Result HeadResult × client.Server
  pub copy_object : String → String → client.Server → Option Err × client.Server
  pub abort_multipart : String → client.Server → Option Err × client.Server
  pub list_uploads : String → client.Server → Result (List String) × client.Server
  -- prefix, delimiter, limit of keys
  pub listing : String → String → ℕ → client.Server → Result Listing × client.Server
  -- prefix, limit of keys
  pub version_page : String → ℕ → client.Server → Result VersionPage × client.Server

-- To split on what a call returns.
pub Result-cases :
    {A S : Type 0} (got : Result A × S)
    → ((e : Err) × (s : S) × (got ≡ (bad e, s))) ⊎ ((x : A) × (s : S) × (got ≡ (good x, s)))
Result-cases (bad e, s) = inl (e, s, refl)
Result-cases (good x, s) = inr (x, s, refl)
