-- ===== src/Objstore.antt =====
-- pkg/objstore: the object store's pure parts and its S3 calls.
pub mod Keys
pub mod Calls
pub mod Stream
pub mod Etag
pub mod Upload
pub mod Batch
pub mod Probe
pub mod Reader
pub mod Compare
pub mod Stats
pub mod Payload
pub mod Retry
