-- ===== src/Lib.antt =====
-- io-stress drives FIO and S3 workloads against OpenShift Data Foundation: pkg/config reads what to
-- run, pkg/workload and pkg/k8s drive pods and claims, pkg/worker runs the object phases in a worker
-- pod through pkg/objstore, and pkg/report counts the results and writes the document that tells how
-- the run ended.
--
-- Files and code:
--   Common.antt and below: the native numbers, Boolean tests, lists, signed integers, Go's maps.
--   Config/Object.antt: pkg/config/object.go (OrderedPhases, NormalizeObjectBackend, validateObject).
--   Config/Profiles.antt: pkg/config/object_profiles.go (objectProfile, ApplyObjectProfile).
--   Objstore/Keys.antt: pkg/objstore/keys.go (Shard, Chunk, DeletePath, Versioned, Key).
--   Objstore/Reader.antt: io.Reader as a list of reads, and readFull of pkg/objstore/verify.go.
--   Objstore/Compare.antt: CompareStreams, noteByte and pushRing of pkg/objstore/verify.go.
--   Objstore/Stats.antt: pkg/objstore/stats.go (latency, histogram, Observe, NoteRetry, NoteError).
--   Objstore/Payload.antt: SizeFor of pkg/objstore/payload.go.
--   Objstore/Retry.antt: pkg/objstore/client.go (withRetry, backoff, retryable and its kin).
--   Report/Collector.antt: pkg/report/collector.go (ComputeSummary, summaryPhase).
--   Report/Agent.antt: pkg/report/agent.go (ClassifyFailure, BuildAgentSummary).
--   Worker/Acc.antt: acc of pkg/worker/run.go (ok, fail, mismatch, skip).
--   Objstore/Calls.antt: the values of the S3 calls of pkg/objstore/ops.go, and the interface S3 (with
--     Client inside) that the worker takes: each call as a function of the server's state.
--   Objstore/Upload.antt, Objstore/Batch.antt: uploadMultipartOnce and DeleteKeys of pkg/objstore/ops.go.
--   Objstore/Stream.antt: PayloadReader and Hit of pkg/objstore/payload.go.
--   Objstore/Etag.antt, Objstore/Probe.antt: pkg/objstore/etag.go and pkg/objstore/probe.go.
--   Worker/Spec.antt: pkg/worker/spec.go, with versionSpan, useMultipart and their kin.
--   Worker/Script.antt: what one goroutine does, as calls and records on its bucket's accumulator.
--   Worker/Object.antt, Worker/Verify.antt, Worker/Reading.antt, Worker/Ranged.antt: the bodies of the
--     phases write, verify, read and copy of pkg/worker/phases.go.
--   Worker/Walk.antt: walk of pkg/worker/phases.go as a step relation.
--   Worker/Setup.antt, Worker/Listing.antt, Worker/Deleting.antt: setupBucket, abortCases, listBucket,
--     deleteKeysBucket and deleteBucket of pkg/worker/phases.go.
--   Worker/Purge.antt: purgeBucket and assertBucket of pkg/worker/phases.go; the record Store below it
--     says what a server is relied on for.
--   Worker/Run.antt: dispatch, each, finish and the end of Run of pkg/worker/run.go.
--   Workload/Finalize.antt: pkg/workload/finalize.go (finalize, EmitUsage).
--   Workload/Object.antt: objectRun and record of pkg/workload/object.go; below it are Pod (runPod and
--     runWave), Buckets and Spec (the buckets, jobs and specifications), Provision, Phases and Loop
--     (provision, loadExisting, the phases, and runObject).
--   Workload/Backend.antt: pkg/workload/backend.go, EnsureObjectSeed, and the endpoints of
--     pkg/objstore/ops.go.
--   Cluster/Retry.antt, Cluster/Pods.antt: pkg/k8s/retry.go, and PodInfraReason of pkg/k8s/workerpod.go.
-- withRetry records into the statistics of Objstore/Stats.antt, and finalize counts with
-- Report/Collector.antt and reports with Report/Agent.antt, as the code does. The proofs about a file
-- stand in the modules below it, with runs at concrete inputs in its Tests module.
--
-- Parameters: the SHA-256 digest, float64 (an interface), the random numbers, `%d`, the case folding
-- and trimming of Go's strings package, ParseByteSize and the quantities of Kubernetes, and what the
-- network, the context, the S3 server and the cluster do (a script of attempts, or functions of their
-- state).
--
-- Fuel: Chunk's loop takes one round per key, withRetry's one more than the retries allowed, and the
-- loops of CompareStreams one per read; each is enough, since a round uses one up.
-- The limits of countObjects (1000000 pages) and purgeBucket (64 passes) are the code's own.
--
-- A goroutine of a phase meets a server that others use as well: its script is run on a state of which
-- nothing is assumed beyond the hypotheses of a theorem.
--
-- The goroutines of an errgroup are each taken as a whole, in an order that is an argument.
--
-- Not modelled: the rest of the cluster's API (pkg/k8s), the flags and help of cmd, the suites of
-- pkg/config, the fio phases of pkg/workload, and the other S3 calls of pkg/objstore/ops.go, which go
-- through the AWS SDK.
mod Common
pub mod Cluster
pub mod Config
pub mod Objstore
pub mod Report
pub mod Workload
pub mod Worker
