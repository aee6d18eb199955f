-- ===== src/Lib.antt =====
-- A model of the CDN service: an object store (MinIO) for what is recent, an optional cold archive
-- (S3) for everything, and the HTTP service, the jobs and the commands around the two.
--
-- The parts and their files, with the code that each models (paths from the repository's root):
-- Storage: the interfaces to the stores, service.ObjectStore (service/tiering.go), the S3 methods of
--   service.AwsService (service/aws.go) and service.Archive (service/archive.go), with their errors.
--   MinIO, S3 and the SDKs are parameters: an operation is an action on a state W of the outside
--   world. Storage/Documented states what the service relies on in them.
-- Archive: service/archive.go. `archive` makes the interface from the configuration and the S3 calls.
-- Tiering: service/tiering.go. ArchiveObject, ArchiveKnownObject, RestoreObject and EnsureBucket, cut
--   into one function for each stretch between two calls of a store. Tiering/Served says what a
--   reader is served, from the local store or else from the archive.
-- Retention: service/retention.go, RunOnce with its loops. `run_once` asks the context before each
--   bucket through `ctx_err`.
-- Backfill, Restore: cmd/backfill/main.go and cmd/restore/main.go, their loops over Tiering.
-- ArchiveHandler: handler/archive.go, ArchiveObjects and archiveAll, with guards, entries and summary.
-- Image: handler/image.go, the reads from both tiers (openObject), the deletes (DeleteImage,
--   BatchDelete), archiveObject, the keys of uploads and inertContentType.
-- Upload, UploadPayload, UploadChecks: handler/image.go, UploadImage and UploadWithUrl: the checks, what
--   is handed to the stores, and the calls of the stores. The size that UploadWithUrl reports is the
--   store's own answer, a parameter. BatchUpload: the handler of this name.
-- Serving: handler/image.go, GetImage and ResizeImage. Imaging: service/imagick.go, over the wands of ImageMagick.
-- Dimensions: the dimensions a request asks for, service/util.go and service/imagick.go.
-- FileType: pkg/filetype/filetype.go. UploadUrl: pkg/validator/url.go.
-- Downloads: handler/aws.go, the background downloads of Glacier archives and their local paths.
-- Config: pkg/config/config.go, and NewArchive of service/archive.go, as functions of the environment.
-- ObjectKey: the keys of objects, service/util.go and handler/archive.go.
-- Access: principals and the buckets they may write to, service/principal.go, service/util.go,
--   handler/bucket_context.go, and the keys of pkg/middleware.
-- Tokens: pkg/config/tokens.go. Bucket: pkg/bucket/name.go. Validator: pkg/validator/file.go.
-- Breaker: pkg/circuitbreaker/circuit_breaker.go, each method one step under its mutex, with functions
--   that return, fail or panic.
-- Worker: pkg/worker/pool.go, the retries of a job as a function and the pool as a step relation.
-- Batch: pkg/batch/processor.go, as a function of the events that its select sees.
-- Common has the shared names, Text the functions of Go's strings on code points, and Examples
-- concrete stores in memory, with the theorems at concrete inputs.
--
-- How they meet: the image handler, the retention job and the commands move objects through Tiering,
-- which sees the archive through the interface of Storage only; Archive fills that interface. Access
-- decides the bucket that a handler writes to, from the table that Tokens loads, whose names Bucket
-- has validated.
--
-- Bounds and fuel: numbers are natural numbers, and the times are numbers in the unit that the code
-- adds and compares; the byte counters of the jobs are int64 and wrap at 2 ^ 64. SanitizeObjectName's
-- loop has the length of the text as fuel, since each round shortens it, and isValidUTF8's loop the
-- length of the content, since each round takes a byte. A retry loop has as much fuel as its rounds.
--
-- Not modelled: the interleavings of the workers that share the queue of one retention, backfill or
-- restore run and of the goroutines of one batch request, whose objects are handled one after the
-- other; the semaphores around ImageMagick; the HTTP framework, image decoding and
-- float arithmetic, which are parameters; the Redis cache, the AWS SDK, metrics, logs and the wiring
-- of cmd/main.go, which is input and output.
pub mod Common
pub mod Text
pub mod Storage
pub mod Archive
pub mod ArchiveHandler
pub mod Tiering
pub mod Retention
pub mod Backfill
pub mod Restore
pub mod Breaker
pub mod Bucket
pub mod Tokens
pub mod Access
pub mod ObjectKey
pub mod Validator
pub mod Worker
pub mod Batch
pub mod Dimensions
pub mod Imaging
pub mod FileType
pub mod UploadUrl
pub mod Downloads
pub mod Config
pub mod Image
pub mod UploadChecks
pub mod UploadPayload
pub mod Upload
pub mod BatchUpload
pub mod Serving
mod Examples
