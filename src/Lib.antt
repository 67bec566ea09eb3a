-- ===== src/Lib.antt =====
-- Family Tree: a server that keeps family trees, with their persons, parent-child relations and
-- unions, and background jobs that process media and write exports. This library models the core
-- of the server in a shallow embedding and proves what it relies on.
--
-- The parts and how they interact. The domain packages (internal/features/*/domain) build and
-- update values by pure functions: a card of a person, a relation, a union with its members, the
-- settings of a tree. The services call them and hand the results to the repositories
-- (internal/features/*/repository/postgres), each of whose operations is one transaction: it
-- checks the rights of the actor, checks what the tables hold, writes rows, and writes the audit
-- log where rows are deleted. Optimistic versions keep two writers of one row apart. The jobs
-- (internal/core/jobs) are rows of a table that workers claim under leases; exports
-- (internal/features/exports) read a snapshot of a tree, which they lay out in generations or
-- write as GEDCOM, or pack into a backup, which a command restores. The rate limit
-- (internal/features/auth/ratelimit) stands before the sign-in.
--
-- Which file models what:
-- - Prelude: Boolean tests, lists, texts (a Go string is the list of its code points), results of
--   fallible functions, tables as lists of rows.
-- - Relations/Domain: internal/features/relationships/domain/relation.go (New, ApplyUpdate).
--   Relations/Store and Relations/Writes:
--   internal/features/relationships/repository/postgres/repository.go (requireEditableTree,
--   requireActivePersons, CreateAcyclicEditable, UpdateEditable, SoftDeleteEditable) and
--   mutateDeletion of internal/features/persons/repository/postgres/repository.go. Validity,
--   Versioning, Reach, Cycles, Acyclic, Lifecycle, History, Restore and Outcomes hold the proofs.
-- - Jobs/Queue and Jobs/Enqueue: internal/core/jobs/job.go and
--   internal/core/jobs/postgres/repository.go (EnqueueWith, Claim, Heartbeat, Succeed, Fail).
--   Jobs/Worker: internal/core/jobs/worker/worker.go (retryDelay, callHandler, process) and
--   config.go. Answers, Soundness, Claims, Leases, Endings, History, Retry and Rounds hold the
--   proofs.
-- - Languages: the pattern of language tags that persons and trees share. Persons/Domain:
--   internal/features/persons/domain/person.go (New, ApplyUpdate, newPreferredName,
--   normalizePersonValues); Names, Validity and Versioning hold the proofs.
-- - Trees/Domain: internal/features/trees/domain/tree.go (NewFamilyTree, ApplyUpdate, CanView,
--   CanEditSettings, CanEditData). Trees/Store:
--   internal/features/trees/repository/postgres/repository.go (CreateWithOwner, GetAccessible,
--   UpdateOwned, mutateDeletion). Trees/Service: internal/features/trees/service/service.go
--   (Create, Get, Update, Delete, Restore). Settings, Ownership and History hold the proofs.
-- - Unions/Domain: internal/features/unions/domain/union.go (New, NewMember, ApplyUpdate).
--   Unions/Store and Unions/Writes: internal/features/unions/repository/postgres/repository.go
--   (CreateWithMembersEditable, UpdateEditable, SoftDeleteEditable, AddMemberEditable,
--   RemoveMemberEditable). Members, Versioning, Counts, Limits, Keeping, History and Seats hold
--   the proofs.
-- - Exports/Texts, Exports/Lines and Exports/Families: internal/features/exports/gedcom/gedcom.go
--   (cleanText, line, pointerLine, parentChunks, partnerPairs). Exports/Alignment:
--   alignUnionRanks of internal/features/exports/visual/scene.go; Generations holds its proofs.
-- - ExportJobs/Domain: internal/features/exports/domain/export.go (New, ResultFilename,
--   CanDownload). ExportJobs/Store and ExportJobs/Requests:
--   internal/features/exports/repository/postgres/repository.go (CreateAccessible, GetAccessible,
--   ListAccessible, ExpireAccessible, RecordDownload). ExportJobs/Steps:
--   internal/features/exports/repository/postgres/worker.go (AcquireForGeneration, MarkCompleted,
--   MarkFailed, ReserveCleanupCandidates, GetDeletionCandidate, ClearExpiredResult).
--   ExportJobs/Generator and ExportJobs/Cleanup: the handlers of
--   internal/features/exports/processing/generator.go and cleanup.go, with the storage of
--   objects. Keys, Rows, Kept, Marks, Changes, Completions, Candidates, Safety, Generation,
--   Removal, Asking, Endings, Attempts, Finality, History and Promises hold the proofs.
-- - Backups/Manifest: internal/features/exports/manifest/manifest.go. Backups/Graph,
--   Backups/Validity, Backups/Paths, Backups/Files and Backups/Zip:
--   internal/features/exports/restore/archive.go (ParseZIP, validateArchive,
--   validateManifestRelations with its search for a cycle, expectedManifestFiles, parseChecksums,
--   safeArchivePath). Backups/Restorer, Backups/Records and Backups/Restoration:
--   internal/features/exports/restore/postgres.go (Restore, restoreObjects, cleanupObjects,
--   restoreRecords, restoreCommitted). Order, Kahn, Numbering, Search, Soundness, RowChecks,
--   Checks, Parts, PathSafety, Reading, Contents, Restorable, Written, Rows, Filling, Uploading,
--   Compensation and Atomicity hold the proofs.
-- - RateLimit/Memory and RateLimit/Limiter: internal/features/auth/ratelimit/memory.go
--   (Increment) and limiter.go (Allow, validScope); Windows holds the proofs.
-- - The Samples modules run the operations on small inputs.
--
-- How the state is modelled. An identifier is a number, with uuid.Nil the number 0; an instant is
-- a number of nanoseconds since Go's zero time, so IsZero is the test for 0; a pointer that may
-- be nil and a column that may be NULL are options. Versions and counters of attempts are numbers
-- without a bound, since each step raises them by one. A version, a lease or a limit that a
-- caller gives is a number that is not negative: the code refuses a negative one as it refuses 0.
-- A transaction is one function from the tables that it finds to a result: the row locks and the
-- advisory lock of the code make the writers of one row, or of one tree's graph, run one after
-- another. A transaction that ends by an error changes nothing. Whether the database answers a
-- statement is a parameter (io) of the transactions on relations, persons, unions, trees and
-- exports; the jobs are modelled where it answers, and a failure of the database there leaves the
-- table as it is.
--
-- Bounds and fuel. The recursive query of CreateAcyclicEditable runs in rounds; one round for
-- each row of persons and one more is enough, as a path never meets a person twice. The loop of
-- retryDelay is bounded by the number of the attempt, with its doubling cut to 64 bits; the
-- iterations of alignUnionRanks by the bound that the source has; the digits of a level by the
-- level. The search for a cycle in a backup has a round for each person and one more, which is
-- enough, as it visits no person twice. No other function has fuel.
--
-- Parameters. What encoding/json says of a payload (json_valid, canonical_json), the time zones
-- that the system knows (has_location), the digest of a subject under a secret (digest), the
-- checksum of a body (checksum) the writers of the export formats (Renderers), the reader of a
-- ZIP (open_zip), the decoder of a manifest (decode), the derivation of identifiers (derive), the
-- order in which Go ranges over a map (order), and the keys for which the storage answers (puts,
-- deletes) are arguments of the definitions that use them; nothing is assumed of them, but that
-- an order has the same identifiers as the rows, and, where a theorem says so, that the storage
-- answers each removal. Of the text that google/uuid writes of an identifier (uuid_string) the
-- proofs on exports assume what it documents: 36 characters that tell the identifier
-- (ExportJobs/Keys, IsCanonical).
--
-- Not modelled: HTTP handlers and middlewares, the identity service and its tokens, the client of
-- the object storage, the processing of images, the drawing of exports, logging and metrics, the
-- commands and the migrations, which are input, output and calls of libraries. The listings of
-- the repositories, the services of relations, persons and unions, which call the operations
-- modelled here after a test of the rights that the transactions repeat, the media and the
-- reading of a tree's snapshot for an export are outside the model too. Of the restoration of a
-- backup, the ETag of an object and the request identifier that is derived for an asset are left
-- out, and an upload that the storage does not answer puts nothing. The constraints of the table
-- of exports on the digest and the length of the key of a result, which MarkCompleted meets for
-- what the generator stores, are left out. A handler of an export is one step, but for the moment
-- between the storing of a result and its mark, where the others may do whatever they do. Of the
-- worker, the polling loop and the ticker of the heartbeats are left out: whether a heartbeat
-- failed is an input.
mod Prelude
pub mod Relations
pub mod Jobs
pub mod Languages
pub mod Persons
pub mod Unions
pub mod Trees
pub mod Exports
pub mod RateLimit
pub mod ExportJobs
pub mod Backups
