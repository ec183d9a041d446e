-- ===== src/Lib.antt =====
-- A verification library of the migration manager, which moves virtual machines from VMware sources to
-- Incus targets. It models the services of internal/migration that decide what is migrated and when,
-- their data (shared/api), the transactions and statements beneath them, and the counters that limit
-- how many imports run at once.
--
-- How the parts interact: a batch (batch_service.go) puts instances into the queue; the worker that
-- runs in each instance asks the queue service (queue_service.go) for its next command and reports the
-- outcome; the queue service reads the batch, the instance, its source and target, and the migration
-- windows (window_model.go), and keeps its rows through internal/migration/repo/sqlite within
-- transactions (internal/transaction). The daemon (cmd/migration-managerd) runs tasks over all batches:
-- through the queue handler (internal/queue/handler.go) it counts the imports again when it starts, and
-- finishes the instances whose worker is done.
--
-- Files, and the code that they model:
--   Api/Status         the enumerations of shared/api and `ImportStage`
--   Api/Types          the records of shared/api and internal/migration
--   Errors             internal/migration/errors.go; Go's `(value, error)` is `Result`
--   Env                the clock, name checks, JSON, the filter language: code of other projects
--   Cache              internal/util/concurrent.go, and in Cache/Counters `RecordActiveImport` and
--                      its companions, the same in source_service.go, target_service.go and
--                      batch_service.go
--   Store/State        the tables, the counters and the open transaction as a state, and its monad
--   Store/Transaction  `transaction.Do` of internal/transaction/context.go
--   Store/Repo         internal/migration/repo/sqlite, one function for each statement, by table in
--                      Store/Repo/
--   Store/Keeps, Rows  rules for invariants of the tables, and laws of the statements
--   Store/Runs         what a call that succeeds has read and written, step by step
--   Store/Batches      laws of the statements on batches
--   Store/Links        which window an entry refers to after a write
--   Window             internal/migration/window_model.go; its proofs in Window/
--   Window/Service     internal/migration/window_service.go
--   Instance           internal/migration/instance_model.go, and `Apply` of shared/api/properties.go
--   Instance/Os, Instance/Valid
--                      instance_model.go, `GetOSType`, `GetDistribution` and `Validate`, with the
--                      checks of shared/api/os.go and internal/util/os.go
--   Instance/Service   internal/migration/instance_service.go
--   Network            internal/migration/network_model.go, `FilterUsedNetworks` and `ToAPI`
--   Warning            internal/migration/warning_service.go and warning_model.go
--   IdLock             internal/util/concurrent.go, `IDLock`, with its goroutines as a step relation
--   Queue              internal/migration/queue_model.go
--   Queue/NextWindow   queue_service.go, `GetNextWindow`
--   Queue/Operations   queue_service.go, the operations on one entry
--   Queue/WorkerCommand, Queue/WorkerUpdate
--                      queue_service.go, `NewWorkerCommandByInstanceUUID`, `ProcessWorkerUpdate`
--   Queue/Retry        queue_service.go, `RetryByUUID`
--   Queue/Phases       the phases of an entry, and the calls that keep them
--   Batch              internal/migration/batch_model.go, `Validate` and `CanStart`
--   Batch/Operations   batch_service.go, the changes of status and the reset
--   Batch/Running      batch_service.go, `canUpdateRunningBatch`
--   Batch/Assign       batch_service.go, `Create`, `Update`, `DeleteByName` and
--                      `UpdateInstancesAssignedToBatch`
--   Batch/Placement    batch_model.go, `GetIncusPlacement`, and batch_service.go, `DeterminePlacement`
--   Batch/Start        batch_service.go, `StartBatchByName`
--   Instance/Updates   instance_model.go, `ApplyUpdates` and `UpdateMonitoring`
--   Sources            source_service.go, source_vrops.go and target_service.go, `DeleteByName`
--   Queue/Handler      internal/queue/handler.go
--   Daemon/Resume      cmd/migration-managerd/internal/api/sync.go, `syncActiveBatches`
--   Daemon/Finish      cmd/migration-managerd/internal/api/workers.go, `resetQueueEntry`,
--                      `configureMigratedInstances`, and `finalizeCompleteInstances` after its checks
--   Tests              a small installation on which the theorems are run
--
-- A method `s.Foo(ctx, x)` is `foo x`, a function of the state; what the service holds is in `World`.
-- A function of the repository is a function of `Db`. Where the code reads, decides and writes, the
-- decision is a function of its own (`Plan`, `choose`, `respond`), which the operation uses.
--
-- Bounds: instants are natural numbers of nanoseconds since Go's zero time; durations and `int` are
-- signed, and their sums wrap at 64 bits where the code adds them (`wrap_int`), except in
-- `resync_due`, where the code compares differences of instants. Statements that need it ask for sums
-- below 2 ^ 63. Every loop goes over
-- a list, except the digits of a number in Prelude/Text, which run on fuel; `digits_fuel` there says
-- that the number itself is enough. A loop over a Go map takes the order as a parameter.
--
-- Each operation reads the clock once. A call of a service is one step: the services lock, and the
-- database runs one transaction at a time. A commit may fail; other failures of the database engine
-- are not modelled.
--
-- Not modelled: logging, the worker's own work in the guest, the clients of VMware and Incus, the REST
-- layer, the command line, the web interface, and generated wrappers, which are I/O or copies of
-- fields; the placement scripts, the filter language and the names of the operating systems, which are
-- code of other projects and parameters in `Env`; nor, of the program's own code, the creation of
-- instances, sources, targets and networks, the sync with the sources, and the daemon's tasks that begin
-- and block imports and check an instance against its source and target before it is finished. What a
-- client of a source or a target does in Daemon/Finish is a parameter, `Clients`.
pub mod Prelude
pub mod Api
pub mod Errors
pub mod Env
pub mod Cache
pub mod Store
pub mod Window
pub mod Instance
pub mod IdLock
pub mod Network
pub mod Warning
pub mod Queue
pub mod Batch
pub mod Daemon
pub mod Sources
pub mod Tests
