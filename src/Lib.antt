-- ===== src/Lib.antt =====
-- DeadSwitch: a dead man's switch. A user arms a scenario; when check-ins are missed the service
-- climbs an escalation ladder, waits for a grace period and releases messages to recipients. Each
-- decision goes through a state machine, a capability matrix and a hash-chained audit log.
--
-- The model is a shallow embedding. `World` holds the database as a list of rows for each table,
-- the memory of one process, the clock and the runtime's functions (hashes, identifiers,
-- formatting). A service method is an action of the monad of `Effect`, which reads and changes the
-- world and may throw; `transaction` rolls the database back on an error, and the memory stays.
--
-- Common        Boolean tests, lists, the queries of a table and their laws
-- Schema        apps/api/prisma/schema.prisma and the error classes
-- World, Effect the state and the monad; Effect/Steps has one rule for each way to build an action,
--               by which a relation on databases is carried through a whole handler
-- State         apps/api/src/modules/state: table, transition, diagram
-- Audit         apps/api/src/modules/audit: canonical JSON, record, verifyChain
-- Outbox        apps/api/src/modules/outbox: enqueue
-- Safety        apps/api/src/modules/safety: capability matrix, modes, circuit breaker, exit gate,
--               containment and recovery
-- Escalation    apps/api/src/modules/escalation and packages/shared/src/escalation.ts
-- Scenarios     apps/api/src/modules/scenarios, and verifyPasswordProof of modules/auth
-- Auth          apps/api/src/modules/auth and sessions: accounts, refresh tokens, the session cache
-- Admin         apps/api/src/modules/admin: requests of operators and their approval
-- Crypto        apps/api/src/modules/crypto: kms.service.ts, envelope.service.ts
-- Attachments   apps/api/src/modules/attachments: upload, links of the release worker, download
-- Contacts      apps/api/src/modules/contacts, bundles, messages: grants, pauses, what is put into
--               bundles
-- Recipients    apps/api/src/modules/recipients: the secure links
-- Webhooks      apps/api/src/modules/webhooks: reports of delivery
-- Releases      apps/api/src/modules/releases/release-action-executor.service.ts
-- Providers     apps/api/src/modules/providers: provider-adapter.ts, error-classifier.ts
-- Workers       apps/api/src/workers/outbox-relay.worker.ts: one pass of the relay
-- Calls         requests and jobs as one sequence of calls
-- Examples      concrete runs
--
-- Parts interact as in the source: handlers of Scenarios and Escalation call `transition`,
-- `record_event`, `enqueue` and `assert`; the executor calls the same and its collaborators
-- (vault, issuer of links, adapter), which are an interface whose calls may change the world in
-- any way, as other processes do while they are awaited. A method name in camelCase is the same
-- name in snake_case here; a long method is split into the actions of its blocks.
--
-- What no transaction rolls back is the `Mem` of a world: the caches of one process, the entries
-- and jobs in Redis and the files on disk. The transaction of an approval takes back its own writes
-- only, since the services it calls commit on connections of their own. Random draws are functions
-- of the number of identifiers handed out. Ciphers and digests are functions of `Crypto`; a theorem
-- that needs a cipher to open what it sealed has that as a hypothesis. BullMQ is a parameter that
-- refuses or accepts a job, and adds a job id once.
--
-- There is no fuel: the loops of the source run over lists, and the endless loop of the relay is
-- modelled by its passes. Numbers are natural numbers, instants are milliseconds, and a difference
-- of instants stops at 0 (where the source prints a negative one, its sign is written out). The
-- clock stands still within one call and is set freely between calls.
--
-- Where the database is PostgreSQL and Prisma, the model simplifies as follows. What a JSONB
-- column gives back of a value is the parameter `json_column`, of which the theorems on the audit
-- log ask that it keeps JSON values up to the order of keys. `enqueue` goes on after a unique
-- violation that it ignores, also inside a transaction, which PostgreSQL would have aborted. The
-- rows that the relay claims come back in the order of the subquery, which UPDATE ... RETURNING
-- does not promise.
--
-- Not modelled: HTTP, the workers that consume the queues and their retries, logging and metrics,
-- the listing of scenarios, the dispatcher of the ladder, the dashboard, the vault decryptor (a
-- collaborator of the executor), the clients of the providers, and the mobile application. The
-- bytes of keys are not wiped, since the model has no addresses. `delete_draft` is no call of
-- `Calls`; neither are the services of Auth, Admin, Attachments, Contacts, Recipients and
-- Webhooks. Texts of transition denials and of invariant violations are left out of their errors.
pub mod Examples
pub mod Admin
pub mod Attachments
pub mod Audit
pub mod Auth
pub mod Calls
pub mod Common
pub mod Contacts
pub mod Recipients
pub mod Webhooks
pub mod Crypto
pub mod Effect
pub mod Escalation
pub mod Outbox
pub mod Providers
pub mod Releases
pub mod Safety
pub mod Scenarios
pub mod Schema
pub mod State
pub mod Workers
pub mod World
