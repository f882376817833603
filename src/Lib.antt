-- ===== src/Lib.antt =====
-- Verification of the media service: uploads, reads, sharing and deletion of users' media, with
-- their quotas.
--
-- The service is a NestJS application over PostgreSQL (the tables media, user_quotas and
-- media_access_logs), Redis (caches, counters, events) and S3 (the objects). The modelled parts are:
--
--   Base           texts as lists of code units, lists, integers, decimal texts
--   Errors         the exceptions with their HTTP status, and the result of a call
--   World          the rows, cache entries, objects and events; an async method as a function of the
--                  environment and the world that returns a result or an error and the world it
--                  leaves (`M`); transactions with their rollback; rules for what a method keeps
--                  (Keeps) and for what a method that returned went through (Returns)
--   MagicBytes     src/modules/media/magic-bytes.validator.ts
--   ContentSafety  src/modules/media/content-safety.validator.ts
--   Storage        src/modules/media/storage.service.ts
--   Quota          src/modules/media/quota.service.ts, quota.constants.ts and the SQL function of
--                  src/config/migrations/1742800000000-AddResetDailyUploadsFunction.ts
--   Peers          src/modules/media/group.service.ts and messaging.service.ts
--   Media          src/modules/media/media.service.ts and repositories/media.repository.ts, one
--                  child for each group of methods: Access (who may read), Repository (the rows),
--                  Semaphore (concurrent uploads), Acl (access lists), Limits (the tables of sizes
--                  and types), SignedUrl, Upload, Read, Share, Delete, Account, and Registry, the
--                  specification that these refine: a map from ids to media, and what a
--                  request may do to it
--   Controller     src/modules/media/media.controller.ts, and enforceE2EEContentType of the service;
--                  Fields is parseStringArray of src/modules/media/dto/upload-media.dto.ts
--   Lifecycle      src/modules/media/lifecycle.service.ts
--   Jwks           src/modules/jwks/jwks.service.ts
--   Auth           src/modules/auth/jwt-auth.guard.ts
--   Partitions     src/modules/media/media-access-log-partition.service.ts, with its own state: the
--                  partitions, and which connection holds the advisory lock
--   Rls            src/modules/media/rls.interceptor.ts, rls-context.service.ts, rls.subscriber.ts
--   Logger         src/utils/json-logger.ts
--   Startup        src/docker/check-env.ts
--   Health         src/modules/health/health.controller.ts, src/modules/metrics/metrics.guard.ts
--   Tests          the theorems at concrete requests
--
-- An upload takes a slot of the user's semaphore, asks group-service for group icons, has the quota
-- checked, checks the file, looks for a duplicate, and else stores the objects and the row, and
-- records the upload in the quota. Reads authorise by the row, or by the cached metadata. A deletion
-- deactivates the row in a transaction, and then deletes the objects and releases the quota. Each of
-- these handlers runs behind the guard of Auth, whose key the client of Jwks loads.
--
-- Every call to PostgreSQL, Redis or S3 is one step (`external`), and the environment's `throws` says
-- which of them are rejected, so a theorem about a run holds for every pattern of failures. The
-- answers of sharp, clamd, SHA-256, the URL signer, group-service and messaging-service are functions
-- of the environment. The loops of the code are structural and need no fuel, but for decimal texts,
-- where the number itself bounds its digits, and for the background retries of Jwks, whose rounds are
-- an argument: Jwks/Retry says how many are enough. The reader of clamd's stream, with which
-- ContentSafety/Clamd compares what is written, has fuel for two chunks, which is what is written.
--
-- Modelled in a simpler form: numbers of the database have no upper bound; the clock, the date and
-- the generated id are read once in a request; a fire-and-forget promise runs where it is started;
-- keys of Redis do not expire during a request; the bytes of objects are only their type and length;
-- the log lines of the handlers are left out. The two lookups of revocations, which the guard starts
-- together, run one behind the other. A fetch of the key takes no time on the clock that counts the
-- sleeps between the attempts. The requests of a sequence run one behind the other, and do not
-- interleave. The row-level policy of the database is stated by itself, in Media/Access and with the
-- user that Rls gives a transaction in Rls/Policy, and does not filter the queries. There PostgreSQL's
-- conversion of a text to a UUID is a parameter, which can fail; everywhere else an id is the canonical
-- text of a UUID, and what PostgreSQL makes of another spelling of one, or of a text that is none, is
-- not modelled.
--
-- Not modelled: the rate limits, the exception filter and the validation of DTOs of the HTTP layer,
-- the counters of the metrics library but for the three that the service itself increments, and the
-- wiring and configuration of the framework.
pub mod Base
pub mod Errors
pub mod MagicBytes
pub mod World
pub mod ContentSafety
pub mod Storage
pub mod Quota
pub mod Peers
pub mod Media
pub mod Controller
pub mod Lifecycle
pub mod Jwks
pub mod Auth
pub mod Partitions
pub mod Rls
pub mod Logger
pub mod Startup
pub mod Health
pub mod Tests
