-- ===== src/Lib.antt =====
-- LampLight hosts many institutes on one deployment: a request's Host header says which institute it
-- is for, and the reads of the tables, the decisions about access and the objects in the bucket are
-- meant to stay inside that institute. These modules model that core of src/lib and src/db.
--
-- Base        texts as lists of UTF-16 code units, Boolean tests, lists, and a JavaScript Map as an
--             association list in insertion order (Base/JsMap).
-- Cache       src/lib/cache/ttl-cache.ts: `TtlCache` with get, set (its eviction loop is `evict`),
--             delete, clear and size. `Date.now()` is an argument of each call. Bounds and Reads are
--             about one call, History about runs of calls.
-- Tenancy     Host is src/lib/tenancy/host.ts: normalize_host, classify_host, is_valid_slug,
--             claimable_hostname and absolute_url. Resolve is src/lib/tenancy/resolve.ts, with
--             lookupTenantByHost and lookupTenantBySlug of src/db/client.ts: resolve_tenant goes from
--             the header through the cache to the directory of institutes. `toLowerCase` is a
--             parameter (`CaseMap`) of which only the ASCII part is fixed.
-- Db          the tables of src/db/schema as lists of rows with the columns that the code uses; the
--             reads of src/db/repositories/entitlements.ts (Entitlements), lessons.ts (Lessons) and the
--             course documents of catalog.ts (Documents) as selections over them (Queries);
--             row-level security, drizzle/0001_rls_policies.sql, as a view (Isolation).
-- Access      src/lib/access: predicate.ts (Predicate: decide_lesson_access), authoring.ts (Authoring)
--             and media.ts (Media: issue_lesson_media, and the documents of a course in Documents).
--             Rows states what the reads mean over the rows; the two Rules modules hold the decisions
--             against their rules. The order of early returns is the source's; a group of them that
--             shares an argument is a function (decide_lesson, decide_member, decide_role).
-- Entitlements  src/lib/entitlements/grants.ts: grant_enrollment and revoke_enrollment as functions on
--             the tables, with the audit rows they write. The id that the database gives a new row is
--             an argument, and `none` is an insert that returns no row.
--             Rows says what the conditions and the access mean over the rows, Outcomes what is added.
-- Storage     src/lib/storage: Keys is keys.ts, Signing is the checks and requests of index.ts; the
--             bucket's SDK is the parameter `StorageSigner`.
-- Media       src/lib/media: Uploads is checkUpload and formatBytes of uploads.ts, Attachments is
--             attachments.ts: reserve_attachment, confirm_attachment and remove_attachment over the
--             tables and a log of deleted keys (`Library`), against what the bucket answers.
-- Auth        Invitations is src/lib/auth/invitations.ts: issue_invitation, find_pending_invitation,
--             complete_activation and sweep_invitations, each one transaction on the tables and the
--             global users (`Platform`). The hash and the encoding of a token are parameters, and the
--             token, the new id and the creation time are arguments (`Draw`).
-- Domains     Rows is the table tenant_domains with the reads of src/db/repositories/domains.ts, and
--             the types of src/lib/cloudflare/custom-hostnames.ts; Service is
--             src/lib/domains/service.ts, with redirect.ts, on the rows, the audit and this process's
--             cache of institutes (`Registry`). The provider is the parameter `CustomHostnameClient`:
--             what it answers or throws during one operation; Provider is the client of
--             custom-hostnames.ts, which makes one from a transport.
-- Signup      validateAnswers of src/lib/signup/questions.ts.
-- Sweep       src/app/api/platform/sweep/route.ts: post_sweep takes a turn at each institute with the
--             sweeps of Auth and Domains, and counts.
-- Player      src/lib/player/progress.ts, the positions of track.ts and the route
--             src/app/api/tenant/lessons/[lessonId]/progress: record_progress, post_progress and
--             get_progress. Positions are whole seconds; a number of the body is given by its floor.
-- Tests       runs on concrete inputs, two institutes among them.
--
-- How they meet: Tenancy finds the institute; Access and Entitlements run in that institute's scope
-- (`scope_of`) over Db; Access.Media asks Predicate, and has each key checked and signed by Storage,
-- as Media does, which asks Authoring. Domains writes the rows that Tenancy resolves hosts by, and
-- drops entries of its cache; Sweep runs the sweeps of Auth and Domains.
--
-- Errors are values: `Option` for null, `Access` for a call that may throw a StorageAccessError,
-- `GrantOutcome` and `RevokeOutcome` for the outcomes of the same names. Times and sizes are natural
-- numbers. Loops follow lists; only `decimal`, the digits of a number in a message, runs on fuel: twenty
-- steps, one for each digit, where a safe integer has at most sixteen.
--
-- Not modelled: the pages, the server actions and the other route handlers under src/app, the database
-- driver and its transactions (an operation that throws within one leaves the tables as they were), the
-- sign-in library, mail, the HTTP calls behind the transport of the custom hostname client, markdown,
-- themes, and the schema of the signup questions.
pub mod Base
pub mod Cache
pub mod Tenancy
pub mod Db
pub mod Access
pub mod Entitlements
pub mod Storage
pub mod Media
pub mod Auth
pub mod Domains
pub mod Signup
pub mod Sweep
pub mod Player
pub mod Tests
