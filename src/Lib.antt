-- ===== src/Lib.antt =====
-- A verification library for the multi-tenant CMS of this repository: a Go server whose REST
-- API edits tenants' pages in a PostgreSQL database, and which publishes them as static sites.
--
-- Parts, and the files that model them:
--   internal/cache/cache.go        Cache: the in-memory cache, one function per method
--                                  (get, set, delete, set_nx, incr) and sweep for a pass of the
--                                  janitor. Cache/Spec: the store it refines. Cache/Locks:
--                                  SetNX as a lock. Cache/Kept: what a later Get finds.
--                                  Cache/RateLimit: rateLimit of internal/httpapi/middleware.go.
--   internal/models/models.go      Models/Roles, and the rows in Db.
--   internal/models/sectiontypes.go  Models/Schema (ValidateSchema), Models/Content
--                                  (NormalizeContent), Models/Media (CollectMediaIDs), on the
--                                  JSON values of Models/Json.
--   internal/audit/audit.go        record_audit of Db.
--   internal/httpapi/middleware.go Http/Access: requireAuth, requirePlatformAdmin, tenantRoute.
--                                  Http/Access/Grants says who may enter a tenant.
--   internal/httpapi/handlers_pages.go         Http/Pages and Http/Sections.
--   internal/httpapi/handlers_sectiontypes.go  Http/SectionTypes.
--   internal/httpapi/handlers_tenants.go       Http/Tenants, and Http/Members for a tenant's users.
--   internal/httpapi/handlers_websites.go      Http/Websites.
--   internal/httpapi/server.go     Http/Routes and Http/AdminRoutes: the routes of those handlers and
--                                  their roles. Http/Invariant: what the handlers of content keep
--                                  true of the tables. Http/Isolation: what they leave alone of
--                                  other tenants. Http/Staff: the same for tenants, users and
--                                  websites, whose handlers are steps of the relation Change;
--                                  Http/Staff/Run puts all routes together.
--   internal/httpapi/handlers_auth.go, internal/auth/auth.go  Auth: login, refresh, logout, change of
--                                  password, me. Auth/Calls: their calls one after another, as steps
--                                  of the relation Moves on refresh_tokens. Auth/Rotation and
--                                  Auth/Ended are about what ends a session, Auth/Sound about what
--                                  a login grants.
--   cmd/server/main.go             Startup (main up to serving; Startup/Ready says what a server that
--                                  serves has) and Auth/Janitor (the janitor's deletion of tokens,
--                                  bootstrapAdmin).
--   internal/httpapi/handlers_media.go  Uploads, with Uploads/Names for types and names of files.
--                                  Uploads/Shelf and Uploads/Sound keep rows and objects together,
--                                  Uploads/Stored is about an upload and its deletion.
--   internal/storage/storage.go    Uploads/Store: the interface, its laws, local files, the bucket.
--   internal/publish/snapshot.go   Site/Snapshot: BuildSnapshot, on the bundle of Models/Snapshot.
--   internal/generator/generator.go  Site/Links, Site/Blocks (buildBlock, buildItem) and
--                                  Site/Generate. Site/Paths, Site/Files and Site/Complete are
--                                  about its files, Site/Shown about its blocks. Site/Listed has the
--                                  rows that a snapshot shows, Site/Referred the media that it
--                                  refers to; Site/Pictures is about its media, Site/Published about
--                                  tables, snapshot and files together.
--   internal/publish/publisher.go  Publish (StartPublish), Publish/Run (run, deployToGitHub, fail),
--                                  Publish/Repo (repoName). Publish/Run/Outcome says how a job ends,
--                                  Publish/Lock what its lock is good for. Publish/Preview is
--                                  BuildPreview and PreviewValid.
--   internal/httpapi/handlers_publish.go  Publish/Handlers, and Publish/Handlers/Queued on what they
--                                  queue.
--   internal/publish/github.go     Publish/Github (EnsureRepo, sanitize) and Publish/Push (Push,
--                                  copyDir). Publish/Push/Git has what it relies on of git,
--                                  Publish/Push/Mirrors says what it makes of the remote.
--   internal/publish/cloudflare.go  Publish/Cloudflare: AwaitDeployment.
--   internal/db/seed.go            Seed, with the library of internal/models/sectiontypes.go.
--                                  Seed/Sound says what seeding does to the tables.
--   internal/config/config.go      Config (Load). Config/Restart is about the stored secret.
--   internal/db/db.go              Migrations (migrate). Migrations/Resumed says how starts that
--                                  fail and start again end.
-- Common holds what these share: Boolean tests on the native numbers, lists as tables,
-- association lists as maps, and the parts of strings, strconv and sort that the code uses.
-- The modules named Tests run the definitions on concrete inputs.
--
-- How the code is read:
--   - A table is a list of rows, oldest first; an id is the text of its uuid. A handler is a
--     function from the tables to a response and the tables. UNIQUE and PRIMARY KEY constraints
--     are tests in the statements that could violate them, ON DELETE CASCADE is in the deletion.
--     The database calls of one handler follow one another with no other request in between.
--   - Where the spelling of an id in a path matters, in publishing, whose lock is named by that text,
--     `uuid` is PostgreSQL's reading of it; elsewhere a path holds ids in their own spelling.
--   - Which database calls fail is part of the request: `fails n` is the n-th call of the
--     middleware and of the handler after it. The id of a new row and the time are part of the
--     request too, the time being the same for the whole request. A path value that is no uuid
--     is a call that fails.
--   - A decoded body is an argument, with `none` for a body that does not decode. The error
--     texts that quote the decoder are left out, those of ValidateSchema are constructors.
--   - A call of the cache is one step, as it runs under the mutex; the clock moves between
--     calls. Counters are int64, with the wrap-around of ++ and the clamping of ParseInt.
--   - JSON is a tree; a number keeps the text of its float64, since no code computes with it. An
--     object is an association list without order among its keys' readers; encoding and decoding
--     belong to Go's library. Stored fields of a block type are the fields themselves.
--   - sort_order is a number without bound. An id that occurs twice in a list to reorder by
--     takes its first position; PostgreSQL leaves open which it is.
--   - Generate yields the files by their paths. The HTML template (a function that may fail) and
--     the style sheet are parameters, file operations do not fail. BuildSnapshot takes which
--     texts PostgreSQL reads as a uuid as a parameter.
--   - A deployment's job meets a World: git, GitHub and Cloudflare, as the results of their calls
--     in order, which of its own database calls fail, one number for each call site, and the
--     text of an error. The polls that come before AwaitDeployment's deadline are a list, so the
--     loop over them ends. The stored snapshot is the snapshot itself.
--   - The check of an access token (the jwt library) is a parameter, `parse`, or `verify` with the
--     time. Signing it, SHA-256,
--     bcrypt and lower(...) of PostgreSQL are the fields of Crypto, and strings.ToLower with its
--     Unicode tables is the parameter `to_lower`. Random bytes, ids and salts are part of a call.
--   - Times of tokens are numbers of seconds. Rows of users are never deleted by the program, so
--     the foreign keys to them always hold.
--   - The store of media is a record of operations with faults, and theorems ask for its laws
--     (IsLawful); local files and the bucket satisfy them. The client library of the bucket writes
--     an object whole or not at all, and removing a missing object is no error there.
--     http.DetectContentType is an input of an upload. Contents are texts.
--   - The environment and the disk of Load are association lists; .env is the lines that the
--     scanner yields, filepath.Join a parameter. A file that cannot be read counts as missing.
--   - EnsureRepo takes GitHub's API, Push takes git as a function on the files of the clone and on
--     what git keeps elsewhere; in a deployment's World both are the results of these two calls.
--     sanitize cuts at a byte: a character that the cut splits is left out in the model.
-- All recursion is structural, so there is no fuel, but for the digits of FormatInt, where 20
-- steps are enough for every int64.
--
-- Not modelled: the redis cache, the HTTP clients of GitHub and Cloudflare, and the process
-- itself; files, network and templates are I/O. A panic of the generator, which the publisher recovers from, is not modelled
-- either.
pub mod Common
pub mod Cache
pub mod Models
pub mod Db
pub mod Http
pub mod Site
pub mod Publish
pub mod Seed
pub mod Auth
pub mod Startup
pub mod Uploads
pub mod Config
pub mod Migrations
