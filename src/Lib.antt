-- ===== src/Lib.antt =====
-- regixtry, a container registry: a model of its authentication and access control, and of its
-- storage: blobs, manifests, uploads and the garbage collector.
--
-- Parts, from the bottom up, with the modules that model them:
--   Strings, Regexp: what the program uses of Go's strings and regexp packages, written out.
--   Errors: the error values of internal/domain/auth/errors.go and
--     internal/domain/regixtry/errors.go; messages are left unrendered.
--   Actions: an action reads and writes a state and returns a value or an error with the world;
--     Actions.Keeps, Actions.States and Actions.Triples are the rules for invariants and for claims
--     before and after an action.
--   Registry: internal/domain/regixtry: digest.go (ParseDigest, DigestFromBytes), repository.go
--     (ParseRepositoryRef), descriptor.go, manifest.go (NewManifest, Validate, BlobReferences) and
--     upload.go. SHA-256 is a parameter.
--   Auth: internal/domain/auth: user.go, grant.go, scope.go (ParseScope, ParseScopes,
--     NormalizeScopes, normalizeScopeActions), token.go (Validate, Scopes, IsActive) and
--     principal.go (the Has*Access predicates).
--   Access: the actions and access controllers of internal/ports/regixtry.go and
--     internal/ports/defaults.go, and authorizeDeleteRepository of
--     internal/app/regixtry/service.go.
--   AuthStore: internal/infra/auth/postgres/store.go: the tables are lists of rows, a statement is
--     an action on them. AuthStore.Tables and AuthStore.Sound are facts about auth_users.
--   AuthService: internal/app/auth/service.go over the store: Guards (requireAdmin,
--     requireAdminOrRepoAdmin, ensureAnotherActiveAdmin), Users, Tokens, Sessions
--     (LoginWithPassword, LoginWithPreissuedToken, VerifyAccessToken, issueAccessToken), Grants
--     and Robots.
--   Storage: the state of the registry service: the files of the blob directory (Storage.Files), the
--     rows of the metadata database (Storage.Tables), and what the service is built from
--     (Storage.State: Site for the service, Request for the context of a request).
--   BlobStore: internal/infra/storage/fsblob/store.go, every operation. Paths are lists of
--     components, joined as filepath.Join does. BlobStore.Paths, Addressing, Operations and Listing
--     are facts about paths, contents, sequences of calls and ListBlobs; Committing about
--     CommitUpload.
--   MetadataStore: internal/infra/metadata/sqlite/store.go: Uploads, Manifests (PublishManifest,
--     ResolveManifest, ListManifestBlobs), Deletions, Listings (Catalog, ListTags, ListReferrers),
--     Summaries and Reports. A transaction works on the tables that it has read, and one write at
--     its commit stores the result; Joins has the joins and the cascades. Integrity, Resolution,
--     Provenance and Pages are facts about them.
--   RegistryService: internal/app/regixtry: service.go (Payloads, Uploads, Manifests), queries.go
--     (Requests, Queries, Referrers) and service_gc.go (Collection) over the two stores.
--   Examples: runs on small installations.
--
-- What the source relies on and does not contain is the record Env: whether the database or the
-- operating system fails, the clock, UUIDs, random secrets, bcrypt, the hash of secrets, case
-- mapping and collation; and, in the record Site, SHA-256, the JSON of two types, how much of a file
-- is written where writing it fails, and whether a failed rename reports that its target exists.
-- Each interaction has a number, and its answer is any function of that number. One theorem takes
-- as a hypothesis that a rename reports an existing target only where there is one. Requests run
-- one after another: a race between the check and the write of two requests is not modelled. Texts
-- are lists of code points, a time is a number of nanoseconds with 0 the zero time, a duration or
-- size that may be negative is an integer; sums of file sizes are below 2^63. All loops are
-- structural, so there is no fuel.
--
-- Not modelled: of the metadata store, the tables of policies, scans and features; of the registry
-- service, the pull gates of scanning and signing, signing itself and its policies, tag details, and
-- the platforms of image indexes; of the auth service, the methods that only convert a result to a
-- transfer type; scanning, the HTTP layer, the terminal interface and the installers.
pub mod Base
pub mod Strings
pub mod Regexp
pub mod Errors
pub mod Actions
pub mod Registry
pub mod Auth
pub mod Access
pub mod AuthStore
pub mod AuthService
pub mod Examples
pub mod Storage
pub mod BlobStore
pub mod MetadataStore
pub mod RegistryService
