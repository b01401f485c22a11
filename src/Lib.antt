-- ===== src/Lib.antt =====
-- video-site: the accounts service (src/users_service) and the gateway in front of it
-- (src/gateway), modelled and proved.
--
-- The program. users-service keeps accounts, roles, login sessions, one-time tokens and an audit
-- log in a database, counts attempts in a rate limiter, caches accounts and sends mail. A request
-- reaches it through the gateway, which finds the service of a path, asks users-service who calls,
-- and forwards the request with headers that say so. In users-service a middleware checks the CSRF
-- token, dependencies find the credentials and the permission, a use case runs in one database
-- transaction, and an error handler answers what it raises.
--
-- The files.
--   Common        texts, lists, tests and the lemmas on tables that the parts share
--   Entities      src/users_service/entities: User, Role, Permission, AuthSession, SecurityToken,
--                 AuditEvent and their rules; a datetime is a number of microseconds
--   Errors        application/common/errors.py
--   Database      adapter/database: the tables as lists in the order of insertion, one module for
--                 each repository, one function for each operation
--   RateLimit     adapter/rate_limit/in_memory_rate_limiter.py, on a clock in nanoseconds, and
--                 redis_rate_limiter.py (Redis), over the commands of a Redis
--   Pbkdf2        adapter/security/password_hasher.py: the stored format of a password
--   Seed          adapter/seed_data.py and adapter/database/seed.py: the demo data
--   Service       application/common and the token services: the DTOs, what comes from outside
--                 (Outside), the state and the actions of a use case (Actions)
--   Auth, Moderation, Accounts, AccessControl
--                 one function for each use case, named as its file, with one function for each
--                 block of it
--   Requests      the requests, one for each use case, and runs of them
--   UserCache     application/common/user_cache_codec.py: an account as the text of the cache
--   Api           infrastructure: the settings that decide something, the CSRF middleware, the
--                 cookies, the dependencies, the error handlers, the models of bodies (Models), the
--                 serializers, and the handlers of the routes (Routers)
--   App           bootstrap.py and routers/__init__.py: the routes (Endpoints), the middlewares
--                 around them (Serving), and what is proved of requests
--   Container     dependency_injection.py: the settings of the use cases, the selected backends
--   Gateway       src/gateway: routes, identity, headers, the handler
--   Theorems      what holds across the use cases
--   Tests         a small deployment, and the examples of the theorems
--
-- How it is modelled. A use case is an action: it takes the state (World) to a result or an error
-- and a new state. World holds what is committed (db), the view of the open transaction (work), the
-- counters, the cache, the mail that was sent, and the number of calls whose answer comes from
-- outside. `transaction` begins with what is committed and drops what was not, whether its block
-- returns or raises; `commit` makes the view the database.
--
-- Bounds. A text of a device (address, user agent, visitor id, device name) that is wider than its
-- column of the accounts, the sessions or the audit log makes the insertion fail (Error.too_long),
-- as PostgreSQL does. The widths of the other columns are not modelled: the routes bound those of
-- their texts that clients write, and the others are hashes and identifiers of a fixed form.
-- Limits, windows and times are natural numbers; a limit of 0 stands for every limit that is not
-- positive. Two definitions take fuel: the digits of a number, of which n has at most n + 1, and
-- the walk along the classes of an error, of which no chain has more than three. Every other loop
-- is structural recursion.
--
-- What comes from outside is a field of a record that the definitions take: clocks, randomness,
-- hashing, the JWT library, `str.lower`, `str.format`, the answers of the network, and whether a
-- cache still holds an entry. Nothing is assumed of them, but that the texts which the cache holds
-- can be read back, that a hasher accepts a password against its own hash, that a key derivation
-- gives bytes, and that a Redis does what the documentation of its commands says, each where it is
-- used.
--
-- Not modelled. A request runs to its end before the next begins: the interleaving of two
-- transactions is not modelled, nor are foreign keys (each write follows a lookup, and accounts are
-- never dropped), the sequences behind the ids (one `next_id` serves all tables), the cache's Redis,
-- SMTP, Argon2, the streaming of bodies, CORS, the matching of paths, the reading of JSON bodies,
-- start-up, the gateway's probes, the creation of tables and the migrations. The cache of a World
-- holds the accounts themselves, not their texts. Sending mail never raises, as both senders catch
-- what goes wrong.
pub mod Common
pub mod Entities
pub mod Errors
pub mod Database
pub mod RateLimit
pub mod Service
pub mod Auth
pub mod Moderation
pub mod UserCache
pub mod Accounts
pub mod AccessControl
pub mod Requests
pub mod Theorems
pub mod Gateway
pub mod Api
pub mod App
pub mod Container
pub mod Pbkdf2
pub mod Seed
pub mod Tests
