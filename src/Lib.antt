-- ===== src/Lib.antt =====
-- KeyHub, a self-hosted vault for credentials with a proxy for calls of LLM providers: the code under
-- keyhub/ of this repository.
--
-- The store (keyhub/store.py) keeps credentials, encrypted by the vault (keyhub/crypto.py) whose key
-- the runtime (keyhub/runtime.py) derives from the master password. Requests are authenticated by
-- keyhub/auth.py and limited by keyhub/ratelimit.py; calls of a provider take a key that the balancer
-- (keyhub/llm/balancer.py) selects, within the limits of keyhub/llm/keylimit.py, with the names of
-- keyhub/llm/aliases.py and the cache of keyhub/llm/cache.py; keyhub/llm/proxy.py makes the calls and
-- has them counted by keyhub/llm/tracker.py at the prices of keyhub/llm/providers.py. Endpoints
-- (keyhub/api/) call these parts; credentials come in and go out as backups (keyhub/backup.py) and from
-- the exports of other programs (keyhub/importers.py); and what happens is told to the subscribers of
-- keyhub/api/events.py and by the notifications of keyhub/notify.py.
--
-- Files and code:
--   Common      shared names, dictionaries, lists, lookups
--   Models      keyhub/models.py and the record of keyhub/audit.py: the rows
--   Crypto      CryptoVault.encrypt and decrypt_bytes of keyhub/crypto.py
--   Store       keyhub/store.py; a call takes the tables and what is drawn (ids, nonce, time) and
--               returns the tables after it; where it raises, these are the tables as they were, by the
--               rollback of session_scope (keyhub/db.py)
--   Ratelimit   LoginRateLimiter and TokenRateLimiter of keyhub/ratelimit.py
--   Keylimit    KeyRateLimiter of keyhub/llm/keylimit.py
--   Balancer    KeyBalancer of keyhub/llm/balancer.py, with its table of keys
--   Cache       ResponseCache of keyhub/llm/cache.py
--   Aliases     ModelAliasManager of keyhub/llm/aliases.py, in memory and in its row
--   Runtime     Runtime of keyhub/runtime.py: State for initialize, unlock and lock, Change for
--               change_master_password in its session_scope (keyhub/db.py), RwLock for _RWLock as a
--               relation of steps
--   AutoLock    AutoLockChecker of keyhub/auto_lock.py: touch, and the turns of its loop
--   Auth        keyhub/auth.py: Scopes, Sessions, and Guard for require_auth, create_token and the
--               revocation of keyhub/api/auth.py
--   Api         the unlock endpoint of keyhub/api/auth.py: Unlock for its two steps, Crowd for any order
--               of the steps of several requests, AtOnce for requests that all come before any answer
--   Json        JSON values, as the calls of providers have them
--   Providers   keyhub/llm/providers.py, with its tables
--   Tracker     record_usage and aggregate_cost of keyhub/llm/tracker.py
--   Latency     LatencyStats of keyhub/llm/latency_stats.py
--   Proxy       chat of keyhub/llm/proxy.py: Request for what is sent and read, World for what a call
--               works on, Attempt for the stages of a round, Chat for the rounds and the cache;
--               Lines, Stream and StreamRounds for chat_stream, whose consumer may close it at any yield
--   Rotation    check_once and get_reminders of keyhub/rotation.py
--   Backup      keyhub/backup.py: Frame, Export and Import for the backup of the credentials, with its
--               file as bytes, Full for the backup of the whole database
--   Gateway     keyhub/api/v1.py: the endpoints in the form of OpenAI's, Embed for embeddings
--   Importers   keyhub/importers.py, and Endpoint for import_credentials of keyhub/api/credentials.py
--   Events      EventBroadcaster of keyhub/api/events.py and the generator behind its endpoint
--   Notify      Notifier of keyhub/notify.py: de-duplication, channels and the tries of the webhook
--   LlmApi      set_key_status and test_key of keyhub/api/llm.py
-- In each, the other modules hold the proofs, Toy the concrete parameters and Tests the instances.
--
-- Methods are functions from the state to the state and the answer; exceptions are values of a sum
-- type. Times are milliseconds (seconds for the cookie, lifetimes in the cache and the automatic
-- lock), and money is counted in millionths of a dollar. A setting of 0 stands for every one that is
-- not positive. Loops are structural recursion over the lists that the code walks, so no fuel is used.
-- The code around the models is a parameter with the laws that its documentation gives: AES-GCM and
-- zlib (CryptoLib), Argon2, HKDF and the parameters' JSON (PasswordLib), the table's JSON (JsonLib),
-- the cookie serializer (SerializerLib), digests and random draws, the rounding of costs (Rounding),
-- the JSON of a stream's lines (StreamLib) and of a backup (BackupLib), what SQLite reads of a file
-- (SqliteLib), the validation of an item and csv.DictReader (ReadLib), and in each round of a call what
-- the provider answers, the times and the jitter (Try, and Flow for a stream). A call has one
-- of them for each of its rounds.
--
-- Not modelled: metrics, the texts of notifications and mail, the command line, the web pages and the
-- wiring of the application. Calls are sequential, but for the steps of the lock, those of the
-- unlock endpoint and the turns of the loops of subscribers, so a wait for a permit of the semaphore
-- ends in its time-out where none is left; apart from the aliases, the balancer and the change of the
-- master password, the database always answers. The created_at and updated_at of the rows of keys are left out, and a rotation period is a
-- natural number.
pub mod Common
pub mod Models
pub mod Crypto
pub mod Store
pub mod Ratelimit
pub mod Keylimit
pub mod Balancer
pub mod Cache
pub mod Aliases
pub mod Runtime
pub mod AutoLock
pub mod Auth
pub mod Api
pub mod Json
pub mod Providers
pub mod Tracker
pub mod Latency
pub mod Proxy
pub mod Rotation
pub mod Backup
pub mod Gateway
pub mod Importers
pub mod Events
pub mod Notify
pub mod LlmApi
