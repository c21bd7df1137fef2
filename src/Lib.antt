-- ===== src/Lib.antt =====
-- A decentralized messenger node: clients sign messages, and a node appends them to one log for each
-- chat, chained by hashes and sealed by Merkle snapshots, so that everyone can check the history.
--
-- The parts, from the bottom up. Paths are from the root of the repository.
--
-- - Common: lists by native numbers, byte strings, and Go's maps as association lists.
-- - Codec: Go's encodings that the node hashes and signs: hexadecimal, decimal (with `formatUint` of
--   internal/models/message.go), base64, JSON of a map of strings, and RFC 3339 times.
-- - Hash: what is assumed of SHA-256, the size of its digests. That digests do not collide is not
--   assumed: a conclusion that rests on it is an alternative to a `Collision`, two different texts
--   with one digest among those that the code hashes there, which the statement lists.
-- - Merkle: internal/merkle/tree.go. `root`, `proof` and `verify_proof` are `Root`, `Proof` and
--   `VerifyProof`; the loops over layers are `root_loop` and `proof_loop`, on fuel that is the number
--   of leaves: a layer of n > 1 nodes is followed by one of (n + 1) / 2, which is less than n.
-- - Result: the sentinel errors of the packages, wrapped errors, and `errors.Is`.
-- - Models: internal/models. `signing_payload` is `SigningPayload`, `compute_hash` is `ComputeHash`.
--   Models/Binding reads the fields back from the signed text, with the reader of Codec/Json/Unescape.
-- - Crypto: internal/crypto. Ed25519 and AES-GCM are parameters, with what their packages document;
--   `Sign` panics on a private key that does not have 64 bytes.
-- - Storage: internal/storage/storage.go. `StorageOps` is the interface, `IsStorage` its contract
--   over an abstract view of the store: a list of entries and a list of snapshots for each chat.
--   Storage/Memory is `InMemoryStorage`. Storage/Scylla is the adapter of internal/storage/scylla.go;
--   the session of gocql is a parameter with one operation for each CQL statement, and
--   Storage/Scylla/Table says what is assumed of the tables.
-- - Cache, Broker: internal/cache/cache.go and internal/broker/broker.go, each with the interface, the
--   no-op and the in-memory implementation. Cache/Redis is the adapter of internal/cache/redis.go, on
--   a client as a parameter. Broker/Receive has the steps of subscribers of the in-memory broker, and
--   Broker/RabbitMq is the adapter of internal/broker/rabbitmq.go; what RabbitMQ does with a message
--   that is published is not assumed.
-- - Chatlog: internal/chatlog/log.go. `append_message` is `Append`; `take_snapshot` is `snapshot`.
--   Chatlog/Queries has the methods that change nothing: `ProveInclusion`, `History`, `Entry`,
--   `VerifyEntry`, `Verify` and `Sync`. Chatlog/Failures is `Append` on a store whose operations
--   may fail. The log is generic in its three ports, and its theorems take the contract of the storage
--   port as a parameter. Chatlog/Invariant is the invariant.
--   Chatlog/Durable is the log on the ScyllaDB adapter, Chatlog/Events what `Append` publishes, and
--   Chatlog/Locks concurrent calls of `Append`, whose steps are the calls of the ports.
-- - Service: internal/service/messenger.go, in front of the log.
-- - RateLimit: internal/ratelimit/limiter.go and `rateLimitMiddleware` of internal/api/server.go. The
--   token bucket is a parameter. RateLimit/Eviction is the limiter with the loop `evictLoop`.
-- - Api: internal/api/server.go. A handler is a function from the decoded parts of a request to a
--   response with a status. Api/Paging has a client that follows the cursors of `handleHistory`; its
--   fuel is a number of pages. Api/Stream is the loop of `handleStream`, and Api/Stream/Handler what
--   is around it, with the methods `Subscribe`. Api/Routes has the routes of `Handler` behind the
--   rate limit, and Api/Setup `NewServer` with its options.
-- - Startup: cmd/messenger/main.go, the choice of the adapters, the demonstration and, in
--   Startup/Process, the wait for the end of the server.
-- - Examples: a node over the in-memory adapters with a toy digest, and the theorems at its values.
--
-- How the code is modelled. State is passed explicitly. A `uint64` is a number with its wrap-around
-- written out (`next_u64`, `sub_u64`); an `int` that counts the elements of a slice is below 2^63. A
-- string or a slice of bytes is a list of numbers. A call of `Append` is one step outside
-- Chatlog/Locks; so is each method of an in-memory adapter, under its mutex. The clock and the
-- random source are arguments. An index out of range is `panic` where the code could meet it.
--
-- Not modelled: the flags of the command and the settings of the HTTP server; the connections of the
-- ScyllaDB and Redis adapters; the decoding of a JSON body and of a path; the texts of errors.
pub mod Common
pub mod Codec
pub mod Hash
pub mod Merkle
pub mod Result
pub mod Models
pub mod Crypto
pub mod Storage
pub mod Cache
pub mod Broker
pub mod Chatlog
pub mod Service
pub mod RateLimit
pub mod Api
pub mod Startup
pub mod Examples
