-- ===== src/Examples.antt =====
-- Small concrete parts that the examples share: a toy digest and toy signatures that meet the laws of
-- the libraries, a node with the in-memory adapters, and a chat with 100 messages.
mod Node
mod Texts
mod Hashing
mod Ledger
mod Adapters
mod Requests
mod Streams
mod Tables
mod Durable
mod Concurrent
mod Failing
mod Limits
mod Connections
