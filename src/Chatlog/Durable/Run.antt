-- ===== src/Chatlog/Durable/Run.antt =====
-- Runs of a node on the ScyllaDB adapter, and what its queries answer.
use decentralized_messenger.Common.{
  ℕ, suc, ◌+◌, ◌^◌, ◌<◌, ◌≤◌, ◌≡◌, refl, ap, ◌∙◌, true, List, [], ◌∷◌, arith, All, Bytes, length,
}
use decentralized_messenger.Codec.Time.{Time}
use decentralized_messenger.Result.{ok}
use decentralized_messenger.Models.{SignedMessage, LogEntry, genesis_hash}
use decentralized_messenger.Storage.{IsStorage}
use decentralized_messenger.Storage.Scylla.{Session}
use decentralized_messenger.Storage.Scylla.Table.{IsTable}
use decentralized_messenger.Storage.Scylla.Holds.{IsPrecise}
use decentralized_messenger.Storage.Scylla.Ops.{entries_since-Holds, entries_since-large}
use decentralized_messenger.Chatlog.{Ports, Log, VerifyResult, append_message}
use decentralized_messenger.Chatlog.Queries.{verify, verify_loop, history}
use decentralized_messenger.Hash.{IsSized}
use decentralized_messenger.Chatlog.Invariant.{IsWellFormed}
use decentralized_messenger.Chatlog.Invariant.Preserved.{append_message-IsWellFormed}
use decentralized_messenger.Chatlog.Reach.{
  run, IsEmpty, IsEmpty-IsWellFormed, length-append_message-le, verify-run,
}
use decentralized_messenger.Chatlog.Durable.{durable, IsSame, IsStorable}
use decentralized_messenger.Chatlog.Durable.Step.{append_message-IsSame}

module _ {D S C B : Type 0} {session : Session D} (ports : Ports S C B) (table : IsTable session)
    (laws : IsStorage ports.storage) where
  -- The messages of some calls can be stored, and their times are kept.
  abbrev pub AreStorable : List (SignedMessage × Time) → Type 0
  AreStorable = All (λ call. IsStorable ports table laws call.0 × IsPrecise call.0)

  verify_loop-durable :
      (total i : ℕ) (prev : Bytes) (es : List LogEntry)
      → verify_loop (durable session ports) total i prev es ≡ verify_loop ports total i prev es
  unfolding verify_loop
  verify_loop-durable total i prev es = refl

  pub verify-IsSame :
      (ld : Log D C B) (l : Log S C B) (c : Bytes)
      → IsSame ports table laws ld l
      → verify (durable session ports) ld c ≡ verify ports l c
  unfolding verify
  verify-IsSame ld l c same =
      rw
        (
          entries_since-Holds table laws ld.store l.store same.holds c 0 (omega arith),
          laws.entries_since_lem l.store c 0,
        )
        (ap ok (
          verify_loop-durable (length (laws.entries l.store c)) 0 genesis_hash
            (laws.entries l.store c)))

  module _ (sized : IsSized ports.sha256) where
    run-IsSame_from :
        (calls : List (SignedMessage × Time)) (ld : Log D C B) (l : Log S C B) (k : ℕ)
        → IsSame ports table laws ld l
        → IsWellFormed ports laws l
        → AreStorable calls
        → ((c : Bytes) → length (laws.entries l.store c) ≤ k)
        → k + length calls < 2 ^ 63
        → IsSame ports table laws (run (durable session ports) ld calls) (run ports l calls)
    unfolding run
    run-IsSame_from [] ld l k same wf storable bound h = same
    run-IsSame_from ((msg, now) ∷ calls) ld l k same wf ((accepted, precise), storable) bound h =
        let room : suc (length (laws.entries l.store msg.chat_id)) < 2 ^ 63 =
          omega (arith, bound msg.chat_id) in
        run-IsSame_from calls (append_message (durable session ports) ld msg now).1
          (append_message ports l msg now).1 (k + 1)
          (append_message-IsSame ports table laws sized ld l msg now same wf accepted precise
            room).1
          (append_message-IsWellFormed ports laws l msg now wf (omega arith)) storable
          (λ c.
            omega
              (arith, length-append_message-le ports laws l msg now c wf (omega arith), bound c))
          (omega arith)

    -- After the same calls of `Append` the two logs hold the same.
    pub run-IsSame :
        (ld : Log D C B) (l : Log S C B) (calls : List (SignedMessage × Time))
        → IsSame ports table laws ld l
        → IsEmpty ports laws l
        → AreStorable calls
        → length calls < 2 ^ 63
        → IsSame ports table laws (run (durable session ports) ld calls) (run ports l calls)
    run-IsSame ld l calls same empty storable h =
        run-IsSame_from calls ld l 0 same (IsEmpty-IsWellFormed ports laws l empty) storable
          (λ c. omega (arith, ap length (empty.entries c))) (omega arith)

    -- After any sequence of fewer than 2^63 calls of Append on empty tables, with messages that
    -- the tables accept with any hashes of ASCII and whose times have millisecond precision,
    -- Verify on the ScyllaDB adapter calls the log of every chat valid and counts the entries that
    -- a store that keeps the contract of the Storage port has after the same calls. The tables
    -- keep the contract of their statements. Digests are of 32 bytes.
    pub verify-run-durable :
        (ld : Log D C B) (l : Log S C B) (calls : List (SignedMessage × Time)) (c : Bytes)
        → IsSame ports table laws ld l
        → IsEmpty ports laws l
        → AreStorable calls
        → length calls < 2 ^ 63
        → (r : VerifyResult) × (verify
              (durable session ports)
              (run (durable session ports) ld calls)
              c
            ≡ ok r)
          × (r.valid ≡ true)
          × (r.entries ≡ length (laws.entries (run ports l calls).store c))
    verify-run-durable ld l calls c same empty storable h =
        let (r, done, valid, count) = verify-run ports laws l calls c empty h in
        (
          r,
          verify-IsSame (run (durable session ports) ld calls) (run ports l calls) c
                (run-IsSame ld l calls same empty storable h)
              ∙ done,
          valid,
          count,
        )

  -- From a sequence number of 2^63 or more, History on the ScyllaDB adapter answers what it
  -- answers from 0 on a store that keeps the contract of the Storage port and holds the same. The
  -- tables keep the contract of their statements.
  pub history-large :
      (ld : Log D C B) (l : Log S C B) (c : Bytes) (from limit : ℕ)
      → IsSame ports table laws ld l
      → 2 ^ 63 ≤ from
      → history (durable session ports) ld c from limit ≡ history ports l c 0 limit
  unfolding history
  history-large ld l c from limit same h =
      rw
        (
          entries_since-large table laws ld.store l.store same.holds c from h,
          laws.entries_since_lem l.store c 0,
        )
        refl

  -- Below 2^63, `History` answers as on the other store.
  pub history-IsSame :
      (ld : Log D C B) (l : Log S C B) (c : Bytes) (from limit : ℕ)
      → IsSame ports table laws ld l
      → from < 2 ^ 63
      → history (durable session ports) ld c from limit ≡ history ports l c from limit
  unfolding history
  history-IsSame ld l c from limit same h =
      rw (entries_since-Holds table laws ld.store l.store same.holds c from h) refl
