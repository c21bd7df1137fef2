-- ===== src/Chatlog/Durable/Answers.antt =====
-- What the queries of internal/chatlog/log.go answer on the ScyllaDB adapter and on a store that keeps
-- the contract of the storage port, where both hold the same.
use decentralized_messenger.Common.{
  ℕ, ◌-◌, ◌/◌, ◌^◌, ◌<◌, ◌≡◌, refl, ap, ◌∙◌, inl, inr, Option-cases, arith, Bytes, get_elem?, List,
}
use decentralized_messenger.Result.{Result, ok, err, ◌>>=◌}
use decentralized_messenger.Models.{LogEntry, MerkleSnapshot}
use decentralized_messenger.Storage.{IsStorage}
use decentralized_messenger.Storage.Scylla.{Session}
use decentralized_messenger.Storage.Scylla.Table.{IsTable}
use decentralized_messenger.Storage.Scylla.Holds.{at_millisecond}
use decentralized_messenger.Storage.Scylla.Ops.{entry-Holds, entries_since-Holds, snapshot_at-Holds}
use decentralized_messenger.Chatlog.{Ports, Log}
use decentralized_messenger.Chatlog.Queries
use decentralized_messenger.Chatlog.Queries.{
  history, verify, verify_entry, check_entry, expected_prev, prove_inclusion, prove_against,
  prove_in_window, finish_proof,
}
use decentralized_messenger.Chatlog.Invariant.{IsWellFormed}
use decentralized_messenger.Chatlog.Durable.{durable, IsSame}
use decentralized_messenger.Chatlog.Durable.Run.{history-IsSame, verify-IsSame}

>>=-cong :
    {A B : Type 0} (r : Result A) (f g : A → Result B)
    → ((a : A) → f a ≡ g a)
    → (r >>= f) ≡ (r >>= g)
>>=-cong (err e) f g h = refl
>>=-cong (ok a) f g h = h a

module _ {D S C B : Type 0} {session : Session D} (ports : Ports S C B) (table : IsTable session)
    (laws : IsStorage ports.storage) where
  module _ (ld : Log D C B) (l : Log S C B) (c : Bytes) (same : IsSame ports table laws ld l) where
    entry-IsSame :
        (i : ℕ)
        → i < 2 ^ 63
        → Queries.entry (durable session ports) ld c i ≡ Queries.entry ports l c i
    unfolding Queries.entry
    entry-IsSame i h = entry-Holds table laws ld.store l.store same.holds c i h

    expected_prev-IsSame :
        (i : ℕ)
        → i < 2 ^ 63
        → expected_prev (durable session ports) ld c i ≡ expected_prev ports l c i
    unfolding expected_prev
    expected_prev-IsSame i h =
        rw (entry-Holds table laws ld.store l.store same.holds c (i - 1) (omega arith)) refl

    check_entry-IsSame :
        (i : ℕ) (e : LogEntry)
        → i < 2 ^ 63
        → check_entry (durable session ports) ld c i e ≡ check_entry ports l c i e
    unfolding check_entry Queries.check_link
    check_entry-IsSame i e h = rw (expected_prev-IsSame i h) refl

    verify_entry-IsSame :
        (i : ℕ)
        → i < 2 ^ 63
        → verify_entry (durable session ports) ld c i ≡ verify_entry ports l c i
    unfolding verify_entry
    verify_entry-IsSame i h =
        ap (λ r. r >>= λ e. check_entry (durable session ports) ld c i e)
          (entry-Holds table laws ld.store l.store same.holds c i h)
        ∙ >>=-cong (ports.storage.entry l.store c i)
            (λ e. check_entry (durable session ports) ld c i e) (λ e. check_entry ports l c i e)
            (λ e. check_entry-IsSame i e h)

    -- The proof does not depend on when the snapshot was made.
    prove_in_window-IsSame :
        (i k : ℕ) (p : MerkleSnapshot) (window : List LogEntry)
        → prove_in_window (durable session ports) c i (at_millisecond p) k window
          ≡ prove_in_window ports c i p k window
    unfolding prove_in_window finish_proof
    prove_in_window-IsSame i k p window = refl

    prove_inclusion-IsSame :
        (i : ℕ)
        → IsWellFormed ports laws l
        → i < 2 ^ 63
        → prove_inclusion (durable session ports) ld c i ≡ prove_inclusion ports l c i
    unfolding prove_inclusion prove_against
    prove_inclusion-IsSame i wf h =
        let k = i / 100 in
        elim (Option-cases (get_elem? (laws.snapshots l.store c) k)) [
          | inl absent ↦
              rw
                (
                  snapshot_at-Holds table laws ld.store l.store same.holds c k (omega arith),
                  laws.snapshot_at_lem l.store c k,
                  absent,
                )
                refl
          | inr (p, present) ↦
              let first = ((wf.sealed c).each k p present).first in
              rw
                (
                  snapshot_at-Holds table laws ld.store l.store same.holds c k (omega arith),
                  laws.snapshot_at_lem l.store c k,
                  present,
                )
                (ap
                    (λ r.
                      r >>= λ w. prove_in_window (durable session ports) c i (at_millisecond p) k w)
                    (entries_since-Holds table laws ld.store l.store same.holds c p.from_sequence
                      (omega (arith, first)))
                  ∙ >>=-cong (ports.storage.entries_since l.store c p.from_sequence)
                      (λ w. prove_in_window (durable session ports) c i (at_millisecond p) k w)
                      (λ w. prove_in_window ports c i p k w) (prove_in_window-IsSame i k p))
        ]

  -- For a log on the ScyllaDB adapter and one on a store that keeps the contract of the Storage
  -- port, which hold the same, where the log keeps the invariant: Verify answers alike on both,
  -- and for a sequence number below 2^63 so do Entry, History, VerifyEntry and ProveInclusion. The
  -- tables keep the contract of their statements.
  pub queries-IsSame :
      (ld : Log D C B) (l : Log S C B) (c : Bytes) (i limit : ℕ)
      → IsSame ports table laws ld l
      → IsWellFormed ports laws l
      → i < 2 ^ 63
      → (verify (durable session ports) ld c ≡ verify ports l c)
        × (Queries.entry (durable session ports) ld c i ≡ Queries.entry ports l c i)
        × (history (durable session ports) ld c i limit ≡ history ports l c i limit)
        × (verify_entry (durable session ports) ld c i ≡ verify_entry ports l c i)
        × (prove_inclusion (durable session ports) ld c i ≡ prove_inclusion ports l c i)
  queries-IsSame ld l c i limit same wf h = (
    verify-IsSame ports table laws ld l c same,
    entry-IsSame ld l c same i h,
    history-IsSame ports table laws ld l c i limit same h,
    verify_entry-IsSame ld l c same i h,
    prove_inclusion-IsSame ld l c same i wf h,
  )
