-- ===== src/Chatlog/Reach.antt =====
-- Logs of internal/chatlog/log.go that are reached from an empty store by calls of `Append`, for any
-- chats and any messages, in any order.
use decentralized_messenger.Common.{
  ℕ, ◌+◌, ◌^◌, ◌<◌, ◌≤◌, ◌≡◌, refl, sym, ap, Bool, true, false, List, [], ◌∷◌, ◌++◌, inl, inr,
  Bool-cases, arith, if◌then◌else◌, Bytes, bytes_eq, bytes_eq_iff, length, length-append, get_elem?,
  some, All,
}
use mathlib.Core.Path.{subst, subst₂}
use decentralized_messenger.Codec.Time.{Time}
use decentralized_messenger.Result.{ok}
use decentralized_messenger.Models.{LogEntry, MerkleSnapshot, SignedMessage, genesis_hash}
use decentralized_messenger.Crypto.Keys.{verify_message}
use decentralized_messenger.Storage.{IsStorage}
use decentralized_messenger.Chatlog.{Ports, Log, VerifyResult, supported_version, append_message}
use decentralized_messenger.Chatlog.Queries.{verify}
use decentralized_messenger.Chatlog.Chain.{IsChain, verify_lem}
use decentralized_messenger.Chatlog.Append.{next_entry, append_message-refused}
use decentralized_messenger.Chatlog.Invariant.{IsWellFormed, AreSnapshots}
use decentralized_messenger.Chatlog.Invariant.Effect.{append_message-Effect}
use decentralized_messenger.Chatlog.Invariant.Preserved.{append_message-IsWellFormed}

pub length-if-le :
    (b : Bool) (xs ys : List LogEntry) (e : LogEntry)
    → (b ≡ true → xs ≡ ys)
    → length (if b then xs ++ e ∷ [] else ys) ≤ length ys + 1
length-if-le true xs ys e h = omega (arith, length-append xs (e ∷ []), ap length (h refl))
length-if-le false xs ys e h = omega arith

module _ {S C B : Type 0} (ports : Ports S C B) where
  -- Calls of `Append`, each with the time at which it runs; a call that fails changes nothing more.
  unfoldable pub run : Log S C B → List (SignedMessage × Time) → Log S C B
  run l [] = l
  run l ((msg, now) ∷ calls) = run (append_message ports l msg now).1 calls

module _ {S C B : Type 0} (ports : Ports S C B) (laws : IsStorage ports.storage) where
  -- A store with no chats.
  pub record IsEmpty (l : Log S C B) : Type 0 where
    pub entries : (c : Bytes) → laws.entries l.store c ≡ []
    pub snapshots : (c : Bytes) → laws.snapshots l.store c ≡ []

  none_in_nil : (k : ℕ) (s : MerkleSnapshot) → get_elem? [] k ≡ some s → ⊥
  none_in_nil k s p = cc

  pub IsEmpty-IsWellFormed : (l : Log S C B) → IsEmpty l → IsWellFormed ports laws l
  IsEmpty-IsWellFormed l e = record {
    chain = λ c. subst (IsChain ports 0 genesis_hash) (sym (e.entries c)) tt;
    own = λ c. subst (All (λ x. x.message.chat_id ≡ c)) (sym (e.entries c)) tt;
    sealed = λ c.
        subst₂ (AreSnapshots ports.sha256 c) (sym (e.entries c)) (sym (e.snapshots c))
          (record { count = refl; each = λ k s p. absurd (none_in_nil k s p) });
  }

  -- A call adds at most one entry to each chat.
  pub length-append_message-le :
      (l : Log S C B) (msg : SignedMessage) (now : Time) (c : Bytes)
      → IsWellFormed ports laws l
      → length (laws.entries l.store msg.chat_id) < 2 ^ 63
      → length (laws.entries (append_message ports l msg now).1.store c)
        ≤ length (laws.entries l.store c) + 1
  length-append_message-le l msg now c wf room =
      let (old, forged) = append_message-refused ports laws l msg now in
      elim (Bool-cases (supported_version msg.schema_version)) [
        | inr u ↦ rw (old u) (omega arith)
        | inl s ↦ elim (Bool-cases (verify_message ports.ed25519 msg)) [
          | inr f ↦ rw (forged s f) (omega arith)
          | inl v ↦
              let eff =
                (append_message-Effect ports laws l msg now wf
                  (record { supported = s; signed = v; room = room })).1 in
              rw (eff.entries c) (
                length-if-le (bytes_eq msg.chat_id c) (laws.entries l.store msg.chat_id)
                  (laws.entries l.store c) (next_entry ports laws l msg)
                  (λ same. ap (laws.entries l.store) ((bytes_eq_iff msg.chat_id c).0 same)))
        ]
      ]

  run-IsWellFormed_from :
      (calls : List (SignedMessage × Time)) (l : Log S C B) (k : ℕ)
      → IsWellFormed ports laws l
      → ((c : Bytes) → length (laws.entries l.store c) ≤ k)
      → k + length calls < 2 ^ 63
      → IsWellFormed ports laws (run ports l calls)
  unfolding run
  run-IsWellFormed_from [] l k wf bound h = wf
  run-IsWellFormed_from ((msg, now) ∷ calls) l k wf bound h =
      let room : length (laws.entries l.store msg.chat_id) < 2 ^ 63 =
        omega (arith, bound msg.chat_id) in
      run-IsWellFormed_from calls (append_message ports l msg now).1 (k + 1)
        (append_message-IsWellFormed ports laws l msg now wf room)
        (λ c. omega (arith, length-append_message-le l msg now c wf room, bound c)) (omega arith)

  -- From an empty store, any sequence of fewer than 2^63 calls of Append, for any chats and
  -- messages, reaches a log that keeps the invariant: every chat is a hash chain of its own
  -- messages and has one right snapshot for each full window of 100 entries. The store keeps the
  -- contract of its port.
  pub run-IsWellFormed :
      (l : Log S C B) (calls : List (SignedMessage × Time))
      → IsEmpty l
      → length calls < 2 ^ 63
      → IsWellFormed ports laws (run ports l calls)
  run-IsWellFormed l calls empty h =
      run-IsWellFormed_from calls l 0 (IsEmpty-IsWellFormed l empty)
        (λ c. omega (arith, ap length (empty.entries c))) (omega arith)

  -- From an empty store, after any sequence of fewer than 2^63 calls of Append, Verify calls the
  -- log of every chat valid and counts all of its entries. The store keeps the contract of its
  -- port.
  pub verify-run :
      (l : Log S C B) (calls : List (SignedMessage × Time)) (c : Bytes)
      → IsEmpty l
      → length calls < 2 ^ 63
      → (r : VerifyResult) × (verify ports (run ports l calls) c ≡ ok r)
        × (r.valid ≡ true)
        × (r.entries ≡ length (laws.entries (run ports l calls).store c))
  verify-run l calls c empty h =
      let (r, done, (sound, complete), count) = verify_lem ports laws (run ports l calls) c in
      let valid = complete ((run-IsWellFormed l calls empty h).chain c) in
      (r, done, valid, rw valid at count)
