-- ===== src/Chatlog/Failures/Run.antt =====
-- Calls of `Append` of internal/chatlog/log.go in a row on a store whose operations may fail.
use decentralized_messenger.Common.{
  ℕ, ◌+◌, ◌^◌, ◌<◌, ◌≤◌, ◌≡◌, ◌⊎◌, refl, sym, ap, ◌∙◌, true, List, [], ◌∷◌, ◌++◌, inl, inr,
  Bool-cases, arith, if◌then◌else◌, Bytes, bytes_eq, bytes_eq_iff, length, All, All-append,
}
use mathlib.Core.Path.{subst}
use decentralized_messenger.Codec.Time.{Time}
use decentralized_messenger.Result.{Result, ok}
use decentralized_messenger.Models.{LogEntry, SignedMessage, genesis_hash}
use decentralized_messenger.Chatlog.{Ports, Log, VerifyResult, make_entry, append_message}
use decentralized_messenger.Chatlog.Queries.{verify, verify_loop}
use decentralized_messenger.Chatlog.Chain.{
  IsChain, IsChain-concat, IsLink, make_entry-IsLink, tip_hash, verify_loop_complete,
}
use decentralized_messenger.Chatlog.Reach.{run, length-if-le}
use decentralized_messenger.Chatlog.Failures.{
  Fails, KeepsEntries, Passes, entry_for, Written, Stored, Unchanged, Outcome, returned, unsealed,
  refused, unsure,
}
use decentralized_messenger.Chatlog.Failures.Outcomes.{append_message-Outcome}

module _ {S C B : Type 0} (ports : Ports S C B) (keeps : KeepsEntries ports.storage) where
  -- Each chat is a chain of its own messages.
  pub record AreChains (l : Log S C B) : Type 0 where
    pub chain : (c : Bytes) → IsChain ports 0 genesis_hash (keeps.entries l.store c)
    pub own : (c : Bytes) → All (λ e. e.message.chat_id ≡ c) (keeps.entries l.store c)

  -- An outcome stores the entry or leaves every chat as it is.
  Outcome-cases :
      {l : Log S C B}
      → {msg : SignedMessage} → {r : Result LogEntry} → {l' : Log S C B}
      → Outcome ports keeps l msg r l'
      → Stored ports keeps l msg l' ⊎ Unchanged ports keeps l l'
  Outcome-cases (returned _ stored) = inl stored
  Outcome-cases (unsealed _ _ _ stored) = inl stored
  Outcome-cases (refused _ _ same) = inr same
  Outcome-cases (unsure _ _ _ stored) = inl stored

  module _ (l : Log S C B) (msg : SignedMessage) (sound : AreChains l) where
    abbrev grown : List LogEntry
    grown = keeps.entries l.store msg.chat_id ++ entry_for ports keeps l msg ∷ []

    grown-IsChain : Passes ports msg → IsChain ports 0 genesis_hash grown
    grown-IsChain (s, v) =
        let es = keeps.entries l.store msg.chat_id in
        let n : length es ≡ 0 + length es = omega arith in
        IsChain-concat ports 0 genesis_hash es (entry_for ports keeps l msg)
          (sound.chain msg.chat_id)
          (subst (λ k. IsLink ports k (tip_hash genesis_hash es) (entry_for ports keeps l msg)) n
            (make_entry-IsLink ports msg (tip_hash genesis_hash es) (length es) s v))

    grown_own : All (λ e. e.message.chat_id ≡ msg.chat_id) grown
    unfolding make_entry
    grown_own =
        All-append _ (keeps.entries l.store msg.chat_id) (entry_for ports keeps l msg ∷ [])
          (sound.own msg.chat_id) (refl, tt)

    -- What a property of the chats of their own messages says behind a stored entry.
    Written-each :
        (l' : Log S C B) (P : Bytes → List LogEntry → Type 0)
        → Written ports keeps l msg l'
        → P msg.chat_id grown
        → ((c : Bytes) → P c (keeps.entries l.store c))
        → (c : Bytes) → P c (keeps.entries l'.store c)
    Written-each l' P written new old c = elim (Bool-cases (bytes_eq msg.chat_id c)) [
      | inl same ↦
          subst (P c)
            (sym (written c ∙ ap (λ b. if b then grown else keeps.entries l.store c) same))
            (subst (λ d. P d grown) ((bytes_eq_iff msg.chat_id c).0 same) new)
      | inr other ↦
          subst (P c)
            (sym (written c ∙ ap (λ b. if b then grown else keeps.entries l.store c) other)) (old c)
    ]

    Stored-AreChains : (l' : Log S C B) → Stored ports keeps l msg l' → AreChains l'
    Stored-AreChains l' (passes, written) = record {
      chain =
          Written-each l' (λ c es. IsChain ports 0 genesis_hash es) written (grown-IsChain passes)
            sound.chain;
      own =
          Written-each l' (λ c es. All (λ e. e.message.chat_id ≡ c) es) written grown_own sound.own;
    }

    Unchanged-AreChains : (l' : Log S C B) → Unchanged ports keeps l l' → AreChains l'
    Unchanged-AreChains l' same = record {
      chain = λ c. subst (IsChain ports 0 genesis_hash) (sym (same c)) (sound.chain c);
      own = λ c. subst (All (λ e. e.message.chat_id ≡ c)) (sym (same c)) (sound.own c);
    }

    -- A call keeps the chains and adds at most one entry to each chat.
    append_message-AreChains :
        (now : Time) (k : ℕ)
        → ((c : Bytes) → length (keeps.entries l.store c) ≤ k)
        → k < 2 ^ 63
        → (let l' = (append_message ports l msg now).1 in
            AreChains l' × ((c : Bytes) → length (keeps.entries l'.store c) ≤ k + 1))
    append_message-AreChains now k bound fits =
        let l' = (append_message ports l msg now).1 in
        let outcome =
          append_message-Outcome ports keeps l msg now (sound.chain msg.chat_id)
            (let b = bound msg.chat_id in omega arith) in
        elim (Outcome-cases outcome) [
          | inl stored ↦ (
            Stored-AreChains l' stored,
            λ c. rw (stored.1 c) (
                let same =
                  length-if-le (bytes_eq msg.chat_id c) (keeps.entries l.store msg.chat_id)
                    (keeps.entries l.store c) (entry_for ports keeps l msg)
                    (λ h. ap (keeps.entries l.store) ((bytes_eq_iff msg.chat_id c).0 h)) in
                omega (arith, same, bound c)),
          )
          | inr same ↦
              (Unchanged-AreChains l' same, λ c. omega (arith, ap length (same c), bound c))
        ]

  run-AreChains_from :
      (calls : List (SignedMessage × Time)) (l : Log S C B) (k : ℕ)
      → AreChains l
      → ((c : Bytes) → length (keeps.entries l.store c) ≤ k)
      → k + length calls < 2 ^ 63
      → AreChains (run ports l calls)
        × ((c : Bytes) → length (keeps.entries (run ports l calls).store c) ≤ k + length calls)
  unfolding run
  run-AreChains_from [] l k sound bound h = (sound, λ c. omega (arith, bound c))
  run-AreChains_from ((msg, now) ∷ calls) l k sound bound h =
      let (next, more) = append_message-AreChains l msg sound now k bound (omega arith) in
      let (chains, count) =
        run-AreChains_from calls (append_message ports l msg now).1 (k + 1) next more
          (omega arith) in
      (chains, λ c. omega (arith, count c))

  -- From a store without entries, calls of `Append` reach chats that are chains.
  pub run-AreChains :
      (l : Log S C B) (calls : List (SignedMessage × Time))
      → ((c : Bytes) → keeps.entries l.store c ≡ [])
      → length calls < 2 ^ 63
      → AreChains (run ports l calls)
        × ((c : Bytes) → length (keeps.entries (run ports l calls).store c) ≤ length calls)
  run-AreChains l calls empty h =
      let none : AreChains l = record {
        chain = λ d. subst (IsChain ports 0 genesis_hash) (sym (empty d)) tt;
        own = λ d. subst (All (λ e. e.message.chat_id ≡ d)) (sym (empty d)) tt;
      } in
      let (chains, count) =
        run-AreChains_from calls l 0 none (λ d. omega (arith, ap length (empty d))) (omega arith) in
      (chains, λ c. omega (arith, count c))

  -- On a store whose operations may fail, from a store without entries, after any sequence of
  -- fewer than 2^63 calls of Append, whatever failed on the way, Verify fails with an error of the
  -- store or calls the log of every chat valid and counts all of its entries. The store keeps what
  -- it promises of its entries.
  pub verify-run_fallible :
      (l : Log S C B) (calls : List (SignedMessage × Time)) (c : Bytes)
      → ((d : Bytes) → keeps.entries l.store d ≡ [])
      → length calls < 2 ^ 63
      → ((r : VerifyResult) × (verify ports (run ports l calls) c ≡ ok r)
          × (r.valid ≡ true)
          × (r.entries ≡ length (keeps.entries (run ports l calls).store c)))
        ⊎ Fails (verify ports (run ports l calls) c)
  unfolding verify
  verify-run_fallible l calls c empty h =
      let l' = run ports l calls in
      let sound = (run-AreChains l calls empty h).0 in
      elim (keeps.entries_since_lem l'.store c 0) [
        | inl right ↦
            let es = keeps.entries l'.store c in
            let valid = verify_loop_complete ports (length es) 0 genesis_hash es (sound.chain c) in
            inl (
              verify_loop ports (length es) 0 genesis_hash es,
              rw right refl,
              ap (λ (r : VerifyResult). r.valid) valid,
              ap (λ (r : VerifyResult). r.entries) valid,
            )
        | inr (e, failed, other) ↦ inr (e, rw failed refl, other)
      ]
