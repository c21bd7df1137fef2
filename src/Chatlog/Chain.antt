-- ===== src/Chatlog/Chain.antt =====
-- What makes a list of log entries a chain, next to the loop of `Verify` of internal/chatlog/log.go.
pub mod Pieces
use decentralized_messenger.Common.{
  ℕ, suc, ◌+◌, ◌%◌, ◌<◌, ◌≡◌, refl, ap, ◌∙◌, ◌↔◌, true, if◌then◌else◌, List, [], ◌∷◌, ◌++◌, arith,
  Bytes, bytes_eq_iff, length, last?,
}
use decentralized_messenger.Codec.Decimal.{u64}
use decentralized_messenger.Result.{ok, is_not_found}
use decentralized_messenger.Models.{LogEntry, SignedMessage, genesis_hash, compute_hash}
use decentralized_messenger.Crypto.Keys.{verify_message}
use decentralized_messenger.Storage.{IsStorage, or_not_found}
use decentralized_messenger.Chatlog.{
  Ports, Log, VerifyResult, supported_version, next_u64, next_position, make_entry,
}
use decentralized_messenger.Chatlog.Queries.{verify_loop, verify}

-- The hash that the entry behind some entries is chained to.
abbrev pub tip_hash : Bytes → List LogEntry → Bytes
tip_hash prev [] = prev
tip_hash prev (e ∷ es) = tip_hash e.entry_hash es

module _ {S C B : Type 0} (ports : Ports S C B) where
  -- An entry that is in order at a position behind an entry hash.
  pub record IsLink (i : ℕ) (prev : Bytes) (e : LogEntry) : Type 0 where
    pub position : e.sequence ≡ i
    pub linked : e.prev_hash ≡ prev
    pub supported : supported_version e.message.schema_version ≡ true
    pub hashed : compute_hash ports.sha256 e ≡ e.entry_hash
    pub signed : verify_message ports.ed25519 e.message ≡ true

  -- Entries that are in order from a position and an entry hash on.
  abbrev pub IsChain : ℕ → Bytes → List LogEntry → Type 0
  IsChain i prev [] = Unit
  IsChain i prev (e ∷ es) = IsLink i prev e × IsChain (i + 1) e.entry_hash es

  pub IsChain-concat :
      (i : ℕ) (prev : Bytes) (es : List LogEntry) (e : LogEntry)
      → IsChain i prev es
      → IsLink (i + length es) (tip_hash prev es) e
      → IsChain i prev (es ++ e ∷ [])
  IsChain-concat i prev [] e chain link =
      let here : i + 0 ≡ i = omega arith in ((rw here at link), tt)
  IsChain-concat i prev (f ∷ es) e (first, chain) link =
      let next : i + suc (length es) ≡ i + 1 + length es = omega arith in
      (first, IsChain-concat (i + 1) f.entry_hash es e chain (rw next at link))

  -- Behind a chain, the next entry takes the hash and the number that `Append` computes.
  next_position-IsChain :
      (i : ℕ) (prev : Bytes) (e : LogEntry) (es : List LogEntry)
      → IsChain i prev (e ∷ es)
      → i + suc (length es) < u64
      → next_position (or_not_found (last? (e ∷ es)))
        ≡ ok (tip_hash prev (e ∷ es), i + suc (length es))
  unfolding next_position next_u64
  next_position-IsChain i prev e [] (link, _) h =
      let n : (e.sequence + 1) % u64 ≡ i + 1 = omega (arith, link.position) in rw n refl
  next_position-IsChain i prev e (f ∷ es) (_, chain) h =
      let n : i + 1 + suc (length es) ≡ i + suc (suc (length es)) = omega arith in
      next_position-IsChain (i + 1) e.entry_hash f es chain (omega arith)
      ∙ ap (λ k. ok (tip_hash e.entry_hash (f ∷ es), k)) n

  pub next_position_lem :
      (es : List LogEntry)
      → IsChain 0 genesis_hash es
      → length es < u64
      → next_position (or_not_found (last? es)) ≡ ok (tip_hash genesis_hash es, length es)
  unfolding next_position is_not_found
  next_position_lem [] chain h = refl
  next_position_lem (e ∷ es) chain h =
      let n : 0 + suc (length es) ≡ suc (length es) = omega arith in
      rw n at (next_position-IsChain 0 genesis_hash e es chain (omega arith))

  -- A new entry is in order.
  pub make_entry-IsLink :
      (msg : SignedMessage) (prev : Bytes) (i : ℕ)
      → supported_version msg.schema_version ≡ true
      → verify_message ports.ed25519 msg ≡ true
      → IsLink i prev (make_entry ports msg prev i)
  unfolding make_entry compute_hash
  make_entry-IsLink msg prev i s v = record {
    position = refl;
    linked = refl;
    supported = s;
    hashed = refl;
    signed = v;
  }

  pub verify_loop_sound :
      (total i : ℕ) (prev : Bytes) (es : List LogEntry)
      → (verify_loop ports total i prev es).valid ≡ true
      → IsChain i prev es
  unfolding verify_loop
  verify_loop_sound total i prev [] h = tt
  verify_loop_sound total i prev (e ∷ es) h = (
    record {
      position = ground arith;
      linked = ground (arith, bytes_eq_iff e.prev_hash prev);
      supported = ground arith;
      hashed = ground (arith, bytes_eq_iff (compute_hash ports.sha256 e) e.entry_hash);
      signed = ground arith;
    },
    verify_loop_sound total (i + 1) e.entry_hash es (ground arith),
  )

  pub verify_loop_complete :
      (total i : ℕ) (prev : Bytes) (es : List LogEntry)
      → IsChain i prev es
      → verify_loop ports total i prev es ≡ record { valid = true; entries = total; reason = [] }
  unfolding verify_loop
  verify_loop_complete total i prev [] chain = refl
  verify_loop_complete total i prev (e ∷ es) (link, chain) = ground (
    arith,
    bytes_eq_iff e.prev_hash prev,
    bytes_eq_iff (compute_hash ports.sha256 e) e.entry_hash,
    verify_loop_complete total (i + 1) e.entry_hash es chain,
    link.position,
    link.linked,
    link.supported,
    link.hashed,
    link.signed,
  )

  verify_loop-entries :
      (total i : ℕ) (prev : Bytes) (es : List LogEntry)
      → (verify_loop ports total i prev es).entries
        ≡ (if (verify_loop ports total i prev es).valid then total else 0)
  unfolding verify_loop
  verify_loop-entries total i prev [] = refl
  verify_loop-entries total i prev (e ∷ es) =
      ground (arith, verify_loop-entries total (i + 1) e.entry_hash es)

module _ {S C B : Type 0} (ports : Ports S C B) (laws : IsStorage ports.storage) where
  -- On a store that keeps the contract of its port, Verify never fails; it calls a log valid
  -- exactly when its entries are a chain from the genesis hash, and it counts all entries of a
  -- valid log and none of another.
  pub verify_lem :
      (l : Log S C B) (c : Bytes)
      → (r : VerifyResult) × (verify ports l c ≡ ok r)
        × ((r.valid ≡ true) ↔ IsChain ports 0 genesis_hash (laws.entries l.store c))
        × (r.entries ≡ (if r.valid then length (laws.entries l.store c) else 0))
  unfolding verify
  verify_lem l c =
      let es = laws.entries l.store c in
      let r = verify_loop ports (length es) 0 genesis_hash es in
      (
        r,
        rw (laws.entries_since_lem l.store c 0) refl,
        (
          verify_loop_sound ports (length es) 0 genesis_hash es,
          λ chain.
              ap (λ (x : VerifyResult). x.valid)
                (verify_loop_complete ports (length es) 0 genesis_hash es chain),
        ),
        verify_loop-entries ports (length es) 0 genesis_hash es,
      )
