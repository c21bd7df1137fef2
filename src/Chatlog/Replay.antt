-- ===== src/Chatlog/Replay.antt =====
-- `Sync`, `History` and `VerifyEntry` of internal/chatlog/log.go on a log that keeps the invariant.
use mathlib.Core.Option
use mathlib.Core.Path.{subst₂}
use decentralized_messenger.Common.{
  ℕ, zero, suc, ◌+◌, ◌-◌, ◌*◌, ◌/◌, ◌%◌, ◌^◌, ◌<◌, ◌≤◌, ◌≡◌, refl, sym, ap, ◌∙◌, true, List, [],
  ◌∷◌, Option, some, none, arith, ltb, if◌then◌else◌, Bool-cases, inl, inr, Bytes, bytes_eq,
  bytes_eq_iff, length, take, take_all, drop, get_elem?, get_elem?-some, get_elem?-none,
  get_elem?-map, get_elem?-last, last?,
}
use decentralized_messenger.Codec.Decimal.{u64}
use decentralized_messenger.Result.{ok, err, not_found, is_not_found}
use decentralized_messenger.Models.{LogEntry, MerkleSnapshot, genesis_hash, compute_hash}
use decentralized_messenger.Storage.{IsStorage, or_not_found}
use decentralized_messenger.Chatlog.{Ports, Log, SyncBundle, hashes, next_u64}
use decentralized_messenger.Chatlog.Queries.{
  history, sync, sync_start, current_hash, verify_entry, check_entry, expected_prev, check_link,
}
use decentralized_messenger.Chatlog.Chain.{IsLink, IsChain, tip_hash}
use decentralized_messenger.Chatlog.Chain.Pieces.{
  tip_hash-last?, tip_hash-take, IsChain-drop, tip_hash-drop, IsChain-get_elem?,
}
use decentralized_messenger.Chatlog.Invariant.{AreSnapshots, IsWellFormed}

-- The hash that a participant with the snapshot of a bundle, or with nothing, begins to replay at.
abbrev pub start_hash : Option MerkleSnapshot → Bytes
start_hash none = genesis_hash
start_hash (some s) = s.last_entry_hash

module _ {S C B : Type 0} (ports : Ports S C B) (laws : IsStorage ports.storage) where
  -- What `Sync` returns lets a participant catch up: the new entries are those behind the sealed
  -- windows, they are a chain from the snapshot's last entry hash on, and the chain ends at the current
  -- hash, which is that of the whole log.
  pub record CatchesUp (es : List LogEntry) (b : SyncBundle) : Type 0 where
    pub entries : b.new_entries ≡ drop (100 * (length es / 100)) es
    pub chain : IsChain ports (100 * (length es / 100)) (start_hash b.snapshot) b.new_entries
    pub end : tip_hash (start_hash b.snapshot) b.new_entries ≡ b.current_hash
    pub tip : b.current_hash ≡ tip_hash genesis_hash es

  -- The start of `Sync` from the latest snapshot.
  sync_start_lem :
      (c : Bytes) (es : List LogEntry) (snaps : List MerkleSnapshot)
      → length es < 2 ^ 63
      → AreSnapshots ports.sha256 c es snaps
      → (sync_start ports (or_not_found (last? snaps)) ≡ ok (last? snaps, 100 * (length es / 100)))
        × (start_hash (last? snaps) ≡ tip_hash genesis_hash (take (100 * (length es / 100)) es))
  unfolding sync_start next_u64 is_not_found
  sync_start_lem c es [] fits x =
      let none_sealed : 100 * (length es / 100) ≡ 0 = omega (arith, x.count) in
      (rw none_sealed refl, rw none_sealed refl)
  sync_start_lem c es (s ∷ snaps) fits x =
      let (t, at) = get_elem?-some (s ∷ snaps) (length snaps) (omega arith) in
      let seal = x.each (length snaps) t at in
      let same : last? (s ∷ snaps) ≡ some t = sym (get_elem?-last s snaps) ∙ at in
      let to : (t.to_sequence + 1) % u64 ≡ 100 * (length es / 100) =
        omega (arith, seal.last, x.count) in
      let n : 100 * (length es / 100) ≡ suc (100 * length snaps + 99) = omega (arith, x.count) in
      (
        rw same (rw to refl),
        rw (same, n)
            (sym
              (tip_hash-take genesis_hash es (100 * length snaps + 99) t.last_entry_hash seal.tip)),
      )

  current_hash_lem :
      (es : List LogEntry)
      → current_hash ports (or_not_found (last? es)) ≡ ok (tip_hash genesis_hash es)
  unfolding current_hash is_not_found
  current_hash_lem [] = refl
  current_hash_lem (e ∷ es) =
      let (f, last, tip) = tip_hash-last? genesis_hash e es in rw last (ap ok (sym tip))

  -- On a log that keeps the invariant, Sync succeeds: the new entries are those behind the sealed
  -- windows, they are a chain from the last entry hash of the snapshot (or from the genesis hash
  -- without one), and the chain ends at the current hash, which is that of the whole log. The log
  -- has fewer than 2^63 entries. The store keeps the contract of its port.
  pub sync_lem :
      (l : Log S C B) (c : Bytes)
      → IsWellFormed ports laws l
      → length (laws.entries l.store c) < 2 ^ 63
      → (b : SyncBundle) × (sync ports l c ≡ ok b) × CatchesUp (laws.entries l.store c) b
  unfolding sync
  sync_lem l c wf fits =
      let es = laws.entries l.store c in
      let snaps = laws.snapshots l.store c in
      let n = 100 * (length es / 100) in
      let (start, from) = sync_start_lem c es snaps fits (wf.sealed c) in
      let b : SyncBundle = record {
        snapshot = last? snaps;
        new_entries = drop n es;
        current_hash = tip_hash genesis_hash es;
      } in
      (
        b,
        rw (laws.latest_snapshot_lem l.store c, start)
            (rw (laws.entries_since_lem l.store c n)
              (rw (laws.last_entry_lem l.store c, current_hash_lem es) refl)),
        record {
          entries = refl;
          chain =
              subst₂ (λ i p. IsChain ports i p (drop n es)) (omega arith) (sym from)
                (IsChain-drop ports 0 genesis_hash es n (omega arith) (wf.chain c));
          end = rw from (tip_hash-drop ports genesis_hash es n (omega arith));
          tip = refl;
        },
      )

  -- On a store that keeps the contract of its port, History returns the entries from a position
  -- on, at most as many as a positive limit says.
  pub history_lem :
      (l : Log S C B) (c : Bytes) (from limit : ℕ)
      → history ports l c from limit
        ≡ ok (
            if ltb 0 limit
            then take limit (drop from (laws.entries l.store c))
            else drop from (laws.entries l.store c))
  unfolding history
  history_lem l c from limit =
      rw (laws.entries_since_lem l.store c from)
        (ground (arith, take_all limit (drop from (laws.entries l.store c))))

  -- The hash that `VerifyEntry` expects an entry to be chained to.
  expected_prev_lem :
      (l : Log S C B) (c : Bytes) (sequence : ℕ)
      → sequence < length (laws.entries l.store c)
      → expected_prev ports l c sequence
        ≡ ok (tip_hash genesis_hash (take sequence (laws.entries l.store c)))
  unfolding expected_prev
  expected_prev_lem l c zero h = refl
  expected_prev_lem l c (suc j) h =
      let es = laws.entries l.store c in
      let before : suc j - 1 ≡ j = omega arith in
      let (f, at) = get_elem?-some es j (omega arith) in
      let found : get_elem? (hashes es) j ≡ some f.entry_hash =
        get_elem?-map (λ e. e.entry_hash) es j
        ∙ ap (Option.map (λ (e : LogEntry). e.entry_hash)) at in
      let positive : ltb 0 (suc j) ≡ true = ground arith in
      rw (positive, before, laws.entry_lem l.store c j)
        (rw at (ap ok (sym (tip_hash-take genesis_hash es j f.entry_hash found))))

  check_entry_lem :
      (l : Log S C B) (c : Bytes) (sequence i : ℕ) (prev : Bytes) (e : LogEntry)
      → IsLink ports i prev e
      → expected_prev ports l c sequence ≡ ok prev
      → check_entry ports l c sequence e
        ≡ ok (record { sequence = sequence; valid = true; reason = [] })
  unfolding check_entry check_link
  check_entry_lem l c sequence i prev e x found =
      let hash : bytes_eq (compute_hash ports.sha256 e) e.entry_hash ≡ true =
        (bytes_eq_iff _ _).1 x.hashed in
      let link : bytes_eq e.prev_hash prev ≡ true = (bytes_eq_iff _ _).1 x.linked in
      rw (x.supported, hash, x.signed) (rw found (rw link refl))

  verify_entry-present :
      (l : Log S C B) (c : Bytes) (sequence : ℕ)
      → IsWellFormed ports laws l
      → sequence < length (laws.entries l.store c)
      → verify_entry ports l c sequence
        ≡ ok (record { sequence = sequence; valid = true; reason = [] })
  unfolding verify_entry
  verify_entry-present l c sequence wf h =
      let es = laws.entries l.store c in
      let (e, at) = get_elem?-some es sequence h in
      rw (laws.entry_lem l.store c sequence, at)
        (check_entry_lem l c sequence (0 + sequence) (tip_hash genesis_hash (take sequence es)) e
          (IsChain-get_elem? ports 0 genesis_hash es sequence e (wf.chain c) at)
          (expected_prev_lem l c sequence h))

  verify_entry-absent :
      (l : Log S C B) (c : Bytes) (sequence : ℕ)
      → length (laws.entries l.store c) ≤ sequence
      → verify_entry ports l c sequence ≡ err not_found
  unfolding verify_entry
  verify_entry-absent l c sequence h =
      rw (laws.entry_lem l.store c sequence, get_elem?-none (laws.entries l.store c) sequence h)
        refl

  -- On a log that keeps the invariant, VerifyEntry calls every entry valid, and returns
  -- ErrNotFound for every other sequence number. The store keeps the contract of its port.
  pub verify_entry_lem :
      (l : Log S C B) (c : Bytes) (sequence : ℕ)
      → IsWellFormed ports laws l
      → verify_entry ports l c sequence ≡ (
          if ltb sequence (length (laws.entries l.store c))
          then ok (record { sequence = sequence; valid = true; reason = [] })
          else err not_found)
  verify_entry_lem l c sequence wf =
      elim (Bool-cases (ltb sequence (length (laws.entries l.store c)))) [
        | inl inside ↦ rw inside (verify_entry-present l c sequence wf (ground arith))
        | inr outside ↦ rw outside (verify_entry-absent l c sequence (ground arith))
      ]
