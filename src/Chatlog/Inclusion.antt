-- ===== src/Chatlog/Inclusion.antt =====
-- `ProveInclusion` of internal/chatlog/log.go on a log that keeps the invariant.
use mathlib.Core.Option
use decentralized_messenger.Common.{
  ℕ, ◌+◌, ◌*◌, ◌/◌, ◌%◌, ◌^◌, ◌<◌, ◌≤◌, ◌≡◌, refl, sym, ap, ◌∙◌, true, false, List, [], some, arith,
  ltb, ltb-eq-false, Bytes, bytes_eq, bytes_eq_iff, length, length-map, length-take, length-drop,
  take, take-map, drop, get_elem?, get_elem?-lt, get_elem?-some, get_elem?-none, get_elem?-map,
  get_elem?-take, get_elem?-drop, get_or-get_elem?,
}
use decentralized_messenger.Result.{ok, err, not_snapshotted, is_not_found}
use decentralized_messenger.Models.{LogEntry, MerkleSnapshot}
use decentralized_messenger.Merkle
use decentralized_messenger.Merkle.Proofs.{proof-root, verify_proof-proof}
use decentralized_messenger.Storage.{IsStorage}
use decentralized_messenger.Chatlog.{Ports, Log, InclusionProof, hashes, next_u64}
use decentralized_messenger.Chatlog.Queries.{
  sub_u64, finish_proof, prove_in_window, prove_against, prove_inclusion,
}
use decentralized_messenger.Chatlog.Invariant.{window, IsSnapshotOf, IsWellFormed}

-- The size that `ProveInclusion` computes for the window of a snapshot.
window_size :
    {sha256 : Bytes → Bytes} {c : Bytes} {es : List LogEntry} (k : ℕ) (s : MerkleSnapshot)
    → length es < 2 ^ 63
    → 100 * k + 100 ≤ length es
    → IsSnapshotOf sha256 c es k s
    → next_u64 (sub_u64 s.to_sequence s.from_sequence) ≡ 100
unfolding next_u64 sub_u64
window_size k s fits full x = omega (arith, x.first, x.last)

-- The position in the window that it computes.
local_index :
    {sha256 : Bytes → Bytes} {c : Bytes} {es : List LogEntry} (sequence k : ℕ) (s : MerkleSnapshot)
    → k ≡ sequence / 100
    → sequence < 2 ^ 64
    → IsSnapshotOf sha256 c es k s
    → sub_u64 sequence s.from_sequence ≡ sequence % 100
unfolding sub_u64
local_index sequence k s at fits x = omega (arith, x.first)

-- An entry is found in its window.
get_elem?-window :
    (es : List LogEntry) (i : ℕ)
    → get_elem? (hashes es) i ≡ get_elem? (hashes (window (i / 100) es)) (i % 100)
get_elem?-window es i =
    let at : 100 * (i / 100) + i % 100 ≡ i = omega arith in
    let same : get_elem? (window (i / 100) es) (i % 100) ≡ get_elem? es i =
      get_elem?-take 100 (drop (100 * (i / 100)) es) (i % 100) (omega arith)
      ∙ get_elem?-drop (100 * (i / 100)) es (i % 100)
      ∙ ap (get_elem? es) at in
    get_elem?-map (λ e. e.entry_hash) es i
    ∙ ap (Option.map (λ (e : LogEntry). e.entry_hash)) (sym same)
    ∙ sym (get_elem?-map (λ e. e.entry_hash) (window (i / 100) es) (i % 100))

module _ {S C B : Type 0} (ports : Ports S C B) where
  open ports use {sha256}

  -- The proof for a position of a window.
  abbrev pub proof_for : Bytes → ℕ → MerkleSnapshot → ℕ → List Bytes → Bytes → InclusionProof
  proof_for c sequence s k leaves leaf = record {
    chat_id = c;
    sequence = sequence;
    entry_hash = leaf;
    snapshot_index = k;
    merkle_root = s.merkle_root;
    nodes = (Merkle.proof sha256 leaves (sequence % 100)).0;
  }

  finish_proof-ok :
      (c : Bytes) (sequence k i : ℕ) (s : MerkleSnapshot) (leaves : List Bytes) (leaf : Bytes)
      → s.merkle_root ≡ Merkle.root sha256 leaves
      → get_elem? leaves i ≡ some leaf
      → i ≡ sequence % 100
      → i < length leaves
      → finish_proof ports c sequence s k leaves i (Merkle.proof sha256 leaves i)
        ≡ ok (proof_for c sequence s k leaves leaf)
  unfolding finish_proof
  finish_proof-ok c sequence k i s leaves leaf r at here lt =
      let same : bytes_eq (Merkle.proof sha256 leaves i).1 s.merkle_root ≡ true =
        (bytes_eq_iff _ _).1 (proof-root sha256 leaves i lt ∙ sym r) in
      rw (same, at) (rw here refl)

  -- The window of a snapshot is complete, and gives the proof.
  prove_in_window-ok :
      (c : Bytes) (es : List LogEntry) (s : MerkleSnapshot) (sequence k : ℕ) (leaf : Bytes)
      → length es < 2 ^ 63
      → 100 * k + 100 ≤ length es
      → k ≡ sequence / 100
      → IsSnapshotOf sha256 c es k s
      → get_elem? (hashes (window k es)) (sequence % 100) ≡ some leaf
      → prove_in_window ports c sequence s k (drop s.from_sequence es)
        ≡ ok (proof_for c sequence s k (hashes (window k es)) leaf)
  unfolding prove_in_window
  prove_in_window-ok c es s sequence k leaf fits full at x found =
      let enough : ltb (length (drop s.from_sequence es)) 100 ≡ false =
        ltb-eq-false (length (drop s.from_sequence es)) 100
          (omega (arith, length-drop s.from_sequence es, x.first)) in
      let leaves : take 100 (hashes (drop s.from_sequence es)) ≡ hashes (window k es) =
        take-map (λ (e : LogEntry). e.entry_hash) 100 (drop s.from_sequence es)
        ∙ ap (λ n. hashes (take 100 (drop n es))) x.first in
      let small : sequence < 2 ^ 64 = omega arith in
      let here = local_index sequence k s at small x in
      rw (window_size k s fits full x, enough, leaves)
        (finish_proof-ok c sequence k (sub_u64 sequence s.from_sequence) s (hashes (window k es))
          leaf x.root (rw here found) here
          (rw here (get_elem?-lt (hashes (window k es)) (sequence % 100) leaf found)))

module _ {S C B : Type 0} (ports : Ports S C B) (laws : IsStorage ports.storage) where
  open ports use {sha256}

  -- On a log that keeps the invariant, for a message in a full window, ProveInclusion succeeds
  -- with the entry hash of that message and the root of the snapshot of its window, and
  -- VerifyProof accepts the proof. The log has fewer than 2^63 entries. The store keeps the
  -- contract of its port.
  pub prove_inclusion-ok :
      (l : Log S C B) (c : Bytes) (sequence : ℕ)
      → IsWellFormed ports laws l
      → length (laws.entries l.store c) < 2 ^ 63
      → sequence / 100 < length (laws.entries l.store c) / 100
      → (p : InclusionProof) × (prove_inclusion ports l c sequence ≡ ok p)
        × (get_elem? (hashes (laws.entries l.store c)) sequence ≡ some p.entry_hash)
        × (Option.map (λ s. s.merkle_root) (get_elem? (laws.snapshots l.store c) (sequence / 100))
            ≡ some p.merkle_root)
        × (Merkle.verify_proof sha256 p.entry_hash p.nodes p.merkle_root ≡ true)
  unfolding prove_inclusion prove_against
  prove_inclusion-ok l c sequence wf fits covered =
      let es = laws.entries l.store c in
      let k = sequence / 100 in
      let (s, at) =
        get_elem?-some (laws.snapshots l.store c) k (omega (arith, (wf.sealed c).count)) in
      let x = (wf.sealed c).each k s at in
      let full : 100 * k + 100 ≤ length es = omega arith in
      let size : length (hashes (window k es)) ≡ 100 = omega (
        arith,
        length-map (window k es) (λ (e : LogEntry). e.entry_hash),
        length-take 100 (drop (100 * k) es),
        length-drop (100 * k) es,
      ) in
      let (leaf, found) = get_elem?-some (hashes (window k es)) (sequence % 100) (omega arith) in
      (
        proof_for ports c sequence s k (hashes (window k es)) leaf,
        rw (laws.snapshot_at_lem l.store c k, at)
            (rw (laws.entries_since_lem l.store c s.from_sequence, prove_against)
              (prove_in_window-ok ports c es s sequence k leaf fits full refl x found)),
        get_elem?-window es sequence ∙ found,
        rw at refl,
        rw x.root (
            rw (← get_or-get_elem? (hashes (window k es)) (sequence % 100) [] found)
              (verify_proof-proof sha256 (hashes (window k es)) (sequence % 100) (omega arith))),
      )

  -- On a log that keeps the invariant, for a sequence number in no full window, ProveInclusion
  -- returns ErrNotSnapshotted. The store keeps the contract of its port.
  pub prove_inclusion-uncovered :
      (l : Log S C B) (c : Bytes) (sequence : ℕ)
      → IsWellFormed ports laws l
      → length (laws.entries l.store c) / 100 ≤ sequence / 100
      → prove_inclusion ports l c sequence ≡ err not_snapshotted
  unfolding prove_inclusion prove_against is_not_found
  prove_inclusion-uncovered l c sequence wf uncovered =
      rw
        (
          laws.snapshot_at_lem l.store c (sequence / 100),
          get_elem?-none (laws.snapshots l.store c) (sequence / 100)
              (omega (arith, (wf.sealed c).count)),
        )
        refl
