-- ===== src/Chatlog/Invariant/Windows.antt =====
-- Windows and snapshots while the log grows.
use decentralized_messenger.Common.{
  ℕ, suc, ◌+◌, ◌*◌, ◌%◌, ◌^◌, ◌<◌, ◌≤◌, ◌≡◌, refl, sym, ap, ◌∙◌, true, false, List, [], ◌∷◌, ◌++◌,
  map-append, inl, inr, some, arith, Bytes, length, length-append, length-map, length-drop, last?,
  drop, take_all, get_elem?, get_elem?-last, get_elem?-append_left, get_elem?-concat,
  get_elem?-append_length, get_elem?-lt, get_elem?-some, take-append_left, drop-append_left,
}
use decentralized_messenger.Codec.Time.{Time}
use decentralized_messenger.Codec.Decimal.{u64}
use decentralized_messenger.Result.{ok, is_not_found}
use decentralized_messenger.Models.{LogEntry, MerkleSnapshot}
use decentralized_messenger.Merkle
use decentralized_messenger.Storage.{or_not_found}
use decentralized_messenger.Chatlog.{
  Ports, fills_window, next_u64, next_window, make_snapshot, hashes,
}
use decentralized_messenger.Chatlog.Invariant.{window, IsSnapshotOf, AreSnapshots}

-- A full window stays as it is while the log grows.
window-append :
    (k : ℕ) (es fs : List LogEntry) → 100 * k + 100 ≤ length es → window k (es ++ fs) ≡ window k es
window-append k es fs h =
    rw (drop-append_left (100 * k) es fs (omega arith))
      (take-append_left 100 (drop (100 * k) es) fs (omega (arith, length-drop (100 * k) es)))

module _ {S C B : Type 0} (ports : Ports S C B) (c : Bytes) where
  open ports use {sha256}

  IsSnapshotOf-append :
      (es fs : List LogEntry) (k : ℕ) (s : MerkleSnapshot)
      → 100 * k + 100 ≤ length es
      → IsSnapshotOf sha256 c es k s
      → IsSnapshotOf sha256 c (es ++ fs) k s
  IsSnapshotOf-append es fs k s h x = record {
    chat = x.chat;
    index = x.index;
    first = x.first;
    last = x.last;
    root = x.root ∙ ap (λ w. Merkle.root sha256 (hashes w)) (sym (window-append k es fs h));
    tip = rw map-append (
        get_elem?-append_left (hashes es) (hashes fs) (100 * k + 99)
          (omega (arith, length-map es (λ (e : LogEntry). e.entry_hash)))
        ∙ x.tip);
  }

  each-append :
      (es fs : List LogEntry) (snaps : List MerkleSnapshot)
      → AreSnapshots sha256 c es snaps
      → (k : ℕ) (s : MerkleSnapshot) → get_elem? snaps k ≡ some s
      → IsSnapshotOf sha256 c (es ++ fs) k s
  each-append es fs snaps x k s e =
      IsSnapshotOf-append es fs k s (omega (arith, x.count, get_elem?-lt snaps k s e))
        (x.each k s e)

  -- An entry that fills no window.
  pub AreSnapshots-plain :
      (es : List LogEntry) (e : LogEntry) (snaps : List MerkleSnapshot)
      → length es < 2 ^ 63
      → fills_window (length es) ≡ false
      → AreSnapshots sha256 c es snaps
      → AreSnapshots sha256 c (es ++ e ∷ []) snaps
  unfolding next_u64
  AreSnapshots-plain es e snaps fits h x = record {
    count = ground (arith, x.count, length-append es (e ∷ []));
    each = each-append es (e ∷ []) snaps x;
  }

  -- Where the next window begins, and its index.
  pub next_window_lem :
      (es : List LogEntry) (snaps : List MerkleSnapshot)
      → length es < 2 ^ 63
      → AreSnapshots sha256 c es snaps
      → next_window (or_not_found (last? snaps)) ≡ ok (100 * length snaps, length snaps)
  unfolding next_window next_u64 is_not_found
  next_window_lem es [] fits x = refl
  next_window_lem es (s ∷ snaps) fits x =
      let (t, at) = get_elem?-some (s ∷ snaps) (length snaps) (omega arith) in
      let seal = x.each (length snaps) t at in
      let same : last? (s ∷ snaps) ≡ some t = sym (get_elem?-last s snaps) ∙ at in
      let to : (t.to_sequence + 1) % u64 ≡ 100 * suc (length snaps) =
        omega (arith, seal.last, x.count) in
      let index : (t.snapshot_index + 1) % u64 ≡ suc (length snaps) =
        omega (arith, seal.index, x.count) in
      rw same (rw (to, index) refl)

  -- The snapshot of a window that an entry fills.
  new-IsSnapshotOf :
      (es : List LogEntry) (e : LogEntry) (now : Time) (k : ℕ)
      → length es ≡ 100 * k + 99
      → e.sequence ≡ length es
      → IsSnapshotOf sha256 c
          (es ++ e ∷ [])
          k
          (make_snapshot ports c e now (100 * k) k (drop (100 * k) (es ++ e ∷ [])))
  unfolding make_snapshot
  new-IsSnapshotOf es e now k h at =
      let full : length (drop (100 * k) (es ++ e ∷ [])) ≤ 100 =
        omega (arith, length-drop (100 * k) (es ++ e ∷ []), length-append es (e ∷ [])) in
      record {
        chat = refl;
        index = refl;
        first = refl;
        last = at ∙ h;
        root = ap (λ w. Merkle.root sha256 (hashes w)) (sym (take_all 100 _ full));
        tip =
            rw (← h, map-append)
              (rw (← length-map es (λ (x : LogEntry). x.entry_hash))
                (get_elem?-append_length (hashes es) e.entry_hash []));
      }

  -- An entry that fills a window, with the snapshot of the window.
  pub AreSnapshots-full :
      (es : List LogEntry) (e : LogEntry) (now : Time) (snaps : List MerkleSnapshot)
      → length es < 2 ^ 63
      → e.sequence ≡ length es
      → fills_window (length es) ≡ true
      → AreSnapshots sha256 c es snaps
      → (let k = length snaps in
          AreSnapshots sha256 c
            (es ++ e ∷ [])
            (snaps ++ make_snapshot ports c e now (100 * k) k (drop (100 * k) (es ++ e ∷ [])) ∷ []))
  unfolding next_u64
  AreSnapshots-full es e now snaps fits at h x =
      let k = length snaps in
      let snap = make_snapshot ports c e now (100 * k) k (drop (100 * k) (es ++ e ∷ [])) in
      record {
        count = ground (arith, x.count, length-append es (e ∷ []), length-append snaps (snap ∷ []));
        each = λ j s p. elim (get_elem?-concat snaps snap j p) [
          | inl old ↦ each-append es (e ∷ []) snaps x j s old
          | inr (last, same) ↦
              rw (last, ← same) (new-IsSnapshotOf es e now k (ground (arith, x.count)) at)
        ];
      }
