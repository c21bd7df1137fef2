-- ===== src/Chatlog/Locks/Stages.antt =====
-- What a chat holds while a call of `Append` of internal/chatlog/log.go is under way, stage by stage.
use decentralized_messenger.Common.{
  ◌+◌, ◌*◌, ◌^◌, ◌<◌, ◌≡◌, refl, sym, ap, true, false, List, [], ◌∷◌, ◌++◌, arith, Bytes, length,
  drop, length-append, All, All-append,
}
use mathlib.Core.Path.{subst}
use decentralized_messenger.Codec.Time.{Time}
use decentralized_messenger.Models.{LogEntry, MerkleSnapshot, SignedMessage, genesis_hash}
use decentralized_messenger.Crypto.Keys.{verify_message}
use decentralized_messenger.Chatlog.{
  Ports, supported_version, fills_window, make_entry, make_snapshot,
}
use decentralized_messenger.Chatlog.Chain.{
  IsLink, IsChain, IsChain-concat, make_entry-IsLink, tip_hash,
}
use decentralized_messenger.Chatlog.Invariant.{AreSnapshots}
use decentralized_messenger.Chatlog.Invariant.Windows.{AreSnapshots-plain, AreSnapshots-full}
use decentralized_messenger.Chatlog.Locks.{
  Stage, idle, checked, positioned, written, notified, windowed, gathered, snapped, cached,
}

module _ {S C B : Type 0} (ports : Ports S C B) (c : Bytes) where
  -- A chat that nobody is writing to.
  pub record IsSound (es : List LogEntry) (snaps : List MerkleSnapshot) : Type 0 where
    pub chain : IsChain ports 0 genesis_hash es
    pub own : All (λ e. e.message.chat_id ≡ c) es
    pub sealed : AreSnapshots ports.sha256 c es snaps

  -- A message of the chat that passes the checks.
  pub record IsChecked (msg : SignedMessage) : Type 0 where
    pub chat : msg.chat_id ≡ c
    pub supported : supported_version msg.schema_version ≡ true
    pub signed : verify_message ports.ed25519 msg ≡ true

  -- A chat whose last entry is new: its snapshots are those from before the entry.
  pub record IsExtended (e : LogEntry) (es : List LogEntry) (snaps : List MerkleSnapshot)
      : Type 0 where
    pub old : List LogEntry
    pub extended : es ≡ old ++ e ∷ []
    pub position : e.sequence ≡ length old
    pub chain : IsChain ports 0 genesis_hash es
    pub own : All (λ x. x.message.chat_id ≡ c) es
    pub sealed : AreSnapshots ports.sha256 c old snaps

  -- What holds of a chat's entries and snapshots at a stage of its call.
  abbrev pub IsAt : Stage → List LogEntry → List MerkleSnapshot → Type 0
  IsAt idle es snaps = IsSound es snaps
  IsAt (checked msg now) es snaps = IsSound es snaps × IsChecked msg
  IsAt (positioned msg now prev_hash sequence) es snaps =
      IsSound es snaps
      × IsChecked msg
      × (prev_hash ≡ tip_hash genesis_hash es)
      × (sequence ≡ length es)
  IsAt (written e now) es snaps = IsExtended e es snaps
  IsAt (notified e now) es snaps = IsExtended e es snaps × (fills_window e.sequence ≡ true)
  IsAt (windowed e now from index) es snaps =
      IsExtended e es snaps
      × (fills_window e.sequence ≡ true)
      × (from ≡ 100 * length snaps)
      × (index ≡ length snaps)
  IsAt (gathered e snap) es snaps = IsSound es (snaps ++ snap ∷ []) × (snap.chat_id ≡ c)
  IsAt (snapped e snap) es snaps = IsSound es snaps
  IsAt (cached e) es snaps = IsSound es snaps

  -- At every stage the entries are a chain.
  pub IsAt-IsChain :
      (s : Stage) (es : List LogEntry) (snaps : List MerkleSnapshot)
      → IsAt s es snaps
      → IsChain ports 0 genesis_hash es
  IsAt-IsChain idle es snaps x = x.chain
  IsAt-IsChain (checked msg now) es snaps (x, _) = x.chain
  IsAt-IsChain (positioned msg now p i) es snaps (x, _, _, _) = x.chain
  IsAt-IsChain (written e now) es snaps x = x.chain
  IsAt-IsChain (notified e now) es snaps (x, _) = x.chain
  IsAt-IsChain (windowed e now from index) es snaps (x, _, _, _) = x.chain
  IsAt-IsChain (gathered e snap) es snaps (x, _) = x.chain
  IsAt-IsChain (snapped e snap) es snaps x = x.chain
  IsAt-IsChain (cached e) es snaps x = x.chain

  -- The new entry of a message, behind a sound chat.
  pub IsExtended-new :
      (msg : SignedMessage) (es : List LogEntry) (snaps : List MerkleSnapshot)
      → IsSound es snaps
      → IsChecked msg
      → (let e = make_entry ports msg (tip_hash genesis_hash es) (length es) in
          IsExtended e (es ++ e ∷ []) snaps)
  unfolding make_entry
  IsExtended-new msg es snaps x m =
      let e = make_entry ports msg (tip_hash genesis_hash es) (length es) in
      let n : length es ≡ 0 + length es = omega arith in
      record {
        old = es;
        extended = refl;
        position = refl;
        chain = IsChain-concat ports 0 genesis_hash es e x.chain (
            subst (λ k. IsLink ports k (tip_hash genesis_hash es) e) n
              (make_entry-IsLink ports msg (tip_hash genesis_hash es) (length es) m.supported
                m.signed));
        own = All-append _ es (e ∷ []) x.own (m.chat, tt);
        sealed = x.sealed;
      }

  -- Short of a full window, a chat is sound again with its new entry.
  pub IsSound-plain :
      (e : LogEntry) (es : List LogEntry) (snaps : List MerkleSnapshot)
      → IsExtended e es snaps
      → length es < 2 ^ 63
      → fills_window e.sequence ≡ false
      → IsSound es snaps
  IsSound-plain e es snaps x room plain =
      let fits : length x.old < 2 ^ 63 =
        omega (arith, ap length x.extended, length-append x.old (e ∷ [])) in
      record {
        chain = x.chain;
        own = x.own;
        sealed =
            subst (λ l. AreSnapshots ports.sha256 c l snaps) (sym x.extended)
              (AreSnapshots-plain ports c x.old e snaps fits (rw x.position at plain) x.sealed);
      }

  -- A full window makes the chat sound together with its snapshot.
  pub IsSound-full :
      (e : LogEntry) (now : Time) (es : List LogEntry) (snaps : List MerkleSnapshot)
      → IsExtended e es snaps
      → length es < 2 ^ 63
      → fills_window e.sequence ≡ true
      → IsSound es (
          snaps
          ++ make_snapshot ports c e now
              (100 * length snaps)
              (length snaps)
              (drop (100 * length snaps) es)
            ∷ [])
  IsSound-full e now es snaps x room full =
      let fits : length x.old < 2 ^ 63 =
        omega (arith, ap length x.extended, length-append x.old (e ∷ [])) in
      let k = length snaps in
      record {
        chain = x.chain;
        own = x.own;
        sealed =
            subst
              (λ l.
                AreSnapshots ports.sha256 c l
                  (snaps ++ make_snapshot ports c e now (100 * k) k (drop (100 * k) l) ∷ []))
              (sym x.extended)
              (AreSnapshots-full ports c x.old e now snaps fits x.position (rw x.position at full)
                x.sealed);
      }
