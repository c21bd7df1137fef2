-- ===== src/Chatlog/Failures/Outcomes.antt =====
-- The outcomes of `Append` of internal/chatlog/log.go on a store whose operations may fail.
use decentralized_messenger.Common.{
  ℕ, ◌<◌, ◌≡◌, ◌⊎◌, refl, ap, ◌∙◌, true, ◌&&◌, List, [], ◌∷◌, ◌++◌, inl, inr, Bool-cases, ◌==◌,
  ==_iff, if◌then◌else◌, Bytes, bytes_eq, length,
}
use decentralized_messenger.Codec.Decimal.{u64}
use decentralized_messenger.Codec.Time.{Time}
use decentralized_messenger.Result.{
  Error, Result, ok, err, sequence_gap, append, snapshot, read_tip, unsupported_version,
  invalid_signature, Result-cases,
}
use decentralized_messenger.Models.{LogEntry, MerkleSnapshot, SignedMessage, genesis_hash}
use decentralized_messenger.Crypto.Keys.{verify_message}
use decentralized_messenger.Chatlog.{
  Ports, Log, supported_version, fills_window, next_position, next_window, make_entry, publish,
  announce_snapshot, save_snapshot, snapshot_window, take_snapshot, after_snapshot, announce_entry,
  store_entry, append_at, entry_event, append_message, make_snapshot,
}
use decentralized_messenger.Chatlog.Chain.{IsChain, next_position_lem}
use decentralized_messenger.Chatlog.Failures.{
  KeepsEntries, Passes, entry_for, Written, Stored, Unchanged, Outcome, returned, unsealed, refused,
  unsure,
}

module _ {S C B : Type 0} (ports : Ports S C B) (keeps : KeepsEntries ports.storage) where
  announce_snapshot-store :
      (l : Log S C B) (c : Bytes) (tip : LogEntry) (root : Bytes) (r : Result (Unit {0}))
      → (announce_snapshot ports l c tip root r).1.store ≡ l.store
  unfolding announce_snapshot publish
  announce_snapshot-store l c tip root (ok _) = refl
  announce_snapshot-store l c tip root (err e) = refl

  -- Whatever becomes of a snapshot, the entries stay.
  save_snapshot-Unchanged :
      (l : Log S C B) (c : Bytes) (tip : LogEntry) (snap : MerkleSnapshot)
      → Unchanged ports keeps l (save_snapshot ports l c tip snap).1
  unfolding save_snapshot
  save_snapshot-Unchanged l c tip snap d =
      let (r, s) = ports.storage.save_snapshot l.store snap in
      ap (λ t. keeps.entries t d)
        (announce_snapshot-store (record l { store = s }) c tip snap.merkle_root r)
      ∙ keeps.entries-save_snapshot l.store snap d

  snapshot_window-Unchanged :
      (l : Log S C B) (c : Bytes) (tip : LogEntry) (now : Time) (w : Result (ℕ × ℕ))
      → Unchanged ports keeps l (snapshot_window ports l c tip now w).1
  unfolding snapshot_window
  snapshot_window-Unchanged l c tip now (err e) d = refl
  snapshot_window-Unchanged l c tip now (ok (from, index)) d =
      elim (Result-cases (ports.storage.entries_since l.store c from)) [
        | inl (window, p) ↦
            rw (p, snapshot_window)
              (save_snapshot-Unchanged l c tip (make_snapshot ports c tip now from index window) d)
        | inr (e, p) ↦ rw (p, snapshot_window) refl
      ]

  after_snapshot-cases :
      (e : LogEntry) (r : Result (Unit {0})) (l : Log S C B)
      → ((after_snapshot ports e (r, l)).1 ≡ l)
        × (((after_snapshot ports e (r, l)).0 ≡ ok e)
            ⊎ ((f : Error) × ((after_snapshot ports e (r, l)).0 ≡ err (snapshot f))))
  unfolding after_snapshot
  after_snapshot-cases e (ok _) l = (refl, inl refl)
  after_snapshot-cases e (err f) l = (refl, inr (f, refl))

  -- Behind a write that succeeded, the entries stay, and only a snapshot can fail.
  announce_entry-cases :
      (l : Log S C B) (e : LogEntry) (now : Time)
      → Unchanged ports keeps l (announce_entry ports l e now (ok tt)).1
        × (((announce_entry ports l e now (ok tt)).0 ≡ ok e)
            ⊎ ((f : Error) × ((announce_entry ports l e now (ok tt)).0 ≡ err (snapshot f))
                × (fills_window e.sequence ≡ true)))
  unfolding announce_entry publish take_snapshot
  announce_entry-cases l e now = elim (Bool-cases (fills_window e.sequence)) [
    | inr plain ↦ rw plain ((λ d. refl), inl refl)
    | inl full ↦
        let l' = publish ports l (entry_event e) in
        let (r, l2) = take_snapshot ports l' e.message.chat_id e now in
        let (same, result) = after_snapshot-cases e r l2 in
        rw full (
          (λ d.
              ap (λ (t : Log S C B). keeps.entries t.store d) same
              ∙ snapshot_window-Unchanged l' e.message.chat_id e now
                  (next_window (ports.storage.latest_snapshot l'.store e.message.chat_id)) d),
          elim result [ inl done ↦ inl done | inr (f, failed) ↦ inr (f, failed, refl) ],
        )
  ]

  module _ (l : Log S C B) (msg : SignedMessage) (now : Time) (passes : Passes ports msg) where
    abbrev es : List LogEntry
    es = keeps.entries l.store msg.chat_id

    abbrev new : LogEntry
    new = entry_for ports keeps l msg

    abbrev middle : Log S C B
    middle = record l { store = (ports.storage.append_entry l.store msg.chat_id new).1 }

    -- The tip is at the end of the chat's entries.
    at_tip : (length es == new.sequence) ≡ true
    unfolding make_entry
    at_tip = (==_iff _ _).1 refl

    added :
        ((d : Bytes)
          → keeps.entries middle.store d ≡ (
              if length es == new.sequence && bytes_eq msg.chat_id d
              then es ++ new ∷ []
              else keeps.entries l.store d))
        → Written ports keeps l msg middle
    added here d =
        here d
        ∙ ap (λ b. if b && bytes_eq msg.chat_id d then es ++ new ∷ [] else keeps.entries l.store d)
            at_tip

    store_entry-written :
        (ports.storage.append_entry l.store msg.chat_id new).0 ≡ ok tt
        → store_entry ports l new now ≡ announce_entry ports middle new now (ok tt)
    unfolding store_entry make_entry
    store_entry-written h = rw h refl

    store_entry-failed :
        (e : Error)
        → (ports.storage.append_entry l.store msg.chat_id new).0 ≡ err e
        → store_entry ports l new now ≡ (err (append e), middle)
    unfolding store_entry make_entry announce_entry
    store_entry-failed e h = rw h refl

    store_entry-Outcome :
        Outcome ports keeps l msg (store_entry ports l new now).0 (store_entry ports l new now).1
    store_entry-Outcome = elim (keeps.append_entry-cases l.store msg.chat_id new) [
      | inl (result, here) ↦
          let right = result ∙ ap (λ b. if b then ok tt else err sequence_gap) at_tip in
          let (same, outcome) = announce_entry-cases middle new now in
          let stored : Stored ports keeps l msg (announce_entry ports middle new now (ok tt)).1 =
            (passes, λ d. same d ∙ added here d) in
          rw (store_entry-written right) (elim outcome [
            | inl done ↦ returned done stored
            | inr (f, failed, full) ↦ unsealed f failed full stored
          ])
      | inr ((e, failed, other), inl same) ↦
          rw (store_entry-failed e failed) (refused (append e) refl same)
      | inr ((e, failed, other), inr here) ↦
          rw (store_entry-failed e failed)
            (unsure (append e) refl (e, failed, other) (passes, added here))
    ]

    append_at-Outcome :
        IsChain ports 0 genesis_hash es
        → length es < u64
        → (let done =
              append_at ports l msg now
                (next_position (ports.storage.last_entry l.store msg.chat_id)) in
            Outcome ports keeps l msg done.0 done.1)
    unfolding append_at next_position
    append_at-Outcome chain fits = elim (keeps.last_entry_lem l.store msg.chat_id) [
      | inl right ↦ rw (right, next_position_lem ports es chain fits) store_entry-Outcome
      | inr (e, failed, other) ↦ rw (failed, other) (refused (read_tip e) refl (λ d. refl))
    ]

  pub append_message-Outcome :
      (l : Log S C B) (msg : SignedMessage) (now : Time)
      → IsChain ports 0 genesis_hash (keeps.entries l.store msg.chat_id)
      → length (keeps.entries l.store msg.chat_id) < u64
      → Outcome ports keeps l msg
          (append_message ports l msg now).0
          (append_message ports l msg now).1
  unfolding append_message
  append_message-Outcome l msg now chain fits =
      elim (Bool-cases (supported_version msg.schema_version)) [
        | inr u ↦ rw u (refused unsupported_version refl (λ d. refl))
        | inl s ↦ elim (Bool-cases (verify_message ports.ed25519 msg)) [
          | inr f ↦ rw (s, f) (refused invalid_signature refl (λ d. refl))
          | inl v ↦ rw (s, v) (append_at-Outcome l msg now (s, v) chain fits)
        ]
      ]
