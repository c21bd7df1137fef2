-- ===== src/Chatlog/Locks/Whole.antt =====
-- The steps of a call of `Append` of internal/chatlog/log.go, taken without another call between them,
-- are the whole call.
use decentralized_messenger.Common.{
  ℕ, zero, suc, ◌≡◌, refl, sym, ap, ◌∙◌, inl, inr, true, Bool-cases, Bool, List, Bytes,
  if◌then◌else◌,
}
use decentralized_messenger.Codec.Time.{Time}
use decentralized_messenger.Result.{Result, ok, err}
use decentralized_messenger.Models.{LogEntry, MerkleSnapshot, SignedMessage}
use decentralized_messenger.Crypto.Keys.{verify_message}
use decentralized_messenger.Chatlog.{
  Ports, Log, supported_version, fills_window, next_position, next_window, make_entry,
  make_snapshot, publish, entry_event, announce_snapshot, save_snapshot, snapshot_window,
  take_snapshot, after_snapshot, announce_entry, store_entry, append_at, append_message,
}
use decentralized_messenger.Chatlog.Locks.{
  idle, checked, notified, positioned_at, written_if, windowed_at, snapped_if, gathered_from,
  advance, finish,
}

module _ {S C B : Type 0} (ports : Ports S C B) where
  finish-idle : (c : Bytes) (n : ℕ) (l : Log S C B) → finish ports c n (l, idle) ≡ (l, idle)
  unfolding finish advance
  finish-idle c zero l = refl
  finish-idle c (suc n) l = finish-idle c n l

  -- From `SaveSnapshot` on.
  finish-snapped :
      (l : Log S C B) (c : Bytes) (tip : LogEntry) (snap : MerkleSnapshot) (r : Result (Unit {0}))
      → finish ports c 2 (l, snapped_if tip snap r)
        ≡ ((announce_snapshot ports l c tip snap.merkle_root r).1, idle)
  unfolding finish advance announce_snapshot
  finish-snapped l c tip snap (err e) = refl
  finish-snapped l c tip snap (ok _) = refl

  finish-gathered :
      (l : Log S C B) (c : Bytes) (tip : LogEntry) (now : Time) (from index : ℕ)
      (r : Result (List LogEntry))
      → finish ports c 3 (l, gathered_from ports c tip now from index r) ≡ (
        (elim r as (λ _. Result (Unit {0}) × Log S C B) [
          | err e ↦ (err e, l)
          | ok window ↦
              save_snapshot ports l c tip (make_snapshot ports c tip now from index window)
        ]).1,
        idle,
      )
  unfolding finish advance save_snapshot
  finish-gathered l c tip now from index (err e) = refl
  finish-gathered l c tip now from index (ok window) =
      let snap = make_snapshot ports c tip now from index window in
      finish-snapped (record l { store = (ports.storage.save_snapshot l.store snap).1 }) c tip snap
        (ports.storage.save_snapshot l.store snap).0

  finish-windowed :
      (l : Log S C B) (c : Bytes) (tip : LogEntry) (now : Time) (r : Result (ℕ × ℕ))
      → finish ports c 4 (l, windowed_at tip now r)
        ≡ ((snapshot_window ports l c tip now r).1, idle)
  unfolding finish advance snapshot_window
  finish-windowed l c tip now (err e) = refl
  finish-windowed l c tip now (ok (from, index)) =
      finish-gathered l c tip now from index (ports.storage.entries_since l.store c from)

  after_snapshot-log :
      (e : LogEntry) (taken : Result (Unit {0}) × Log S C B)
      → (after_snapshot ports e taken).1 ≡ taken.1
  unfolding after_snapshot
  after_snapshot-log e (ok _, l) = refl
  after_snapshot-log e (err _, l) = refl

  finish-written :
      (l : Log S C B) (e : LogEntry) (now : Time) (r : Result (Unit {0}))
      → finish ports e.message.chat_id 6 (l, written_if e now r)
        ≡ ((announce_entry ports l e now r).1, idle)
  unfolding finish advance announce_entry take_snapshot
  finish-written l e now (err _) = refl
  finish-written l e now (ok _) =
      let c = e.message.chat_id in
      let l' = publish ports l (entry_event e) in
      let stage = λ (full : Bool). if full then notified e now else idle in
      let whole = λ (full : Bool).
        if full then after_snapshot ports e (take_snapshot ports l' c e now) else (ok e, l') in
      elim (Bool-cases (fills_window e.sequence)) [
        | inl full ↦
            ap (λ t. finish ports c 5 (l', stage t)) full
            ∙ finish-windowed l' c e now (next_window (ports.storage.latest_snapshot l'.store c))
            ∙ ap (λ x. (x, idle))
                (sym (
                  ap (λ t. (whole t).1) full
                  ∙ after_snapshot-log e (take_snapshot ports l' c e now)))
        | inr plain ↦
            ap (λ t. finish ports c 5 (l', stage t)) plain
            ∙ ap (λ x. (x, idle)) (sym (ap (λ t. (whole t).1) plain))
      ]

  finish-positioned :
      (l : Log S C B) (msg : SignedMessage) (now : Time) (r : Result (Bytes × ℕ))
      → finish ports msg.chat_id 7 (l, positioned_at msg now r)
        ≡ ((append_at ports l msg now r).1, idle)
  unfolding finish advance append_at store_entry make_entry
  finish-positioned l msg now (err e) = refl
  finish-positioned l msg now (ok (prev, i)) =
      let e = make_entry ports msg prev i in
      finish-written (record l { store = (ports.storage.append_entry l.store msg.chat_id e).1 }) e
        now (ports.storage.append_entry l.store msg.chat_id e).0

  -- For a message with a supported version and a valid signature, the steps of its call, taken
  -- without another call between them, end within 8 steps with the lock free and with the log that
  -- Append leaves, whatever the ports answer.
  pub finish-append_message :
      (l : Log S C B) (msg : SignedMessage) (now : Time)
      → supported_version msg.schema_version ≡ true
      → verify_message ports.ed25519 msg ≡ true
      → finish ports msg.chat_id 8 (l, checked msg now) ≡ ((append_message ports l msg now).1, idle)
  unfolding finish advance append_message
  finish-append_message l msg now supported signed =
      rw (supported, signed)
        (finish-positioned l msg now (next_position (ports.storage.last_entry l.store msg.chat_id)))
