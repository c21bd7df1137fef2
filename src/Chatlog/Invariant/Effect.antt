-- ===== src/Chatlog/Invariant/Effect.antt =====
-- The effect of `Append` of internal/chatlog/log.go on a log that keeps the invariant, for a message
-- that passes the checks.
use decentralized_messenger.Common.{
  ◌*◌, ◌^◌, ◌<◌, ◌≡◌, refl, sym, ap, ◌∙◌, Bool, true, false, ◌&&◌, List, [], ◌∷◌, ◌++◌, inl, inr,
  Bool-cases, arith, if◌then◌else◌, Bytes, bytes_eq, bytes_eq_iff, bytes_eq_refl, length, last?,
  drop,
}
use decentralized_messenger.Codec.Time.{Time}
use decentralized_messenger.Result.{ok}
use decentralized_messenger.Models.{LogEntry, MerkleSnapshot, SignedMessage}
use decentralized_messenger.Crypto.Keys.{verify_message}
use decentralized_messenger.Storage.{IsStorage, or_not_found}
use decentralized_messenger.Chatlog.{
  Ports, Log, supported_version, fills_window, next_window, make_entry, make_snapshot,
  announce_entry, append_message,
}
use decentralized_messenger.Chatlog.Append.{
  entries_of, snapshots_of, appended, next_entry, next_snapshot, append_message-store,
  entries_of-appended, announce_entry-plain, announce_entry-full,
}
use decentralized_messenger.Chatlog.Invariant.{IsWellFormed}
use decentralized_messenger.Chatlog.Invariant.Windows.{next_window_lem}

if-and :
    {A : Type 0} (a b c : Bool) (x y : A)
    → b ≡ c
    → (if a && b then x else y) ≡ (if a && c then x else y)
if-and a b c x y e = ap (λ t. if a && t then x else y) e

if-and_true :
    {A : Type 0} (a : Bool) (x y : A) → (if a then x else y) ≡ (if a && true then x else y)
if-and_true true x y = refl
if-and_true false x y = refl

if-and_false : {A : Type 0} (a : Bool) (x y : A) → y ≡ (if a && false then x else y)
if-and_false true x y = refl
if-and_false false x y = refl

if-concat :
    {A : Type 0} (b : Bool) (u v w : List A) (s t : A)
    → u ≡ v
    → s ≡ t
    → (b ≡ true → v ≡ w)
    → (if b then u ++ s ∷ [] else u) ≡ (if b then w ++ t ∷ [] else v)
if-concat true u v w s t e f g = cc (g refl)
if-concat false u v w s t e f g = e

-- A message that passes the checks of `Append`, for a chat with room.
pub record IsAccepted {S C B : Type 0} (ports : Ports S C B) (laws : IsStorage ports.storage)
    (l : Log S C B) (msg : SignedMessage) : Type 0 where
  pub supported : supported_version msg.schema_version ≡ true
  pub signed : verify_message ports.ed25519 msg ≡ true
  pub room : length (laws.entries l.store msg.chat_id) < 2 ^ 63

module _ {S C B : Type 0} (ports : Ports S C B) (laws : IsStorage ports.storage) where
  -- What `Append` leaves behind: the chat's log has the new entry at its end, its snapshots have the
  -- new one where the entry fills a window, and the store has no other change.
  pub record Effect (l : Log S C B) (msg : SignedMessage) (now : Time) (l' : Log S C B)
      : Type 0 where
    pub entries :
        (d : Bytes)
        → laws.entries l'.store d ≡ (
            if bytes_eq msg.chat_id d
            then laws.entries l.store msg.chat_id ++ next_entry ports laws l msg ∷ []
            else laws.entries l.store d)
    pub snapshots :
        (d : Bytes)
        → laws.snapshots l'.store d ≡ (
            if bytes_eq msg.chat_id d && fills_window (length (laws.entries l.store msg.chat_id))
            then (let k = length (laws.snapshots l.store msg.chat_id) in
                laws.snapshots l.store msg.chat_id
                ++ next_snapshot ports laws l msg now (100 * k) k ∷ [])
            else laws.snapshots l.store d)

  module _ (l : Log S C B) (msg : SignedMessage) (now : Time) (wf : IsWellFormed ports laws l)
      (acc : IsAccepted ports laws l msg) where
    abbrev es : List LogEntry
    es = laws.entries l.store msg.chat_id

    abbrev snaps : List MerkleSnapshot
    snaps = laws.snapshots l.store msg.chat_id

    abbrev new : LogEntry
    new = next_entry ports laws l msg

    abbrev snap : MerkleSnapshot
    snap = next_snapshot ports laws l msg now (100 * length snaps) (length snaps)

    abbrev pub middle : Log S C B
    middle = appended ports laws l new

    entries_of-middle :
        (d : Bytes)
        → entries_of ports laws middle d
          ≡ (if bytes_eq msg.chat_id d then es ++ new ∷ [] else laws.entries l.store d)
    unfolding make_entry
    entries_of-middle d = entries_of-appended ports laws l new d refl

    entries_of-middle_self : entries_of ports laws middle msg.chat_id ≡ es ++ new ∷ []
    entries_of-middle_self =
        entries_of-middle msg.chat_id
        ∙ ap (λ b. if b then es ++ new ∷ [] else es) (bytes_eq_refl msg.chat_id)

    snapshots_of-middle : (d : Bytes) → snapshots_of ports laws middle d ≡ laws.snapshots l.store d
    snapshots_of-middle d = laws.snapshots-append_entry l.store new.message.chat_id new d

    pub announced : append_message ports l msg now ≡ announce_entry ports middle new now (ok tt)
    announced =
        append_message-store ports laws l msg now acc.supported acc.signed (wf.chain msg.chat_id)
          (let room = acc.room in omega arith)

    pub window_at :
        next_window (or_not_found (last? (snapshots_of ports laws middle msg.chat_id)))
        ≡ ok (100 * length snaps, length snaps)
    window_at =
        rw (snapshots_of-middle msg.chat_id)
          (next_window_lem ports msg.chat_id es snaps acc.room (wf.sealed msg.chat_id))

    Effect-plain :
        fills_window (length es) ≡ false
        → ((append_message ports l msg now).0 ≡ ok new)
          × Effect l msg now (append_message ports l msg now).1
    unfolding make_entry
    Effect-plain h =
        let (result, store) = announce_entry-plain ports laws middle new now h in
        (
          ap (λ r. r.0) announced ∙ result,
          record {
            entries = λ d.
                ap (λ r. laws.entries r.1.store d) announced
                ∙ ap (λ s. laws.entries s d) store
                ∙ entries_of-middle d;
            snapshots = λ d.
                ap (λ r. laws.snapshots r.1.store d) announced
                ∙ ap (λ s. laws.snapshots s d) store
                ∙ snapshots_of-middle d
                ∙ if-and_false (bytes_eq msg.chat_id d) (snaps ++ snap ∷ [])
                    (laws.snapshots l.store d)
                ∙ sym (
                    if-and (bytes_eq msg.chat_id d) _ _ (snaps ++ snap ∷ [])
                      (laws.snapshots l.store d) h);
          },
        )

    Effect-full :
        fills_window (length es) ≡ true
        → ((append_message ports l msg now).0 ≡ ok new)
          × Effect l msg now (append_message ports l msg now).1
    unfolding make_entry make_snapshot
    Effect-full h =
        let (result, store) =
          announce_entry-full ports laws middle new now (100 * length snaps) (length snaps) h
            window_at in
        let sealed : MerkleSnapshot =
          make_snapshot ports msg.chat_id new now (100 * length snaps) (length snaps)
            (drop (100 * length snaps) (entries_of ports laws middle msg.chat_id)) in
        let same : sealed ≡ snap =
          ap
            (λ w.
              make_snapshot ports msg.chat_id new now (100 * length snaps) (length snaps)
                (drop (100 * length snaps) w))
            entries_of-middle_self in
        (
          ap (λ r. r.0) announced ∙ result,
          record {
            entries = λ d.
                ap (λ r. laws.entries r.1.store d) announced
                ∙ ap (λ s. laws.entries s d) store
                ∙ laws.entries-save_snapshot middle.store sealed d
                ∙ entries_of-middle d;
            snapshots = λ d.
                ap (λ r. laws.snapshots r.1.store d) announced
                ∙ ap (λ s. laws.snapshots s d) store
                ∙ laws.snapshots-save_snapshot middle.store sealed d
                ∙ if-concat (bytes_eq msg.chat_id d) (laws.snapshots middle.store d)
                    (laws.snapshots l.store d) snaps sealed snap (snapshots_of-middle d) same
                    (λ here.
                      ap (laws.snapshots l.store) (sym ((bytes_eq_iff msg.chat_id d).0 here)))
                ∙ if-and_true (bytes_eq msg.chat_id d) (snaps ++ snap ∷ [])
                    (laws.snapshots l.store d)
                ∙ sym (
                    if-and (bytes_eq msg.chat_id d) _ _ (snaps ++ snap ∷ [])
                      (laws.snapshots l.store d) h);
          },
        )

  -- The result of `Append` and what it leaves behind.
  pub append_message-Effect :
      (l : Log S C B) (msg : SignedMessage) (now : Time)
      → IsWellFormed ports laws l
      → IsAccepted ports laws l msg
      → ((append_message ports l msg now).0 ≡ ok (next_entry ports laws l msg))
        × Effect l msg now (append_message ports l msg now).1
  append_message-Effect l msg now wf acc =
      elim (Bool-cases (fills_window (length (laws.entries l.store msg.chat_id)))) [
        | inl full ↦ Effect-full l msg now wf acc full
        | inr plain ↦ Effect-plain l msg now wf acc plain
      ]
