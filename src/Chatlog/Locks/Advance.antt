-- ===== src/Chatlog/Locks/Advance.antt =====
-- One step of a call of `Append` of internal/chatlog/log.go, on a store that keeps the contract of its
-- port.
use decentralized_messenger.Common.{
  ◌+◌, ◌*◌, ◌^◌, ◌<◌, ◌≤◌, ◌≡◌, refl, sym, ap, ◌∙◌, true, false, ◌&&◌, ◌==◌, ==_iff, List, [], ◌∷◌,
  ◌++◌, inl, inr, Bool-cases, arith, if◌then◌else◌, Bytes, bytes_eq, bytes_eq_iff, bytes_eq_refl,
  Bool, length, length-append,
}
use mathlib.Core.Path.{subst₂}
use decentralized_messenger.Codec.Time.{Time}
use decentralized_messenger.Result.{ok}
use decentralized_messenger.Models.{LogEntry, MerkleSnapshot, SignedMessage, genesis_hash}
use decentralized_messenger.Storage.{IsStorage}
use decentralized_messenger.Chatlog.{
  Ports, Log, fills_window, next_position, next_window, make_entry, make_snapshot, publish,
}
use decentralized_messenger.Chatlog.Chain.{tip_hash, next_position_lem}
use decentralized_messenger.Chatlog.Invariant.Windows.{next_window_lem}
use decentralized_messenger.Chatlog.Reach.{length-if-le}
use decentralized_messenger.Chatlog.Locks.{
  Stage, idle, checked, positioned, written, notified, windowed, gathered, snapped, cached,
  positioned_at, written_if, windowed_at, snapped_if, gathered_from, advance,
}
use decentralized_messenger.Chatlog.Locks.Stages.{
  IsSound, IsChecked, IsExtended, IsAt, IsExtended-new, IsSound-plain, IsSound-full,
}

if_other : {A : Type 0} (a b : Bool) (x y : A) → b ≡ false → (if a && b then x else y) ≡ y
if_other true b x y h = rw h refl
if_other false b x y h = refl

and_right : (a b : Bool) → (a && b) ≡ true → b ≡ true
and_right true b h = h
and_right false b h = cc

module _ {S C B : Type 0} (ports : Ports S C B) (laws : IsStorage ports.storage) (c : Bytes) where
  -- What holds of a chat in a log, at the stage of its call.
  abbrev pub Holds : Log S C B → Stage → Type 0
  Holds l s = IsAt ports c s (laws.entries l.store c) (laws.snapshots l.store c)

  module _ (l : Log S C B) where
    abbrev es : List LogEntry
    es = laws.entries l.store c

    abbrev snaps : List MerkleSnapshot
    snaps = laws.snapshots l.store c

    module _ (msg : SignedMessage) (now : Time) (sound : IsSound ports c es snaps)
        (checks : IsChecked ports c msg) (room : length es < 2 ^ 63) where
      Holds-checked :
          Holds l (positioned_at msg now (next_position (ports.storage.last_entry l.store c)))
      Holds-checked =
          rw (laws.last_entry_lem l.store c, next_position_lem ports es sound.chain (omega arith))
            (sound, checks, refl, refl)

      abbrev new : LogEntry
      new = make_entry ports msg (tip_hash genesis_hash es) (length es)

      entries-new : laws.entries (ports.storage.append_entry l.store c new).1 c ≡ es ++ new ∷ []
      unfolding make_entry
      entries-new =
          let at : (length es == length es) ≡ true = (==_iff _ _).1 refl in
          laws.entries-append_entry l.store c new c
          ∙ ap (λ b. if b && bytes_eq c c then es ++ new ∷ [] else es) at
          ∙ ap (λ b. if b then es ++ new ∷ [] else es) (bytes_eq_refl c)

      written-new : (ports.storage.append_entry l.store c new).0 ≡ ok tt
      unfolding make_entry
      written-new =
          let at : (length es == length es) ≡ true = (==_iff _ _).1 refl in
          laws.append_entry-result l.store c new ∙ rw at refl

      Holds-positioned :
          Holds
            (record l { store = (ports.storage.append_entry l.store c new).1 })
            (written_if new now (ports.storage.append_entry l.store c new).0)
      Holds-positioned =
          rw (written-new, entries-new, laws.snapshots-append_entry l.store c new c)
            (IsExtended-new ports c msg es snaps sound checks)

    Holds-written :
        (e : LogEntry) (now : Time)
        → IsExtended ports c e es snaps
        → length es < 2 ^ 63
        → Holds l (if fills_window e.sequence then notified e now else idle)
    Holds-written e now x room = elim (Bool-cases (fills_window e.sequence)) [
      | inl full ↦ rw full (x, full)
      | inr plain ↦ rw plain (IsSound-plain ports c e es snaps x room plain)
    ]

    Holds-notified :
        (e : LogEntry) (now : Time)
        → IsExtended ports c e es snaps
        → fills_window e.sequence ≡ true
        → length es < 2 ^ 63
        → Holds l (windowed_at e now (next_window (ports.storage.latest_snapshot l.store c)))
    Holds-notified e now x full room =
        let fits : length x.old < 2 ^ 63 =
          omega (arith, ap length x.extended, length-append x.old (e ∷ [])) in
        rw (laws.latest_snapshot_lem l.store c, next_window_lem ports c x.old snaps fits x.sealed)
          (x, full, refl, refl)

    Holds-windowed :
        (e : LogEntry) (now : Time)
        → IsExtended ports c e es snaps
        → fills_window e.sequence ≡ true
        → length es < 2 ^ 63
        → Holds l (
            gathered_from ports c e now
              (100 * length snaps)
              (length snaps)
              (ports.storage.entries_since l.store c (100 * length snaps)))
    unfolding make_snapshot
    Holds-windowed e now x full room =
        rw (laws.entries_since_lem l.store c (100 * length snaps))
          (IsSound-full ports c e now es snaps x room full, refl)

    Holds-gathered :
        (e : LogEntry) (snap : MerkleSnapshot)
        → IsSound ports c es (snaps ++ snap ∷ [])
        → snap.chat_id ≡ c
        → Holds
            (record l { store = (ports.storage.save_snapshot l.store snap).1 })
            (snapped_if e snap (ports.storage.save_snapshot l.store snap).0)
    Holds-gathered e snap x own =
        let here : bytes_eq snap.chat_id c ≡ true = ap (λ d. bytes_eq d c) own ∙ bytes_eq_refl c in
        rw
          (
            laws.save_snapshot-result l.store snap,
            laws.entries-save_snapshot l.store snap c,
            laws.snapshots-save_snapshot l.store snap c,
            here,
          )
          x

  -- A step keeps what holds of its chat.
  pub advance-Holds :
      (l : Log S C B) (s : Stage)
      → Holds l s
      → length (laws.entries l.store c) < 2 ^ 63
      → Holds (advance ports c l s).0 (advance ports c l s).1
  unfolding advance publish
  advance-Holds l idle x room = x
  advance-Holds l (checked msg now) (x, m) room = Holds-checked l msg now x m room
  advance-Holds l (positioned msg now p i) (x, m, hp, hi) room =
      subst₂
        (λ p i.
          Holds
            (record l {
              store = (ports.storage.append_entry l.store c (make_entry ports msg p i)).1;
            })
            (written_if (make_entry ports msg p i) now
              (ports.storage.append_entry l.store c (make_entry ports msg p i)).0))
        (sym hp) (sym hi) (Holds-positioned l msg now x m room)
  advance-Holds l (written e now) x room = Holds-written l e now x room
  advance-Holds l (notified e now) (x, full) room = Holds-notified l e now x full room
  advance-Holds l (windowed e now from index) (x, full, hf, hi) room =
      subst₂
        (λ from index.
          Holds l
            (gathered_from ports c e now from index (ports.storage.entries_since l.store c from)))
        (sym hf) (sym hi) (Holds-windowed l e now x full room)
  advance-Holds l (gathered e snap) (x, own) room = Holds-gathered l e snap x own
  advance-Holds l (snapped e snap) x room = x
  advance-Holds l (cached e) x room = x

  -- A step of one chat changes no other chat.
  pub advance-other :
      (l : Log S C B) (s : Stage) (d : Bytes)
      → bytes_eq c d ≡ false
      → Holds l s
      → (laws.entries (advance ports c l s).0.store d ≡ laws.entries l.store d)
        × (laws.snapshots (advance ports c l s).0.store d ≡ laws.snapshots l.store d)
  unfolding advance publish
  advance-other l idle d other x = (refl, refl)
  advance-other l (checked msg now) d other x = (refl, refl)
  advance-other l (positioned msg now p i) d other x =
      let e = make_entry ports msg p i in
      (
        laws.entries-append_entry l.store c e d
            ∙ if_other (length (laws.entries l.store c) == e.sequence) (bytes_eq c d) _ _ other,
        laws.snapshots-append_entry l.store c e d,
      )
  advance-other l (written e now) d other x = (refl, refl)
  advance-other l (notified e now) d other x = (refl, refl)
  advance-other l (windowed e now from index) d other x = (refl, refl)
  advance-other l (gathered e snap) d other (x, own) = (
    laws.entries-save_snapshot l.store snap d,
    laws.snapshots-save_snapshot l.store snap d
        ∙ ap
            (λ k.
              if bytes_eq k d
              then laws.snapshots l.store d ++ snap ∷ []
              else laws.snapshots l.store d)
            own
        ∙ rw other refl,
  )
  advance-other l (snapped e snap) d other x = (refl, refl)
  advance-other l (cached e) d other x = (refl, refl)

  -- A step adds at most one entry to each chat.
  pub length-advance-le :
      (l : Log S C B) (s : Stage) (d : Bytes)
      → length (laws.entries (advance ports c l s).0.store d) ≤ length (laws.entries l.store d) + 1
  unfolding advance publish
  length-advance-le l (positioned msg now p i) d =
      let e = make_entry ports msg p i in
      let here = length (laws.entries l.store c) == e.sequence && bytes_eq c d in
      omega (
        arith,
        ap length (laws.entries-append_entry l.store c e d),
        length-if-le here (laws.entries l.store c) (laws.entries l.store d) e
            (λ h. ap (laws.entries l.store) ((bytes_eq_iff c d).0 (and_right _ _ h))),
      )
  length-advance-le l (gathered e snap) d =
      omega (arith, ap length (laws.entries-save_snapshot l.store snap d))
  length-advance-le l idle d = omega arith
  length-advance-le l (checked msg now) d = omega arith
  length-advance-le l (written e now) d = omega arith
  length-advance-le l (notified e now) d = omega arith
  length-advance-le l (windowed e now from index) d = omega arith
  length-advance-le l (snapped e snap) d = omega arith
  length-advance-le l (cached e) d = omega arith
