-- ===== src/Chatlog/Invariant/Preserved.antt =====
-- The invariant of the log across a call of `Append` of internal/chatlog/log.go.
use decentralized_messenger.Common.{
  ◌+◌, ◌*◌, ◌^◌, ◌<◌, ◌≡◌, refl, sym, ap, ◌∙◌, false, ◌&&◌, List, [], ◌∷◌, ◌++◌, inl, inr,
  Bool-cases, arith, if◌then◌else◌, Bytes, bytes_eq, bytes_eq_iff, bytes_eq_refl, length, All,
  All-append,
}
use mathlib.Core.Path.{subst, subst₂}
use decentralized_messenger.Codec.Time.{Time}
use decentralized_messenger.Models.{LogEntry, MerkleSnapshot, SignedMessage, genesis_hash}
use decentralized_messenger.Crypto.Keys.{verify_message}
use decentralized_messenger.Storage.{IsStorage}
use decentralized_messenger.Chatlog.{
  Ports, Log, supported_version, fills_window, make_entry, append_message,
}
use decentralized_messenger.Chatlog.Chain.{
  IsLink, IsChain, IsChain-concat, make_entry-IsLink, tip_hash,
}
use decentralized_messenger.Chatlog.Append.{next_entry, next_snapshot, append_message-refused}
use decentralized_messenger.Chatlog.Invariant.{IsWellFormed, AreSnapshots}
use decentralized_messenger.Chatlog.Invariant.Windows.{AreSnapshots-plain, AreSnapshots-full}
use decentralized_messenger.Chatlog.Invariant.Effect.{IsAccepted, Effect, append_message-Effect}

module _ {S C B : Type 0} (ports : Ports S C B) (laws : IsStorage ports.storage) where
  -- What the invariant says of one chat.
  abbrev IsGood : Log S C B → Bytes → Type 0
  IsGood l c =
      IsChain ports 0 genesis_hash (laws.entries l.store c)
      × All (λ e. e.message.chat_id ≡ c) (laws.entries l.store c)
      × AreSnapshots ports.sha256 c (laws.entries l.store c) (laws.snapshots l.store c)

  module _ (l : Log S C B) (msg : SignedMessage) (now : Time) (wf : IsWellFormed ports laws l)
      (acc : IsAccepted ports laws l msg) where
    abbrev es : List LogEntry
    es = laws.entries l.store msg.chat_id

    abbrev snaps : List MerkleSnapshot
    snaps = laws.snapshots l.store msg.chat_id

    abbrev new : LogEntry
    new = next_entry ports laws l msg

    IsChain-new : IsChain ports 0 genesis_hash (es ++ new ∷ [])
    IsChain-new =
        let n : length es ≡ 0 + length es = omega arith in
        IsChain-concat ports 0 genesis_hash es new (wf.chain msg.chat_id) (
          subst (λ k. IsLink ports k (tip_hash genesis_hash es) new) n
            (make_entry-IsLink ports msg (tip_hash genesis_hash es) (length es) acc.supported
              acc.signed))

    own_new : All (λ e. e.message.chat_id ≡ msg.chat_id) (es ++ new ∷ [])
    unfolding make_entry
    own_new = All-append _ es (new ∷ []) (wf.own msg.chat_id) (refl, tt)

    -- The chat's entries and snapshots behind the new entry.
    sealed_new : AreSnapshots ports.sha256 msg.chat_id (es ++ new ∷ []) (
        if fills_window (length es)
        then snaps ++ next_snapshot ports laws l msg now (100 * length snaps) (length snaps) ∷ []
        else snaps)
    unfolding make_entry
    sealed_new = elim (Bool-cases (fills_window (length es))) [
      | inl full ↦ rw full (
          AreSnapshots-full ports msg.chat_id es new now snaps acc.room refl full
            (wf.sealed msg.chat_id))
      | inr plain ↦
          rw plain (
            AreSnapshots-plain ports msg.chat_id es new snaps acc.room plain
              (wf.sealed msg.chat_id))
    ]

    module _ (l' : Log S C B) (eff : Effect ports laws l msg now l') where
      IsGood-self : IsGood l' msg.chat_id
      IsGood-self =
          let same = bytes_eq_refl msg.chat_id in
          let p : laws.entries l'.store msg.chat_id ≡ es ++ new ∷ [] =
            eff.entries msg.chat_id ∙ ap (λ b. if b then es ++ new ∷ [] else es) same in
          let full =
            snaps ++ next_snapshot ports laws l msg now (100 * length snaps) (length snaps) ∷ [] in
          let q : laws.snapshots l'.store msg.chat_id
              ≡ (if fills_window (length es) then full else snaps) =
            eff.snapshots msg.chat_id
            ∙ ap (λ b. if b && fills_window (length es) then full else snaps) same in
          (
            subst (IsChain ports 0 genesis_hash) (sym p) IsChain-new,
            subst (All (λ e. e.message.chat_id ≡ msg.chat_id)) (sym p) own_new,
            subst₂ (AreSnapshots ports.sha256 msg.chat_id) (sym p) (sym q) sealed_new,
          )

      IsGood-other : (d : Bytes) → bytes_eq msg.chat_id d ≡ false → IsGood l' d
      IsGood-other d other =
          let p : laws.entries l'.store d ≡ laws.entries l.store d =
            eff.entries d ∙ ap (λ b. if b then es ++ new ∷ [] else laws.entries l.store d) other in
          let full =
            snaps ++ next_snapshot ports laws l msg now (100 * length snaps) (length snaps) ∷ [] in
          let q : laws.snapshots l'.store d ≡ laws.snapshots l.store d =
            eff.snapshots d
            ∙ ap (λ b. if b && fills_window (length es) then full else laws.snapshots l.store d)
                other in
          (
            subst (IsChain ports 0 genesis_hash) (sym p) (wf.chain d),
            subst (All (λ e. e.message.chat_id ≡ d)) (sym p) (wf.own d),
            subst₂ (AreSnapshots ports.sha256 d) (sym p) (sym q) (wf.sealed d),
          )

      IsGood-each : (d : Bytes) → IsGood l' d
      IsGood-each d = elim (Bool-cases (bytes_eq msg.chat_id d)) [
        | inl same ↦ subst (IsGood l') ((bytes_eq_iff msg.chat_id d).0 same) IsGood-self
        | inr other ↦ IsGood-other d other
      ]

      Effect-IsWellFormed : IsWellFormed ports laws l'
      Effect-IsWellFormed = record {
        chain = λ d. (IsGood-each d).0;
        own = λ d. (IsGood-each d).1;
        sealed = λ d. (IsGood-each d).2;
      }

  -- Append keeps the invariant of the log, whether it accepts the message or refuses it, for a
  -- chat with fewer than 2^63 entries. The store keeps the contract of its port.
  pub append_message-IsWellFormed :
      (l : Log S C B) (msg : SignedMessage) (now : Time)
      → IsWellFormed ports laws l
      → length (laws.entries l.store msg.chat_id) < 2 ^ 63
      → IsWellFormed ports laws (append_message ports l msg now).1
  append_message-IsWellFormed l msg now wf room =
      let (old, forged) = append_message-refused ports laws l msg now in
      elim (Bool-cases (supported_version msg.schema_version)) [
        | inr u ↦ rw (old u) wf
        | inl s ↦ elim (Bool-cases (verify_message ports.ed25519 msg)) [
          | inr f ↦ rw (forged s f) wf
          | inl v ↦
              let acc : IsAccepted ports laws l msg = record {
                supported = s;
                signed = v;
                room = room;
              } in
              Effect-IsWellFormed l msg now wf acc (append_message ports l msg now).1
                (append_message-Effect ports laws l msg now wf acc).1
        ]
      ]
