-- ===== src/Chatlog/Invariant/Errors.antt =====
-- The errors of `Append` of internal/chatlog/log.go on a log that keeps the invariant.
use decentralized_messenger.Common.{◌^◌, ◌<◌, ◌≡◌, ap, ◌⊎◌, inl, inr, false, Bool-cases, length}
use decentralized_messenger.Codec.Time.{Time}
use decentralized_messenger.Result.{Error, Result, err, invalid_signature, unsupported_version}
use decentralized_messenger.Models.{SignedMessage}
use decentralized_messenger.Crypto.Keys.{verify_message}
use decentralized_messenger.Storage.{IsStorage}
use decentralized_messenger.Chatlog.{Ports, Log, supported_version, append_message}
use decentralized_messenger.Chatlog.Append.{append_message-refused}
use decentralized_messenger.Chatlog.Invariant.{IsWellFormed}
use decentralized_messenger.Chatlog.Invariant.Effect.{append_message-Effect}

pub err_inj : {A : Type 0} {e f : Error} {r : Result A} → r ≡ err e → r ≡ err f → e ≡ f
err_inj p q = cc

module _ {S C B : Type 0} (ports : Ports S C B) (laws : IsStorage ports.storage) where
  -- On a log that keeps the invariant, for a chat with fewer than 2^63 entries, Append fails only
  -- with ErrUnsupportedVersion for a message of an unsupported version or with ErrInvalidSignature
  -- for a message without a valid signature, and then the log is as it was. The store keeps the
  -- contract of its port.
  pub append_message-err :
      (l : Log S C B) (msg : SignedMessage) (now : Time) (e : Error)
      → IsWellFormed ports laws l
      → length (laws.entries l.store msg.chat_id) < 2 ^ 63
      → (append_message ports l msg now).0 ≡ err e
      → ((append_message ports l msg now).1 ≡ l)
        × (((e ≡ unsupported_version) × (supported_version msg.schema_version ≡ false))
            ⊎ ((e ≡ invalid_signature) × (verify_message ports.ed25519 msg ≡ false)))
  append_message-err l msg now e wf room failed =
      let (old, forged) = append_message-refused ports laws l msg now in
      elim (Bool-cases (supported_version msg.schema_version)) [
        | inr u ↦ (ap (λ r. r.1) (old u), inl (err_inj failed (ap (λ r. r.0) (old u)), u))
        | inl s ↦ elim (Bool-cases (verify_message ports.ed25519 msg)) [
          | inr v ↦
              (ap (λ r. r.1) (forged s v), inr (err_inj failed (ap (λ r. r.0) (forged s v)), v))
          | inl v ↦ absurd (
              cc (
                (append_message-Effect ports laws l msg now wf
                  (record { supported = s; signed = v; room = room })).0))
        ]
      ]
