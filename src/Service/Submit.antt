-- ===== src/Service/Submit.antt =====
-- `Submit` of internal/service/messenger.go on a log that keeps the invariant.
use decentralized_messenger.Common.{
  ℕ, ◌^◌, ◌<◌, ◌≡◌, refl, sym, inl, inr, true, false, ◌&&◌, Bool-cases, ltb, length, arith,
}
use mathlib.Core.Path.{subst}
use decentralized_messenger.Codec.Time.{Time}
use decentralized_messenger.Result.{
  Error, err, content_exceeds, invalid_signature, unsupported_version,
}
use decentralized_messenger.Models.{SignedMessage}
use decentralized_messenger.Crypto.Keys.{verify_message}
use decentralized_messenger.Storage.{IsStorage}
use decentralized_messenger.Chatlog.{Ports, Log, supported_version}
use decentralized_messenger.Chatlog.Invariant.{IsWellFormed}
use decentralized_messenger.Chatlog.Invariant.Errors.{append_message-err, err_inj}
use decentralized_messenger.Chatlog.Invariant.Preserved.{append_message-IsWellFormed}
use decentralized_messenger.Service.{submit}

-- Why a message is refused, with the error that says so.
pub data IsRefused {S C B : Type 0} (ports : Ports S C B) (msg : SignedMessage) (most : ℕ)
    : Error → Type 0 where
  too_long :
      ltb 0 most ≡ true
      → most < length msg.content
      → IsRefused ports msg most (content_exceeds most)
  old_format :
      supported_version msg.schema_version ≡ false → IsRefused ports msg most unsupported_version
  forged : verify_message ports.ed25519 msg ≡ false → IsRefused ports msg most invalid_signature

module _ {S C B : Type 0} (ports : Ports S C B) (laws : IsStorage ports.storage) where
  -- `Submit` keeps the invariant of the log. The chat has room.
  pub submit-IsWellFormed :
      (l : Log S C B) (msg : SignedMessage) (most : ℕ) (now : Time)
      → IsWellFormed ports laws l
      → length (laws.entries l.store msg.chat_id) < 2 ^ 63
      → IsWellFormed ports laws (submit ports l msg most now).1
  unfolding submit
  submit-IsWellFormed l msg most now wf room =
      elim (Bool-cases (ltb 0 most && ltb most (length msg.content))) [
        | inl long ↦ rw long wf
        | inr fits ↦ rw fits (append_message-IsWellFormed ports laws l msg now wf room)
      ]

  -- On a log that keeps the invariant, for a chat with fewer than 2^63 entries, Submit fails only
  -- for content above a positive cap, an unsupported version or a signature that is not valid; the
  -- error names the reason and the log is as it was. The store keeps the contract of its port.
  pub submit-err :
      (l : Log S C B) (msg : SignedMessage) (most : ℕ) (now : Time) (e : Error)
      → IsWellFormed ports laws l
      → length (laws.entries l.store msg.chat_id) < 2 ^ 63
      → (submit ports l msg most now).0 ≡ err e
      → ((submit ports l msg most now).1 ≡ l) × IsRefused ports msg most e
  unfolding submit
  submit-err l msg most now e wf room failed =
      elim (Bool-cases (ltb 0 most && ltb most (length msg.content))) [
        | inl long ↦
            let same : content_exceeds most ≡ e = err_inj refl (rw long at failed) in
            (
              rw long refl,
              subst (IsRefused ports msg most) same (too_long (ground arith) (ground arith)),
            )
        | inr fits ↦
            let (same, why) =
              append_message-err ports laws l msg now e wf room (rw fits at failed) in
            (
              rw fits same,
              elim why [
                | inl (named, old) ↦ subst (IsRefused ports msg most) (sym named) (old_format old)
                | inr (named, bad) ↦ subst (IsRefused ports msg most) (sym named) (forged bad)
              ],
            )
      ]
