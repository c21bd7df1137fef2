-- ===== src/Api/Answers.antt =====
-- The statuses with which handlers of internal/api/server.go answer, on a log that keeps the invariant.
use decentralized_messenger.Common.{
  ℕ, ◌/◌, ◌^◌, ◌<◌, ◌≤◌, ◌≡◌, refl, ◌∙◌, ◌⊎◌, inl, inr, true, Option, none, some, Option-cases,
  Bool-cases, ltb, arith, Bytes, length,
}
use decentralized_messenger.Codec.Decimal.{u64, format_uint, parse_uint-format_uint}
use decentralized_messenger.Codec.Time.{Time}
use decentralized_messenger.Result.{Result, ok, err, is_not_snapshotted}
use decentralized_messenger.Models.{SignedMessage, LogEntry}
use decentralized_messenger.Merkle.{verify_proof}
use decentralized_messenger.Storage.{IsStorage}
use decentralized_messenger.Chatlog.{Ports, Log, InclusionProof}
use decentralized_messenger.Chatlog.Invariant.{IsWellFormed}
use decentralized_messenger.Chatlog.Inclusion.{prove_inclusion-ok, prove_inclusion-uncovered}
use decentralized_messenger.Service.{submit}
use decentralized_messenger.Service.Submit.{submit-err}
use decentralized_messenger.Api.{
  Response, success, failure, created, decode_signed_message, send_with_most, handle_proof,
}

decode-chat_id :
    (body : Option SignedMessage) (chat_id : Bytes) (msg : SignedMessage)
    → decode_signed_message body chat_id ≡ some msg
    → msg.chat_id ≡ chat_id
unfolding decode_signed_message
decode-chat_id none chat_id msg e = absurd (cc)
decode-chat_id (some m) chat_id msg e = ground arith

failure_inj : {A : Type 0} {r : Response A} {i j : ℕ} → r ≡ failure i → r ≡ failure j → i ≡ j
failure_inj p q = cc

success-ne-failure :
    {A : Type 0} {r : Response A} {i j : ℕ} {a : A} → r ≡ success i a → r ≡ failure j → ⊥
success-ne-failure p q = cc

module _ {S C B : Type 0} (ports : Ports S C B) (laws : IsStorage ports.storage) where
  created-failure :
      (r : Result LogEntry × Log S C B) (status : ℕ)
      → (created ports r).0 ≡ failure status
      → (e : _) × (r.0 ≡ err e) × ((created ports r).1 ≡ r.1) × (status ≡ 422)
  created-failure (ok entry, l) status h = absurd (success-ne-failure refl h)
  created-failure (err e, l) status h = (e, refl, refl, failure_inj h refl)

  -- On a log that keeps the invariant, for a chat with fewer than 2^63 entries, a request to store
  -- a message that is not answered with success leaves the log as it was and is answered with
  -- status 400 or 422. The store keeps the contract of its port.
  pub send-failure :
      (most : ℕ) (l : Log S C B) (chat_id : Bytes) (body : Option SignedMessage) (now : Time)
      (status : ℕ)
      → IsWellFormed ports laws l
      → length (laws.entries l.store chat_id) < 2 ^ 63
      → (send_with_most ports most l chat_id body now).0 ≡ failure status
      → ((send_with_most ports most l chat_id body now).1 ≡ l) × ((status ≡ 400) ⊎ (status ≡ 422))
  unfolding send_with_most
  send-failure most l chat_id body now status wf room h =
      elim (Option-cases (decode_signed_message body chat_id)) [
        | inl bad ↦
            (rw (send_with_most, bad) refl, inl (failure_inj (rw (send_with_most, bad) at h) refl))
        | inr (msg, good) ↦
            let own = decode-chat_id body chat_id msg good in
            let (e, failed, same, named) =
              created-failure (submit ports l msg most now) status
                (rw (send_with_most, good) at h) in
            let fits : length (laws.entries l.store msg.chat_id) < 2 ^ 63 = rw own room in
            (
              rw (send_with_most, good)
                  (same ∙ (submit-err ports laws l msg most now e wf fits failed).0),
              inr named,
            )
      ]

  -- On a log that keeps the invariant, handleProof for a sequence number in decimal answers with
  -- status 200 and a proof that VerifyProof accepts where a full window covers the message, and
  -- with status 409 elsewhere. The number is below 2^64, the length of the log below 2^63. The
  -- store keeps the contract of its port.
  pub handle_proof_lem :
      (l : Log S C B) (c : Bytes) (sequence : ℕ)
      → IsWellFormed ports laws l
      → length (laws.entries l.store c) < 2 ^ 63
      → sequence < u64
      → ((sequence / 100 < length (laws.entries l.store c) / 100)
          × (p : InclusionProof) × (handle_proof ports l c (format_uint sequence) ≡ success 200 p)
          × (verify_proof ports.sha256 p.entry_hash p.nodes p.merkle_root ≡ true))
        ⊎ ((length (laws.entries l.store c) / 100 ≤ sequence / 100)
            × (handle_proof ports l c (format_uint sequence) ≡ failure 409))
  unfolding handle_proof is_not_snapshotted
  handle_proof_lem l c sequence wf fits h =
      let parsed = parse_uint-format_uint sequence h in
      elim (Bool-cases (ltb (sequence / 100) (length (laws.entries l.store c) / 100))) [
        | inl inside ↦
            let covered : sequence / 100 < length (laws.entries l.store c) / 100 = ground arith in
            let (p, done, _, _, checks) =
              prove_inclusion-ok ports laws l c sequence wf fits covered in
            inl (covered, p, rw (handle_proof, parsed) (rw done refl), checks)
        | inr outside ↦
            let uncovered : length (laws.entries l.store c) / 100 ≤ sequence / 100 = ground arith in
            inr (
              uncovered,
              rw (handle_proof, parsed)
                  (rw (prove_inclusion-uncovered ports laws l c sequence wf uncovered) refl),
            )
      ]
