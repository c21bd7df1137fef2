-- ===== src/Examples/Ledger.antt =====
-- The theorems about the append-only log at the chat of the example node.
use mathlib.Core.Option
use mathlib.Core.Path.{subst}
use decentralized_messenger.Common.{
  ◌/◌, ◌^◌, ◌<◌, ◌≡◌, ◌≢◌, ◌↔◌, ◌⊎◌, refl, sym, ap, All, ◌∷◌, true, false, [], List, some, arith,
  if◌then◌else◌, ltb, length, get_elem?,
}
use decentralized_messenger.Codec.Decimal.{pos}
use decentralized_messenger.Hash.{Collision}
use decentralized_messenger.Result.{ok, err, not_found, unsupported_version, invalid_signature}
use decentralized_messenger.Models.{LogEntry, SignedMessage, genesis_hash}
use decentralized_messenger.Models.Binding.{IsReadable}
use decentralized_messenger.Examples.Texts.{hello-IsReadable}
use decentralized_messenger.Merkle.{verify_proof}
use decentralized_messenger.Crypto.Keys.{verify_message}
use decentralized_messenger.Storage.Memory.{memory_laws}
use decentralized_messenger.Chatlog.{
  InclusionProof, VerifyResult, SyncBundle, hashes, supported_version, append_message,
}
use decentralized_messenger.Chatlog.Queries
use decentralized_messenger.Chatlog.Queries.{prove_inclusion, sync, history, verify_entry}
use decentralized_messenger.Chatlog.Chain.{IsChain, verify_lem}
use decentralized_messenger.Chatlog.Invariant.Errors.{append_message-err}
use decentralized_messenger.Chatlog.Invariant.{IsWellFormed}
use decentralized_messenger.Chatlog.Invariant.Appended.{IsAppended, append_message_lem}
use decentralized_messenger.Chatlog.Inclusion.{prove_inclusion-ok}
use decentralized_messenger.Chatlog.Reach.{run-IsWellFormed, verify-run}
use decentralized_messenger.Chatlog.Tamper.{AreReadable, SayTheSame, log_texts, verify_binding}
use decentralized_messenger.Chatlog.Replay.{CatchesUp, sync_lem, verify_entry_lem}
use decentralized_messenger.Examples.Node.{
  toy_sha256, toy_sha256-IsSized, ports, hello, hello-IsAccepted, demo, fresh, fresh-IsEmpty, calls,
  length-calls, chat_of, chat_of-IsWellFormed, chat_of-AreHello, length-chat_of,
}

abbrev chat : List LogEntry
chat = memory_laws.entries (chat_of 100).store demo

length-chat : length chat ≡ 100
length-chat = length-chat_of 100 (omega arith)

few_calls : length (calls 100) < 2 ^ 63
few_calls = omega (arith, length-calls 100)

chat-IsWellFormed : IsWellFormed ports memory_laws (chat_of 100)
chat-IsWellFormed = chat_of-IsWellFormed 100 (omega arith)

run-IsWellFormed_example : IsWellFormed ports memory_laws (chat_of 100)
run-IsWellFormed_example =
    run-IsWellFormed ports memory_laws fresh (calls 100) fresh-IsEmpty few_calls

chat_verified :
    (r : VerifyResult) × (Queries.verify ports (chat_of 100) demo ≡ ok r)
    × (r.valid ≡ true)
    × (r.entries ≡ length chat)
chat_verified = verify-run ports memory_laws fresh (calls 100) demo fresh-IsEmpty few_calls

verify_lem_example :
    (r : VerifyResult) × (Queries.verify ports (chat_of 100) demo ≡ ok r)
    × ((r.valid ≡ true) ↔ IsChain ports 0 genesis_hash chat)
    × (r.entries ≡ (if r.valid then length chat else 0))
verify_lem_example = verify_lem ports memory_laws (chat_of 100) demo

append_message_lem_example :
    (e : LogEntry) × ((append_message ports (chat_of 100) hello 5).0 ≡ ok e)
    × IsAppended ports memory_laws
        (chat_of 100)
        hello
        5
        e
        (append_message ports (chat_of 100) hello 5).1
append_message_lem_example =
    append_message_lem ports memory_laws (chat_of 100) hello 5 chat-IsWellFormed
      (hello-IsAccepted (chat_of 100) (omega (arith, length-chat)))

abbrev old_hello : SignedMessage
old_hello = record hello { schema_version = pos 0 }

old_hello_refused : (append_message ports (chat_of 100) old_hello 5).0 ≡ err unsupported_version
unfolding append_message supported_version
old_hello_refused = refl

append_message-err_example :
    ((append_message ports (chat_of 100) old_hello 5).1 ≡ chat_of 100)
    × (((unsupported_version ≡ unsupported_version) × (supported_version (pos 0) ≡ false))
        ⊎ ((unsupported_version ≡ invalid_signature)
            × (verify_message ports.ed25519 old_hello ≡ false)))
append_message-err_example =
    append_message-err ports memory_laws (chat_of 100) old_hello 5 unsupported_version
      chat-IsWellFormed (omega (arith, length-chat)) old_hello_refused

prove_inclusion-ok_example :
    (p : InclusionProof) × (prove_inclusion ports (chat_of 100) demo 42 ≡ ok p)
    × (get_elem? (hashes chat) 42 ≡ some p.entry_hash)
    × (Option.map
          (λ s. s.merkle_root)
          (get_elem? (memory_laws.snapshots (chat_of 100).store demo) (42 / 100))
        ≡ some p.merkle_root)
    × (verify_proof toy_sha256 p.entry_hash p.nodes p.merkle_root ≡ true)
prove_inclusion-ok_example =
    prove_inclusion-ok ports memory_laws (chat_of 100) demo 42 chat-IsWellFormed
      (omega (arith, length-chat)) (omega (arith, length-chat))

sync_lem_example :
    (b : SyncBundle) × (sync ports (chat_of 100) demo ≡ ok b) × CatchesUp ports memory_laws chat b
sync_lem_example =
    sync_lem ports memory_laws (chat_of 100) demo chat-IsWellFormed (omega (arith, length-chat))

verify_entry_lem_example : verify_entry ports (chat_of 100) demo 99 ≡ (
    if ltb 99 (length chat)
    then ok (record { sequence = 99; valid = true; reason = [] })
    else err not_found)
verify_entry_lem_example =
    verify_entry_lem ports memory_laws (chat_of 100) demo 99 chat-IsWellFormed

chat-ne-nil : chat ≢ []
chat-ne-nil e = absurd (omega (arith, length-chat, ap length e))

abbrev verified : VerifyResult
verified = chat_verified.0

readable : (es : List LogEntry) → All (λ e. e.message ≡ hello) es → AreReadable es
readable [] said = tt
readable (e ∷ es) (same, said) = (subst IsReadable (sym same) hello-IsReadable, readable es said)

chat_readable : AreReadable chat
chat_readable = readable chat (chat_of-AreHello 100 (omega arith))

verify_binding_example :
    ((hashes chat ≡ hashes chat) × SayTheSame chat chat)
    ⊎ Collision toy_sha256 (log_texts toy_sha256 chat) (log_texts toy_sha256 chat)
verify_binding_example =
    verify_binding ports memory_laws toy_sha256-IsSized (chat_of 100) (chat_of 100) demo verified
      verified chat-ne-nil chat-ne-nil (omega (arith, length-chat)) (omega (arith, length-chat))
      chat_readable chat_readable chat_verified.1 chat_verified.2 chat_verified.1 chat_verified.2
      refl
