-- ===== src/Examples/Durable.antt =====
-- The theorems about the log on the ScyllaDB adapter, at the tables of the examples.
use decentralized_messenger.Common.{
  ◌^◌, ◌≡◌, ◌≢◌, refl, sym, ap, ◌⊎◌, true, false, [], arith, length,
}
use decentralized_messenger.Codec.Decimal.{pos, itoa}
use decentralized_messenger.Codec.Time.{format_rfc3339_nano}
use decentralized_messenger.Codec.Json.{marshal_sorted}
use decentralized_messenger.Codec.Json.Utf8.{valid_utf8_from}
use decentralized_messenger.Codec.Base64.{base64_encode}
use decentralized_messenger.Result.{ok}
use decentralized_messenger.Hash.{Collision}
use decentralized_messenger.Models.{
  SignedMessage, signing_payload, payload_fields, truncate_to_millisecond,
}
use decentralized_messenger.Models.Chaining.{entry_texts}
use decentralized_messenger.Crypto.Keys.{verify_message, verify}
use decentralized_messenger.Storage.Memory.{memory_laws}
use decentralized_messenger.Chatlog.{
  VerifyResult, append_message, supported_version, fills_window, next_u64,
}
use decentralized_messenger.Chatlog.Queries
use decentralized_messenger.Chatlog.Queries.{history}
use decentralized_messenger.Chatlog.Append.{next_entry}
use decentralized_messenger.Chatlog.Reach.{run}
use decentralized_messenger.Chatlog.Durable.{durable, IsSame, IsStorable}
use decentralized_messenger.Chatlog.Durable.Step.{append_message-IsSame}
use decentralized_messenger.Chatlog.Durable.Run.{run-IsSame, verify-run-durable, history-large}
use decentralized_messenger.Chatlog.Durable.Answers.{queries-IsSame}
use decentralized_messenger.Chatlog.Durable.Precision.{read_message, read_entry, verify-imprecise}
use decentralized_messenger.Examples.Node.{
  toy_sha256, toy_sha256-IsSized, toy_ed25519, ports, hello, demo, fresh, fresh-IsEmpty,
  fresh-IsWellFormed, calls, length-calls, chat_of, chat_of-IsWellFormed,
}
use decentralized_messenger.Examples.Tables.{
  tables, tables-IsTable, durable_fresh, durable_fresh-IsSame, utf8-IsStorable, hello-IsStorable,
  hello-IsPrecise, calls-AreStorable,
}

hundred_calls-IsSame :
    IsSame ports tables-IsTable memory_laws
      (run (durable tables ports) durable_fresh (calls 100))
      (chat_of 100)
hundred_calls-IsSame =
    run-IsSame ports tables-IsTable memory_laws toy_sha256-IsSized durable_fresh fresh (calls 100)
      durable_fresh-IsSame fresh-IsEmpty (calls-AreStorable 100) (omega (arith, length-calls 100))

history-large_example :
    history
      (durable tables ports)
      (run (durable tables ports) durable_fresh (calls 100))
      demo
      (2 ^ 63)
      50
    ≡ history ports (chat_of 100) demo 0 50
history-large_example =
    history-large ports tables-IsTable memory_laws
      (run (durable tables ports) durable_fresh (calls 100)) (chat_of 100) demo (2 ^ 63) 50
      hundred_calls-IsSame (omega arith)

-- A message with a time of one nanosecond.
abbrev imprecise : SignedMessage
imprecise = record hello { timestamp = 1 }

imprecise-IsStorable : IsStorable ports tables-IsTable memory_laws imprecise
unfolding valid_utf8_from
imprecise-IsStorable = utf8-IsStorable imprecise refl refl refl refl refl refl

payload_at_1 : signing_payload imprecise ≢ signing_payload (read_message imprecise)
unfolding signing_payload payload_fields marshal_sorted base64_encode itoa format_rfc3339_nano
    truncate_to_millisecond
payload_at_1 e = absurd (omega (arith, ap length e))

signed_at_1 : verify_message toy_ed25519 imprecise ≡ true
unfolding verify_message verify
signed_at_1 = refl

supported_at_1 : supported_version (pos 1) ≡ true
unfolding supported_version
supported_at_1 = refl

empty_demo : memory_laws.entries fresh.store demo ≡ []
empty_demo = fresh-IsEmpty.entries demo

first_in_window : fills_window (length (memory_laws.entries fresh.store demo)) ≡ false
unfolding next_u64
first_in_window = rw empty_demo refl

verify-imprecise_example :
    ((append_message (durable tables ports) durable_fresh imprecise 5).0
      ≡ ok (next_entry ports memory_laws fresh imprecise))
    × (r : VerifyResult) × (Queries.verify
          (durable tables ports)
          (append_message (durable tables ports) durable_fresh imprecise 5).1
          demo
        ≡ ok r)
    × ((r.valid ≡ false)
        ⊎ Collision toy_sha256
            (entry_texts toy_sha256 (read_entry (next_entry ports memory_laws fresh imprecise)))
            (entry_texts toy_sha256 (next_entry ports memory_laws fresh imprecise)))
verify-imprecise_example =
    verify-imprecise ports tables-IsTable memory_laws toy_sha256-IsSized durable_fresh fresh
      imprecise 5 durable_fresh-IsSame fresh-IsWellFormed imprecise-IsStorable
      (omega (arith, ap length empty_demo)) supported_at_1 signed_at_1 first_in_window
      (λ e. payload_at_1 (sym e))

verify-run-durable_example :
    (r : VerifyResult) × (Queries.verify
        (durable tables ports)
        (run (durable tables ports) durable_fresh (calls 100))
        demo
      ≡ ok r)
    × (r.valid ≡ true)
    × (r.entries ≡ length (memory_laws.entries (chat_of 100).store demo))
verify-run-durable_example =
    verify-run-durable ports tables-IsTable memory_laws toy_sha256-IsSized durable_fresh fresh
      (calls 100) demo durable_fresh-IsSame fresh-IsEmpty (calls-AreStorable 100)
      (omega (arith, length-calls 100))

append_message-IsSame_example :
    ((append_message (durable tables ports) durable_fresh hello 5).0
      ≡ (append_message ports fresh hello 5).0)
    × IsSame ports tables-IsTable memory_laws
        (append_message (durable tables ports) durable_fresh hello 5).1
        (append_message ports fresh hello 5).1
append_message-IsSame_example =
    append_message-IsSame ports tables-IsTable memory_laws toy_sha256-IsSized durable_fresh fresh
      hello 5 durable_fresh-IsSame fresh-IsWellFormed hello-IsStorable hello-IsPrecise
      (omega (arith, ap length empty_demo))

queries-IsSame_example :
    (Queries.verify
        (durable tables ports)
        (run (durable tables ports) durable_fresh (calls 100))
        demo
      ≡ Queries.verify ports (chat_of 100) demo)
    × (Queries.entry
          (durable tables ports)
          (run (durable tables ports) durable_fresh (calls 100))
          demo
          42
        ≡ Queries.entry ports (chat_of 100) demo 42)
    × (history
          (durable tables ports)
          (run (durable tables ports) durable_fresh (calls 100))
          demo
          42
          50
        ≡ history ports (chat_of 100) demo 42 50)
    × (Queries.verify_entry
          (durable tables ports)
          (run (durable tables ports) durable_fresh (calls 100))
          demo
          42
        ≡ Queries.verify_entry ports (chat_of 100) demo 42)
    × (Queries.prove_inclusion
          (durable tables ports)
          (run (durable tables ports) durable_fresh (calls 100))
          demo
          42
        ≡ Queries.prove_inclusion ports (chat_of 100) demo 42)
queries-IsSame_example =
    queries-IsSame ports tables-IsTable memory_laws
      (run (durable tables ports) durable_fresh (calls 100)) (chat_of 100) demo 42 50
      hundred_calls-IsSame (chat_of-IsWellFormed 100 (omega arith)) (omega arith)
