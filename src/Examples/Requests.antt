-- ===== src/Examples/Requests.antt =====
-- The theorems about the service, the HTTP API and the rate limiter at concrete inputs.
use decentralized_messenger.Common.{
  ℕ, ◌-◌, ◌/◌, ◌^◌, ◌<◌, ◌≤◌, ◌≡◌, refl, ◌⊎◌, true, [], ◌∷◌, some, arith, ltb, codes, length,
}
use decentralized_messenger.Codec.Decimal.{format_uint}
use decentralized_messenger.Result.{err, panic}
use decentralized_messenger.Models.{SignedMessage}
use decentralized_messenger.Merkle.{verify_proof}
use decentralized_messenger.Storage.Memory.{InMemoryStorage, memory_laws}
use decentralized_messenger.Cache
use decentralized_messenger.Broker
use decentralized_messenger.Chatlog.{InclusionProof, VerifyResult}
use decentralized_messenger.RateLimit.{Rate, Limiter}
use decentralized_messenger.Api.{
  success, failure, decode_signed_message, send_with_most, handle_proof, handle_verify,
}
use decentralized_messenger.Api.Answers.{handle_proof_lem}
use decentralized_messenger.Api.Routes.{Server, Request, get, post, handle_all}
use decentralized_messenger.Api.Routes.Served.{handle_verify-handle_all}
use decentralized_messenger.Api.Paging.{read_pages, read_pages_lem}
use decentralized_messenger.Examples.Node.{
  toy_sha256, ports, hello, demo, fresh, fresh-IsEmpty, chat_of, chat_of-IsWellFormed,
  length-chat_of,
}

room : length (memory_laws.entries (chat_of 100).store demo) < 2 ^ 63
room = omega (arith, length-chat_of 100 (omega arith))

abbrev nameless : SignedMessage
nameless = record hello { sender_id = [] }

nameless_refused : (send_with_most ports 0 (chat_of 100) demo (some nameless) 5).0 ≡ failure 400
unfolding send_with_most decode_signed_message
nameless_refused = refl

handle_proof_lem_example :
    ((42 / 100 < length (memory_laws.entries (chat_of 100).store demo) / 100)
      × (p : InclusionProof) × (handle_proof ports (chat_of 100) demo (format_uint 42)
          ≡ success 200 p)
      × (verify_proof toy_sha256 p.entry_hash p.nodes p.merkle_root ≡ true))
    ⊎ ((length (memory_laws.entries (chat_of 100).store demo) / 100 ≤ 42 / 100)
        × (handle_proof ports (chat_of 100) demo (format_uint 42) ≡ failure 409))
handle_proof_lem_example =
    handle_proof_lem ports memory_laws (chat_of 100) demo 42
      (chat_of-IsWellFormed 100 (omega arith)) room (omega arith)

read_pages_lem_example :
    read_pages ports 101 (chat_of 100) demo 7 0 ≡ memory_laws.entries (chat_of 100).store demo
read_pages_lem_example =
    read_pages_lem ports memory_laws 101 (chat_of 100) demo 7
      (chat_of-IsWellFormed 100 (omega arith)) room (omega arith) (omega arith)
      (omega (arith, length-chat_of 100 (omega arith)))

-- A bucket of three tokens that is not filled up.
abbrev three_tokens : Rate ℕ
three_tokens = record { new_bucket = 3; allow_at = λ tokens now. (ltb 0 tokens, tokens - 1) }

abbrev new_limiter : Limiter ℕ
new_limiter = record { idle = 60; buckets = [] }

-- A server with a limiter, and a client that sends a message and another that asks for a proof.
abbrev server : Server ℕ InMemoryStorage Cache.InMemory Broker.InMemory
server = record { limiter = some new_limiter; log = fresh }

abbrev sending : Request
sending = record {
  method = post;
  path = codes "/chats/demo/messages";
  segments = codes "chats" ∷ demo ∷ codes "messages" ∷ [];
  from = [];
  limit = [];
  body = some hello;
  client_ip = codes "10.0.0.1";
  now = 5;
  drawn = err panic;
}

abbrev asking : Request
asking = record sending {
  method = get;
  segments = codes "chats" ∷ demo ∷ codes "messages" ∷ codes "0" ∷ codes "proof" ∷ [];
}

handle_verify-handle_all_example :
    (v : VerifyResult) × (handle_verify ports
        (handle_all ports three_tokens server (sending ∷ asking ∷ sending ∷ [])).log
        demo
      ≡ success 200 v)
    × (v.valid ≡ true)
    × (v.entries
        ≡ length (
            memory_laws.entries
              (handle_all ports three_tokens server (sending ∷ asking ∷ sending ∷ [])).log.store
              demo))
handle_verify-handle_all_example =
    handle_verify-handle_all ports memory_laws three_tokens server (sending ∷ asking ∷ sending ∷ [])
      demo fresh-IsEmpty (omega arith)
