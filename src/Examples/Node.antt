-- ===== src/Examples/Node.antt =====
-- A node with a toy digest and toy signatures, the in-memory adapters, and a chat of 100 messages.
use decentralized_messenger.Common.{
  ℕ, zero, suc, ◌+◌, ◌*◌, ◌%◌, ◌^◌, ◌<◌, ◌≡◌, refl, sym, ap, ◌∙◌, true, false, [], ◌∷◌, List, arith,
  Bytes, codes, bytes_eq, length, All, All-append, length-append, length-replicate, replicate,
}
use mathlib.Core.Path.{subst}
use decentralized_messenger.Codec.Time.{Time}
use decentralized_messenger.Codec.Decimal.{pos}
use decentralized_messenger.Hash.{IsSized}
use decentralized_messenger.Models.{SignedMessage, LogEntry}
use decentralized_messenger.Crypto.Keys.{Ed25519, IsEd25519, verify_message, verify}
use decentralized_messenger.Storage.Memory.{
  InMemoryStorage, new_in_memory_storage, new_in_memory_storage_empty, in_memory_storage,
  memory_laws,
}
use decentralized_messenger.Cache
use decentralized_messenger.Broker
use decentralized_messenger.Chatlog.{Ports, Log, supported_version, make_entry, append_message}
use decentralized_messenger.Chatlog.Append.{next_entry}
use decentralized_messenger.Chatlog.Invariant.{IsWellFormed}
use decentralized_messenger.Chatlog.Invariant.Effect.{IsAccepted, append_message-Effect}
use decentralized_messenger.Chatlog.Invariant.Preserved.{append_message-IsWellFormed}
use decentralized_messenger.Chatlog.Reach.{run, IsEmpty, run-IsWellFormed}

checksum : Bytes → ℕ
checksum [] = 0
checksum (b ∷ s) = b + 31 * checksum s

-- A digest that is easy to compute, and easy to collide.
pub toy_sha256 : Bytes → Bytes
toy_sha256 s = (checksum s % 256) ∷ replicate 31 0

pub toy_sha256-IsSized : IsSized toy_sha256
unfolding toy_sha256
toy_sha256-IsSized = record { size = λ x. refl; bytes = λ x. omega arith }

abbrev pub toy_ed25519 : Ed25519
toy_ed25519 = record {
  public = λ k. replicate 32 1;
  sign_data = λ k d. replicate 64 2;
  verify_data = λ p d s. true;
}

pub toy_ed25519-IsEd25519 : IsEd25519 toy_ed25519
toy_ed25519-IsEd25519 = record {
  IsKey = λ k. length k ≡ 64;
  length-private = λ k key. key;
  length-public = λ k key. refl;
  length-sign_data = λ k d key. refl;
  verify_data-sign_data = λ k d key. refl;
}

pub toy_key-IsKey : (k : Bytes) → length k ≡ 64 → toy_ed25519-IsEd25519.IsKey k
unfolding toy_ed25519-IsEd25519
toy_key-IsKey k h = h

abbrev pub ports : Ports InMemoryStorage Cache.InMemory Broker.InMemory
ports = record {
  storage = in_memory_storage;
  cache = Cache.in_memory;
  broker = Broker.in_memory;
  sha256 = toy_sha256;
  ed25519 = toy_ed25519;
}

abbrev pub hello : SignedMessage
hello = record {
  schema_version = pos 1;
  message_id = codes "m1";
  chat_id = codes "demo";
  sender_id = codes "alice";
  content = codes "hi";
  content_type = codes "text/plain";
  filename = [];
  encrypted = false;
  timestamp = 0;
  public_key = replicate 32 1;
  signature = replicate 64 2;
}

abbrev pub fresh : Log InMemoryStorage Cache.InMemory Broker.InMemory
fresh = record {
  store = new_in_memory_storage;
  cache = Cache.new_in_memory;
  broker = Broker.new_in_memory;
}

abbrev pub demo : Bytes
demo = codes "demo"

pub fresh-IsEmpty : IsEmpty ports memory_laws fresh
fresh-IsEmpty = record {
  entries = λ c. (new_in_memory_storage_empty c).0;
  snapshots = λ c. (new_in_memory_storage_empty c).1;
}

pub hello_supported : supported_version (pos 1) ≡ true
unfolding supported_version
hello_supported = refl

pub hello_signed : verify_message toy_ed25519 hello ≡ true
unfolding verify_message verify
hello_signed = refl

-- The chat with some messages.
abbrev pub calls : ℕ → List (SignedMessage × Time)
calls n = replicate n (hello, 0)

pub length-calls : (n : ℕ) → length (calls n) ≡ n
length-calls n = length-replicate n (hello, 0)

pub hello-IsAccepted :
    (l : Log InMemoryStorage Cache.InMemory Broker.InMemory)
    → length (memory_laws.entries l.store demo) < 2 ^ 63
    → IsAccepted ports memory_laws l hello
hello-IsAccepted l h = record { supported = hello_supported; signed = hello_signed; room = h }

-- Each of the calls adds an entry to the chat.
length-run :
    (n : ℕ) (l : Log InMemoryStorage Cache.InMemory Broker.InMemory) (k : ℕ)
    → IsWellFormed ports memory_laws l
    → length (memory_laws.entries l.store demo) ≡ k
    → k + n < 2 ^ 63
    → length (memory_laws.entries (run ports l (calls n)).store demo) ≡ k + n
unfolding run bytes_eq
length-run zero l k wf h room = omega arith
length-run (suc n) l k wf h room =
    let fits : length (memory_laws.entries l.store demo) < 2 ^ 63 = omega arith in
    let eff = (append_message-Effect ports memory_laws l hello 0 wf (hello-IsAccepted l fits)).1 in
    let one_more : length (memory_laws.entries (append_message ports l hello 0).1.store demo)
        ≡ k + 1 =
      ap length (eff.entries demo)
      ∙ length-append (memory_laws.entries l.store demo) _
      ∙ omega arith in
    length-run n (append_message ports l hello 0).1 (k + 1)
      (append_message-IsWellFormed ports memory_laws l hello 0 wf fits) one_more (omega arith)
    ∙ omega arith

abbrev pub AreHello : Log InMemoryStorage Cache.InMemory Broker.InMemory → Type 0
AreHello l = All (λ e. e.message ≡ hello) (memory_laws.entries l.store demo)

-- The chat holds what the calls say.
AreHello-run :
    (n : ℕ) (l : Log InMemoryStorage Cache.InMemory Broker.InMemory)
    → IsWellFormed ports memory_laws l
    → length (memory_laws.entries l.store demo) + n < 2 ^ 63
    → AreHello l
    → AreHello (run ports l (calls n))
unfolding run bytes_eq make_entry
AreHello-run zero l wf room said = said
AreHello-run (suc n) l wf room said =
    let fits : length (memory_laws.entries l.store demo) < 2 ^ 63 = omega arith in
    let next = (append_message ports l hello 0).1 in
    let eff = (append_message-Effect ports memory_laws l hello 0 wf (hello-IsAccepted l fits)).1 in
    let es = memory_laws.entries l.store demo in
    let new = next_entry ports memory_laws l hello in
    let more : length (memory_laws.entries next.store demo) ≡ length es + 1 =
      ap length (eff.entries demo) ∙ length-append es (new ∷ []) in
    AreHello-run n next (append_message-IsWellFormed ports memory_laws l hello 0 wf fits)
      (omega (arith, more))
      (subst (All (λ (e : LogEntry). e.message ≡ hello)) (sym (eff.entries demo))
        (All-append (λ (e : LogEntry). e.message ≡ hello) es (new ∷ []) said (refl, tt)))

abbrev pub chat_of : ℕ → Log InMemoryStorage Cache.InMemory Broker.InMemory
chat_of n = run ports fresh (calls n)

pub chat_of-IsWellFormed : (n : ℕ) → n < 2 ^ 63 → IsWellFormed ports memory_laws (chat_of n)
chat_of-IsWellFormed n h =
    run-IsWellFormed ports memory_laws fresh (calls n) fresh-IsEmpty (omega (arith, length-calls n))

pub length-chat_of : (n : ℕ) → n < 2 ^ 63 → length (memory_laws.entries (chat_of n).store demo) ≡ n
unfolding run
length-chat_of n h =
    length-run n fresh 0 (chat_of-IsWellFormed 0 (omega arith))
      (ap length (fresh-IsEmpty.entries demo)) (omega arith)
    ∙ omega arith

pub fresh-IsWellFormed : IsWellFormed ports memory_laws fresh
unfolding run
fresh-IsWellFormed = chat_of-IsWellFormed 0 (omega arith)

pub chat_of-AreHello : (n : ℕ) → n < 2 ^ 63 → AreHello (chat_of n)
chat_of-AreHello n h =
    AreHello-run n fresh fresh-IsWellFormed (omega (arith, ap length (fresh-IsEmpty.entries demo)))
      (subst (All (λ (e : LogEntry). e.message ≡ hello)) (sym (fresh-IsEmpty.entries demo)) tt)
