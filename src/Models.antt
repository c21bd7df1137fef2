-- ===== src/Models.antt =====
-- internal/models: signed messages, log entries and Merkle snapshots, with the text that is signed
-- and the hash that chains the entries.
pub mod Payload
pub mod Binding
pub mod Chaining
use decentralized_messenger.Common.{
  ℕ, zero, suc, ◌+◌, ◌-◌, ◌*◌, ◌%◌, ◌^◌, ◌≡◌, Bool, List, [], ◌∷◌, ◌++◌, if◌then◌else◌, Bytes,
  codes, replicate,
}
use decentralized_messenger.Codec.Hex.{hex_encode}
use decentralized_messenger.Codec.Decimal.{ℤ, pos, itoa, format_uint}
use decentralized_messenger.Codec.Base64.{base64_encode}
use decentralized_messenger.Codec.Json.{marshal_sorted}
use decentralized_messenger.Codec.Time.{Time, format_rfc3339_nano}

abbrev pub genesis_hash : Bytes
genesis_hash = replicate 64 b'0'

abbrev pub snapshot_interval : ℕ
snapshot_interval = 100

abbrev pub content_type_text : Bytes
content_type_text = codes "text/plain"

abbrev pub current_schema_version : ℤ
current_schema_version = pos 1

pub record SignedMessage : Type 0 where
  pub schema_version : ℤ
  pub message_id : Bytes
  pub chat_id : Bytes
  pub sender_id : Bytes
  pub content : Bytes
  pub content_type : Bytes
  pub filename : Bytes
  pub encrypted : Bool
  pub timestamp : Time
  pub public_key : Bytes
  pub signature : Bytes

-- `Truncate(time.Millisecond)`: a millisecond is 10^6 nanoseconds.
unfoldable pub truncate_to_millisecond : Time → Time
truncate_to_millisecond t = t - t % 10 ^ 6

-- The 16 random bytes that `rand.Read` fills are an argument.
unfoldable pub new_message_id : Bytes → Bytes
new_message_id random = hex_encode random

-- `random` and `now` are what `NewMessageID` and `time.Now().UTC()` read.
unfoldable pub new_message :
    Bytes → Time → Bytes → Bytes → Bytes → Bytes → Bytes → Bytes → Bool → SignedMessage
unfolding new_message_id truncate_to_millisecond
new_message random now chat_id sender_id public_key content content_type filename encrypted =
    record {
      schema_version = current_schema_version;
      message_id = new_message_id random;
      chat_id = chat_id;
      sender_id = sender_id;
      content = content;
      content_type = content_type;
      filename = filename;
      encrypted = encrypted;
      timestamp = truncate_to_millisecond now;
      public_key = public_key;
      signature = [];
    }

-- The map of `SigningPayload`, its keys in the order in which `json.Marshal` writes them.
unfoldable pub payload_fields : SignedMessage → List (Bytes × Bytes)
payload_fields m =
    (codes "chat_id", m.chat_id)
    ∷ (codes "content", base64_encode m.content)
    ∷ (codes "content_type", m.content_type)
    ∷ (codes "encrypted", if m.encrypted then codes "true" else codes "false")
    ∷ (codes "filename", m.filename)
    ∷ (codes "message_id", m.message_id)
    ∷ (codes "public_key", base64_encode m.public_key)
    ∷ (codes "schema_version", itoa m.schema_version)
    ∷ (codes "sender_id", m.sender_id)
    ∷ (codes "timestamp", format_rfc3339_nano m.timestamp)
    ∷ []

unfoldable pub signing_payload : SignedMessage → Bytes
unfolding payload_fields
signing_payload m = marshal_sorted (payload_fields m)

pub record LogEntry : Type 0 where
  pub sequence : ℕ
  pub message : SignedMessage
  pub prev_hash : Bytes
  pub entry_hash : Bytes

-- The text that is hashed for an entry, from its sequence, the previous hash and the digest of its
-- message.
unfoldable pub chained : ℕ → Bytes → Bytes → Bytes
chained sequence prev_hash digest =
    format_uint sequence ++ b':' ∷ (prev_hash ++ b':' ∷ hex_encode digest)

module _ (sha256 : Bytes → Bytes) where
  unfoldable pub compute_hash : LogEntry → Bytes
  unfolding chained
  compute_hash e =
      let msg_digest = sha256 (signing_payload e.message ++ e.message.signature) in
      hex_encode (sha256 (chained e.sequence e.prev_hash msg_digest))

pub record MerkleSnapshot : Type 0 where
  pub chat_id : Bytes
  pub snapshot_index : ℕ
  pub from_sequence : ℕ
  pub to_sequence : ℕ
  pub merkle_root : Bytes
  pub last_entry_hash : Bytes
  pub created_at : Time
