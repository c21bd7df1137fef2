-- ===== src/Service.antt =====
-- internal/service/messenger.go: the service in front of the log. A `Messenger` is its log. Every method
-- but `Submit` and `DecryptContent` passes its arguments on to the log.
pub mod Submit
use decentralized_messenger.Common.{ℕ, ◌*◌, ◌^◌, ◌&&◌, ltb, if◌then◌else◌, Bytes, length, List}
use decentralized_messenger.Codec.Time.{Time}
use decentralized_messenger.Result.{Result, ok, err, content_exceeds}
use decentralized_messenger.Models.{SignedMessage, LogEntry}
use decentralized_messenger.Crypto.Encrypt.{AesGcm, decrypt}
use decentralized_messenger.Chatlog.{
  Ports, Log, InclusionProof, MessageVerification, VerifyResult, SyncBundle, append_message,
}
use decentralized_messenger.Chatlog.Queries

-- `10 << 20` and `50 << 20`
abbrev pub max_photo_bytes : ℕ
max_photo_bytes = 10 * 2 ^ 20

abbrev pub max_video_bytes : ℕ
max_video_bytes = 50 * 2 ^ 20

module _ {S C B : Type 0} (ports : Ports S C B) where
  -- A cap of 0 stands for each cap that is not positive.
  unfoldable pub submit : Log S C B → SignedMessage → ℕ → Time → Result LogEntry × Log S C B
  submit l msg max_content_bytes now =
      if ltb 0 max_content_bytes && ltb max_content_bytes (length msg.content)
      then (err (content_exceeds max_content_bytes), l)
      else append_message ports l msg now

  abbrev pub history : Log S C B → Bytes → ℕ → ℕ → Result (List LogEntry)
  history l chat_id from limit = Queries.history ports l chat_id from limit

  abbrev pub message : Log S C B → Bytes → ℕ → Result LogEntry
  message l chat_id sequence = Queries.entry ports l chat_id sequence

  abbrev pub prove_inclusion : Log S C B → Bytes → ℕ → Result InclusionProof
  prove_inclusion l chat_id sequence = Queries.prove_inclusion ports l chat_id sequence

  abbrev pub verify_message : Log S C B → Bytes → ℕ → Result MessageVerification
  verify_message l chat_id sequence = Queries.verify_entry ports l chat_id sequence

  abbrev pub verify : Log S C B → Bytes → Result VerifyResult
  verify l chat_id = Queries.verify ports l chat_id

  abbrev pub sync : Log S C B → Bytes → Result SyncBundle
  sync l chat_id = Queries.sync ports l chat_id

unfoldable pub decrypt_content : AesGcm → SignedMessage → Bytes → Result Bytes
decrypt_content aes_gcm msg content_key =
    if msg.encrypted then decrypt aes_gcm content_key msg.content else ok msg.content
