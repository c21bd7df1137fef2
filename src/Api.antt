-- ===== src/Api.antt =====
-- internal/api/server.go: the handlers of the HTTP API, from the values in the path, the query and the
-- body of a request. What `json.NewDecoder` reads from a body is an argument: a message, or nothing if
-- the body is no JSON of a message. The texts of errors are left out of the responses.
pub mod Paging
pub mod Answers
pub mod Stream
pub mod Routes
pub mod Setup
use decentralized_messenger.Common.{
  ℕ, ◌-◌, ◌&&◌, ◌||◌, List, [], ◌∷◌, Option, none, some, ltb, ◌==◌, if◌then◌else◌, Bytes, length,
  get_elem?,
}
use decentralized_messenger.Codec.Decimal.{parse_uint}
use decentralized_messenger.Codec.Time.{Time}
use decentralized_messenger.Result.{Result, ok, err, is_not_found, is_not_snapshotted}
use decentralized_messenger.Models.{SignedMessage, LogEntry}
use decentralized_messenger.Chatlog.{
  Ports, Log, InclusionProof, MessageVerification, VerifyResult, SyncBundle, next_u64,
}
use decentralized_messenger.Service
use decentralized_messenger.Service.{submit, max_photo_bytes, max_video_bytes}

abbrev pub default_history_limit : ℕ
default_history_limit = 50

abbrev pub max_history_limit : ℕ
max_history_limit = 200

-- A response with its status: a value in JSON, or an error.
pub data Response (A : Type 0) : Type 0 where
  success : ℕ → A → Response A
  failure : ℕ → Response A

pub record HistoryResponse : Type 0 where
  pub messages : List LogEntry
  pub next_from : Option ℕ

-- The chat of a message is the one of the path.
unfoldable pub decode_signed_message : Option SignedMessage → Bytes → Option SignedMessage
decode_signed_message none chat_id = none
decode_signed_message (some msg) chat_id =
    if length msg.sender_id == 0 || length msg.public_key == 0 || length msg.signature == 0
    then none
    else some (record msg { chat_id = chat_id })

-- A query parameter that is absent is the empty string.
unfoldable pub parse_uint_query : Bytes → ℕ → Option ℕ
parse_uint_query raw fallback = if length raw == 0 then some fallback else parse_uint raw

-- The cursor behind a page: it moves past the last entry of a full page.
unfoldable pub next_from : ℕ → List LogEntry → Option ℕ
next_from limit entries =
    if length entries == limit && ltb 0 (length entries)
    then elim (get_elem? entries (length entries - 1)) [
      | none ↦ none
      | some e ↦ some (next_u64 e.sequence)
    ]
    else none

-- The answer to a result of the service, where no error has a status of its own.
abbrev pub respond : {A : Type 0} → Result A → Response A
respond (ok a) = success 200 a
respond (err e) = failure 500

-- The answer to a result where `ErrNotFound` is 404.
abbrev pub respond_found : {A : Type 0} → Result A → Response A
respond_found (ok a) = success 200 a
respond_found (err e) = if is_not_found e then failure 404 else failure 500

-- The answer of `handleProof`, where `ErrNotSnapshotted` is 409.
abbrev pub respond_proof : Result InclusionProof → Response InclusionProof
respond_proof (ok a) = success 200 a
respond_proof (err e) = if is_not_snapshotted e then failure 409 else failure 500

module _ {S C B : Type 0} (ports : Ports S C B) where
  -- The answer to what `Submit` returned.
  abbrev pub created : Result LogEntry × Log S C B → Response LogEntry × Log S C B
  created (ok entry, l) = (success 201 entry, l)
  created (err e, l) = (failure 422, l)

  unfoldable pub send_with_most :
      ℕ → Log S C B → Bytes → Option SignedMessage → Time → Response LogEntry × Log S C B
  send_with_most most l chat_id body now = elim (decode_signed_message body chat_id) [
    | none ↦ (failure 400, l)
    | some msg ↦ created (submit ports l msg most now)
  ]

  unfoldable pub handle_send :
      Log S C B → Bytes → Option SignedMessage → Time → Response LogEntry × Log S C B
  unfolding send_with_most
  handle_send = send_with_most 0

  unfoldable pub handle_send_photo :
      Log S C B → Bytes → Option SignedMessage → Time → Response LogEntry × Log S C B
  unfolding send_with_most
  handle_send_photo = send_with_most max_photo_bytes

  unfoldable pub handle_send_video :
      Log S C B → Bytes → Option SignedMessage → Time → Response LogEntry × Log S C B
  unfolding send_with_most
  handle_send_video = send_with_most max_video_bytes

  -- A page, from the position and the limit that the query asks for.
  unfoldable pub history_page : Log S C B → Bytes → ℕ → ℕ → Response HistoryResponse
  history_page l chat_id from limit =
      let limit' = if ltb max_history_limit limit then max_history_limit else limit in
      elim (Service.history ports l chat_id from limit') [
        | err e ↦ failure 500
        | ok entries ↦
            success 200 (record { messages = entries; next_from = next_from limit' entries })
      ]

  unfoldable pub handle_history : Log S C B → Bytes → Bytes → Bytes → Response HistoryResponse
  handle_history l chat_id raw_from raw_limit = elim (parse_uint_query raw_from 0) [
    | none ↦ failure 400
    | some from ↦ elim (parse_uint_query raw_limit default_history_limit) [
      | none ↦ failure 400
      | some limit ↦ if limit == 0 then failure 400 else history_page l chat_id from limit
    ]
  ]

  unfoldable pub handle_message : Log S C B → Bytes → Bytes → Response LogEntry
  handle_message l chat_id raw = elim (parse_uint raw) [
    | none ↦ failure 400
    | some sequence ↦ respond_found (Service.message ports l chat_id sequence)
  ]

  unfoldable pub handle_verify_message : Log S C B → Bytes → Bytes → Response MessageVerification
  handle_verify_message l chat_id raw = elim (parse_uint raw) [
    | none ↦ failure 400
    | some sequence ↦ respond_found (Service.verify_message ports l chat_id sequence)
  ]

  unfoldable pub handle_proof : Log S C B → Bytes → Bytes → Response InclusionProof
  handle_proof l chat_id raw = elim (parse_uint raw) [
    | none ↦ failure 400
    | some sequence ↦ respond_proof (Service.prove_inclusion ports l chat_id sequence)
  ]

  unfoldable pub handle_verify : Log S C B → Bytes → Response VerifyResult
  handle_verify l chat_id = respond (Service.verify ports l chat_id)

  unfoldable pub handle_sync : Log S C B → Bytes → Response SyncBundle
  handle_sync l chat_id = respond (Service.sync ports l chat_id)
