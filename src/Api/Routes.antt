-- ===== src/Api/Routes.antt =====
-- `Handler` of internal/api/server.go: the routes, the handlers behind them and the rate limit in front.
-- What `http.ServeMux` makes of a path, its segments, is an argument.
pub mod Served
use decentralized_messenger.Common.{
  ℕ, ◌^◌, ◌<◌, ◌≡◌, refl, Bool, true, false, List, [], ◌∷◌, Option, none, some, ◌&&◌, if◌then◌else◌,
  Bytes, codes, bytes_eq, length, inl, inr, Bool-cases, arith,
}
use decentralized_messenger.Codec.Time.{Time}
use decentralized_messenger.Result.{Result, ok, err}
use decentralized_messenger.Models.{SignedMessage, LogEntry}
use decentralized_messenger.Crypto.Keys.{Ed25519, generate_key_pair}
use decentralized_messenger.Storage.{IsStorage}
use decentralized_messenger.Chatlog.{
  Ports, Log, InclusionProof, MessageVerification, VerifyResult, SyncBundle,
}
use decentralized_messenger.Chatlog.Invariant.{IsWellFormed}
use decentralized_messenger.Service.{submit, max_photo_bytes, max_video_bytes}
use decentralized_messenger.Service.Submit.{submit-IsWellFormed}
use decentralized_messenger.RateLimit.{Rate, Limiter, admit}
use decentralized_messenger.Api.{
  Response, success, failure, HistoryResponse, decode_signed_message, respond, send_with_most,
  handle_send, handle_send_photo, handle_send_video, handle_history, handle_message,
  handle_verify_message, handle_proof, handle_verify, handle_sync, created,
}

-- The handler of a request, with the values in its path.
pub data Route : Type 0 where
  health keys content_key : Route
  send history photo video verify sync ws : (chat_id : Bytes) → Route
  message proof verify_message : (chat_id sequence : Bytes) → Route

-- The method of a request; the mux answers the other methods itself. HEAD is taken as GET.
pub data Method : Type 0 where
  get post : Method

-- The routes of one segment below a chat.
abbrev posted : Bytes → Bytes → Option Route
posted chat_id a =
    if bytes_eq a (codes "messages")
    then some (send chat_id)
    else if bytes_eq a (codes "photos")
    then some (photo chat_id)
    else if bytes_eq a (codes "videos")
    then some (video chat_id)
    else none

abbrev read : Bytes → Bytes → Option Route
read chat_id a =
    if bytes_eq a (codes "messages")
    then some (history chat_id)
    else if bytes_eq a (codes "verify")
    then some (verify chat_id)
    else if bytes_eq a (codes "sync")
    then some (sync chat_id)
    else if bytes_eq a (codes "ws")
    then some (ws chat_id)
    else none

-- The routes below a message.
abbrev read_of_message : Bytes → Bytes → Bytes → Option Route
read_of_message chat_id sequence b =
    if bytes_eq b (codes "proof")
    then some (proof chat_id sequence)
    else if bytes_eq b (codes "verify")
    then some (verify_message chat_id sequence)
    else none

-- The patterns of `Handler`; nothing if none matches.
unfoldable pub route : Method → List Bytes → Option Route
route get (a ∷ []) = if bytes_eq a (codes "healthz") then some health else none
route post (a ∷ []) = if bytes_eq a (codes "keys") then some keys else none
route post (a ∷ b ∷ []) =
    if bytes_eq a (codes "keys") && bytes_eq b (codes "content") then some content_key else none
route get (a ∷ chat_id ∷ b ∷ []) = if bytes_eq a (codes "chats") then read chat_id b else none
route post (a ∷ chat_id ∷ b ∷ []) = if bytes_eq a (codes "chats") then posted chat_id b else none
route get (a ∷ chat_id ∷ b ∷ sequence ∷ []) =
    if bytes_eq a (codes "chats") && bytes_eq b (codes "messages")
    then some (message chat_id sequence)
    else none
route get (a ∷ chat_id ∷ b ∷ sequence ∷ d ∷ []) =
    if bytes_eq a (codes "chats") && bytes_eq b (codes "messages")
    then read_of_message chat_id sequence d
    else none
route _ _ = none

-- A request: the path and its segments, the query, the message in the body, the address of the client,
-- the time, and what a key generator draws for it.
pub record Request : Type 0 where
  pub method : Method
  pub path : Bytes
  pub segments : List Bytes
  pub from : Bytes
  pub limit : Bytes
  pub body : Option SignedMessage
  pub client_ip : Bytes
  pub now : Time
  pub drawn : Result Bytes

pub data Reply : Type 0 where
  healthy : Reply
  new_keys : Response (Bytes × Bytes) → Reply
  new_content_key : Response Bytes → Reply
  one_entry : Response LogEntry → Reply
  page : Response HistoryResponse → Reply
  message_verified : Response MessageVerification → Reply
  proven : Response InclusionProof → Reply
  verified : Response VerifyResult → Reply
  synced : Response SyncBundle → Reply
  streaming : (chat_id : Bytes) → Reply
  not_routed : Reply
  too_many : Reply

-- A server, which may have a limiter.
pub record Server (R S C B : Type 0) : Type 0 where
  pub limiter : Option (Limiter R)
  pub log : Log S C B

-- The handlers that make keys, from what the random source draws.
abbrev pub handle_generate_keys : Ed25519 → Result Bytes → Response (Bytes × Bytes)
handle_generate_keys ed drawn = respond (generate_key_pair ed drawn)

abbrev pub handle_generate_content_key : Result Bytes → Response Bytes
handle_generate_content_key drawn = respond drawn

module _ {S C B : Type 0} (ports : Ports S C B) where
  abbrev stored : Response LogEntry × Log S C B → Reply × Log S C B
  stored (response, l) = (one_entry response, l)

  -- The handler of a route.
  unfoldable pub dispatch : Log S C B → Request → Route → Reply × Log S C B
  dispatch l r health = (healthy, l)
  dispatch l r keys = (new_keys (handle_generate_keys ports.ed25519 r.drawn), l)
  dispatch l r content_key = (new_content_key (handle_generate_content_key r.drawn), l)
  dispatch l r (send chat_id) = stored (handle_send ports l chat_id r.body r.now)
  dispatch l r (history chat_id) = (page (handle_history ports l chat_id r.from r.limit), l)
  dispatch l r (photo chat_id) = stored (handle_send_photo ports l chat_id r.body r.now)
  dispatch l r (video chat_id) = stored (handle_send_video ports l chat_id r.body r.now)
  dispatch l r (verify chat_id) = (verified (handle_verify ports l chat_id), l)
  dispatch l r (sync chat_id) = (synced (handle_sync ports l chat_id), l)
  dispatch l r (ws chat_id) = (streaming chat_id, l)
  dispatch l r (message chat_id sequence) = (one_entry (handle_message ports l chat_id sequence), l)
  dispatch l r (proof chat_id sequence) = (proven (handle_proof ports l chat_id sequence), l)
  dispatch l r (verify_message chat_id sequence) =
      (message_verified (handle_verify_message ports l chat_id sequence), l)

  -- The mux.
  unfoldable pub serve : Log S C B → Request → Reply × Log S C B
  serve l r = elim (route r.method r.segments) [
    | none ↦ (not_routed, l)
    | some found ↦ dispatch l r found
  ]

  module _ {R : Type 0} (rate : Rate R) where
    -- The mux behind the rate limit, if there is one.
    unfoldable pub handle : Server R S C B → Request → Reply × Server R S C B
    handle s r =
        let (reply, l') = serve s.log r in
        elim s.limiter [
          | none ↦ (reply, record s { log = l' })
          | some limiter ↦
              let (allowed, limiter') = admit rate limiter r.path r.client_ip r.now in
              if allowed
              then (reply, record { limiter = some limiter'; log = l' })
              else (too_many, record s { limiter = some limiter' })
        ]

    -- Some requests, one after another.
    unfoldable pub handle_all : Server R S C B → List Request → Server R S C B
    handle_all s [] = s
    handle_all s (r ∷ rs) = handle_all (handle s r).1 rs
