-- ===== src/Api/Routes/Served.antt =====
-- What the requests to a node do to its log, whatever clients ask of internal/api/server.go.
use decentralized_messenger.Common.{
  ℕ, suc, ◌+◌, ◌^◌, ◌<◌, ◌≤◌, ◌≡◌, refl, sym, ap, true, ◌&&◌, List, [], ◌∷◌, Option, Option-cases,
  ltb, Bytes, length, inl, inr, Bool-cases, arith,
}
use mathlib.Core.Path.{subst}
use decentralized_messenger.Codec.Time.{Time}
use decentralized_messenger.Result.{Result, ok, err}
use decentralized_messenger.Models.{SignedMessage, LogEntry}
use decentralized_messenger.Storage.{IsStorage}
use decentralized_messenger.Chatlog.{Ports, Log, VerifyResult}
use decentralized_messenger.Chatlog.Chain.{verify_lem}
use decentralized_messenger.Chatlog.Invariant.{IsWellFormed}
use decentralized_messenger.Chatlog.Invariant.Preserved.{append_message-IsWellFormed}
use decentralized_messenger.Chatlog.Reach.{IsEmpty, IsEmpty-IsWellFormed, length-append_message-le}
use decentralized_messenger.Service.{submit, max_photo_bytes, max_video_bytes}
use decentralized_messenger.RateLimit.{Rate, admit}
use decentralized_messenger.Api.{
  success, respond, created, decode_signed_message, send_with_most, handle_send, handle_send_photo,
  handle_send_video, handle_verify,
}
use decentralized_messenger.Api.Routes.{
  Route, health, keys, content_key, send, history, photo, video, verify, sync, ws, message, proof,
  verify_message, Request, Server, route, dispatch, serve, handle, handle_all,
}

module _ {S C B : Type 0} (ports : Ports S C B) (laws : IsStorage ports.storage) where
  -- A log that keeps the invariant, with at most `k` entries in each chat.
  pub record IsKept (k : ℕ) (l : Log S C B) : Type 0 where
    pub formed : IsWellFormed ports laws l
    pub bound : (c : Bytes) → length (laws.entries l.store c) ≤ k

  same-IsKept : (k : ℕ) (l : Log S C B) → IsKept k l → IsKept (k + 1) l
  same-IsKept k l x = record { formed = x.formed; bound = λ c. omega (arith, x.bound c) }

  submit-IsKept :
      (k most : ℕ) (l : Log S C B) (msg : SignedMessage) (now : Time)
      → IsKept k l
      → k + 1 < 2 ^ 63
      → IsKept (k + 1) (submit ports l msg most now).1
  unfolding submit
  submit-IsKept k most l msg now x h =
      let room : length (laws.entries l.store msg.chat_id) < 2 ^ 63 =
        omega (arith, x.bound msg.chat_id) in
      elim (Bool-cases (ltb 0 most && ltb most (length msg.content))) [
        | inl long ↦ rw long (same-IsKept k l x)
        | inr fits ↦ rw fits (record {
          formed = append_message-IsWellFormed ports laws l msg now x.formed room;
          bound = λ c.
              omega
                (arith, length-append_message-le ports laws l msg now c x.formed room, x.bound c);
        })
      ]

  created-log : (r : Result LogEntry × Log S C B) → (created ports r).1 ≡ r.1
  created-log (ok entry, l) = refl
  created-log (err e, l) = refl

  send-IsKept :
      (k most : ℕ) (l : Log S C B) (chat_id : Bytes) (body : Option SignedMessage) (now : Time)
      → IsKept k l
      → k + 1 < 2 ^ 63
      → IsKept (k + 1) (send_with_most ports most l chat_id body now).1
  unfolding send_with_most
  send-IsKept k most l chat_id body now x h =
      elim (Option-cases (decode_signed_message body chat_id)) [
        | inl bad ↦ rw (send_with_most, bad) (same-IsKept k l x)
        | inr (msg, good) ↦
            rw (send_with_most, good)
              (subst (IsKept (k + 1)) (sym (created-log (submit ports l msg most now)))
                (submit-IsKept k most l msg now x h))
      ]

  dispatch-IsKept :
      (k : ℕ) (l : Log S C B) (r : Request) (found : Route)
      → IsKept k l
      → k + 1 < 2 ^ 63
      → IsKept (k + 1) (dispatch ports l r found).1
  unfolding dispatch handle_send handle_send_photo handle_send_video
  dispatch-IsKept k l r (send chat_id) x h = send-IsKept k 0 l chat_id r.body r.now x h
  dispatch-IsKept k l r (photo chat_id) x h =
      send-IsKept k max_photo_bytes l chat_id r.body r.now x h
  dispatch-IsKept k l r (video chat_id) x h =
      send-IsKept k max_video_bytes l chat_id r.body r.now x h
  dispatch-IsKept k l r health x h = same-IsKept k l x
  dispatch-IsKept k l r keys x h = same-IsKept k l x
  dispatch-IsKept k l r content_key x h = same-IsKept k l x
  dispatch-IsKept k l r (history chat_id) x h = same-IsKept k l x
  dispatch-IsKept k l r (verify chat_id) x h = same-IsKept k l x
  dispatch-IsKept k l r (sync chat_id) x h = same-IsKept k l x
  dispatch-IsKept k l r (ws chat_id) x h = same-IsKept k l x
  dispatch-IsKept k l r (message chat_id sequence) x h = same-IsKept k l x
  dispatch-IsKept k l r (proof chat_id sequence) x h = same-IsKept k l x
  dispatch-IsKept k l r (verify_message chat_id sequence) x h = same-IsKept k l x

  serve-IsKept :
      (k : ℕ) (l : Log S C B) (r : Request)
      → IsKept k l
      → k + 1 < 2 ^ 63
      → IsKept (k + 1) (serve ports l r).1
  unfolding serve
  serve-IsKept k l r x h = elim (Option-cases (route r.method r.segments)) [
    | inl unknown ↦ rw (serve, unknown) (same-IsKept k l x)
    | inr (found, known) ↦ rw (serve, known) (dispatch-IsKept k l r found x h)
  ]

  module _ {R : Type 0} (rate : Rate R) where
    handle-IsKept :
        (k : ℕ) (s : Server R S C B) (r : Request)
        → IsKept k s.log
        → k + 1 < 2 ^ 63
        → IsKept (k + 1) (handle ports rate s r).1.log
    unfolding handle
    handle-IsKept k s r x h = elim (Option-cases s.limiter) [
      | inl free ↦ rw (handle, free) (serve-IsKept k s.log r x h)
      | inr (limiter, limited) ↦ elim (Bool-cases (admit rate limiter r.path r.client_ip r.now).0) [
        | inl fast ↦ rw (handle, limited, fast) (serve-IsKept k s.log r x h)
        | inr slow ↦ rw (handle, limited, slow) (same-IsKept k s.log x)
      ]
    ]

    handle_all-IsKept :
        (rs : List Request) (k : ℕ) (s : Server R S C B)
        → IsKept k s.log
        → k + length rs < 2 ^ 63
        → IsKept (k + length rs) (handle_all ports rate s rs).log
    unfolding handle_all
    handle_all-IsKept [] k s x h =
        let same : k ≡ k + 0 = omega arith in subst (λ j. IsKept j s.log) same x
    handle_all-IsKept (r ∷ rs) k s x h =
        let same : k + 1 + length rs ≡ k + suc (length rs) = omega arith in
        subst (λ j. IsKept j (handle_all ports rate (handle ports rate s r).1 rs).log) same
          (handle_all-IsKept rs (k + 1) (handle ports rate s r).1
            (handle-IsKept k s r x (omega arith)) (omega arith))

    -- From an empty store, after any sequence of fewer than 2^63 requests to the routes of the
    -- server, with or without a rate limit, handleVerify answers for every chat with status 200
    -- and a result that calls the log valid and counts all of its entries. The store keeps the
    -- contract of its port.
    pub handle_verify-handle_all :
        (s : Server R S C B) (rs : List Request) (c : Bytes)
        → IsEmpty ports laws s.log
        → length rs < 2 ^ 63
        → (v : VerifyResult) × (handle_verify ports (handle_all ports rate s rs).log c
            ≡ success 200 v)
          × (v.valid ≡ true)
          × (v.entries ≡ length (laws.entries (handle_all ports rate s rs).log.store c))
    unfolding handle_verify
    handle_verify-handle_all s rs c empty h =
        let start : IsKept 0 s.log = record {
          formed = IsEmpty-IsWellFormed ports laws s.log empty;
          bound = λ d. omega (arith, ap length (empty.entries d));
        } in
        let l = (handle_all ports rate s rs).log in
        let x = handle_all-IsKept rs 0 s start (omega arith) in
        let (v, done, (_, complete), count) = verify_lem ports laws l c in
        let valid = complete (x.formed.chain c) in (v, ap respond done, valid, rw valid at count)
