-- ===== src/Broker/RabbitMq/Forwarding.antt =====
-- The goroutine of `Subscribe` of internal/broker/rabbitmq.go: what it hands to a client that has not
-- received anything yet.
use decentralized_messenger.Common.{
  ◌≡◌, ◌≤◌, refl, sym, ap, ◌∙◌, Bool, true, false, List, [], ◌∷◌, ◌++◌, inl, inr, Option, none,
  some, arith, ltb, Bool-cases, Bytes, length, length-append, take, take_all, take-append_left,
  append_assoc, append-nil,
}
use decentralized_messenger.Broker.{Event, offer}
use decentralized_messenger.Broker.RabbitMq.{
  Subscription, subscribed, Signal, delivery, deliveries_closed, cancelled, forward_event, forward,
  forward_all,
}

-- A decoded event in front of others.
abbrev pub listed_before : Option Event → List Event → List Event
listed_before none events = events
listed_before (some event) events = event ∷ events

module _ (unmarshal : Bytes → Option Event) where
  -- The events that are read from the deliveries before the subscription ends.
  abbrev pub decoded : List Signal → List Event
  decoded [] = []
  decoded (delivery body ∷ signals) = listed_before (unmarshal body) (decoded signals)
  decoded (deliveries_closed ∷ signals) = []
  decoded (cancelled ∷ signals) = []

  -- Whether the subscription ends.
  abbrev pub ends : List Signal → Bool
  ends [] = false
  ends (delivery body ∷ signals) = ends signals
  ends (deliveries_closed ∷ signals) = true
  ends (cancelled ∷ signals) = true

  -- Behind its end a subscription stays as it is.
  forward_all-closed :
      (buffer : List Event) (signals : List Signal)
      → forward_all unmarshal (record { buffer = buffer; closed = true }) signals
        ≡ record { buffer = buffer; closed = true }
  unfolding forward_all forward
  forward_all-closed buffer [] = refl
  forward_all-closed buffer (delivery body ∷ signals) = forward_all-closed buffer signals
  forward_all-closed buffer (deliveries_closed ∷ signals) = forward_all-closed buffer signals
  forward_all-closed buffer (cancelled ∷ signals) = forward_all-closed buffer signals

  -- The first 64 of some events, with what is already there.
  abbrev filled : List Event → List Signal → Subscription
  filled buffer signals = record {
    buffer = take 64 (buffer ++ decoded signals);
    closed = ends signals;
  }

  all_taken : (buffer : List Event) → length buffer ≤ 64 → buffer ≡ take 64 (buffer ++ [])
  all_taken buffer h = sym (ap (take 64) (append-nil buffer) ∙ take_all 64 buffer h)

  offer-room :
      (event : Event) (buffer events : List Event)
      → length buffer ≤ 64
      → (length (offer event buffer) ≤ 64)
        × (take 64 (offer event buffer ++ events) ≡ take 64 (buffer ++ event ∷ events))
  unfolding offer
  offer-room event buffer events h = elim (Bool-cases (ltb (length buffer) 64)) [
    | inl room ↦ rw room (
      ground (arith, length-append buffer (event ∷ [])),
      ap (take 64) (append_assoc buffer (event ∷ []) events),
    )
    | inr full ↦
        let all : 64 ≤ length buffer = ground arith in
        rw full (
          h,
          take-append_left 64 buffer events all
              ∙ sym (take-append_left 64 buffer (event ∷ events) all),
        )
  ]

  -- A delivery, from what the rest of the signals leaves of any buffer.
  delivered :
      (read : Option Event) (buffer : List Event) (signals : List Signal)
      → length buffer ≤ 64
      → ((b : List Event)
          → length b ≤ 64
          → forward_all unmarshal (record { buffer = b; closed = false }) signals
            ≡ filled b signals)
      → forward_all unmarshal
          (forward_event (record { buffer = buffer; closed = false }) read)
          signals
        ≡ record {
          buffer = take 64 (buffer ++ listed_before read (decoded signals));
          closed = ends signals;
        }
  delivered none buffer signals h rest = rest buffer h
  delivered (some event) buffer signals h rest =
      let (fits, same) = offer-room event buffer (decoded signals) h in
      rest (offer event buffer) fits ∙ ap (λ b. record { buffer = b; closed = ends signals }) same

  forward_all-filled :
      (buffer : List Event) (signals : List Signal)
      → length buffer ≤ 64
      → forward_all unmarshal (record { buffer = buffer; closed = false }) signals
        ≡ filled buffer signals
  unfolding forward_all forward
  forward_all-filled buffer [] h =
      ap (λ b. record { buffer = b; closed = false }) (all_taken buffer h)
  forward_all-filled buffer (delivery body ∷ signals) h =
      delivered (unmarshal body) buffer signals h (λ b. forward_all-filled b signals)
  forward_all-filled buffer (deliveries_closed ∷ signals) h =
      forward_all-closed buffer signals
      ∙ ap (λ b. record { buffer = b; closed = true }) (all_taken buffer h)
  forward_all-filled buffer (cancelled ∷ signals) h =
      forward_all-closed buffer signals
      ∙ ap (λ b. record { buffer = b; closed = true }) (all_taken buffer h)

  -- Whatever is delivered, the channel of a fresh subscription from which nothing is received
  -- holds the first 64 of the events that can be read from the deliveries before the subscription
  -- ends, in order, and it is closed exactly when the subscription has ended.
  pub forward_all_lem :
      (signals : List Signal)
      → ((forward_all unmarshal subscribed signals).buffer ≡ take 64 (decoded signals))
        × ((forward_all unmarshal subscribed signals).closed ≡ ends signals)
  forward_all_lem signals =
      let whole = forward_all-filled [] signals (omega arith) in
      (ap (λ s. s.buffer) whole, ap (λ s. s.closed) whole)
