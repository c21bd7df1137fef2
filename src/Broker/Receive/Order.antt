-- ===== src/Broker/Receive/Order.antt =====
-- What a subscriber of the in-memory broker of internal/broker/broker.go receives, in which order.
use decentralized_messenger.Common.{
  ℕ, ◌≤◌, ◌<◌, ◌≡◌, refl, sym, ap, ◌∙◌, inl, inr, true, false, List, [], ◌∷◌, ◌++◌, append_assoc,
  append-nil, some, Bool-cases, arith, ltb, ◌==◌, ==_iff, length, length-append, lookup, nat_eq,
}
use mathlib.Core.Path.{subst}
use decentralized_messenger.Broker.{Event, InMemory, buffer_size, subscribe, offer, publish}
use decentralized_messenger.Broker.Receive.{
  pop, option_list, receive, Action, subscribing, cancelling, receiving, publishing, Watch, watch,
  watch_all, begun,
}
use decentralized_messenger.Broker.Receive.Channels.{
  Holds, Holds-subscribe, Holds-cancel, Holds-receive, Holds-receive_self, Holds-publish,
  Holds-publish_gone, next_id-receive, next_id-cancel, insert_self,
}

-- Some of the elements of a list, in its order.
pub data Sublist {A : Type 0} : List A → List A → Type 0 where
  done : Sublist [] []
  keep : (x : A) {xs ys : List A} → Sublist xs ys → Sublist (x ∷ xs) (x ∷ ys)
  skip : (y : A) {xs ys : List A} → Sublist xs ys → Sublist xs (y ∷ ys)

Sublist-keep_last :
    {A : Type 0} {xs ys : List A} (z : A) → Sublist xs ys → Sublist (xs ++ z ∷ []) (ys ++ z ∷ [])
Sublist-keep_last z done = keep z done
Sublist-keep_last z (keep x s) = keep x (Sublist-keep_last z s)
Sublist-keep_last z (skip y s) = skip y (Sublist-keep_last z s)

Sublist-skip_last :
    {A : Type 0} {xs ys : List A} (z : A) → Sublist xs ys → Sublist xs (ys ++ z ∷ [])
Sublist-skip_last z done = skip z done
Sublist-skip_last z (keep x s) = keep x (Sublist-skip_last z s)
Sublist-skip_last z (skip y s) = skip y (Sublist-skip_last z s)

-- The events of a subscription: it has received some and its buffer of at most 64 has the next
-- ones, in the order in which they were published; and if none found the buffer full, these are all.
pub record IsInOrder (id : ℕ) (w : Watch) : Type 0 where
  pub buffer : List Event
  pub holds : Holds id w.broker buffer
  pub bound : length buffer ≤ 64
  pub taken : id < w.broker.next_id
  pub order : Sublist (w.got ++ buffer) w.sent
  pub whole : w.dropped ≡ 0 → w.got ++ buffer ≡ w.sent

offer-room :
    (event : Event) (buffer : List Event)
    → ltb (length buffer) buffer_size ≡ true
    → offer event buffer ≡ buffer ++ event ∷ []
unfolding offer
offer-room event buffer h = rw h refl

offer-full :
    (event : Event) (buffer : List Event)
    → ltb (length buffer) buffer_size ≡ false
    → offer event buffer ≡ buffer
unfolding offer
offer-full event buffer h = rw h refl

got-pop :
    (got buffer : List Event)
    → (got ++ option_list (pop buffer).0) ++ (pop buffer).1 ≡ got ++ buffer
got-pop got [] = ap (λ l. l ++ []) (append-nil got)
got-pop got (event ∷ events) = append_assoc got (event ∷ []) events

length-pop-le : (buffer : List Event) → length (pop buffer).1 ≤ length buffer
length-pop-le [] = omega arith
length-pop-le (event ∷ events) = omega arith

module _ (id : ℕ) (w : Watch) (x : IsInOrder id w) where
  IsInOrder-subscribe : IsInOrder id (watch id w subscribing)
  unfolding watch subscribe
  IsInOrder-subscribe = record {
    buffer = x.buffer;
    holds = Holds-subscribe id w.broker x.buffer x.taken x.holds;
    bound = x.bound;
    taken = omega (arith, x.taken);
    order = x.order;
    whole = x.whole;
  }

  IsInOrder-cancel : (j : ℕ) → IsInOrder id (watch id w (cancelling j))
  unfolding watch
  IsInOrder-cancel j = record {
    buffer = x.buffer;
    holds = Holds-cancel id j w.broker x.buffer x.holds;
    bound = x.bound;
    taken = omega (arith, x.taken, next_id-cancel j w.broker);
    order = x.order;
    whole = x.whole;
  }

  -- Another buffer with the same events still to come.
  IsInOrder-taken :
      (b : InMemory) (got buffer : List Event)
      → Holds id b buffer
      → b.next_id ≡ w.broker.next_id
      → length buffer ≤ 64
      → got ++ buffer ≡ w.got ++ x.buffer
      → IsInOrder id (record w { broker = b; got = got })
  IsInOrder-taken b got buffer held next room same = record {
    buffer = buffer;
    holds = held;
    bound = room;
    taken = omega (arith, x.taken, next);
    order = subst (λ l. Sublist l w.sent) (sym same) x.order;
    whole = λ none_dropped. same ∙ x.whole none_dropped;
  }

  IsInOrder-receive : (j : ℕ) → IsInOrder id (watch id w (receiving j))
  unfolding watch
  IsInOrder-receive j = elim (Bool-cases (j == id)) [
    | inr other ↦ rw other (
        IsInOrder-taken (receive j w.broker).1 w.got x.buffer
          (Holds-receive id j w.broker x.buffer other x.holds) (next_id-receive j w.broker) x.bound
          refl)
    | inl self ↦
        let at : j ≡ id = (==_iff j id).0 self in
        let (event, held) = Holds-receive_self id w.broker x.buffer x.holds in
        rw (self, at)
          (IsInOrder-taken (receive id w.broker).1 (w.got ++ option_list (receive id w.broker).0)
            (pop x.buffer).1 held (next_id-receive id w.broker)
            (omega (arith, length-pop-le x.buffer, x.bound))
            (ap (λ e. (w.got ++ option_list e) ++ (pop x.buffer).1) event ∙ got-pop w.got x.buffer))
  ]

  IsInOrder-publish_live :
      (event : Event)
      → lookup id w.broker.subscribers ≡ some x.buffer
      → IsInOrder id (watch id w (publishing event))
  unfolding watch publish
  IsInOrder-publish_live event live = elim (Bool-cases (ltb (length x.buffer) buffer_size)) [
    | inl room ↦
        let more = append_assoc w.got x.buffer (event ∷ []) in
        let below : length x.buffer < 64 = ground arith in
        rw (live, room)
          (record {
            buffer = x.buffer ++ event ∷ [];
            holds =
                subst (Holds id (publish w.broker event).1) (offer-room event x.buffer room)
                  (Holds-publish id w.broker x.buffer event live);
            bound = omega (arith, length-append x.buffer (event ∷ []), below);
            taken = x.taken;
            order =
                subst (λ l. Sublist l (w.sent ++ event ∷ [])) more
                  (Sublist-keep_last event x.order);
            whole = λ none_dropped. sym more ∙ ap (λ l. l ++ event ∷ []) (x.whole none_dropped);
          })
    | inr full ↦
        rw (live, full)
          (record {
            buffer = x.buffer;
            holds =
                subst (Holds id (publish w.broker event).1) (offer-full event x.buffer full)
                  (Holds-publish id w.broker x.buffer event live);
            bound = x.bound;
            taken = x.taken;
            order = Sublist-skip_last event x.order;
            whole = λ none_dropped. absurd (omega (arith, none_dropped));
          })
  ]

  IsInOrder-publish : (event : Event) → IsInOrder id (watch id w (publishing event))
  unfolding watch publish
  IsInOrder-publish event = elim x.holds [
    | inl live ↦ IsInOrder-publish_live event live
    | inr (gone, kept) ↦ rw gone (record {
      buffer = x.buffer;
      holds = Holds-publish_gone id w.broker x.buffer event gone kept;
      bound = x.bound;
      taken = x.taken;
      order = x.order;
      whole = x.whole;
    })
  ]

  IsInOrder-watch : (action : Action) → IsInOrder id (watch id w action)
  IsInOrder-watch subscribing = IsInOrder-subscribe
  IsInOrder-watch (cancelling j) = IsInOrder-cancel j
  IsInOrder-watch (receiving j) = IsInOrder-receive j
  IsInOrder-watch (publishing event) = IsInOrder-publish event

IsInOrder-watch_all_from :
    (id : ℕ) (w : Watch) (actions : List Action)
    → IsInOrder id w
    → IsInOrder id (watch_all id w actions)
unfolding watch_all
IsInOrder-watch_all_from id w [] x = x
IsInOrder-watch_all_from id w (action ∷ actions) x =
    IsInOrder-watch_all_from id (watch id w action) actions (IsInOrder-watch id w x action)

-- After any sequence of subscriptions, cancellations, receives and publications behind a
-- subscription to the in-memory broker, what the subscriber has received and then its buffer are
-- events that were published while it was subscribed, each at most once and in order; if none of
-- these found the buffer full, they are all of them; and the buffer has at most 64.
pub watch_all-IsInOrder :
    (b : InMemory) (actions : List Action)
    → IsInOrder (subscribe b).0 (watch_all (subscribe b).0 (begun b) actions)
unfolding subscribe
watch_all-IsInOrder b actions = IsInOrder-watch_all_from b.next_id (begun b) actions (record {
  buffer = [];
  holds = inl (insert_self b.next_id [] b.subscribers);
  bound = omega arith;
  taken = omega arith;
  order = done;
  whole = λ _. refl;
})
