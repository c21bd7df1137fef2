-- ===== src/Broker/Receive/Channels.antt =====
-- The channels of the in-memory broker of internal/broker/broker.go across its methods.
use decentralized_messenger.Common.{
  ℕ, ◌<◌, ◌≡◌, refl, sym, ap, ◌∙◌, ◌⊎◌, inl, inr, false, List, [], none, some, Option-cases,
  Bool-cases, arith, ◌==◌, ==-refl, ==_iff, if◌then◌else◌, Dict, lookup, insert, lookup-insert,
  lookup-delete, nat_eq,
}
use mathlib.Core.Option
use decentralized_messenger.Broker.{Event, InMemory, subscribe, cancel, offer, publish}
use decentralized_messenger.Broker.Delivery.{lookup-offer_all}
use decentralized_messenger.Broker.Receive.{pop, receive}

-- The buffer of a subscription, which may be cancelled.
abbrev pub Holds : ℕ → InMemory → List Event → Type 0
Holds id b buffer =
    (lookup id b.subscribers ≡ some buffer)
    ⊎ ((lookup id b.subscribers ≡ none) × (lookup id b.closed ≡ some buffer))

pub insert_other :
    (id j : ℕ) (buffer : List Event) (m : Dict ℕ (List Event))
    → (j == id) ≡ false
    → lookup id (insert j buffer m) ≡ lookup id m
insert_other id j buffer m other =
    lookup-insert j id buffer m ∙ ap (λ t. if t then some buffer else lookup id m) other

pub insert_self :
    (id : ℕ) (buffer : List Event) (m : Dict ℕ (List Event))
    → lookup id (insert id buffer m) ≡ some buffer
insert_self id buffer m =
    lookup-insert id id buffer m ∙ ap (λ t. if t then some buffer else lookup id m) (==-refl id)

pub Holds-subscribe :
    (id : ℕ) (b : InMemory) (buffer : List Event)
    → id < b.next_id
    → Holds id b buffer
    → Holds id (subscribe b).1 buffer
unfolding subscribe
Holds-subscribe id b buffer h held =
    let other : (b.next_id == id) ≡ false = ground arith in
    let same = insert_other id b.next_id [] b.subscribers other in
    elim held [ inl live ↦ inl (same ∙ live) | inr (gone, kept) ↦ inr (same ∙ gone, kept) ]

none-some : {x : List Event} → none ≡ some x → ⊥
none-some e = cc

some_inj : {x y : List Event} → some x ≡ some y → x ≡ y
some_inj e = cc

pub Holds-cancel :
    (id j : ℕ) (b : InMemory) (buffer : List Event)
    → Holds id b buffer
    → Holds id (cancel j b) buffer
unfolding cancel
Holds-cancel id j b buffer held = elim (Option-cases (lookup j b.subscribers)) [
  | inl absent ↦ rw (absent, cancel) held
  | inr (old, present) ↦
      rw (present, cancel)
        (elim (Bool-cases (j == id)) [
          | inr other ↦
              let subs =
                lookup-delete j id b.subscribers
                ∙ ap (λ t. if t then none else lookup id b.subscribers) other in
              let closed = insert_other id j old b.closed other in
              elim held [
                | inl live ↦ inl (subs ∙ live)
                | inr (gone, kept) ↦ inr (subs ∙ gone, closed ∙ kept)
              ]
          | inl self ↦
              let at : j ≡ id = (==_iff j id).0 self in
              let subs =
                lookup-delete j id b.subscribers
                ∙ ap (λ t. if t then none else lookup id b.subscribers) self in
              let closed =
                lookup-insert j id old b.closed
                ∙ ap (λ t. if t then some old else lookup id b.closed) self in
              elim held [
                | inl live ↦
                    let same : some old ≡ some buffer =
                      sym present ∙ ap (λ i. lookup i b.subscribers) at ∙ live in
                    inr (subs, closed ∙ same)
                | inr (gone, kept) ↦
                    absurd
                      (none-some (sym gone ∙ ap (λ i. lookup i b.subscribers) (sym at) ∙ present))
              ]
        ])
]

pub receive-live :
    (j : ℕ) (b : InMemory) (buffer : List Event)
    → lookup j b.subscribers ≡ some buffer
    → receive j b
      ≡ ((pop buffer).0, record b { subscribers = insert j (pop buffer).1 b.subscribers })
unfolding receive
receive-live j b buffer live = rw (live, receive) refl

pub receive-kept :
    (j : ℕ) (b : InMemory) (buffer : List Event)
    → lookup j b.subscribers ≡ none
    → lookup j b.closed ≡ some buffer
    → receive j b ≡ ((pop buffer).0, record b { closed = insert j (pop buffer).1 b.closed })
unfolding receive
receive-kept j b buffer gone kept = rw (gone, kept, receive) refl

receive-neither :
    (j : ℕ) (b : InMemory)
    → lookup j b.subscribers ≡ none
    → lookup j b.closed ≡ none
    → receive j b ≡ (none, b)
unfolding receive
receive-neither j b gone absent = rw (gone, absent, receive) refl

-- Receiving from another channel leaves this one alone.
pub Holds-receive :
    (id j : ℕ) (b : InMemory) (buffer : List Event)
    → (j == id) ≡ false
    → Holds id b buffer
    → Holds id (receive j b).1 buffer
Holds-receive id j b buffer other held = elim (Option-cases (lookup j b.subscribers)) [
  | inr (old, live) ↦
      let same = insert_other id j (pop old).1 b.subscribers other in
      rw (receive-live j b old live)
        (elim held [ inl here ↦ inl (same ∙ here) | inr (gone, kept) ↦ inr (same ∙ gone, kept) ])
  | inl none_here ↦ elim (Option-cases (lookup j b.closed)) [
    | inl absent ↦ rw (receive-neither j b none_here absent) held
    | inr (old, kept_there) ↦
        let same = insert_other id j (pop old).1 b.closed other in
        rw (receive-kept j b old none_here kept_there)
          (elim held [ inl here ↦ inl here | inr (gone, kept) ↦ inr (gone, same ∙ kept) ])
  ]
]

-- A receive from this channel takes its first event.
pub Holds-receive_self :
    (id : ℕ) (b : InMemory) (buffer : List Event)
    → Holds id b buffer
    → ((receive id b).0 ≡ (pop buffer).0) × Holds id (receive id b).1 (pop buffer).1
Holds-receive_self id b buffer (inl live) =
    rw (receive-live id b buffer live) (refl, inl (insert_self id (pop buffer).1 b.subscribers))
Holds-receive_self id b buffer (inr (gone, kept)) =
    rw (receive-kept id b buffer gone kept)
      (refl, inr (gone, insert_self id (pop buffer).1 b.closed))

pub next_id-receive : (j : ℕ) (b : InMemory) → (receive j b).1.next_id ≡ b.next_id
unfolding receive
next_id-receive j b = elim (Option-cases (lookup j b.subscribers)) [
  | inr (old, live) ↦ rw (live, receive) refl
  | inl gone ↦ elim (Option-cases (lookup j b.closed)) [
    | inl absent ↦ rw (gone, absent, receive) refl
    | inr (old, kept) ↦ rw (gone, kept, receive) refl
  ]
]

pub next_id-cancel : (j : ℕ) (b : InMemory) → (cancel j b).next_id ≡ b.next_id
unfolding cancel
next_id-cancel j b = elim (Option-cases (lookup j b.subscribers)) [
  | inr (old, live) ↦ rw (live, cancel) refl
  | inl gone ↦ rw (gone, cancel) refl
]

-- Publishing offers the event to a live channel and leaves a cancelled one alone.
pub Holds-publish :
    (id : ℕ) (b : InMemory) (buffer : List Event) (event : Event)
    → lookup id b.subscribers ≡ some buffer
    → Holds id (publish b event).1 (offer event buffer)
unfolding publish
Holds-publish id b buffer event live =
    inl (lookup-offer_all event id b.subscribers ∙ ap (Option.map (offer event)) live)

pub Holds-publish_gone :
    (id : ℕ) (b : InMemory) (buffer : List Event) (event : Event)
    → lookup id b.subscribers ≡ none
    → lookup id b.closed ≡ some buffer
    → Holds id (publish b event).1 buffer
unfolding publish
Holds-publish_gone id b buffer event gone kept =
    inr (lookup-offer_all event id b.subscribers ∙ ap (Option.map (offer event)) gone, kept)
