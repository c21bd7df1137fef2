-- ===== src/Chatlog/Events.antt =====
-- The events that `Append` of internal/chatlog/log.go publishes.
use decentralized_messenger.Common.{
  ℕ, suc, ◌+◌, ◌*◌, ◌^◌, ◌<◌, ◌≤◌, ◌≡◌, refl, sym, ap, ◌∙◌, List, [], ◌∷◌, ◌++◌, inl, inr,
  Bool-cases, arith, if◌then◌else◌, Bytes, bytes_eq, bytes_eq_iff, length, last?, append_assoc,
  append-nil, length-append,
}
use mathlib.Core.Path.{subst}
use decentralized_messenger.Codec.Time.{Time}
use decentralized_messenger.Result.{ok}
use decentralized_messenger.Models.{LogEntry, SignedMessage}
use decentralized_messenger.Crypto.Keys.{verify_message}
use decentralized_messenger.Storage.{IsStorage, or_not_found}
use decentralized_messenger.Broker.{Event}
use decentralized_messenger.Chatlog.{
  Ports, Log, supported_version, fills_window, next_window, make_entry, publish, announce_snapshot,
  announce_entry, after_snapshot, append_message, entry_event, snapshot_event,
}
use decentralized_messenger.Chatlog.Append.{
  snapshots_of, next_entry, append_message-refused, take_snapshot-ok,
}
use decentralized_messenger.Chatlog.Invariant.{IsWellFormed}
use decentralized_messenger.Chatlog.Invariant.Effect.{
  IsAccepted, append_message-Effect, window_at, announced, middle,
}
use decentralized_messenger.Chatlog.Invariant.Preserved.{append_message-IsWellFormed}
use decentralized_messenger.Chatlog.Reach.{run, length-append_message-le}

-- What is announced of an entry: the entry, and the snapshot that it seals if it fills a window.
abbrev pub announcements : LogEntry → List Event
announcements e =
    entry_event e
    ∷ (if fills_window e.sequence then snapshot_event e.message.chat_id e ∷ [] else [])

abbrev pub all_announcements : List LogEntry → List Event
all_announcements [] = []
all_announcements (e ∷ es) = announcements e ++ all_announcements es

-- The events of one chat.
abbrev pub of_chat : Bytes → List Event → List Event
of_chat c [] = []
of_chat c (event ∷ events) =
    let rest = of_chat c events in if bytes_eq event.chat_id c then event ∷ rest else rest

length-announcements : (e : LogEntry) → length (announcements e) ≤ 2
length-announcements e = ground arith

module _ {S C B : Type 0} (ports : Ports S C B) (laws : IsStorage ports.storage) where
  -- Publishing some events one after another.
  abbrev pub publish_each : B → List Event → B
  publish_each b [] = b
  publish_each b (event ∷ events) = publish_each (ports.broker.publish b event).1 events

  announce_entry-broker :
      (l : Log S C B) (e : LogEntry) (now : Time) (from index : ℕ)
      → next_window (or_not_found (last? (snapshots_of ports laws l e.message.chat_id)))
        ≡ ok (from, index)
      → (announce_entry ports l e now (ok tt)).1.broker ≡ publish_each l.broker (announcements e)
  unfolding announce_entry publish announce_snapshot after_snapshot
  announce_entry-broker l e now from index w = elim (Bool-cases (fills_window e.sequence)) [
    | inl full ↦
        rw
          (
            full,
            take_snapshot-ok ports laws (publish ports l (entry_event e)) e.message.chat_id e now
                from index w,
          )
          refl
    | inr plain ↦ rw plain refl
  ]

  broker-accepted :
      (l : Log S C B) (msg : SignedMessage) (now : Time)
      → IsWellFormed ports laws l
      → IsAccepted ports laws l msg
      → (append_message ports l msg now).1.broker
        ≡ publish_each l.broker (announcements (next_entry ports laws l msg))
  unfolding make_entry
  broker-accepted l msg now wf acc =
      ap (λ r. r.1.broker) (announced ports laws l msg now wf acc)
      ∙ announce_entry-broker (middle ports laws l msg now wf acc) (next_entry ports laws l msg) now
          _ _ (window_at ports laws l msg now wf acc)

  publish_each-append :
      (b : B) (xs ys : List Event) → publish_each b (xs ++ ys) ≡ publish_each (publish_each b xs) ys
  publish_each-append b [] ys = refl
  publish_each-append b (x ∷ xs) ys = publish_each-append (ports.broker.publish b x).1 xs ys

  of_chat-append :
      (c : Bytes) (xs ys : List Event) → of_chat c (xs ++ ys) ≡ of_chat c xs ++ of_chat c ys
  of_chat-append c [] ys = refl
  of_chat-append c (x ∷ xs) ys = ground (arith, of_chat-append c xs ys)

  -- The events of an entry are those of its chat.
  of_chat-announcements :
      (c : Bytes) (e : LogEntry)
      → of_chat c (announcements e) ≡ (if bytes_eq e.message.chat_id c then announcements e else [])
  of_chat-announcements c e = ground arith

  -- What one call adds to the broker and to a chat: some events, of which those of the chat announce
  -- the entries that the chat has gained.
  pub record Publishes (calls : ℕ) (l : Log S C B) (c : Bytes) (l' : Log S C B) : Type 0 where
    pub events : List Event
    pub published : l'.broker ≡ publish_each l.broker events
    pub most : length events ≤ 2 * calls
    pub added : List LogEntry
    pub gained : laws.entries l'.store c ≡ laws.entries l.store c ++ added
    pub told : of_chat c events ≡ all_announcements added

  all_announcements-append :
      (xs ys : List LogEntry)
      → all_announcements (xs ++ ys) ≡ all_announcements xs ++ all_announcements ys
  all_announcements-append [] ys = refl
  all_announcements-append (x ∷ xs) ys =
      ap (λ l. announcements x ++ l) (all_announcements-append xs ys)
      ∙ sym (append_assoc (announcements x) (all_announcements xs) (all_announcements ys))

  Publishes-nothing : (l : Log S C B) (c : Bytes) (k : ℕ) → Publishes k l c l
  Publishes-nothing l c k = record {
    events = [];
    published = refl;
    most = omega arith;
    added = [];
    gained = sym (append-nil _);
    told = refl;
  }

  Publishes-then :
      (l1 l2 l3 : Log S C B) (c : Bytes) (m n : ℕ)
      → Publishes m l1 c l2
      → Publishes n l2 c l3
      → Publishes (m + n) l1 c l3
  Publishes-then l1 l2 l3 c m n p q = record {
    events = p.events ++ q.events;
    published =
        q.published
        ∙ ap (λ b. publish_each b q.events) p.published
        ∙ sym (publish_each-append l1.broker p.events q.events);
    most = omega (arith, length-append p.events q.events, p.most, q.most);
    added = p.added ++ q.added;
    gained =
        q.gained
        ∙ ap (λ es. es ++ q.added) p.gained
        ∙ append_assoc (laws.entries l1.store c) p.added q.added;
    told =
        of_chat-append c p.events q.events
        ∙ ap (λ es. es ++ of_chat c q.events) p.told
        ∙ ap (λ es. all_announcements p.added ++ es) q.told
        ∙ sym (all_announcements-append p.added q.added);
  }

  accepted-Publishes :
      (l : Log S C B) (msg : SignedMessage) (now : Time) (c : Bytes)
      → IsWellFormed ports laws l
      → IsAccepted ports laws l msg
      → Publishes 1 l c (append_message ports l msg now).1
  unfolding make_entry
  accepted-Publishes l msg now c wf acc =
      let new = next_entry ports laws l msg in
      let eff = (append_message-Effect ports laws l msg now wf acc).1 in
      let published = broker-accepted l msg now wf acc in
      elim (Bool-cases (bytes_eq msg.chat_id c)) [
        | inl own ↦ record {
          events = announcements new;
          published = published;
          most = length-announcements new;
          added = new ∷ [];
          gained =
              (rw own at (eff.entries c))
              ∙ ap (λ d. laws.entries l.store d ++ new ∷ []) ((bytes_eq_iff msg.chat_id c).0 own);
          told = of_chat-announcements c new ∙ rw own (sym (append-nil _));
        }
        | inr other ↦ record {
          events = announcements new;
          published = published;
          most = length-announcements new;
          added = [];
          gained = (rw other at (eff.entries c)) ∙ sym (append-nil _);
          told = of_chat-announcements c new ∙ rw other refl;
        }
      ]

  pub append_message-Publishes :
      (l : Log S C B) (msg : SignedMessage) (now : Time) (c : Bytes)
      → IsWellFormed ports laws l
      → length (laws.entries l.store msg.chat_id) < 2 ^ 63
      → Publishes 1 l c (append_message ports l msg now).1
  append_message-Publishes l msg now c wf room =
      let (old, forged) = append_message-refused ports laws l msg now in
      elim (Bool-cases (supported_version msg.schema_version)) [
        | inr u ↦ rw (old u) (Publishes-nothing l c 1)
        | inl s ↦ elim (Bool-cases (verify_message ports.ed25519 msg)) [
          | inr f ↦ rw (forged s f) (Publishes-nothing l c 1)
          | inl v ↦
              accepted-Publishes l msg now c wf (record { supported = s; signed = v; room = room })
        ]
      ]

  pub run-Publishes :
      (calls : List (SignedMessage × Time)) (l : Log S C B) (c : Bytes) (k : ℕ)
      → IsWellFormed ports laws l
      → ((d : Bytes) → length (laws.entries l.store d) ≤ k)
      → k + length calls < 2 ^ 63
      → Publishes (length calls) l c (run ports l calls)
  unfolding run
  run-Publishes [] l c k wf bound h = Publishes-nothing l c 0
  run-Publishes ((msg, now) ∷ calls) l c k wf bound h =
      let room : length (laws.entries l.store msg.chat_id) < 2 ^ 63 =
        omega (arith, bound msg.chat_id) in
      let l' = (append_message ports l msg now).1 in
      let one_more : 1 + length calls ≡ suc (length calls) = omega arith in
      subst (λ n. Publishes n l c (run ports l' calls)) one_more
        (Publishes-then l l' (run ports l' calls) c 1 (length calls)
          (append_message-Publishes l msg now c wf room)
          (run-Publishes calls l' c (k + 1)
            (append_message-IsWellFormed ports laws l msg now wf room)
            (λ d. omega (arith, length-append_message-le ports laws l msg now d wf room, bound d))
            (omega arith)))
