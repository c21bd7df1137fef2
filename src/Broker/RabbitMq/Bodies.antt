-- ===== src/Broker/RabbitMq/Bodies.antt =====
-- What a message that internal/broker/rabbitmq.go publishes says of its event.
use decentralized_messenger.Common.{
  ◌≡◌, ◌<◌, refl, ap, true, [], ◌∷◌, ◌++◌, arith, Bytes, codes, append_inj, length, All,
}
use decentralized_messenger.Codec.Decimal.{
  u64, IsDigit, format_uint, format_uint-digits, format_uint_inj,
}
use decentralized_messenger.Codec.Json.{marshal_string}
use decentralized_messenger.Codec.Json.Utf8.{valid_utf8, valid_utf8_from}
use decentralized_messenger.Codec.Json.Prefix.{marshal_string_inj}
use decentralized_messenger.Broker.{Event, EventKind, entry_appended, snapshot_created, kind_text}
use decentralized_messenger.Broker.RabbitMq.{marshal_event}

-- An event whose texts are valid UTF-8 and whose sequence number is of 64 bits.
pub record IsReadableEvent (event : Event) : Type 0 where
  pub chat_id : valid_utf8 event.chat_id ≡ true
  pub sequence : event.sequence < u64
  pub entry_hash : valid_utf8 event.entry_hash ≡ true

-- Digits end at the first comma.
split_at_comma :
    (s t x y : Bytes)
    → All IsDigit s
    → All IsDigit t
    → s ++ b',' ∷ x ≡ t ++ b',' ∷ y
    → (s ≡ t) × (x ≡ y)
split_at_comma [] [] x y hs ht e = (refl, cc)
split_at_comma [] (d ∷ t) x y hs (hd, ht) e = let c : b',' ≡ d = cc in absurd (omega arith)
split_at_comma (c ∷ s) [] x y (hc, hs) ht e = let c' : c ≡ b',' = cc in absurd (omega arith)
split_at_comma (c ∷ s) (d ∷ t) x y (hc, hs) (hd, ht) e =
    let (same, rest) = split_at_comma s t x y hs ht (cc) in (cc same, rest)

kind_text-valid : (k : EventKind) → valid_utf8 (kind_text k) ≡ true
unfolding kind_text valid_utf8_from
kind_text-valid entry_appended = refl
kind_text-valid snapshot_created = refl

kind_text_inj : (k m : EventKind) → kind_text k ≡ kind_text m → k ≡ m
unfolding kind_text
kind_text_inj entry_appended entry_appended e = refl
kind_text_inj entry_appended snapshot_created e = absurd (omega (arith, ap length e))
kind_text_inj snapshot_created entry_appended e = absurd (omega (arith, ap length e))
kind_text_inj snapshot_created snapshot_created e = refl

-- Behind one text the rest is the same.
behind : (p x y : Bytes) → p ++ x ≡ p ++ y → x ≡ y
behind p x y e = (append_inj p p x y refl e).1

-- The body of an event behind the kind, behind the chat, and behind the number.
abbrev behind_number : Event → Bytes
behind_number e = codes "\"entry_hash\":" ++ (marshal_string e.entry_hash ++ b'}' ∷ [])

abbrev behind_chat : Event → Bytes
behind_chat e = codes ",\"sequence\":" ++ (format_uint e.sequence ++ b',' ∷ behind_number e)

abbrev behind_kind : Event → Bytes
behind_kind e = codes ",\"chat_id\":" ++ (marshal_string e.chat_id ++ behind_chat e)

-- Two events with one body are equal: the body names the kind, the chat, the sequence number and
-- the entry hash. Their texts are valid UTF-8, their sequence numbers of 64 bits.
pub marshal_event_inj :
    (e f : Event)
    → IsReadableEvent e
    → IsReadableEvent f
    → marshal_event e ≡ marshal_event f
    → e ≡ f
unfolding marshal_event
marshal_event_inj e f he hf same =
    let (kind, after_kind) =
      marshal_string_inj (kind_text e.kind) (kind_text f.kind) (behind_kind e) (behind_kind f)
        (kind_text-valid e.kind) (kind_text-valid f.kind) (behind (codes "{\"kind\":") _ _ same) in
    let (chat, after_chat) =
      marshal_string_inj e.chat_id f.chat_id (behind_chat e) (behind_chat f) he.chat_id hf.chat_id
        (behind (codes ",\"chat_id\":") _ _ after_kind) in
    let (number, after_number) =
      split_at_comma (format_uint e.sequence) (format_uint f.sequence) (behind_number e)
        (behind_number f) (format_uint-digits e.sequence) (format_uint-digits f.sequence)
        (behind (codes ",\"sequence\":") _ _ after_chat) in
    let (hash, _) =
      marshal_string_inj e.entry_hash f.entry_hash (b'}' ∷ []) (b'}' ∷ []) he.entry_hash
        hf.entry_hash (behind (codes "\"entry_hash\":") _ _ after_number) in
    let kinds = kind_text_inj e.kind f.kind kind in
    let numbers = format_uint_inj e.sequence f.sequence he.sequence hf.sequence number in
    cc (kinds, chat, numbers, hash)
