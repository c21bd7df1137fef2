-- ===== src/Models/Binding.antt =====
-- What the signed text of internal/models/message.go says of the message.
use decentralized_messenger.Common.{
  ℕ, ◌∷◌, ◌≤◌, ◌≡◌, refl, ap, Bool, true, false, List, ◌++◌, map, Option, some, if◌then◌else◌,
  Bytes, codes, get_elem?, All,
}
use decentralized_messenger.Codec.Decimal.{IsInt64, itoa_inj, itoa-ascii}
use decentralized_messenger.Codec.Base64.{base64_encode_inj, base64_encode-ascii}
use decentralized_messenger.Codec.Hex.{IsByte}
use decentralized_messenger.Codec.Time.{format_rfc3339_nano, format_rfc3339_nano-ascii}
use decentralized_messenger.Codec.Json.Utf8.{
  marshal_string-stray, valid_utf8, valid_utf8_from, valid_utf8-ascii,
}
use decentralized_messenger.Codec.Json.Prefix.{IsText, marshal_sorted_first, marshal_sorted_inj}
use decentralized_messenger.Models.{SignedMessage, payload_fields, signing_payload}

-- A message as a JSON document gives one: its texts are valid UTF-8, its byte slices have bytes, and
-- its version is an `int`.
pub record IsReadable (m : SignedMessage) : Type 0 where
  pub schema_version : IsInt64 m.schema_version
  pub message_id : valid_utf8 m.message_id ≡ true
  pub chat_id : valid_utf8 m.chat_id ≡ true
  pub sender_id : valid_utf8 m.sender_id ≡ true
  pub content : All IsByte m.content
  pub content_type : valid_utf8 m.content_type ≡ true
  pub filename : valid_utf8 m.filename ≡ true
  pub public_key : All IsByte m.public_key

-- Two messages agree on all that is signed. Of a time its text is signed.
pub record SaysTheSame (m n : SignedMessage) : Type 0 where
  pub schema_version : m.schema_version ≡ n.schema_version
  pub message_id : m.message_id ≡ n.message_id
  pub chat_id : m.chat_id ≡ n.chat_id
  pub sender_id : m.sender_id ≡ n.sender_id
  pub content : m.content ≡ n.content
  pub content_type : m.content_type ≡ n.content_type
  pub filename : m.filename ≡ n.filename
  pub encrypted : m.encrypted ≡ n.encrypted
  pub timestamp : format_rfc3339_nano m.timestamp ≡ format_rfc3339_nano n.timestamp
  pub public_key : m.public_key ≡ n.public_key

flag_valid : (b : Bool) → valid_utf8 (if b then codes "true" else codes "false") ≡ true
unfolding valid_utf8_from
flag_valid true = refl
flag_valid false = refl

flag_inj :
    (b c : Bool)
    → (if b then codes "true" else codes "false") ≡ (if c then codes "true" else codes "false")
    → b ≡ c
flag_inj true true e = refl
flag_inj true false e = absurd (cc)
flag_inj false true e = absurd (cc)
flag_inj false false e = refl

payload_fields-texts : (m : SignedMessage) → IsReadable m → All IsText (payload_fields m)
unfolding payload_fields valid_utf8_from
payload_fields-texts m h = (
  (refl, h.chat_id),
  (
    (refl, valid_utf8-ascii _ (base64_encode-ascii m.content h.content)),
    (
      (refl, h.content_type),
      (
        (refl, flag_valid m.encrypted),
        (
          (refl, h.filename),
          (
            (refl, h.message_id),
            (
              (refl, valid_utf8-ascii _ (base64_encode-ascii m.public_key h.public_key)),
              (
                (refl, valid_utf8-ascii _ (itoa-ascii m.schema_version)),
                (
                  (refl, h.sender_id),
                  ((refl, valid_utf8-ascii _ (format_rfc3339_nano-ascii m.timestamp)), tt),
                ),
              ),
            ),
          ),
        ),
      ),
    ),
  ),
)

some_inj : {x y : Bytes} → some x ≡ some y → x ≡ y
some_inj e = cc

-- The value at a place among the pairs.
value_at : ℕ → List (Bytes × Bytes) → Option Bytes
value_at i l = get_elem? (map (λ p. p.1) l) i

fields-SaysTheSame :
    (m n : SignedMessage)
    → IsReadable m
    → IsReadable n
    → payload_fields m ≡ payload_fields n
    → SaysTheSame m n
unfolding payload_fields value_at
fields-SaysTheSame m n hm hn e = record {
  chat_id = some_inj (ap (value_at 0) e);
  content = base64_encode_inj _ _ hm.content hn.content (some_inj (ap (value_at 1) e));
  content_type = some_inj (ap (value_at 2) e);
  encrypted = flag_inj _ _ (some_inj (ap (value_at 3) e));
  filename = some_inj (ap (value_at 4) e);
  message_id = some_inj (ap (value_at 5) e);
  public_key = base64_encode_inj _ _ hm.public_key hn.public_key (some_inj (ap (value_at 6) e));
  schema_version = itoa_inj _ _ hm.schema_version hn.schema_version (some_inj (ap (value_at 7) e));
  sender_id = some_inj (ap (value_at 8) e);
  timestamp = some_inj (ap (value_at 9) e);
}

-- Two messages whose signed texts, each with some bytes behind it, are one text agree on every
-- field that is signed, the time up to its text, and on the bytes behind. The messages have valid
-- UTF-8, bytes and an int as their version.
pub signing_payload_inj :
    (m n : SignedMessage) (x y : Bytes)
    → IsReadable m
    → IsReadable n
    → signing_payload m ++ x ≡ signing_payload n ++ y
    → SaysTheSame m n × (x ≡ y)
unfolding signing_payload payload_fields
signing_payload_inj m n x y hm hn e =
    let (same, rest) =
      marshal_sorted_inj _ _ _ _ x y (payload_fields-texts m hm) (payload_fields-texts n hn) e in
    (fields-SaysTheSame m n hm hn same, rest)

-- Two chats whose identifiers differ in a first byte that begins no character of UTF-8 give one
-- signed text.
pub signing_payload-stray :
    (m : SignedMessage) (a b : ℕ) (s : Bytes)
    → 245 ≤ a
    → 245 ≤ b
    → signing_payload (record m { chat_id = a ∷ s })
      ≡ signing_payload (record m { chat_id = b ∷ s })
unfolding signing_payload payload_fields
signing_payload-stray m a b s ha hb =
    marshal_sorted_first (codes "chat_id") (a ∷ s) (b ∷ s) _ (marshal_string-stray a b s ha hb)
