-- ===== src/Models/Payload.antt =====
-- `NewMessage` of internal/models/message.go and the text that its messages sign.
use decentralized_messenger.Common.{◌≡◌, ap, Bool, arith, Bytes, length, ◌*◌}
use decentralized_messenger.Codec.Time.{Time}
use decentralized_messenger.Codec.Hex.{length-hex_encode}
use decentralized_messenger.Models.{
  new_message, new_message_id, truncate_to_millisecond, signing_payload,
}

-- A message identifier has two digits for each random byte.
pub length-new_message_id : (random : Bytes) → length (new_message_id random) ≡ 2 * length random
unfolding new_message_id
length-new_message_id random = length-hex_encode random

truncate_idem :
    (t : Time) → truncate_to_millisecond (truncate_to_millisecond t) ≡ truncate_to_millisecond t
unfolding truncate_to_millisecond
truncate_idem t = omega arith

-- A column of millisecond precision keeps the text that a message of NewMessage signs.
pub new_message-round_trip :
    (random : Bytes) (now : Time)
    (chat_id sender_id public_key content content_type filename : Bytes) (encrypted : Bool)
    → (let m =
          new_message random now chat_id sender_id public_key content content_type filename
            encrypted in
        signing_payload (record m { timestamp = truncate_to_millisecond m.timestamp })
        ≡ signing_payload m)
unfolding new_message
new_message-round_trip random now chat_id sender_id public_key content content_type filename
      encrypted =
    let m =
      new_message random now chat_id sender_id public_key content content_type filename encrypted in
    ap (λ t. signing_payload (record m { timestamp = t })) (truncate_idem now)
