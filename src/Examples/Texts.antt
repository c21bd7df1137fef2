-- ===== src/Examples/Texts.antt =====
-- The theorems about the signed text of a message at concrete messages.
use decentralized_messenger.Common.{◌≡◌, refl, [], ◌∷◌, ◌++◌, arith, codes, replicate, All}
use decentralized_messenger.Codec.Hex.{IsByte}
use decentralized_messenger.Codec.Json.Utf8.{valid_utf8_from}
use decentralized_messenger.Models.{SignedMessage}
use decentralized_messenger.Models.Binding.{IsReadable, SaysTheSame, signing_payload_inj}
use decentralized_messenger.Crypto.Keys.{verify_message}
use decentralized_messenger.Crypto.ChatIds.{verify_message-stray}
use decentralized_messenger.Examples.Node.{toy_ed25519, hello}

ones_bytes : All IsByte (replicate 32 1)
ones_bytes = omega arith

pub hello-IsReadable : IsReadable hello
unfolding valid_utf8_from
hello-IsReadable = record {
  schema_version = omega arith;
  message_id = refl;
  chat_id = refl;
  sender_id = refl;
  content = (omega arith, (omega arith, tt));
  content_type = refl;
  filename = refl;
  public_key = ones_bytes;
}

-- A text with an escape and a character of two bytes.
abbrev quoted : SignedMessage
quoted = record hello { filename = codes "a\"<" ++ 0xc3 ∷ 0xa9 ∷ [] }

quoted-IsReadable : IsReadable quoted
unfolding valid_utf8_from
quoted-IsReadable =
    let h = hello-IsReadable in
    record {
      schema_version = h.schema_version;
      message_id = h.message_id;
      chat_id = h.chat_id;
      sender_id = h.sender_id;
      content = h.content;
      content_type = h.content_type;
      filename = refl;
      public_key = h.public_key;
    }

signing_payload_inj_example : SaysTheSame quoted quoted × (quoted.signature ≡ quoted.signature)
signing_payload_inj_example =
    signing_payload_inj quoted quoted quoted.signature quoted.signature quoted-IsReadable
      quoted-IsReadable refl

verify_message-stray_example :
    verify_message toy_ed25519 (record hello { chat_id = 0xff ∷ codes "a" })
    ≡ verify_message toy_ed25519 (record hello { chat_id = 0xfe ∷ codes "a" })
verify_message-stray_example =
    verify_message-stray toy_ed25519 hello 0xff 0xfe (codes "a") (omega arith) (omega arith)
