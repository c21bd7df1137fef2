-- ===== src/Crypto/ChatIds.antt =====
-- What the signature of a message says of its chat, for `VerifyMessage` of internal/crypto/keys.go. The
-- chat comes from the path of a request, where it may be any bytes.
use decentralized_messenger.Common.{ℕ, ◌≤◌, ◌≡◌, refl, ◌∷◌, Bytes}
use decentralized_messenger.Models.{SignedMessage}
use decentralized_messenger.Models.Binding.{signing_payload-stray}
use decentralized_messenger.Crypto.Keys.{Ed25519, verify_message}

module _ (ed : Ed25519) where
  -- VerifyMessage accepts a message for a chat exactly when it accepts it for each chat whose
  -- identifier differs from the first only in its first byte, where both of these bytes begin no
  -- character of UTF-8: they are 245 or more.
  pub verify_message-stray :
      (m : SignedMessage) (a b : ℕ) (s : Bytes)
      → 245 ≤ a
      → 245 ≤ b
      → verify_message ed (record m { chat_id = a ∷ s })
        ≡ verify_message ed (record m { chat_id = b ∷ s })
  unfolding verify_message
  verify_message-stray m a b s ha hb = rw (signing_payload-stray m a b s ha hb) refl
