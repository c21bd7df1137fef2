-- ===== src/Crypto/Keys.antt =====
-- internal/crypto/keys.go.
use decentralized_messenger.Common.{
  ◌≡◌, refl, Bool, true, false, arith, ◌==◌, if◌then◌else◌, Bytes, length,
}
use decentralized_messenger.Result.{Result, ok, err, panic, ◌>>=◌}
use decentralized_messenger.Models.{SignedMessage, signing_payload, payload_fields}

-- crypto/ed25519.
pub record Ed25519 : Type 0 where
  -- the public key that belongs to a private key
  pub public : Bytes → Bytes
  pub sign_data : Bytes → Bytes → Bytes
  -- public key, data, signature
  pub verify_data : Bytes → Bytes → Bytes → Bool

-- What crypto/ed25519 documents of the private keys that its generator draws, which the package
-- alone can tell: the sizes of keys and signatures, and that a signature made with a private key is
-- valid under its public key.
pub record IsEd25519 (ed : Ed25519) : Type 1 where
  pub IsKey : Bytes → Type 0
  pub length-private : (k : Bytes) → IsKey k → length k ≡ 64
  pub length-public : (k : Bytes) → IsKey k → length (ed.public k) ≡ 32
  pub length-sign_data : (k d : Bytes) → IsKey k → length (ed.sign_data k d) ≡ 64
  pub verify_data-sign_data :
      (k d : Bytes) → IsKey k → ed.verify_data (ed.public k) d (ed.sign_data k d) ≡ true

module _ (ed : Ed25519) where
  -- The private key that `ed25519.GenerateKey` draws, or its error, is an argument.
  unfoldable pub generate_key_pair : Result Bytes → Result (Bytes × Bytes)
  generate_key_pair (err e) = err e
  generate_key_pair (ok private_key) = ok (private_key, ed.public private_key)

  -- `ed25519.Sign` panics on a private key that does not have 64 bytes.
  unfoldable pub sign : Bytes → Bytes → Result Bytes
  sign private_key d =
      if length private_key == 64 then ok (ed.sign_data private_key d) else err panic

  -- `ed25519.PublicKeySize` is 32.
  unfoldable pub verify : Bytes → Bytes → Bytes → Bool
  verify public_key d signature =
      if length public_key == 32 then ed.verify_data public_key d signature else false

  unfoldable pub sign_message : SignedMessage → Bytes → Result SignedMessage
  sign_message msg private_key = do
    signature ← sign private_key (signing_payload msg)
    ok (record msg { signature = signature })

  unfoldable pub verify_message : SignedMessage → Bool
  verify_message msg =
      if length msg.signature == 0
      then false
      else verify msg.public_key (signing_payload msg) msg.signature

  -- A message with the signature of a private key.
  abbrev pub signed_by : SignedMessage → Bytes → SignedMessage
  signed_by msg k = record msg { signature = ed.sign_data k (signing_payload msg) }

  pub sign_message-ok :
      (msg : SignedMessage) (k : Bytes) → length k ≡ 64 → sign_message msg k ≡ ok (signed_by msg k)
  unfolding sign_message sign
  sign_message-ok msg k h = rw h refl

  -- On a private key of another size `SignMessage` panics.
  sign_message-panic :
      (msg : SignedMessage) (k : Bytes) → (length k == 64) ≡ false → sign_message msg k ≡ err panic
  unfolding sign_message sign
  sign_message-panic msg k h = rw h refl

  -- The payload does not depend on the signature.
  signing_payload-signed_by :
      (msg : SignedMessage) (k : Bytes) → signing_payload (signed_by msg k) ≡ signing_payload msg
  unfolding signing_payload payload_fields
  signing_payload-signed_by msg k = refl

  module _ (laws : IsEd25519 ed) where
    -- A message that SignMessage signs with the private key behind its public key is accepted by
    -- VerifyMessage, and SignMessage does not panic on that key and changes nothing that is
    -- signed. The private key is one that the generator of Ed25519 draws. Ed25519 keeps its
    -- documented laws.
    pub verify_message-sign_message :
        (msg : SignedMessage) (private_key : Bytes)
        → laws.IsKey private_key
        → msg.public_key ≡ ed.public private_key
        → (signed : SignedMessage) × (sign_message msg private_key ≡ ok signed)
          × (signing_payload signed ≡ signing_payload msg)
          × (verify_message signed ≡ true)
    unfolding verify_message verify
    verify_message-sign_message msg k key own = (
      signed_by msg k,
      sign_message-ok msg k (laws.length-private k key),
      signing_payload-signed_by msg k,
      ground (
        arith,
        laws.length-public k key,
        laws.length-sign_data k (signing_payload msg) key,
        laws.verify_data-sign_data k (signing_payload msg) key,
        signing_payload-signed_by msg k,
      ),
    )

    -- A private key of the generator gives signatures that `VerifyMessage` accepts.
    pub verify_message-signed_by :
        (msg : SignedMessage) (k : Bytes)
        → laws.IsKey k
        → msg.public_key ≡ ed.public k
        → verify_message (signed_by msg k) ≡ true
    verify_message-signed_by msg k key own =
        let (signed, done, _, valid) = verify_message-sign_message msg k key own in
        let made = sign_message-ok msg k (laws.length-private k key) in
        let same : signed ≡ signed_by msg k = cc in (rw same at valid)
