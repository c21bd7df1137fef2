-- ===== src/Crypto/Encrypt.antt =====
-- internal/crypto/encrypt.go.
use decentralized_messenger.Common.{
  ℕ, ◌≡◌, ◌++◌, arith, ltb, ◌==◌, if◌then◌else◌, Bytes, length, length-append, take, drop,
  take-append, drop-append, ◌∙◌,
}
use decentralized_messenger.Result.{
  Result, ok, err, invalid_key, malformed_ciphertext, ◌>>=◌, >>=-eq-ok,
}

-- `cipher.AEAD` at one key; `open_sealed` fails on what was not sealed with the key and the nonce.
pub record Aead : Type 0 where
  pub nonce_size : ℕ
  pub seal : Bytes → Bytes → Bytes
  pub open_sealed : Bytes → Bytes → Result Bytes

-- `aes.NewCipher` and `cipher.NewGCM`, from a key.
abbrev pub AesGcm : Type 0
AesGcm = Bytes → Result Aead

-- What crypto/aes and crypto/cipher document: a key of 32 bytes is accepted, and what was sealed is
-- opened with the same key and nonce.
pub record IsAesGcm (gcm : AesGcm) : Type 0 where
  pub accepts : (key : Bytes) → length key ≡ 32 → (a : Aead) × (gcm key ≡ ok a)
  pub open-seal :
      (key : Bytes) (a : Aead) (nonce plaintext : Bytes)
      → gcm key ≡ ok a
      → length nonce ≡ a.nonce_size
      → a.open_sealed nonce (a.seal nonce plaintext) ≡ ok plaintext

abbrev pub content_key_size : ℕ
content_key_size = 32

-- `NewContentKey`: `random` is what `rand.Read` does with a buffer of a given size.
unfoldable pub new_content_key : (ℕ → Result Bytes) → Result Bytes
new_content_key random = random content_key_size

module _ (aes_gcm : AesGcm) where
  unfoldable pub new_gcm : Bytes → Result Aead
  new_gcm key = if length key == content_key_size then aes_gcm key else err invalid_key

  -- `random` is what `io.ReadFull(rand.Reader, nonce)` does with a buffer of a given size.
  unfoldable pub encrypt : (ℕ → Result Bytes) → Bytes → Bytes → Result Bytes
  encrypt random key plaintext = do
    gcm ← new_gcm key
    nonce ← random gcm.nonce_size
    ok (nonce ++ gcm.seal nonce plaintext)

  -- `Decrypt` behind `newGCM`: the blob is cut into nonce and ciphertext.
  unfoldable pub open_blob : Aead → Bytes → Result Bytes
  open_blob gcm blob =
      if ltb (length blob) gcm.nonce_size
      then err malformed_ciphertext
      else gcm.open_sealed (take gcm.nonce_size blob) (drop gcm.nonce_size blob)

  unfoldable pub decrypt : Bytes → Bytes → Result Bytes
  decrypt key blob = do gcm ← new_gcm key; open_blob gcm blob

  new_gcm-ok : (key : Bytes) (a : Aead) → new_gcm key ≡ ok a → aes_gcm key ≡ ok a
  unfolding new_gcm
  new_gcm-ok key a e = ground arith

  open_blob-append :
      (a : Aead) (nonce ciphertext : Bytes)
      → length nonce ≡ a.nonce_size
      → open_blob a (nonce ++ ciphertext) ≡ a.open_sealed nonce ciphertext
  unfolding open_blob
  open_blob-append a nonce ciphertext h =
      rw (← h, take-append nonce ciphertext, drop-append nonce ciphertext)
        (ground (arith, length-append nonce ciphertext))

  module _ (laws : IsAesGcm aes_gcm) where
    -- What Encrypt makes with a key, Decrypt with that key turns back into the plaintext, for a
    -- source of nonces that returns as many bytes as it is asked for. AES-GCM keeps its documented
    -- laws.
    pub decrypt-encrypt :
        (random : ℕ → Result Bytes) (key plaintext blob : Bytes)
        → ((n : ℕ) (nonce : Bytes) → random n ≡ ok nonce → length nonce ≡ n)
        → encrypt random key plaintext ≡ ok blob
        → decrypt key blob ≡ ok plaintext
    unfolding encrypt decrypt
    decrypt-encrypt random key plaintext blob fills e =
        let (a, made, rest) = >>=-eq-ok (new_gcm key) _ e in
        let (nonce, drawn, sealed) = >>=-eq-ok (random a.nonce_size) _ rest in
        let size = fills a.nonce_size nonce drawn in
        let same : nonce ++ a.seal nonce plaintext ≡ blob = cc in
        rw (made, ← same)
          (open_blob-append a nonce (a.seal nonce plaintext) size
            ∙ laws.open-seal key a nonce plaintext (new_gcm-ok key a made) size)
