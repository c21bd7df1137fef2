-- ===== src/Crypto.antt =====
-- internal/crypto: signatures on messages, and the encryption of their content. Ed25519 and AES-GCM
-- are libraries: their functions are arguments, with what they document as records of laws.
pub mod Keys
pub mod ChatIds
pub mod Encrypt
