-- ===== src/Models/Chaining.antt =====
-- What an entry hash of internal/models/message.go commits to.
use decentralized_messenger.Common.{
  ℕ, ◌<◌, ◌≡◌, refl, sym, ap, ◌∙◌, ◌⊎◌, inl, inr, List, [], ◌∷◌, ◌++◌, arith, Bytes, length,
  length-append, append_inj, All,
}
use decentralized_messenger.Codec.Decimal.{
  u64, IsDigit, format_uint, format_uint-digits, format_uint_inj,
}
use decentralized_messenger.Codec.Hex.{hex_encode, length-hex_encode}
use decentralized_messenger.Hash.{
  IsSized, Collision, Collision-append_left, Collision-append_right, eq-or-Collision,
}
use decentralized_messenger.Models.Binding.{IsReadable, SaysTheSame, signing_payload_inj}
use decentralized_messenger.Models.{LogEntry, signing_payload, chained, compute_hash}

-- Digits end at the first colon.
split_at_colon :
    (s t x y : Bytes)
    → All IsDigit s
    → All IsDigit t
    → s ++ b':' ∷ x ≡ t ++ b':' ∷ y
    → (s ≡ t) × (x ≡ y)
split_at_colon [] [] x y hs ht e = (refl, cc)
split_at_colon [] (d ∷ t) x y hs (hd, ht) e = let c : b':' ≡ d = cc in absurd (omega arith)
split_at_colon (c ∷ s) [] x y (hc, hs) ht e = let c' : c ≡ b':' = cc in absurd (omega arith)
split_at_colon (c ∷ s) (d ∷ t) x y (hc, hs) (hd, ht) e =
    let (same, rest) = split_at_colon s t x y hs ht (cc) in (cc same, rest)

-- Two texts with equally long ends.
pub append_inj_end : (s t x y : Bytes) → length x ≡ length y → s ++ x ≡ t ++ y → (s ≡ t) × (x ≡ y)
append_inj_end s t x y h e =
    append_inj s t x y (omega (arith, ap length e, length-append s x, length-append t y)) e

-- The hashed text determines its three parts.
chained_inj :
    (i j : ℕ) (p q d d' : Bytes)
    → i < u64
    → j < u64
    → length d ≡ length d'
    → chained i p d ≡ chained j q d'
    → (i ≡ j) × (p ≡ q) × (hex_encode d ≡ hex_encode d')
unfolding chained
chained_inj i j p q d d' hi hj h e =
    let (same, rest) =
      split_at_colon (format_uint i) (format_uint j) _ _ (format_uint-digits i)
        (format_uint-digits j) e in
    let (prev, digest) =
      append_inj_end p q (b':' ∷ hex_encode d) (b':' ∷ hex_encode d')
        (omega (arith, length-hex_encode d, length-hex_encode d')) rest in
    (format_uint_inj i j hi hj same, prev, cc digest)

-- The texts that `ComputeHash` hashes: the signed text with the signature, and the chained text.
abbrev pub entry_texts : (Bytes → Bytes) → LogEntry → List Bytes
entry_texts sha256 e =
    let text = signing_payload e.message ++ e.message.signature in
    text ∷ chained e.sequence e.prev_hash (sha256 text) ∷ []

module _ (sha256 : Bytes → Bytes) (sized : IsSized sha256) where
  -- Two entries with one hash have one sequence number, one previous hash and one signed text.
  pub compute_hash_inj :
      (e f : LogEntry)
      → e.sequence < u64
      → f.sequence < u64
      → compute_hash sha256 e ≡ compute_hash sha256 f
      → ((e.sequence ≡ f.sequence)
          × (e.prev_hash ≡ f.prev_hash)
          × (signing_payload e.message ++ e.message.signature
              ≡ signing_payload f.message ++ f.message.signature))
        ⊎ Collision sha256 (entry_texts sha256 e) (entry_texts sha256 f)
  unfolding compute_hash
  compute_hash_inj e f he hf same =
      let text = λ (x : LogEntry). signing_payload x.message ++ x.message.signature in
      elim (eq-or-Collision sha256 sized _ _ same) [
        | inr found ↦ inr (Collision-append_right (text e ∷ []) (text f ∷ []) found)
        | inl chain ↦
            let (seq, prev, digest) =
              chained_inj e.sequence f.sequence e.prev_hash f.prev_hash (sha256 (text e))
                (sha256 (text f)) he hf (sized.size (text e) ∙ sym (sized.size (text f))) chain in
            elim (eq-or-Collision sha256 sized (text e) (text f) digest) [
              | inr found ↦ inr (Collision-append_left (_ ∷ []) (_ ∷ []) found)
              | inl message ↦ inl (seq, prev, message)
            ]
      ]

  -- Two entries with one hash have one sequence number and one previous hash, their messages agree
  -- on every signed field, the time up to its text, and on the signature, or one of the two texts
  -- hashed for the first entry and a different one hashed for the second have one SHA-256 digest.
  -- The sequence numbers are of 64 bits. The messages have valid UTF-8, bytes and an int as their
  -- version. Digests are of 32 bytes.
  pub compute_hash_binding :
      (e f : LogEntry)
      → e.sequence < u64
      → f.sequence < u64
      → IsReadable e.message
      → IsReadable f.message
      → compute_hash sha256 e ≡ compute_hash sha256 f
      → ((e.sequence ≡ f.sequence)
          × (e.prev_hash ≡ f.prev_hash)
          × SaysTheSame e.message f.message
          × (e.message.signature ≡ f.message.signature))
        ⊎ Collision sha256 (entry_texts sha256 e) (entry_texts sha256 f)
  compute_hash_binding e f he hf re rf same = elim (compute_hash_inj e f he hf same) [
    | inr found ↦ inr found
    | inl (seq, prev, text) ↦
        let (message, signature) =
          signing_payload_inj e.message f.message e.message.signature f.message.signature re rf
            text in
        inl (seq, prev, message, signature)
  ]
