-- ===== src/Examples/Hashing.antt =====
-- The theorems about hashes, Merkle trees, signatures and encryption at concrete inputs.
use decentralized_messenger.Common.{
  ℕ, ◌≡◌, refl, ◌⊎◌, true, [], ◌∷◌, ◌++◌, List, arith, Bytes, codes, length, length-replicate,
  replicate, get_or, All,
}
use decentralized_messenger.Hash.{Collision}
use decentralized_messenger.Result.{Result, ok}
use decentralized_messenger.Merkle.{ProofNode, root, proof, verify_proof}
use decentralized_messenger.Merkle.Proofs.{verify_proof-proof}
use decentralized_messenger.Merkle.Pairs.{IsHash}
use decentralized_messenger.Merkle.Binding.{HasHash, climb_texts, proof-HasHash, verify_proof_sound}
use decentralized_messenger.Merkle.Roots.{root_texts, root_inj}
use decentralized_messenger.Models.{LogEntry, SignedMessage, signing_payload}
use decentralized_messenger.Models.Chaining.{entry_texts, compute_hash_binding}
use decentralized_messenger.Models.Binding.{SaysTheSame}
use decentralized_messenger.Examples.Texts.{hello-IsReadable}
use decentralized_messenger.Crypto.Keys.{verify_message, sign_message, verify_message-sign_message}
use decentralized_messenger.Crypto.Encrypt.{
  AesGcm, Aead, IsAesGcm, encrypt, decrypt, new_gcm, decrypt-encrypt,
}
use decentralized_messenger.Examples.Node.{
  toy_sha256, toy_sha256-IsSized, toy_ed25519, toy_ed25519-IsEd25519, toy_key-IsKey, hello,
}

abbrev leaves : List Bytes
leaves = replicate 64 b'a' ∷ replicate 64 b'b' ∷ replicate 64 b'c' ∷ []

leaves-IsHash : All IsHash leaves
leaves-IsHash = (refl, (refl, (refl, tt)))

abbrev nodes : List ProofNode
nodes = (proof toy_sha256 leaves 1).0

nodes-HasHash : All HasHash nodes
nodes-HasHash = proof-HasHash toy_sha256 toy_sha256-IsSized leaves 1 (omega arith) leaves-IsHash

verify_proof-proof_example :
    verify_proof toy_sha256 (replicate 64 b'b') nodes (root toy_sha256 leaves) ≡ true
verify_proof-proof_example = verify_proof-proof toy_sha256 leaves 1 (omega arith)

verify_proof_sound_example :
    (replicate 64 b'b' ≡ get_or leaves 1 [])
    ⊎ Collision toy_sha256
        (climb_texts toy_sha256 (replicate 64 b'b') nodes)
        (climb_texts toy_sha256 (get_or leaves 1 []) nodes)
verify_proof_sound_example =
    verify_proof_sound toy_sha256 toy_sha256-IsSized leaves 1 (replicate 64 b'b') nodes
      (omega arith) leaves-IsHash refl nodes-HasHash refl verify_proof-proof_example

root_inj_example :
    (leaves ≡ leaves)
    ⊎ Collision toy_sha256 (root_texts toy_sha256 3 leaves) (root_texts toy_sha256 3 leaves)
root_inj_example =
    root_inj toy_sha256 toy_sha256-IsSized leaves leaves (omega arith) refl leaves-IsHash
      leaves-IsHash refl

abbrev first : LogEntry
first = record { sequence = 7; message = hello; prev_hash = replicate 64 b'0'; entry_hash = [] }

compute_hash_binding_example :
    ((7 ≡ first.sequence)
      × (replicate 64 b'0' ≡ first.prev_hash)
      × SaysTheSame hello hello
      × (hello.signature ≡ hello.signature))
    ⊎ Collision toy_sha256 (entry_texts toy_sha256 first) (entry_texts toy_sha256 first)
compute_hash_binding_example =
    compute_hash_binding toy_sha256 toy_sha256-IsSized first first (omega arith) (omega arith)
      hello-IsReadable hello-IsReadable refl

abbrev private_key : Bytes
private_key = replicate 64 7

private_key-IsKey : toy_ed25519-IsEd25519.IsKey private_key
private_key-IsKey = toy_key-IsKey private_key refl

verify_message-sign_message_example :
    (signed : SignedMessage) × (sign_message toy_ed25519 hello private_key ≡ ok signed)
    × (signing_payload signed ≡ signing_payload hello)
    × (verify_message toy_ed25519 signed ≡ true)
verify_message-sign_message_example =
    verify_message-sign_message toy_ed25519 toy_ed25519-IsEd25519 hello private_key
      private_key-IsKey refl

-- A cipher that hides nothing.
abbrev toy_aead : Aead
toy_aead = record { nonce_size = 12; seal = λ n p. p; open_sealed = λ n c. ok c }

abbrev toy_gcm : AesGcm
toy_gcm key = ok toy_aead

toy_open :
    (key : Bytes) (a : Aead) (nonce p : Bytes)
    → toy_gcm key ≡ ok a
    → a.open_sealed nonce (a.seal nonce p) ≡ ok p
toy_open key a nonce p made = let same : toy_aead ≡ a = cc in rw (← same) refl

toy_gcm-IsAesGcm : IsAesGcm toy_gcm
toy_gcm-IsAesGcm = record {
  accepts = λ key h. (toy_aead, refl);
  open-seal = λ key a nonce p made h. toy_open key a nonce p made;
}

abbrev zeros : ℕ → Result Bytes
zeros n = ok (replicate n 0)

zeros_fill : (n : ℕ) (nonce : Bytes) → zeros n ≡ ok nonce → length nonce ≡ n
zeros_fill n nonce e = let same : replicate n 0 ≡ nonce = cc in rw (← same) (length-replicate n 0)

decrypt-encrypt_example :
    decrypt toy_gcm (replicate 32 1) (replicate 12 0 ++ codes "hi") ≡ ok (codes "hi")
unfolding encrypt new_gcm
decrypt-encrypt_example =
    decrypt-encrypt toy_gcm toy_gcm-IsAesGcm zeros (replicate 32 1) (codes "hi")
      (replicate 12 0 ++ codes "hi") zeros_fill refl
