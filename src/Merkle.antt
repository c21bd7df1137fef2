-- ===== src/Merkle.antt =====
-- internal/merkle/tree.go: Merkle roots and inclusion proofs over entry hashes. The loops recur on
-- fuel, the number of leaves. A layer is read with a default for an index past its end, where Go
-- would panic.
pub mod Layers
pub mod Proofs
pub mod Pairs
pub mod Binding
pub mod Roots
pub mod Ascii
use decentralized_messenger.Common.{
  ℕ, zero, suc, ◌+◌, ◌-◌, ◌/◌, ◌%◌, Bool, true, false, List, [], ◌∷◌, ◌++◌, ltb, leb, ◌==◌,
  if◌then◌else◌, Bytes, bytes_eq, length, get_or,
}
use decentralized_messenger.Codec.Hex.{hex_encode}

-- One step of an inclusion proof: a sibling's hash, and on which side it stands.
pub record ProofNode : Type 0 where
  pub hash : Bytes
  pub is_left : Bool

-- `if len(layer)%2 == 1 { layer = append(layer, layer[len(layer)-1]) }`
pub pad_odd : List Bytes → List Bytes
pad_odd layer =
    if length layer % 2 == 1 then layer ++ get_or layer (length layer - 1) [] ∷ [] else layer

module _ (sha256 : Bytes → Bytes) where
  unfoldable pub hash_pair : Bytes → Bytes → Bytes
  hash_pair left right = hex_encode (sha256 (left ++ right))

  -- `for i := 0; i < len(layer); i += 2`, over a layer of even length.
  pub pair_up : List Bytes → List Bytes
  pair_up [] = []
  pair_up (a ∷ []) = []
  pair_up (a ∷ b ∷ layer) = hash_pair a b ∷ pair_up layer

  -- `for len(layer) > 1` of `Root`.
  pub root_loop : ℕ → List Bytes → List Bytes
  root_loop zero layer = layer
  root_loop (suc fuel) layer = elim (ltb 1 (length layer)) [
    | true ↦ root_loop fuel (pair_up (pad_odd layer))
    | false ↦ layer
  ]

  unfoldable pub root : List Bytes → Bytes
  unfolding root_loop
  root leaves = if length leaves == 0 then [] else get_or (root_loop (length leaves) leaves) 0 []

  -- The sibling of a node in a padded layer.
  pub sibling : List Bytes → ℕ → ProofNode
  sibling layer idx =
      if idx % 2 == 0
      then record { hash = get_or layer (idx + 1) []; is_left = false }
      else record { hash = get_or layer (idx - 1) []; is_left = true }

  -- `for len(layer) > 1` of `Proof`: the proof so far, and the last layer.
  pub proof_loop : ℕ → List Bytes → ℕ → List ProofNode → List ProofNode × List Bytes
  proof_loop zero layer idx proof = (proof, layer)
  proof_loop (suc fuel) layer idx proof = elim (ltb 1 (length layer)) [
    | true ↦
        proof_loop fuel (pair_up (pad_odd layer)) (idx / 2)
          (proof ++ sibling (pad_odd layer) idx ∷ [])
    | false ↦ (proof, layer)
  ]

  -- An index is refused as out of range from the number of leaves on; a negative `int` does not
  -- arise here, since indices are numbers.
  unfoldable pub proof : List Bytes → ℕ → List ProofNode × Bytes
  unfolding proof_loop
  proof leaves index =
      if leb (length leaves) index
      then ([], [])
      else (let (nodes, layer) = proof_loop (length leaves) leaves index [] in
          (nodes, get_or layer 0 []))

  -- The loop of `VerifyProof`: the running hash after all nodes.
  unfoldable pub climb : Bytes → List ProofNode → Bytes
  climb running [] = running
  climb running (node ∷ nodes) =
      climb (if node.is_left then hash_pair node.hash running else hash_pair running node.hash)
        nodes

  unfoldable pub verify_proof : Bytes → List ProofNode → Bytes → Bool
  unfolding climb
  verify_proof leaf nodes expected = bytes_eq (climb leaf nodes) expected
