-- ===== src/Merkle/Proofs.antt =====
-- `Proof` against `Root` and `VerifyProof` of internal/merkle/tree.go.
use decentralized_messenger.Common.{
  ℕ, zero, suc, ◌+◌, ◌-◌, ◌*◌, ◌/◌, ◌%◌, ◌≤◌, ◌<◌, ◌≡◌, refl, ap, ◌∙◌, true, List, [], ◌∷◌, ◌++◌,
  inl, inr, ltb, ◌==◌, ==_iff, if◌then◌else◌, arith, Bool-cases, Bytes, bytes_eq_refl, length,
  get_or,
}
use decentralized_messenger.Merkle.{
  pad_odd, hash_pair, pair_up, root_loop, proof_loop, sibling, ProofNode, climb, root, proof,
  verify_proof,
}
use decentralized_messenger.Merkle.Layers.{
  sibling_in_range, get_or-pad_odd, get_or-pair_up, length-next, proof_loop-layer,
}

module _ (sha256 : Bytes → Bytes) where
  -- One node of a proof applied to the running hash.
  abbrev step : Bytes → ProofNode → Bytes
  step running node =
      if node.is_left
      then hash_pair sha256 node.hash running
      else hash_pair sha256 running node.hash

  climb-concat :
      (x : Bytes) (acc : List ProofNode) (node : ProofNode)
      → climb sha256 x (acc ++ node ∷ []) ≡ step (climb sha256 x acc) node
  unfolding climb
  climb-concat x [] node = refl
  climb-concat x (n ∷ acc) node = climb-concat (step x n) acc node

  -- A node and its sibling give the node above them.
  step-sibling :
      (l : List Bytes) (i : ℕ)
      → i < length l
      → step (get_or l i []) (sibling sha256 (pad_odd l) i)
        ≡ get_or (pair_up sha256 (pad_odd l)) (i / 2) []
  unfolding sibling
  step-sibling l i h =
      let above = get_or-pair_up sha256 (pad_odd l) (i / 2) (sibling_in_range l i h) in
      elim (Bool-cases (i % 2 == 0)) [
        | inl even ↦
            let e : 2 * (i / 2) ≡ i = omega (arith, (==_iff (i % 2) 0).0 even) in
            rw (even, above, e, get_or-pad_odd l i h) refl
        | inr odd ↦
            let e : 2 * (i / 2) ≡ i - 1 = ground arith in
            let e' : i - 1 + 1 ≡ i = ground arith in
            rw (odd, above, e, e', get_or-pad_odd l i h) refl
      ]

  -- The climb through the loop's proof ends at the node that the loop's layers end at.
  climb-proof_loop :
      (fuel : ℕ) (l : List Bytes) (i : ℕ) (acc : List ProofNode) (x : Bytes)
      → i < length l
      → length l ≤ fuel
      → climb sha256 x acc ≡ get_or l i []
      → climb sha256 x (proof_loop sha256 fuel l i acc).0 ≡ get_or (root_loop sha256 fuel l) 0 []
  unfolding proof_loop root_loop
  climb-proof_loop zero l i acc x lt h e = absurd (omega arith)
  climb-proof_loop (suc fuel) l i acc x lt h e = elim (Bool-cases (ltb 1 (length l))) [
    | inl more ↦
        rw (more, proof_loop, root_loop)
          (climb-proof_loop fuel (pair_up sha256 (pad_odd l)) (i / 2)
            (acc ++ sibling sha256 (pad_odd l) i ∷ []) x (omega (arith, length-next sha256 l))
            (ground (arith, length-next sha256 l))
            (climb-concat x acc _
              ∙ ap (λ r. step r (sibling sha256 (pad_odd l) i)) e
              ∙ step-sibling l i lt))
    | inr done ↦
        let i0 : i ≡ 0 = ground arith in
        rw (done, proof_loop, root_loop) (e ∙ ap (λ k. get_or l k []) i0)
  ]

  -- For an index in range, Proof returns the root that Root returns for the leaves.
  pub proof-root :
      (leaves : List Bytes) (i : ℕ)
      → i < length leaves
      → (proof sha256 leaves i).1 ≡ root sha256 leaves
  unfolding proof root
  proof-root leaves i h = ground (arith, proof_loop-layer sha256 (length leaves) leaves i [])

  -- For an index in range, VerifyProof accepts the proof that Proof returns, for its leaf and the
  -- root of the leaves.
  pub verify_proof-proof :
      (leaves : List Bytes) (i : ℕ)
      → i < length leaves
      → verify_proof sha256 (get_or leaves i []) (proof sha256 leaves i).0 (root sha256 leaves)
        ≡ true
  unfolding proof verify_proof root climb
  verify_proof-proof leaves i h = ground (
    arith,
    climb-proof_loop (length leaves) leaves i [] (get_or leaves i []) h,
    bytes_eq_refl (get_or (root_loop sha256 (length leaves) leaves) 0 []),
  )
