-- ===== src/Merkle/Binding.antt =====
-- What an inclusion proof of internal/merkle/tree.go shows.
use decentralized_messenger.Common.{
  ℕ, zero, suc, ◌+◌, ◌-◌, ◌/◌, ◌%◌, ◌<◌, ◌≡◌, sym, ◌∙◌, ◌⊎◌, Bool, true, false, List, [], ◌∷◌, ◌++◌,
  map, inl, inr, ltb, ◌==◌, if◌then◌else◌, arith, Bool-cases, Bytes, bytes_eq_iff, length, get_or,
  All, All-append,
}
use decentralized_messenger.Hash.{IsSized, Collision, Collision-append_left, Collision-append_right}
use decentralized_messenger.Merkle.{
  pad_odd, hash_pair, pair_up, proof_loop, sibling, ProofNode, climb, root, proof, verify_proof,
}
use decentralized_messenger.Merkle.Pairs.{
  IsHash, hash_pair-IsHash, hash_pair_inj, get_or-IsHash, pad_odd-IsHash, pair_up-IsHash,
}
use decentralized_messenger.Merkle.Layers.{sibling_in_range, length-next}
use decentralized_messenger.Merkle.Proofs.{verify_proof-proof}

abbrev pub HasHash : ProofNode → Type 0
HasHash node = IsHash node.hash

abbrev pub sides : List ProofNode → List Bool
sides = map (λ node. node.is_left)

-- The text that is hashed at a step of a climb.
abbrev pub step_text : Bool → Bytes → Bytes → Bytes
step_text side h running = if side then h ++ running else running ++ h

module _ (sha256 : Bytes → Bytes) where
  -- The texts that `VerifyProof` hashes.
  abbrev pub climb_texts : Bytes → List ProofNode → List Bytes
  climb_texts running [] = []
  climb_texts running (node ∷ nodes) =
      step_text node.is_left node.hash running
      ∷ climb_texts
          (if node.is_left
            then hash_pair sha256 node.hash running
            else hash_pair sha256 running node.hash)
          nodes

module _ (sha256 : Bytes → Bytes) (sized : IsSized sha256) where
  step-IsHash :
      (side : Bool) (a h : Bytes)
      → IsHash (if side then hash_pair sha256 h a else hash_pair sha256 a h)
  step-IsHash true a h = hash_pair-IsHash sha256 sized h a
  step-IsHash false a h = hash_pair-IsHash sha256 sized a h

  -- One step of a climb, with the siblings on the same side.
  step_inj :
      (side side' : Bool) (a b h h' : Bytes)
      → side ≡ side'
      → IsHash a
      → IsHash b
      → IsHash h
      → IsHash h'
      → (if side then hash_pair sha256 h a else hash_pair sha256 a h)
        ≡ (if side' then hash_pair sha256 h' b else hash_pair sha256 b h')
      → (a ≡ b) ⊎ Collision sha256 (step_text side h a ∷ []) (step_text side' h' b ∷ [])
  step_inj true true a b h h' s ha hb hh hh' e =
      elim (hash_pair_inj sha256 sized h a h' b hh hh' e) [
        | inl (_, same) ↦ inl same
        | inr found ↦ inr found
      ]
  step_inj false false a b h h' s ha hb hh hh' e =
      elim (hash_pair_inj sha256 sized a h b h' ha hb e) [
        | inl (same, _) ↦ inl same
        | inr found ↦ inr found
      ]
  step_inj true false a b h h' s ha hb hh hh' e = absurd (cc)
  step_inj false true a b h h' s ha hb hh hh' e = absurd (cc)

  -- Two climbs with siblings on the same sides that end alike begin alike.
  climb_inj :
      (p q : List ProofNode) (a b : Bytes)
      → sides p ≡ sides q
      → IsHash a
      → IsHash b
      → All HasHash p
      → All HasHash q
      → climb sha256 a p ≡ climb sha256 b q
      → (a ≡ b) ⊎ Collision sha256 (climb_texts sha256 a p) (climb_texts sha256 b q)
  unfolding climb
  climb_inj [] [] a b s ha hb hp hq e = inl e
  climb_inj [] (m ∷ q) a b s ha hb hp hq e = absurd (cc)
  climb_inj (n ∷ p) [] a b s ha hb hp hq e = absurd (cc)
  climb_inj (n ∷ p) (m ∷ q) a b s ha hb (hn, hp) (hm, hq) e =
      elim (climb_inj p q _ _ (cc) (step-IsHash n.is_left a n.hash) (step-IsHash m.is_left b m.hash)
        hp hq e) [
          | inl same ↦ elim (step_inj n.is_left m.is_left a b n.hash m.hash (cc) ha hb hn hm same) [
            | inl begun ↦ inl begun
            | inr found ↦ inr (Collision-append_left _ _ found)
          ]
          | inr found ↦ inr (Collision-append_right (_ ∷ []) (_ ∷ []) found)
        ]

  sibling-HasHash :
      (l : List Bytes) (i : ℕ)
      → i < length l
      → All IsHash l
      → HasHash (sibling sha256 (pad_odd l) i)
  unfolding sibling
  sibling-HasHash l i h hl = elim (Bool-cases (i % 2 == 0)) [
    | inl even ↦ rw even (
        get_or-IsHash (pad_odd l) (i + 1) (ground (arith, sibling_in_range l i h))
          (pad_odd-IsHash l hl))
    | inr odd ↦ rw odd (
        get_or-IsHash (pad_odd l) (i - 1) (omega (arith, sibling_in_range l i h))
          (pad_odd-IsHash l hl))
  ]

  proof_loop-HasHash :
      (fuel : ℕ) (l : List Bytes) (i : ℕ) (acc : List ProofNode)
      → i < length l
      → All IsHash l
      → All HasHash acc
      → All HasHash (proof_loop sha256 fuel l i acc).0
  unfolding proof_loop
  proof_loop-HasHash zero l i acc h hl ha = ha
  proof_loop-HasHash (suc fuel) l i acc h hl ha = elim (Bool-cases (ltb 1 (length l))) [
    | inl more ↦
        rw (more, proof_loop)
          (proof_loop-HasHash fuel (pair_up sha256 (pad_odd l)) (i / 2) _
            (omega (arith, length-next sha256 l)) (pair_up-IsHash sha256 sized (pad_odd l))
            (All-append HasHash acc _ ha (sibling-HasHash l i h hl, tt)))
    | inr done ↦ rw (done, proof_loop) ha
  ]

  pub proof-HasHash :
      (leaves : List Bytes) (i : ℕ)
      → i < length leaves
      → All IsHash leaves
      → All HasHash (proof sha256 leaves i).0
  unfolding proof
  proof-HasHash leaves i h hl =
      ground (arith, proof_loop-HasHash (length leaves) leaves i [] h hl tt)

  -- Against the root of some leaves, with siblings on the sides that the proof for a position has,
  -- VerifyProof accepts only the leaf at that position, or one of the texts hashed on the way and
  -- a different one of the texts hashed for the leaf there have one SHA-256 digest. All hashes
  -- have 64 digits. Digests are of 32 bytes.
  pub verify_proof_sound :
      (leaves : List Bytes) (i : ℕ) (x : Bytes) (q : List ProofNode)
      → i < length leaves
      → All IsHash leaves
      → IsHash x
      → All HasHash q
      → sides q ≡ sides (proof sha256 leaves i).0
      → verify_proof sha256 x q (root sha256 leaves) ≡ true
      → (x ≡ get_or leaves i [])
        ⊎ Collision sha256
            (climb_texts sha256 x q)
            (climb_texts sha256 (get_or leaves i []) (proof sha256 leaves i).0)
  unfolding verify_proof
  verify_proof_sound leaves i x q h hl hx hq s ok =
      climb_inj q (proof sha256 leaves i).0 x (get_or leaves i []) s hx
        (get_or-IsHash leaves i h hl) hq (proof-HasHash leaves i h hl)
        ((bytes_eq_iff _ _).0 ok
          ∙ sym ((bytes_eq_iff _ _).0 (verify_proof-proof sha256 leaves i h)))
