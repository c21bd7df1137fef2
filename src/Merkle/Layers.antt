-- ===== src/Merkle/Layers.antt =====
-- Layers of a Merkle tree: their sizes and their elements.
use native.Mathlib.Omega.{arith}
use decentralized_messenger.Common.{
  ℕ, zero, suc, ◌+◌, ◌-◌, ◌*◌, ◌/◌, ◌≤◌, ◌<◌, ◌≡◌, refl, List, [], ◌∷◌, ◌++◌, Bytes, length,
  length-append, get_or,
}
use decentralized_messenger.Merkle.{
  pad_odd, hash_pair, pair_up, root_loop, proof_loop, sibling, ProofNode,
}

pub length-pad_odd : (l : List Bytes) → length (pad_odd l) ≡ 2 * ((length l + 1) / 2)
unfolding pad_odd
length-pad_odd l = ground (arith, length-append l (get_or l (length l - 1) [] ∷ []))

pub get_or-append_left :
    (l m : List Bytes) (i : ℕ) → i < length l → get_or (l ++ m) i [] ≡ get_or l i []
get_or-append_left [] m i h = absurd (omega arith)
get_or-append_left (x ∷ l) m zero h = refl
get_or-append_left (x ∷ l) m (suc i) h = get_or-append_left l m i (omega arith)

pub get_or-pad_odd :
    (l : List Bytes) (i : ℕ) → i < length l → get_or (pad_odd l) i [] ≡ get_or l i []
unfolding pad_odd
get_or-pad_odd l i h = ground (arith, get_or-append_left l (get_or l (length l - 1) [] ∷ []) i)

-- A node of a layer and its sibling stand at `2 * (i / 2)` and the index after it, both in range.
pub sibling_in_range :
    (l : List Bytes) (i : ℕ) → i < length l → 2 * (i / 2) + 1 < length (pad_odd l)
sibling_in_range l i h = omega (arith, length-pad_odd l)

module _ (sha256 : Bytes → Bytes) where
  pub length-pair_up : (l : List Bytes) → length (pair_up sha256 l) ≡ length l / 2
  unfolding pair_up
  length-pair_up [] = omega arith
  length-pair_up (a ∷ []) = omega arith
  length-pair_up (a ∷ b ∷ l) = omega (arith, length-pair_up l)

  -- A node of the next layer is the hash of the two below it.
  pub get_or-pair_up :
      (l : List Bytes) (k : ℕ)
      → 2 * k + 1 < length l
      → get_or (pair_up sha256 l) k []
        ≡ hash_pair sha256 (get_or l (2 * k) []) (get_or l (2 * k + 1) [])
  unfolding pair_up
  get_or-pair_up [] k h = absurd (omega arith)
  get_or-pair_up (a ∷ []) k h = absurd (omega arith)
  get_or-pair_up (a ∷ b ∷ l) zero h = refl
  get_or-pair_up (a ∷ b ∷ l) (suc k) h =
      let even : 2 * suc k ≡ suc (suc (2 * k)) = omega arith in
      let odd : suc (suc (2 * k)) + 1 ≡ suc (suc (2 * k + 1)) = omega arith in
      rw even (rw odd (get_or-pair_up l k (omega arith)))

  pub length-next : (l : List Bytes) → length (pair_up sha256 (pad_odd l)) ≡ (length l + 1) / 2
  length-next l = omega (arith, length-pair_up (pad_odd l), length-pad_odd l)

  -- With as much fuel as there are leaves, at least one, the loop of Root ends at a layer of one
  -- node.
  pub length-root_loop :
      (fuel : ℕ) (l : List Bytes)
      → 0 < length l
      → length l ≤ fuel
      → length (root_loop sha256 fuel l) ≡ 1
  unfolding root_loop
  length-root_loop zero l pos h = absurd (omega arith)
  length-root_loop (suc fuel) l pos h =
      ground (arith, length-next l, length-root_loop fuel (pair_up sha256 (pad_odd l)))

  -- `Proof` walks the layers that `Root` walks.
  pub proof_loop-layer :
      (fuel : ℕ) (l : List Bytes) (i : ℕ) (acc : List ProofNode)
      → (proof_loop sha256 fuel l i acc).1 ≡ root_loop sha256 fuel l
  unfolding proof_loop root_loop
  proof_loop-layer zero l i acc = refl
  proof_loop-layer (suc fuel) l i acc = ground (
    arith,
    proof_loop-layer fuel (pair_up sha256 (pad_odd l)) (i / 2)
        (acc ++ sibling sha256 (pad_odd l) i ∷ []),
  )
