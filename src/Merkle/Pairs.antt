-- ===== src/Merkle/Pairs.antt =====
-- Layers of hashes of internal/merkle/tree.go: hashes are 64 hexadecimal digits, so that the two
-- halves of a hashed pair can be told apart.
use decentralized_messenger.Common.{
  ℕ, zero, suc, ◌-◌, ◌%◌, ◌<◌, ◌≡◌, refl, sym, ◌∙◌, ◌⊎◌, true, false, List, [], ◌∷◌, ◌++◌, inl, inr,
  ◌==◌, arith, Bool-cases, Bytes, length, append_inj, get_or, All, All-append,
}
use decentralized_messenger.Hash.{
  IsSized, Collision, Collision-append_left, Collision-append_right, length-hex_digest,
  eq-or-Collision,
}
use decentralized_messenger.Merkle.{pad_odd, hash_pair, pair_up}

-- The length of a hash in hexadecimal.
abbrev pub IsHash : Bytes → Type 0
IsHash h = length h ≡ 64

pub get_or-IsHash : (l : List Bytes) (i : ℕ) → i < length l → All IsHash l → IsHash (get_or l i [])
get_or-IsHash [] i h hl = absurd (omega arith)
get_or-IsHash (x ∷ l) zero h (hx, hl) = hx
get_or-IsHash (x ∷ l) (suc i) h (hx, hl) = get_or-IsHash l i (omega arith) hl

pub pad_odd-IsHash : (l : List Bytes) → All IsHash l → All IsHash (pad_odd l)
unfolding pad_odd
pad_odd-IsHash l hl = elim (Bool-cases (length l % 2 == 1)) [
  | inl odd ↦
      rw odd (All-append IsHash l _ hl (get_or-IsHash l (length l - 1) (ground arith) hl, tt))
  | inr even ↦ rw even hl
]

pub pad_odd_inj : (l m : List Bytes) → length l ≡ length m → pad_odd l ≡ pad_odd m → l ≡ m
unfolding pad_odd
pad_odd_inj l m h e = elim (Bool-cases (length l % 2 == 1)) [
  | inl odd ↦
      let odd' : (length m % 2 == 1) ≡ true = rw (← h) odd in
      (append_inj l m _ _ h (rw (odd, odd') at e)).0
  | inr even ↦ let even' : (length m % 2 == 1) ≡ false = rw (← h) even in rw (even, even') at e
]

-- The texts that are hashed for the pairs of a layer.
abbrev pub pair_texts : List Bytes → List Bytes
pair_texts [] = []
pair_texts (a ∷ []) = []
pair_texts (a ∷ b ∷ l) = (a ++ b) ∷ pair_texts l

module _ (sha256 : Bytes → Bytes) (sized : IsSized sha256) where
  pub hash_pair-IsHash : (a b : Bytes) → IsHash (hash_pair sha256 a b)
  unfolding hash_pair
  hash_pair-IsHash a b = length-hex_digest sha256 sized (a ++ b)

  -- A pair of hashes is determined by its hash.
  pub hash_pair_inj :
      (a b a' b' : Bytes)
      → IsHash a
      → IsHash a'
      → hash_pair sha256 a b ≡ hash_pair sha256 a' b'
      → ((a ≡ a') × (b ≡ b')) ⊎ Collision sha256 ((a ++ b) ∷ []) ((a' ++ b') ∷ [])
  unfolding hash_pair
  hash_pair_inj a b a' b' h h' e = elim (eq-or-Collision sha256 sized (a ++ b) (a' ++ b') e) [
    | inl same ↦ inl (append_inj a a' b b' (h ∙ sym h') same)
    | inr found ↦ inr found
  ]

  pub pair_up-IsHash : (l : List Bytes) → All IsHash (pair_up sha256 l)
  unfolding pair_up
  pair_up-IsHash [] = tt
  pair_up-IsHash (a ∷ []) = tt
  pair_up-IsHash (a ∷ b ∷ l) = (hash_pair-IsHash a b, pair_up-IsHash l)

  pub pair_up_inj :
      (l m : List Bytes)
      → length l ≡ length m
      → length l % 2 ≡ 0
      → All IsHash l
      → All IsHash m
      → pair_up sha256 l ≡ pair_up sha256 m
      → (l ≡ m) ⊎ Collision sha256 (pair_texts l) (pair_texts m)
  unfolding pair_up
  pair_up_inj [] [] h ev hl hm e = inl refl
  pair_up_inj [] (b ∷ m) h ev hl hm e = absurd (omega arith)
  pair_up_inj (a ∷ []) m h ev hl hm e = absurd (omega arith)
  pair_up_inj (a ∷ a' ∷ l) [] h ev hl hm e = absurd (omega arith)
  pair_up_inj (a ∷ a' ∷ l) (b ∷ []) h ev hl hm e = absurd (omega arith)
  pair_up_inj (a ∷ a' ∷ l) (b ∷ b' ∷ m) h ev (ha, (_, hl)) (hb, (_, hm)) e =
      elim (hash_pair_inj a a' b b' ha hb (cc)) [
        | inr found ↦ inr (Collision-append_left (pair_texts l) (pair_texts m) found)
        | inl same ↦ elim (pair_up_inj l m (omega arith) (omega arith) hl hm (cc)) [
          | inr found ↦ inr (Collision-append_right ((a ++ a') ∷ []) ((b ++ b') ∷ []) found)
          | inl rest ↦ inl (cc (same.0, same.1))
        ]
      ]
