-- ===== src/Merkle/Ascii.antt =====
-- The hashes of internal/merkle/tree.go are texts of ASCII, if those of the leaves are.
use decentralized_messenger.Common.{
  ℕ, zero, suc, ◌-◌, ◌%◌, inl, inr, List, [], ◌∷◌, ◌++◌, Bool-cases, Bytes, length, get_or, ltb,
  ◌==◌, All, All-append,
}
use decentralized_messenger.Codec.Hex.{hex_encode-ascii}
use decentralized_messenger.Codec.Json.Utf8.{IsAscii}
use decentralized_messenger.Hash.{IsSized}
use decentralized_messenger.Merkle.{hash_pair, pad_odd, pair_up, root_loop, root}

abbrev pub IsAsciiText : Bytes → Type 0
IsAsciiText s = All IsAscii s

get_or-ascii : (l : List Bytes) (i : ℕ) → All IsAsciiText l → IsAsciiText (get_or l i [])
get_or-ascii [] i h = tt
get_or-ascii (x ∷ l) zero (hx, hl) = hx
get_or-ascii (x ∷ l) (suc i) (hx, hl) = get_or-ascii l i hl

pad_odd-ascii : (l : List Bytes) → All IsAsciiText l → All IsAsciiText (pad_odd l)
unfolding pad_odd
pad_odd-ascii l h = elim (Bool-cases (length l % 2 == 1)) [
  | inl odd ↦ rw odd (All-append IsAsciiText l _ h (get_or-ascii l (length l - 1) h, tt))
  | inr even ↦ rw even h
]

module _ (sha256 : Bytes → Bytes) (sized : IsSized sha256) where
  pair_up-ascii : (l : List Bytes) → All IsAsciiText (pair_up sha256 l)
  unfolding pair_up hash_pair
  pair_up-ascii [] = tt
  pair_up-ascii (a ∷ []) = tt
  pair_up-ascii (a ∷ b ∷ l) = (hex_encode-ascii _ (sized.bytes (a ++ b)), pair_up-ascii l)

  root_loop-ascii :
      (fuel : ℕ) (l : List Bytes) → All IsAsciiText l → All IsAsciiText (root_loop sha256 fuel l)
  unfolding root_loop
  root_loop-ascii zero l h = h
  root_loop-ascii (suc fuel) l h = elim (Bool-cases (ltb 1 (length l))) [
    | inl more ↦
        rw (more, root_loop)
          (root_loop-ascii fuel (pair_up sha256 (pad_odd l)) (pair_up-ascii (pad_odd l)))
    | inr done ↦ rw (done, root_loop) h
  ]

  -- A Merkle root of such texts is one.
  pub root-ascii : (l : List Bytes) → All IsAsciiText l → IsAsciiText (root sha256 l)
  unfolding root
  root-ascii l h = elim (Bool-cases (length l == 0)) [
    | inl none ↦ rw none tt
    | inr some ↦
        rw some (get_or-ascii (root_loop sha256 (length l) l) 0 (root_loop-ascii (length l) l h))
  ]
