-- ===== src/Hash.antt =====
-- What the node takes from SHA-256, a function that it calls and does not implement: the size of
-- its digests. That digests are hard to collide is no hypothesis here: a theorem that rests on it
-- says that either its conclusion holds or two of the texts that the code hashes there collide.
use mathlib.Core.List.{Memᴰ}
use mathlib.Core.List.Memᴰ
use decentralized_messenger.Common.{
  ◌≡◌, ◌≢◌, refl, List, [], ◌∷◌, ◌++◌, ◌⊎◌, inl, inr, Bool-cases, arith, Bytes, bytes_eq,
  bytes_eq_iff, length, All,
}
use decentralized_messenger.Codec.Hex.{hex_encode, hex_encode_inj, length-hex_encode, IsByte}

-- A digest of SHA-256 is 32 bytes.
pub record IsSized (sha256 : Bytes → Bytes) : Type 0 where
  pub size : (x : Bytes) → length (sha256 x) ≡ 32
  pub bytes : (x : Bytes) → All IsByte (sha256 x)

-- A text of the first list and a different text of the second with one digest.
pub record Collision (sha256 : Bytes → Bytes) (texts others : List Bytes) : Type 0 where
  pub left : Bytes
  pub right : Bytes
  pub left_hashed : Memᴰ left texts
  pub right_hashed : Memᴰ right others
  pub different : left ≢ right
  pub same_digest : sha256 left ≡ sha256 right

module _ {sha256 : Bytes → Bytes} where
  -- A collision among fewer texts.
  pub Collision-mono :
      {ts us ts' us' : List Bytes}
      → ((x : Bytes) → Memᴰ x ts → Memᴰ x ts')
      → ((x : Bytes) → Memᴰ x us → Memᴰ x us')
      → Collision sha256 ts us
      → Collision sha256 ts' us'
  Collision-mono f g found = record {
    left = found.left;
    right = found.right;
    left_hashed = f found.left found.left_hashed;
    right_hashed = g found.right found.right_hashed;
    different = found.different;
    same_digest = found.same_digest;
  }

  pub Collision-append_left :
      {ts us : List Bytes} (ts' us' : List Bytes)
      → Collision sha256 ts us
      → Collision sha256 (ts ++ ts') (us ++ us')
  Collision-append_left ts' us' found =
      Collision-mono (λ x. Memᴰ.append_left ts') (λ x. Memᴰ.append_left us') found

  pub Collision-append_right :
      {ts us : List Bytes} (ts' us' : List Bytes)
      → Collision sha256 ts us
      → Collision sha256 (ts' ++ ts) (us' ++ us)
  Collision-append_right ts' us' found =
      Collision-mono (λ x. Memᴰ.append_right ts') (λ x. Memᴰ.append_right us') found

module _ (sha256 : Bytes → Bytes) (sized : IsSized sha256) where
  pub length-hex_digest : (x : Bytes) → length (hex_encode (sha256 x)) ≡ 64
  length-hex_digest x = omega (arith, length-hex_encode (sha256 x), sized.size x)

  -- Two texts with one digest in hexadecimal are equal, or they are a collision.
  pub eq-or-Collision :
      (x y : Bytes)
      → hex_encode (sha256 x) ≡ hex_encode (sha256 y)
      → (x ≡ y) ⊎ Collision sha256 (x ∷ []) (y ∷ [])
  eq-or-Collision x y e = elim (Bool-cases (bytes_eq x y)) [
    | inl same ↦ inl ((bytes_eq_iff x y).0 same)
    | inr differ ↦ inr (record {
      left = x;
      right = y;
      left_hashed = Memᴰ.head refl;
      right_hashed = Memᴰ.head refl;
      different = λ p. cc ((bytes_eq_iff x y).1 p);
      same_digest = hex_encode_inj (sha256 x) (sha256 y) (sized.bytes x) (sized.bytes y) e;
    })
  ]
