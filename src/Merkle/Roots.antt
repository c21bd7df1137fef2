-- ===== src/Merkle/Roots.antt =====
-- What a Merkle root of internal/merkle/tree.go commits to.
use decentralized_messenger.Common.{
  ℕ, zero, suc, ◌<◌, ◌≡◌, sym, ap, ◌∙◌, ◌⊎◌, true, false, List, [], ◌∷◌, ◌++◌, inl, inr, ltb,
  if◌then◌else◌, arith, Bool-cases, Bytes, length, get_or, All,
}
use decentralized_messenger.Hash.{IsSized, Collision, Collision-append_left, Collision-append_right}
use decentralized_messenger.Merkle.{pad_odd, pair_up, root_loop, root}
use decentralized_messenger.Merkle.Pairs.{
  IsHash, pair_texts, pad_odd-IsHash, pad_odd_inj, pair_up-IsHash, pair_up_inj,
}
use decentralized_messenger.Merkle.Layers.{length-pad_odd, length-next, length-root_loop}

module _ (sha256 : Bytes → Bytes) where
  -- The texts that `Root` hashes, from a layer on.
  abbrev pub root_texts : ℕ → List Bytes → List Bytes
  root_texts zero layer = []
  root_texts (suc fuel) layer =
      let rest = root_texts fuel (pair_up sha256 (pad_odd layer)) in
      if ltb 1 (length layer) then pair_texts (pad_odd layer) ++ rest else []

module _ (sha256 : Bytes → Bytes) (sized : IsSized sha256) where
  get_or-singleton :
      (l m : List Bytes) → length l ≡ 1 → length m ≡ 1 → get_or l 0 [] ≡ get_or m 0 [] → l ≡ m
  get_or-singleton (a ∷ []) (b ∷ []) h h' e = cc
  get_or-singleton [] m h h' e = absurd (omega arith)
  get_or-singleton (a ∷ []) [] h h' e = absurd (omega arith)
  get_or-singleton (a ∷ []) (b ∷ c ∷ m) h h' e = absurd (omega arith)
  get_or-singleton (a ∷ c ∷ l) m h h' e = absurd (omega arith)

  root_loop_inj :
      (fuel : ℕ) (l m : List Bytes)
      → length l ≡ length m
      → All IsHash l
      → All IsHash m
      → root_loop sha256 fuel l ≡ root_loop sha256 fuel m
      → (l ≡ m) ⊎ Collision sha256 (root_texts sha256 fuel l) (root_texts sha256 fuel m)
  unfolding root_loop
  root_loop_inj zero l m h hl hm e = inl e
  root_loop_inj (suc fuel) l m h hl hm e = elim (Bool-cases (ltb 1 (length l))) [
    | inr done ↦
        let done' : ltb 1 (length m) ≡ false = rw (← h) done in
        inl (rw (done, done', root_loop) at e)
    | inl more ↦
        let more' : ltb 1 (length m) ≡ true = rw (← h) more in
        elim (root_loop_inj fuel (pair_up sha256 (pad_odd l)) (pair_up sha256 (pad_odd m))
          (omega (arith, length-next sha256 l, length-next sha256 m))
          (pair_up-IsHash sha256 sized (pad_odd l)) (pair_up-IsHash sha256 sized (pad_odd m))
          (rw (more, more', root_loop) at e)) [
            | inr found ↦ inr (
                rw (more, more')
                  (Collision-append_right (pair_texts (pad_odd l)) (pair_texts (pad_odd m)) found))
            | inl next ↦
                elim (pair_up_inj sha256 sized (pad_odd l) (pad_odd m)
                  (omega (arith, length-pad_odd l, length-pad_odd m))
                  (omega (arith, length-pad_odd l)) (pad_odd-IsHash l hl) (pad_odd-IsHash m hm)
                  next) [
                    | inr found ↦ inr (rw (more, more') (Collision-append_left _ _ found))
                    | inl same ↦ inl (pad_odd_inj l m h same)
                  ]
          ]
  ]

  root-root_loop :
      (l : List Bytes) → 0 < length l → root sha256 l ≡ get_or (root_loop sha256 (length l) l) 0 []
  unfolding root
  root-root_loop l h = ground arith

  -- Two lists of the same number of hashes, at least one, with one Merkle root are equal, or one
  -- of the texts hashed for the first root and a different one of those hashed for the second have
  -- one SHA-256 digest. All hashes have 64 digits. Digests are of 32 bytes.
  pub root_inj :
      (l m : List Bytes)
      → 0 < length l
      → length l ≡ length m
      → All IsHash l
      → All IsHash m
      → root sha256 l ≡ root sha256 m
      → (l ≡ m) ⊎ Collision sha256 (root_texts sha256 (length l) l) (root_texts sha256 (length m) m)
  root_inj l m pos h hl hm e =
      elim (root_loop_inj (length l) l m h hl hm (
        get_or-singleton (root_loop sha256 (length l) l) (root_loop sha256 (length l) m)
          (length-root_loop sha256 (length l) l pos (omega arith))
          (length-root_loop sha256 (length l) m (omega arith) (omega arith))
          (sym (root-root_loop l pos)
            ∙ e
            ∙ root-root_loop m (omega arith)
            ∙ ap (λ n. get_or (root_loop sha256 n m) 0 []) (sym h)))) [
              | inl same ↦ inl same
              | inr found ↦ inr (rw (← h) found)
            ]
