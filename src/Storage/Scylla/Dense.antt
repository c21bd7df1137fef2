-- ===== src/Storage/Scylla/Dense.antt =====
-- Rows whose keys count up by one, as those of the tables of internal/storage/scylla.go do.
use decentralized_messenger.Common.{
  ℕ, zero, suc, ◌+◌, ◌≤◌, ◌<◌, ◌≡◌, refl, ap, ◌∙◌, List, [], ◌∷◌, ◌++◌, arith, length, get_elem?,
  drop,
}
use decentralized_messenger.Codec.Decimal.{ℤ, pos, negsuc}
use decentralized_messenger.Storage.Scylla.Table.{rows_at, rows_from, write_row, listed}

module _ {R : Type 0} (key : R → ℤ) where
  -- The keys are the numbers from a position on.
  abbrev pub IsDense : ℕ → List R → Type 0
  IsDense i [] = Unit
  IsDense i (r ∷ rs) = (key r ≡ pos i) × IsDense (suc i) rs

  rows_at-below : (i k : ℕ) (rs : List R) → IsDense i rs → k < i → rows_at key (pos k) rs ≡ []
  rows_at-below i k [] dense h = refl
  rows_at-below i k (r ∷ rs) (here, dense) h =
      rw here (ground (arith, rows_at-below (suc i) k rs dense (omega arith)))

  rows_at-dense :
      (i j : ℕ) (rs : List R)
      → IsDense i rs
      → rows_at key (pos (i + j)) rs ≡ listed (get_elem? rs j)
  rows_at-dense i j [] dense = refl
  rows_at-dense i zero (r ∷ rs) (here, dense) =
      rw here (ground (arith, rows_at-below (suc i) (i + 0) rs dense (omega arith)))
  rows_at-dense i (suc j) (r ∷ rs) (here, dense) =
      let e : i + suc j ≡ suc i + j = omega arith in
      let rest : rows_at key (pos (i + suc j)) rs ≡ listed (get_elem? rs j) =
        rw e (rows_at-dense (suc i) j rs dense) in
      rw here (ground (arith, rest))

  rows_from-all : (i k : ℕ) (rs : List R) → IsDense i rs → k ≤ i → rows_from key (pos k) rs ≡ rs
  rows_from-all i k [] dense h = refl
  rows_from-all i k (r ∷ rs) (here, dense) h =
      rw here (ground (arith, rows_from-all (suc i) k rs dense (omega arith)))

  rows_from-dense :
      (i j : ℕ) (rs : List R) → IsDense i rs → rows_from key (pos (i + j)) rs ≡ drop j rs
  rows_from-dense i zero rs dense = rows_from-all i (i + 0) rs dense (omega arith)
  rows_from-dense i (suc j) [] dense = refl
  rows_from-dense i (suc j) (r ∷ rs) (here, dense) =
      let e : i + suc j ≡ suc i + j = omega arith in
      let rest : rows_from key (pos (i + suc j)) rs ≡ drop j rs =
        rw e (rows_from-dense (suc i) j rs dense) in
      rw here (ground (arith, rest))

  -- A key below 0 selects every row.
  pub rows_from-negsuc : (i k : ℕ) (rs : List R) → IsDense i rs → rows_from key (negsuc k) rs ≡ rs
  rows_from-negsuc i k [] dense = refl
  rows_from-negsuc i k (r ∷ rs) (here, dense) =
      rw here (ap (◌∷◌ r) (rows_from-negsuc (suc i) k rs dense))

  -- The next key is written at the end.
  write_row-concat :
      (i : ℕ) (new : R) (rs : List R)
      → IsDense i rs
      → key new ≡ pos (i + length rs)
      → write_row key new rs ≡ rs ++ new ∷ []
  write_row-concat i new [] dense h = refl
  write_row-concat i new (r ∷ rs) (here, dense) h =
      let e : i + suc (length rs) ≡ suc i + length rs = omega arith in
      rw (here, h) (ground (arith, write_row-concat (suc i) new rs dense (rw e at h)))

  -- From position 0.
  pub rows_at_zero :
      (j : ℕ) (rs : List R) → IsDense 0 rs → rows_at key (pos j) rs ≡ listed (get_elem? rs j)
  rows_at_zero j rs dense =
      ap (λ k. rows_at key (pos k) rs) {x = j} (omega arith) ∙ rows_at-dense 0 j rs dense

  pub rows_from_zero : (j : ℕ) (rs : List R) → IsDense 0 rs → rows_from key (pos j) rs ≡ drop j rs
  rows_from_zero j rs dense =
      ap (λ k. rows_from key (pos k) rs) {x = j} (omega arith) ∙ rows_from-dense 0 j rs dense

  pub write_row_zero :
      (new : R) (rs : List R)
      → IsDense 0 rs
      → key new ≡ pos (length rs)
      → write_row key new rs ≡ rs ++ new ∷ []
  write_row_zero new rs dense h = write_row-concat 0 new rs dense (h ∙ ap pos (omega arith))

  pub IsDense-concat :
      (i : ℕ) (rs : List R) (new : R)
      → IsDense i rs
      → key new ≡ pos (i + length rs)
      → IsDense i (rs ++ new ∷ [])
  IsDense-concat i [] new dense h = (h ∙ ap pos (omega arith), tt)
  IsDense-concat i (r ∷ rs) new (here, dense) h =
      (here, IsDense-concat (suc i) rs new dense (h ∙ ap pos (omega arith)))
