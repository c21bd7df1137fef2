-- ===== src/Result.antt =====
-- Errors as values: the sentinel errors of the packages, the errors of outside services, and those
-- that `fmt.Errorf` wraps with `%w`, which `errors.Is` looks into.
use mathlib.Core.Bool.{Bool, true, false}
use decentralized_messenger.Common.{ℕ, ◌≡◌, ◌⊎◌, inl, inr, refl, Bytes}

pub data Error : Type 0 where
  -- internal/storage/storage.go
  not_found sequence_gap : Error
  -- internal/chatlog/log.go
  invalid_signature unsupported_version not_snapshotted root_mismatch : Error
  window_incomplete : ℕ → ℕ → Error
  read_tip append snapshot : Error → Error
  -- internal/crypto/encrypt.go
  invalid_key malformed_ciphertext : Error
  -- internal/service/messenger.go
  content_exceeds : ℕ → Error
  -- cmd/messenger/main.go
  graceful_shutdown : Error → Error
  -- a run-time panic of Go: an index or a length out of range
  panic : Error
  -- an error of a library or of an outside service, with its text
  external : Bytes → Error

-- `errors.Is(err, storage.ErrNotFound)`
unfoldable pub is_not_found : Error → Bool
is_not_found not_found = true
is_not_found (read_tip e) = is_not_found e
is_not_found (append e) = is_not_found e
is_not_found (snapshot e) = is_not_found e
is_not_found (graceful_shutdown e) = is_not_found e
is_not_found _ = false

-- `errors.Is(err, chatlog.ErrNotSnapshotted)`
unfoldable pub is_not_snapshotted : Error → Bool
is_not_snapshotted not_snapshotted = true
is_not_snapshotted (read_tip e) = is_not_snapshotted e
is_not_snapshotted (append e) = is_not_snapshotted e
is_not_snapshotted (snapshot e) = is_not_snapshotted e
is_not_snapshotted (graceful_shutdown e) = is_not_snapshotted e
is_not_snapshotted _ = false

-- A Go function's result `(v, err)`.
pub data Result {ℓ} (A : Type ℓ) : Type ℓ where
  err : Error → Result A
  ok : A → Result A

infixl 5 ◌>>=◌
abbrev pub ◌>>=◌ {ℓ κ} : {A : Type ℓ} → {B : Type κ} → Result A → (A → Result B) → Result B
err failure >>= next = err failure
ok value >>= next = next value

pub Result-cases {ℓ} :
    {A : Type ℓ} (r : Result A) → ((a : A) × (r ≡ ok a)) ⊎ ((e : Error) × (r ≡ err e))
Result-cases (ok a) = inl (a, refl)
Result-cases (err e) = inr (e, refl)

-- Inversion of a successful bind.
pub >>=-eq-ok {ℓ κ} :
    {A : Type ℓ}
    → {B : Type κ} → (first : Result A) (next : A → Result B) {b : B} → (first >>= next) ≡ ok b
    → (value : A) × (first ≡ ok value) × (next value ≡ ok b)
>>=-eq-ok (err failure) next done = cc
>>=-eq-ok (ok value) next done = (value, refl, done)
