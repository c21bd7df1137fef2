-- ===== src/Codec/Decimal.antt =====
-- Decimal numbers: `formatUint` of internal/models/message.go, `strconv.Itoa`, and
-- `strconv.ParseUint(s, 10, 64)` of Go's standard library.
use native.Mathlib.Nat.{pow-suc}
use decentralized_messenger.Common.{
  ℕ, zero, suc, ◌+◌, ◌-◌, ◌*◌, ◌/◌, ◌%◌, ◌^◌, ◌<◌, ◌≤◌, ◌≡◌, ◌||◌, [], ◌∷◌, Option, none, some,
  arith, ltb, ◌==◌, ==_iff, Bool-cases, inl, inr, if◌then◌else◌, Bytes, length, All, sym, ap, ◌∙◌,
  refl,
}

-- 2^64, the modulus of `uint64`.
abbrev pub u64 : ℕ
u64 = 2 ^ 64

-- The loop `for v > 0` with the free part `i` of the 20-byte buffer as its fuel: each round writes
-- one digit in front of those written before.
unfoldable pub write_digits : ℕ → ℕ → Bytes → Bytes
write_digits zero v out = out
write_digits (suc i) v out =
    let rest = write_digits i (v / 10) ((b'0' + v % 10) ∷ out) in if v == 0 then out else rest

unfoldable pub format_uint : ℕ → Bytes
unfolding write_digits
format_uint v = if v == 0 then b'0' ∷ [] else write_digits 20 v []

-- `strconv.Itoa` of a signed integer: `negsuc n` is -(n + 1).
pub data ℤ : Type 0 where
  pos : ℕ → ℤ
  negsuc : ℕ → ℤ

unfoldable pub itoa : ℤ → Bytes
unfolding format_uint
itoa (pos n) = format_uint n
itoa (negsuc n) = b'-' ∷ format_uint (n + 1)

-- The loop of `ParseUint` over the digits: a byte that is no digit and an overflow are errors.
unfoldable pub parse_digits : Bytes → ℕ → Option ℕ
parse_digits [] n = some n
parse_digits (c ∷ s) n =
    let d = c - b'0' in
    let next = parse_digits s (n * 10 + d) in
    if ltb c b'0' || ltb b'9' c || ltb (u64 - 1) (n * 10 + d) then none else next

unfoldable pub parse_uint : Bytes → Option ℕ
unfolding parse_digits
parse_uint [] = none
parse_uint (c ∷ s) = parse_digits (c ∷ s) 0

-- The number that decimal digits spell behind those that were read as `n`.
abbrev pub value : ℕ → Bytes → ℕ
value n [] = n
value n (c ∷ s) = value (n * 10 + (c - b'0')) s

abbrev pub IsDigit : ℕ → Type 0
IsDigit digit = (b'0' ≤ digit) × (digit ≤ b'9')

value-write_digits :
    (i v : ℕ) (out : Bytes) → v < 10 ^ i → value 0 (write_digits i v out) ≡ value v out
unfolding write_digits
value-write_digits zero v out h = let e : v ≡ 0 = omega arith in rw e
value-write_digits (suc i) v out h = elim (Bool-cases (v == 0)) [
  | inl e ↦ let e' : v ≡ 0 = (==_iff v 0).0 e in rw (e, e')
  | inr e ↦ rw e (
      value-write_digits i (v / 10) _ (omega (arith, pow-suc 10 i))
      ∙ ap (λ n. value n out) (omega arith))
]

digits-write_digits : (i v : ℕ) (out : Bytes) → All IsDigit out → All IsDigit (write_digits i v out)
unfolding write_digits
digits-write_digits zero v out h = h
digits-write_digits (suc i) v out h =
    ground (arith, digits-write_digits i (v / 10) ((b'0' + v % 10) ∷ out) (omega arith, h))

length-write_digits-le : (i v : ℕ) (out : Bytes) → length (write_digits i v out) ≤ i + length out
unfolding write_digits
length-write_digits-le zero v out = omega arith
length-write_digits-le (suc i) v out =
    ground (arith, length-write_digits-le i (v / 10) ((b'0' + v % 10) ∷ out))

-- The text that formatUint writes for a number below 2^64 spells that number.
pub value-format_uint : (v : ℕ) → v < u64 → value 0 (format_uint v) ≡ v
unfolding format_uint
value-format_uint v h = ground (arith, value-write_digits 20 v [])

pub format_uint-digits : (v : ℕ) → All IsDigit (format_uint v)
unfolding format_uint
format_uint-digits v = ground (arith, digits-write_digits 20 v [] tt)

pub length-format_uint-le : (v : ℕ) → length (format_uint v) ≤ 20
unfolding format_uint
length-format_uint-le v = ground (arith, length-write_digits-le 20 v [])

pub format_uint_inj : (v w : ℕ) → v < u64 → w < u64 → format_uint v ≡ format_uint w → v ≡ w
format_uint_inj v w hv hw e = sym (value-format_uint v hv) ∙ ap (value 0) e ∙ value-format_uint w hw

-- Further digits make the number no smaller.
value-ge : (read : ℕ) (text : Bytes) → read ≤ value read text
value-ge read [] = omega arith
value-ge read (digit ∷ text) = omega (arith, value-ge (read * 10 + (digit - b'0')) text)

length-positive : (s : Bytes) (v : ℕ) → value 0 s ≡ v → 0 < v → 0 < length s
length-positive [] v e h = omega arith
length-positive (c ∷ s) v e h = omega arith

parse_digits_lem :
    (read : ℕ) (text : Bytes)
    → value read text < u64
    → All IsDigit text
    → parse_digits text read ≡ some (value read text)
unfolding parse_digits
parse_digits_lem read [] fits digits = refl
parse_digits_lem read (digit ∷ text) fits (first, digits) =
    let read' = read * 10 + (digit - b'0') in
    ground (arith, value-ge read' text, parse_digits_lem read' text fits digits)

parse_uint_lem :
    (s : Bytes) → 0 < length s → All IsDigit s → value 0 s < u64 → parse_uint s ≡ some (value 0 s)
unfolding parse_uint
parse_uint_lem [] some_text digits fits = absurd (omega arith)
parse_uint_lem (c ∷ s) some_text digits fits = parse_digits_lem 0 (c ∷ s) fits digits

pub length-format_uint-positive : (v : ℕ) → v < u64 → 0 < length (format_uint v)
unfolding format_uint
length-format_uint-positive v h =
    ground (arith, length-positive (write_digits 20 v []) v, value-write_digits 20 v [])

-- The text of a `uint64` is parsed back.
pub parse_uint-format_uint : (v : ℕ) → v < u64 → parse_uint (format_uint v) ≡ some v
parse_uint-format_uint v h =
    parse_uint_lem (format_uint v) (length-format_uint-positive v h) (format_uint-digits v)
      (omega (arith, value-format_uint v h))
    ∙ ap some (value-format_uint v h)

first_digit : (s t : Bytes) → 0 < length s → All IsDigit s → s ≡ b'-' ∷ t → ⊥
first_digit [] t h digits e = absurd (omega arith)
first_digit (c ∷ s) t h (digit, _) e = let minus : c ≡ b'-' = cc in absurd (omega arith)

-- The number that a value of 64 bits stands for is read off its text.
abbrev pub IsInt64 : ℤ → Type 0
IsInt64 (pos n) = n < 2 ^ 63
IsInt64 (negsuc n) = n < 2 ^ 63

pub itoa_inj : (m n : ℤ) → IsInt64 m → IsInt64 n → itoa m ≡ itoa n → m ≡ n
unfolding itoa
itoa_inj (pos m) (pos n) hm hn e = ap pos (format_uint_inj m n (omega arith) (omega arith) e)
itoa_inj (pos m) (negsuc n) hm hn e = absurd (
    first_digit (format_uint m) _ (length-format_uint-positive m (omega arith))
      (format_uint-digits m) e)
itoa_inj (negsuc m) (pos n) hm hn e = absurd (
    first_digit (format_uint n) _ (length-format_uint-positive n (omega arith))
      (format_uint-digits n) (sym e))
itoa_inj (negsuc m) (negsuc n) hm hn e =
    let same = format_uint_inj (m + 1) (n + 1) (omega arith) (omega arith) (cc) in
    ap negsuc (omega (arith, same))

pub digits_ascii : (s : Bytes) → All IsDigit s → All (λ c. c < 128) s
digits_ascii [] h = tt
digits_ascii (c ∷ s) (digit, h) = (omega arith, digits_ascii s h)

pub itoa-ascii : (n : ℤ) → All (λ c. c < 128) (itoa n)
unfolding itoa
itoa-ascii (pos n) = digits_ascii (format_uint n) (format_uint-digits n)
itoa-ascii (negsuc n) =
    (omega arith, digits_ascii (format_uint (n + 1)) (format_uint-digits (n + 1)))
