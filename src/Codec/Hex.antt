-- ===== src/Codec/Hex.antt =====
-- `hex.EncodeToString` of Go's encoding/hex: two lower-case digits for each byte.
use decentralized_messenger.Common.{
  ℕ, ◌+◌, ◌-◌, ◌*◌, ◌/◌, ◌%◌, ◌<◌, ◌≡◌, refl, [], ◌∷◌, arith, ltb, if◌then◌else◌, Bytes, codes,
  length, All,
}

unfoldable pub hex_digit : ℕ → ℕ
hex_digit d = if ltb d 10 then b'0' + d else b'a' + d - 10

unfoldable pub hex_encode : Bytes → Bytes
unfolding hex_digit
hex_encode [] = []
hex_encode (b ∷ s) = hex_digit (b / 16) ∷ hex_digit (b % 16) ∷ hex_encode s

-- Each byte gives two digits.
pub length-hex_encode : (s : Bytes) → length (hex_encode s) ≡ 2 * length s
unfolding hex_encode
length-hex_encode [] = refl
length-hex_encode (b ∷ s) = omega (arith, length-hex_encode s)

hex_digit_inj : (a b : ℕ) → a < 16 → b < 16 → hex_digit a ≡ hex_digit b → a ≡ b
unfolding hex_digit
hex_digit_inj a b p q e = ground arith

abbrev pub IsByte : ℕ → Type 0
IsByte b = b < 256

-- Two byte strings with one encoding are equal.
pub hex_encode_inj :
    (s t : Bytes) → All IsByte s → All IsByte t → hex_encode s ≡ hex_encode t → s ≡ t
unfolding hex_encode
hex_encode_inj [] [] p q e = refl
hex_encode_inj [] (b ∷ t) p q e = absurd (cc)
hex_encode_inj (a ∷ s) [] p q e = absurd (cc)
hex_encode_inj (a ∷ s) (b ∷ t) (pa, ps) (qb, qt) e = ground (
  arith,
  hex_digit_inj (a / 16) (b / 16),
  hex_digit_inj (a % 16) (b % 16),
  hex_encode_inj s t ps qt,
)

hex_digit-ascii : (d : ℕ) → d < 16 → hex_digit d < 128
unfolding hex_digit
hex_digit-ascii d h = ground arith

pub hex_encode-ascii : (s : Bytes) → All IsByte s → All (λ c. c < 128) (hex_encode s)
unfolding hex_encode
hex_encode-ascii [] h = tt
hex_encode-ascii (b ∷ s) (hb, hs) = (
  hex_digit-ascii (b / 16) (omega arith),
  (hex_digit-ascii (b % 16) (omega arith), hex_encode-ascii s hs),
)

encode_example : hex_encode (0 ∷ 255 ∷ 26 ∷ []) ≡ codes "00ff1a"
unfolding hex_encode
encode_example = refl
