-- ===== src/Codec/Json/Utf8.antt =====
-- Texts that Go's encoding/json writes without a replacement: valid UTF-8, as `utf8.ValidString` says.
use decentralized_messenger.Common.{
  ℕ, ◌≤◌, zero, suc, ◌-◌, ◌<◌, ◌≡◌, refl, Bool, true, false, not, ◌&&◌, [], ◌∷◌, arith, ltb, leb,
  ◌==◌, Bytes, codes, All,
}
use decentralized_messenger.Codec.Json.{rune_size, escape_rune, escape, marshal_string}

-- The first argument counts the bytes that the last character still needs.
unfoldable pub valid_utf8_from : ℕ → Bytes → Bool
unfolding rune_size
valid_utf8_from n [] = n == 0
valid_utf8_from (suc n) (b ∷ s) = leb 128 b && valid_utf8_from n s
valid_utf8_from zero (b ∷ s) = elim (ltb b 128) [
  | true ↦ valid_utf8_from zero s
  | false ↦ not (rune_size (b ∷ s) == 1) && valid_utf8_from (rune_size (b ∷ s) - 1) s
]

abbrev pub valid_utf8 : Bytes → Bool
valid_utf8 s = valid_utf8_from 0 s

abbrev pub IsAscii : ℕ → Type 0
IsAscii b = b < 128

-- ASCII is valid.
pub valid_utf8-ascii : (s : Bytes) → All IsAscii s → valid_utf8 s ≡ true
unfolding valid_utf8_from
valid_utf8-ascii [] h = refl
valid_utf8-ascii (b ∷ s) (hb, hs) = ground (arith, valid_utf8-ascii s hs)

-- No character begins with a byte from 245 on.
rune_size-stray : (a : ℕ) (s : Bytes) → 245 ≤ a → rune_size (a ∷ s) ≡ 1
unfolding rune_size
rune_size-stray a [] h = refl
rune_size-stray a (b ∷ []) h = ground arith
rune_size-stray a (b ∷ c ∷ []) h = ground arith
rune_size-stray a (b ∷ c ∷ d ∷ s) h = ground arith

-- Such a byte is written as the replacement character, whichever it is.
pub marshal_string-stray :
    (a b : ℕ) (s : Bytes) → 245 ≤ a → 245 ≤ b → marshal_string (a ∷ s) ≡ marshal_string (b ∷ s)
unfolding marshal_string escape escape_rune
marshal_string-stray a b s ha hb =
    let high : ltb a 128 ≡ false = ground arith in
    let high' : ltb b 128 ≡ false = ground arith in
    rw (high, high', rune_size-stray a s ha, rune_size-stray b s hb) refl

valid_example : valid_utf8 (0xe2 ∷ 0x80 ∷ 0xa8 ∷ 0xc3 ∷ 0xa9 ∷ codes "x") ≡ true
unfolding valid_utf8_from
valid_example = refl

invalid_example : valid_utf8 (0xc3 ∷ codes "x") ≡ false
unfolding valid_utf8_from
invalid_example = refl
