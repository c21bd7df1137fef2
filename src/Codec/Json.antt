-- ===== src/Codec/Json.antt =====
-- `json.Marshal` of Go's encoding/json at a `map[string]string`: strings are quoted and escaped with
-- HTML escaping on, and what is no valid UTF-8 is written as the replacement character.
pub mod Utf8
pub mod Unescape
pub mod Prefix
use decentralized_messenger.Common.{
  ℕ, zero, suc, ◌-◌, ◌/◌, ◌%◌, ◌≡◌, refl, Bool, true, false, ◌&&◌, ◌||◌, List, [], ◌∷◌, ◌++◌, ltb,
  leb, ◌==◌, if◌then◌else◌, Bytes, codes, take,
}
use decentralized_messenger.Codec.Hex.{hex_digit}

-- A byte below 128: `htmlSafeSet` and the switch of `appendString`.
escape_ascii : ℕ → Bytes
unfolding hex_digit
escape_ascii b =
    if b == b'"' || b == b'\\'
    then b'\\' ∷ b ∷ []
    else if b == 8
    then codes "\\b"
    else if b == 12
    then codes "\\f"
    else if b == 10
    then codes "\\n"
    else if b == 13
    then codes "\\r"
    else if b == 9
    then codes "\\t"
    else if ltb b 32 || b == b'<' || b == b'>' || b == b'&'
    then codes "\\u00" ++ hex_digit (b / 16) ∷ hex_digit (b % 16) ∷ []
    else b ∷ []

is_continuation : ℕ → Bool
is_continuation b = leb 128 b && leb b 191

-- The range of the second byte that `utf8.DecodeRune` accepts behind the first.
second_in_range : ℕ → ℕ → Bool
second_in_range a b =
    (if a == 0xe0 then leb 0xa0 b else if a == 0xf0 then leb 0x90 b else leb 0x80 b)
    && (if a == 0xed then leb b 0x9f else if a == 0xf4 then leb b 0x8f else leb b 0xbf)

-- How many bytes the character has that a text begins with, by its first byte; 1 if it is no valid
-- UTF-8 of two bytes or more.
rune_size : Bytes → ℕ
unfolding is_continuation second_in_range
rune_size (a ∷ b ∷ []) = if leb 0xc2 a && leb a 0xdf && second_in_range a b then 2 else 1
rune_size (a ∷ b ∷ c ∷ []) =
    if leb 0xc2 a && leb a 0xdf && second_in_range a b
    then 2
    else if leb 0xe0 a && leb a 0xef && second_in_range a b && is_continuation c
    then 3
    else 1
rune_size (a ∷ b ∷ c ∷ d ∷ _) =
    if leb 0xc2 a && leb a 0xdf && second_in_range a b
    then 2
    else if leb 0xe0 a && leb a 0xef && second_in_range a b && is_continuation c
    then 3
    else if leb 0xf0 a
        && leb a 0xf4
        && second_in_range a b
        && is_continuation c
        && is_continuation d
    then 4
    else 1
rune_size _ = 1

-- U+2028 and U+2029 are the bytes e2 80 a8 and e2 80 a9.
is_line_separator : Bytes → Bool
is_line_separator (a ∷ b ∷ c ∷ _) = a == 0xe2 && b == 0x80 && (c == 0xa8 || c == 0xa9)
is_line_separator _ = false

line_separator : Bytes → Bytes
line_separator (a ∷ b ∷ c ∷ _) = codes "\\u202" ++ (if c == 0xa8 then b'8' else b'9') ∷ []
line_separator _ = []

escape_rune : Bytes → Bytes
unfolding rune_size is_line_separator line_separator
escape_rune s =
    if rune_size s == 1
    then codes "\\ufffd"
    else if is_line_separator s
    then line_separator s
    else take (rune_size s) s

-- The first argument counts the bytes of the last character that are still to be passed over.
unfoldable pub escape : ℕ → Bytes → Bytes
unfolding escape_ascii escape_rune
escape n [] = []
escape (suc n) (b ∷ s) = escape n s
escape zero (b ∷ s) = elim (ltb b 128) [
  | true ↦ escape_ascii b ++ escape zero s
  | false ↦ escape_rune (b ∷ s) ++ escape (rune_size (b ∷ s) - 1) s
]

unfoldable pub marshal_string : Bytes → Bytes
unfolding escape
marshal_string s = b'"' ∷ escape 0 s ++ b'"' ∷ []

marshal_pair : Bytes × Bytes → Bytes
unfolding marshal_string
marshal_pair (k, v) = marshal_string k ++ b':' ∷ marshal_string v

marshal_rest : List (Bytes × Bytes) → Bytes
unfolding marshal_pair
marshal_rest [] = b'}' ∷ []
marshal_rest (p ∷ ps) = b',' ∷ marshal_pair p ++ marshal_rest ps

-- The pairs come in the order of their keys, as `json.Marshal` sorts them.
unfoldable pub marshal_sorted : List (Bytes × Bytes) → Bytes
unfolding marshal_rest
marshal_sorted [] = codes "{}"
marshal_sorted (p ∷ ps) = b'{' ∷ marshal_pair p ++ marshal_rest ps

marshal_example :
    marshal_sorted ((codes "a", codes "x<\"\\") ∷ (codes "b", 10 ∷ 0xff ∷ 0xc3 ∷ 0xa9 ∷ []) ∷ [])
    ≡ codes "{\"a\":\"x\\u003c\\\"\\\\\",\"b\":\"\\n\\ufffd" ++ 0xc3 ∷ 0xa9 ∷ codes "\"}"
unfolding marshal_sorted
marshal_example = refl
