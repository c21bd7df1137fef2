-- ===== src/Codec/Json/Unescape.antt =====
-- A reader of JSON strings, byte by byte, and that it reads back what Go's encoding/json writes.
use mathlib.Core.Path.{subst}
use decentralized_messenger.Common.{
  ℕ, zero, suc, ◌+◌, ◌-◌, ◌*◌, ◌/◌, ◌%◌, ◌≤◌, ◌<◌, ◌≡◌, refl, ap, ◌∙◌, sym, true, false, ◌||◌, [],
  ◌∷◌, ◌++◌, append_assoc, Option, none, some, inl, inr, Bool-cases, arith, ltb, leb, ==_iff, ◌==◌,
  if◌then◌else◌, Bytes, codes, take,
}
use decentralized_messenger.Codec.Hex.{hex_digit}
use decentralized_messenger.Codec.Json.{
  escape_ascii, escape_rune, rune_size, is_continuation, second_in_range, is_line_separator,
  line_separator, escape,
}
use decentralized_messenger.Codec.Json.Utf8.{valid_utf8_from}

-- Where the reader is: between characters, behind a backslash, or in the digits of `\u`, with the
-- number of digits to come and the value of those that were read.
pub data Place : Type 0 where
  between slash : Place
  digits : ℕ → ℕ → Place

hex_value : ℕ → ℕ
hex_value c = if leb c b'9' then c - b'0' else c - b'a' + 10

-- The UTF-8 of a character that `encoding/json` writes with `\u`.
utf8_encode : ℕ → Bytes
utf8_encode v =
    if ltb v 128 then v ∷ [] else (0xe0 + v / 4096) ∷ (0x80 + v / 64 % 64) ∷ (0x80 + v % 64) ∷ []

-- The byte that a letter behind a backslash stands for.
short_escape : ℕ → ℕ
short_escape c =
    if c == b'b'
    then 8
    else if c == b'f'
    then 12
    else if c == b'n'
    then 10
    else if c == b'r'
    then 13
    else if c == b't'
    then 9
    else c

-- Some bytes in front of what is read behind them.
abbrev in_front : Bytes → Option (Bytes × Bytes) → Option (Bytes × Bytes)
in_front s none = none
in_front s (some (t, rest)) = some (s ++ t, rest)

-- The string up to its closing quote, and what follows the quote.
pub unescape : Place → Bytes → Option (Bytes × Bytes)
unfolding hex_value utf8_encode short_escape
unescape _ [] = none
unescape between (c ∷ s) = elim (c == b'"') [
  | true ↦ some ([], s)
  | false ↦ elim (c == b'\\') [
    | true ↦ unescape slash s
    | false ↦ in_front (c ∷ []) (unescape between s)
  ]
]
unescape slash (c ∷ s) = elim (c == b'u') [
  | true ↦ unescape (digits 3 0) s
  | false ↦ in_front (short_escape c ∷ []) (unescape between s)
]
unescape (digits zero v) (c ∷ s) =
    in_front (utf8_encode (v * 16 + hex_value c)) (unescape between s)
unescape (digits (suc n) v) (c ∷ s) = unescape (digits n (v * 16 + hex_value c)) s

unescape_example :
    unescape between (codes "a\\u003c\\\"\\u2028\"rest")
    ≡ some (codes "a<\"" ++ 0xe2 ∷ 0x80 ∷ 0xa8 ∷ [], codes "rest")
unfolding unescape
unescape_example = refl

hex_value-hex_digit : (d : ℕ) → d < 16 → hex_value (hex_digit d) ≡ d
unfolding hex_value hex_digit
hex_value-hex_digit d h = ground arith

-- A byte that needs no escape.
unescape-plain :
    (c : ℕ) (s : Bytes)
    → (c == b'"') ≡ false
    → (c == b'\\') ≡ false
    → unescape between (c ∷ s) ≡ in_front (c ∷ []) (unescape between s)
unfolding unescape
unescape-plain c s p q = rw (p, q, unescape) refl

unescape-hex :
    (b : ℕ) (s : Bytes)
    → b < 128
    → unescape between (codes "\\u00" ++ hex_digit (b / 16) ∷ hex_digit (b % 16) ∷ s)
      ≡ in_front (b ∷ []) (unescape between s)
unfolding unescape utf8_encode
unescape-hex b s h =
    let high = hex_value-hex_digit (b / 16) (omega arith) in
    let low = hex_value-hex_digit (b % 16) (omega arith) in
    let whole : (0 + b / 16) * 16 + b % 16 ≡ b = omega arith in
    let small : ltb b 128 ≡ true = ground arith in rw (high, low, whole, small) refl

unescape-ascii :
    (b : ℕ) (s : Bytes)
    → b < 128
    → unescape between (escape_ascii b ++ s) ≡ in_front (b ∷ []) (unescape between s)
unfolding unescape escape_ascii short_escape
unescape-ascii b s h = ground (arith, unescape-plain b s, unescape-hex b s)

rune_size-positive : (s : Bytes) → 1 ≤ rune_size s
unfolding rune_size
rune_size-positive [] = omega arith
rune_size-positive (a ∷ []) = omega arith
rune_size-positive (a ∷ b ∷ []) = ground arith
rune_size-positive (a ∷ b ∷ c ∷ []) = ground arith
rune_size-positive (a ∷ b ∷ c ∷ d ∷ s) = ground arith

in_front_three :
    (a b c : ℕ) (read : Option (Bytes × Bytes))
    → in_front (a ∷ b ∷ c ∷ []) read
      ≡ in_front (a ∷ []) (in_front (b ∷ []) (in_front (c ∷ []) read))
in_front_three a b c none = refl
in_front_three a b c (some (s, rest)) = refl

-- The escape of a line separator reads as its three bytes.
abbrev ReadsBack : Bytes → Bytes → ℕ → Type 0
ReadsBack s r c =
    unescape between (line_separator (0xe2 ∷ 0x80 ∷ c ∷ s) ++ r)
    ≡ unescape between (0xe2 ∷ 0x80 ∷ c ∷ r)

unescape-u2028 : (s r : Bytes) → ReadsBack s r 0xa8
unfolding unescape line_separator utf8_encode hex_value
unescape-u2028 s r = in_front_three 0xe2 0x80 0xa8 (unescape between r)

unescape-u2029 : (s r : Bytes) → ReadsBack s r 0xa9
unfolding unescape line_separator utf8_encode hex_value
unescape-u2029 s r = in_front_three 0xe2 0x80 0xa9 (unescape between r)

unescape-separator : (c : ℕ) (s r : Bytes) → (c == 0xa8 || c == 0xa9) ≡ true → ReadsBack s r c
unescape-separator c s r h = elim (Bool-cases (c == 0xa8)) [
  | inl e ↦ subst (ReadsBack s r) (sym ((==_iff c 0xa8).0 e)) (unescape-u2028 s r)
  | inr e ↦
      let last : c ≡ 0xa9 = ground arith in subst (ReadsBack s r) (sym last) (unescape-u2029 s r)
]

rune_size-separator :
    (c : ℕ) (s : Bytes) → (c == 0xa8 || c == 0xa9) ≡ true → rune_size (0xe2 ∷ 0x80 ∷ c ∷ s) ≡ 3
unfolding rune_size is_continuation second_in_range
rune_size-separator c [] h = ground arith
rune_size-separator c (d ∷ s) h = ground arith

unescape-line :
    (s r : Bytes)
    → is_line_separator s ≡ true
    → unescape between (line_separator s ++ r) ≡ unescape between (take (rune_size s) s ++ r)
unfolding is_line_separator
unescape-line [] r h = absurd (cc)
unescape-line (a ∷ []) r h = absurd (cc)
unescape-line (a ∷ b ∷ []) r h = absurd (cc)
unescape-line (a ∷ b ∷ c ∷ s) r h =
    let first : a ≡ 0xe2 = ground arith in
    let second : b ≡ 0x80 = ground arith in
    let third : (c == 0xa8 || c == 0xa9) ≡ true = ground arith in
    rw (first, second, rune_size-separator c s third) (unescape-separator c s r third)

-- A character of more than one byte is read back, escaped or not.
unescape-rune :
    (s r : Bytes)
    → (rune_size s == 1) ≡ false
    → unescape between (escape_rune s ++ r) ≡ unescape between (take (rune_size s) s ++ r)
unfolding escape_rune
unescape-rune s r h = elim (Bool-cases (is_line_separator s)) [
  | inl line ↦ rw (h, line) (unescape-line s r line)
  | inr other ↦ rw (h, other) refl
]

-- What is read behind the last bytes of a character.
pub unescape-escape_from :
    (n : ℕ) (s x : Bytes)
    → valid_utf8_from n s ≡ true
    → unescape between (take n s ++ (escape n s ++ b'"' ∷ x)) ≡ some (s, x)
unfolding unescape valid_utf8_from escape
unescape-escape_from zero [] x h = refl
unescape-escape_from (suc n) [] x h = absurd (ground arith)
unescape-escape_from (suc n) (b ∷ s) x h =
    let rest = unescape-escape_from n s x (ground arith) in
    unescape-plain b (take n s ++ (escape n s ++ b'"' ∷ x)) (ground arith) (ground arith)
    ∙ ap (in_front (b ∷ [])) rest
unescape-escape_from zero (b ∷ s) x h = elim (Bool-cases (ltb b 128)) [
  | inl low ↦
      let rest = unescape-escape_from zero s x (ground arith) in
      let here : escape zero (b ∷ s) ≡ escape_ascii b ++ escape zero s = rw (low, escape) refl in
      rw (here, append_assoc) (unescape-ascii b _ (ground arith) ∙ ap (in_front (b ∷ [])) rest)
  | inr high ↦
      let k = rune_size (b ∷ s) in
      let more : (k == 1) ≡ false = ground arith in
      let size : suc (k - 1) ≡ k = omega (arith, rune_size-positive (b ∷ s)) in
      let rest = unescape-escape_from (k - 1) s x (ground arith) in
      let here : escape zero (b ∷ s) ≡ escape_rune (b ∷ s) ++ escape (k - 1) s =
        rw (high, escape) refl in
      rw (here, append_assoc)
        (unescape-rune (b ∷ s) (escape (k - 1) s ++ b'"' ∷ x) more
          ∙ ap (λ i. unescape between (take i (b ∷ s) ++ (escape (k - 1) s ++ b'"' ∷ x))) (sym size)
          ∙ unescape-plain b (take (k - 1) s ++ (escape (k - 1) s ++ b'"' ∷ x)) (ground arith)
              (ground arith)
          ∙ ap (in_front (b ∷ [])) rest)
]

-- A reader of JSON strings, set behind the opening quote, reads back each valid UTF-8 text that
-- encoding/json writes, up to the closing quote, and leaves what follows it.
pub unescape-escape :
    (s x : Bytes)
    → valid_utf8_from 0 s ≡ true
    → unescape between (escape 0 s ++ b'"' ∷ x) ≡ some (s, x)
unescape-escape s x h = unescape-escape_from 0 s x h

-- Texts that are written alike are alike, and so is what follows them.
pub escape_inj :
    (s t x y : Bytes)
    → valid_utf8_from 0 s ≡ true
    → valid_utf8_from 0 t ≡ true
    → escape 0 s ++ b'"' ∷ x ≡ escape 0 t ++ b'"' ∷ y
    → (s ≡ t) × (x ≡ y)
escape_inj s t x y hs ht e =
    let same = sym (unescape-escape s x hs) ∙ ap (unescape between) e ∙ unescape-escape t y ht in
    (cc same, cc same)
