-- ===== src/Codec/Base64.antt =====
-- `base64.StdEncoding.EncodeToString` of Go's encoding/base64: four digits for three bytes, padded
-- with `=`.
use decentralized_messenger.Common.{
  ℕ, ◌+◌, ◌-◌, ◌*◌, ◌/◌, ◌%◌, ◌≡◌, refl, [], ◌∷◌, ap, ◌∙◌, sym, false, leb, ◌<◌, arith, All, ltb,
  ◌==◌, if◌then◌else◌, Bytes, codes,
}
use decentralized_messenger.Codec.Hex.{IsByte}

base64_digit : ℕ → ℕ
base64_digit d =
    if ltb d 26
    then b'A' + d
    else if ltb d 52
    then b'a' + (d - 26)
    else if ltb d 62
    then b'0' + (d - 52)
    else if d == 62
    then b'+'
    else b'/'

unfoldable pub base64_encode : Bytes → Bytes
unfolding base64_digit
base64_encode [] = []
base64_encode (a ∷ []) = base64_digit (a / 4) ∷ base64_digit (a % 4 * 16) ∷ b'=' ∷ b'=' ∷ []
base64_encode (a ∷ b ∷ []) =
    base64_digit (a / 4)
    ∷ base64_digit (a % 4 * 16 + b / 16)
    ∷ base64_digit (b % 16 * 4)
    ∷ b'='
    ∷ []
base64_encode (a ∷ b ∷ c ∷ s) =
    base64_digit (a / 4)
    ∷ base64_digit (a % 4 * 16 + b / 16)
    ∷ base64_digit (b % 16 * 4 + c / 64)
    ∷ base64_digit (c % 64)
    ∷ base64_encode s

encode_example : base64_encode (codes "hello") ≡ codes "aGVsbG8="
unfolding base64_encode
encode_example = refl

base64_value : ℕ → ℕ
base64_value c =
    if leb b'a' c
    then c - b'a' + 26
    else if leb b'A' c
    then c - b'A'
    else if leb b'0' c
    then c - b'0' + 52
    else if c == b'+'
    then 62
    else 63

-- A reader of the encoding.
base64_decode : Bytes → Bytes
unfolding base64_value
base64_decode (p ∷ q ∷ r ∷ u ∷ s) =
    let rest = base64_decode s in
    let a = base64_value p * 4 + base64_value q / 16 in
    let b = base64_value q % 16 * 16 + base64_value r / 4 in
    let c = base64_value r % 4 * 64 + base64_value u in
    if r == b'=' then a ∷ [] else if u == b'=' then a ∷ b ∷ [] else a ∷ b ∷ c ∷ rest
base64_decode _ = []

base64_value-base64_digit : (d : ℕ) → d < 64 → base64_value (base64_digit d) ≡ d
unfolding base64_value base64_digit
base64_value-base64_digit d h = ground arith

base64_digit-ne : (d : ℕ) → (base64_digit d == b'=') ≡ false
unfolding base64_digit
base64_digit-ne d = ground arith

base64_digit_ascii : (d : ℕ) → d < 64 → base64_digit d < 128
unfolding base64_digit
base64_digit_ascii d h = ground arith

base64_decode-base64_encode : (s : Bytes) → All IsByte s → base64_decode (base64_encode s) ≡ s
unfolding base64_decode base64_encode
base64_decode-base64_encode [] h = refl
base64_decode-base64_encode (a ∷ []) (ha, _) =
    let p = base64_value-base64_digit (a / 4) (omega arith) in
    let q = base64_value-base64_digit (a % 4 * 16) (omega arith) in
    rw (p, q) (ap (λ x. x ∷ []) (omega arith))
base64_decode-base64_encode (a ∷ b ∷ []) (ha, (hb, _)) =
    let p = base64_value-base64_digit (a / 4) (omega arith) in
    let q = base64_value-base64_digit (a % 4 * 16 + b / 16) (omega arith) in
    let r = base64_value-base64_digit (b % 16 * 4) (omega arith) in
    let fst : a / 4 * 4 + (a % 4 * 16 + b / 16) / 16 ≡ a = omega arith in
    let snd : (a % 4 * 16 + b / 16) % 16 * 16 + b % 16 * 4 / 4 ≡ b = omega arith in
    rw (base64_digit-ne (b % 16 * 4), p, q, r, fst, snd) refl
base64_decode-base64_encode (a ∷ b ∷ c ∷ s) (ha, (hb, (hc, hs))) =
    let p = base64_value-base64_digit (a / 4) (omega arith) in
    let q = base64_value-base64_digit (a % 4 * 16 + b / 16) (omega arith) in
    let r = base64_value-base64_digit (b % 16 * 4 + c / 64) (omega arith) in
    let u = base64_value-base64_digit (c % 64) (omega arith) in
    let fst : a / 4 * 4 + (a % 4 * 16 + b / 16) / 16 ≡ a = omega arith in
    let snd : (a % 4 * 16 + b / 16) % 16 * 16 + (b % 16 * 4 + c / 64) / 4 ≡ b = omega arith in
    let thd : (b % 16 * 4 + c / 64) % 4 * 64 + c % 64 ≡ c = omega arith in
    rw
      (
        base64_digit-ne (b % 16 * 4 + c / 64),
        base64_digit-ne (c % 64),
        p,
        q,
        r,
        u,
        fst,
        snd,
        thd,
        base64_decode-base64_encode s hs,
      )
      refl

-- Two byte strings with one encoding are equal.
pub base64_encode_inj :
    (s t : Bytes) → All IsByte s → All IsByte t → base64_encode s ≡ base64_encode t → s ≡ t
base64_encode_inj s t hs ht e =
    sym (base64_decode-base64_encode s hs) ∙ ap base64_decode e ∙ base64_decode-base64_encode t ht

-- Four characters of the encoding in front of the rest.
quartet-ascii :
    (p q r u : ℕ) (s : Bytes)
    → p < 128
    → q < 128
    → r < 128
    → u < 128
    → All (λ c. c < 128) s
    → All (λ c. c < 128) (p ∷ q ∷ r ∷ u ∷ s)
quartet-ascii p q r u s hp hq hr hu hs = (hp, (hq, (hr, (hu, hs))))

pub base64_encode-ascii : (s : Bytes) → All IsByte s → All (λ c. c < 128) (base64_encode s)
unfolding base64_encode
base64_encode-ascii [] h = tt
base64_encode-ascii (a ∷ []) (ha, _) =
    quartet-ascii _ _ _ _ [] (base64_digit_ascii (a / 4) (omega arith))
      (base64_digit_ascii (a % 4 * 16) (omega arith)) (omega arith) (omega arith) tt
base64_encode-ascii (a ∷ b ∷ []) (ha, (hb, _)) =
    quartet-ascii _ _ _ _ [] (base64_digit_ascii (a / 4) (omega arith))
      (base64_digit_ascii (a % 4 * 16 + b / 16) (omega arith))
      (base64_digit_ascii (b % 16 * 4) (omega arith)) (omega arith) tt
base64_encode-ascii (a ∷ b ∷ c ∷ s) (ha, (hb, (hc, hs))) =
    quartet-ascii _ _ _ _ (base64_encode s) (base64_digit_ascii (a / 4) (omega arith))
      (base64_digit_ascii (a % 4 * 16 + b / 16) (omega arith))
      (base64_digit_ascii (b % 16 * 4 + c / 64) (omega arith))
      (base64_digit_ascii (c % 64) (omega arith)) (base64_encode-ascii s hs)
