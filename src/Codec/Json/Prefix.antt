-- ===== src/Codec/Json/Prefix.antt =====
-- Texts of Go's encoding/json in front of others: what a map is written as says where it ends and
-- which map it was.
use decentralized_messenger.Common.{
  ℕ, ◌≡◌, refl, sym, ap, ◌∙◌, true, List, [], ◌∷◌, ◌++◌, append_assoc, arith, Bytes, All,
}
use decentralized_messenger.Codec.Json.{
  escape, marshal_string, marshal_pair, marshal_rest, marshal_sorted,
}
use decentralized_messenger.Codec.Json.Utf8.{valid_utf8}
use decentralized_messenger.Codec.Json.Unescape.{escape_inj}

marshal_string_lem : (s x : Bytes) → marshal_string s ++ x ≡ b'"' ∷ (escape 0 s ++ b'"' ∷ x)
unfolding marshal_string
marshal_string_lem s x = ap (◌∷◌ b'"') (append_assoc (escape 0 s) (b'"' ∷ []) x)

-- A text in JSON, in front of others, says which text it is and where it ends.
pub marshal_string_inj :
    (s t x y : Bytes)
    → valid_utf8 s ≡ true
    → valid_utf8 t ≡ true
    → marshal_string s ++ x ≡ marshal_string t ++ y
    → (s ≡ t) × (x ≡ y)
marshal_string_inj s t x y hs ht e =
    let same = sym (marshal_string_lem s x) ∙ e ∙ marshal_string_lem t y in
    escape_inj s t x y hs ht (cc)

regroup : (a b r s x y : Bytes) → (a ++ r) ++ x ≡ (b ++ s) ++ y → a ++ (r ++ x) ≡ b ++ (s ++ y)
regroup a b r s x y e = sym (append_assoc a r x) ∙ e ∙ append_assoc b s y

-- A key and a value of valid UTF-8.
abbrev pub IsText : Bytes × Bytes → Type 0
IsText (k, v) = (valid_utf8 k ≡ true) × (valid_utf8 v ≡ true)

marshal_pair_inj :
    (p q : Bytes × Bytes) (x y : Bytes)
    → IsText p
    → IsText q
    → marshal_pair p ++ x ≡ marshal_pair q ++ y
    → (p ≡ q) × (x ≡ y)
unfolding marshal_pair
marshal_pair_inj (k, v) (l, w) x y (hk, hv) (hl, hw) e =
    let whole = regroup (marshal_string k) (marshal_string l) _ _ x y e in
    let (key, rest) = marshal_string_inj k l _ _ hk hl whole in
    let (val, rest') = marshal_string_inj v w x y hv hw (cc) in (cc, rest')

head_inj : (a b : ℕ) (x y : Bytes) → a ∷ x ≡ b ∷ y → a ≡ b
head_inj a b x y e = cc

-- A map that ends here does not go on there.
brace-comma : (x y : Bytes) → b'}' ∷ x ≡ b',' ∷ y → ⊥
brace-comma x y e = omega (arith, head_inj b'}' b',' x y e)

marshal_rest_inj :
    (ps qs : List (Bytes × Bytes)) (x y : Bytes)
    → All IsText ps
    → All IsText qs
    → marshal_rest ps ++ x ≡ marshal_rest qs ++ y
    → (ps ≡ qs) × (x ≡ y)
unfolding marshal_rest
marshal_rest_inj [] [] x y hp hq e = (refl, cc)
marshal_rest_inj [] (q ∷ qs) x y hp hq e =
    absurd (brace-comma x (marshal_pair q ++ marshal_rest qs ++ y) e)
marshal_rest_inj (p ∷ ps) [] x y hp hq e =
    absurd (brace-comma y (marshal_pair p ++ marshal_rest ps ++ x) (sym e))
marshal_rest_inj (p ∷ ps) (q ∷ qs) x y (hp, hps) (hq, hqs) e =
    let whole =
      regroup (marshal_pair p) (marshal_pair q) (marshal_rest ps) (marshal_rest qs) x y (cc) in
    let (first, rest) = marshal_pair_inj p q _ _ hp hq whole in
    let (others, rest') = marshal_rest_inj ps qs x y hps hqs rest in (cc, rest')

-- Two maps that are not empty, of valid UTF-8, which are written alike in front of some texts are
-- the same pairs, and so are the texts.
pub marshal_sorted_inj :
    (p q : Bytes × Bytes) (ps qs : List (Bytes × Bytes)) (x y : Bytes)
    → All IsText (p ∷ ps)
    → All IsText (q ∷ qs)
    → marshal_sorted (p ∷ ps) ++ x ≡ marshal_sorted (q ∷ qs) ++ y
    → (p ∷ ps ≡ q ∷ qs) × (x ≡ y)
unfolding marshal_sorted
marshal_sorted_inj p q ps qs x y (hp, hps) (hq, hqs) e =
    let whole =
      regroup (marshal_pair p) (marshal_pair q) (marshal_rest ps) (marshal_rest qs) x y (cc) in
    let (first, rest) = marshal_pair_inj p q _ _ hp hq whole in
    let (others, rest') = marshal_rest_inj ps qs x y hps hqs rest in (cc, rest')

-- A map is written alike for two first values that are written alike.
pub marshal_sorted_first :
    (k v w : Bytes) (ps : List (Bytes × Bytes))
    → marshal_string v ≡ marshal_string w
    → marshal_sorted ((k, v) ∷ ps) ≡ marshal_sorted ((k, w) ∷ ps)
unfolding marshal_sorted marshal_pair
marshal_sorted_first k v w ps e =
    ap (λ x. b'{' ∷ (marshal_string k ++ b':' ∷ x) ++ marshal_rest ps) e
