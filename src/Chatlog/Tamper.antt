-- ===== src/Chatlog/Tamper.antt =====
-- What the current hash of a log commits to, for `Verify` of internal/chatlog/log.go.
use mathlib.Core.List.{Memᴰ}
use mathlib.Core.List.Memᴰ
use decentralized_messenger.Common.{
  ℕ, suc, ◌+◌, ◌^◌, ◌<◌, ◌≡◌, ◌≢◌, refl, sym, ap, ◌∙◌, ◌⊎◌, inl, inr, true, List, [], ◌∷◌, ◌++◌,
  map, arith, Bytes, length, All,
}
use decentralized_messenger.Codec.Decimal.{u64}
use decentralized_messenger.Hash.{
  IsSized, Collision, Collision-mono, Collision-append_left, Collision-append_right,
}
use decentralized_messenger.Result.{ok}
use decentralized_messenger.Models.{LogEntry, genesis_hash, signing_payload}
use decentralized_messenger.Models.Binding.{IsReadable, SaysTheSame, signing_payload_inj}
use decentralized_messenger.Models.Chaining.{entry_texts, compute_hash_inj}
use decentralized_messenger.Storage.{IsStorage}
use decentralized_messenger.Chatlog.{Ports, Log, VerifyResult, hashes}
use decentralized_messenger.Chatlog.Queries.{verify}
use decentralized_messenger.Chatlog.Chain.{IsLink, IsChain, tip_hash, verify_lem}

-- The text of an entry that its author signed, with the signature.
abbrev pub signed_text : LogEntry → Bytes
signed_text e = signing_payload e.message ++ e.message.signature

-- The texts that `ComputeHash` hashes for the entries of a log.
abbrev pub log_texts : (Bytes → Bytes) → List LogEntry → List Bytes
log_texts sha256 [] = []
log_texts sha256 (e ∷ es) = entry_texts sha256 e ++ log_texts sha256 es

module _ {S C B : Type 0} (ports : Ports S C B) (sized : IsSized ports.sha256) where
  -- Two entries in order, with one hash.
  IsLink-inj :
      (i j : ℕ) (p q : Bytes) (e f : LogEntry)
      → IsLink ports i p e
      → IsLink ports j q f
      → i < u64
      → j < u64
      → e.entry_hash ≡ f.entry_hash
      → ((i ≡ j) × (p ≡ q) × (signed_text e ≡ signed_text f))
        ⊎ Collision ports.sha256 (entry_texts ports.sha256 e) (entry_texts ports.sha256 f)
  IsLink-inj i j p q e f x y hi hj same =
      elim (compute_hash_inj ports.sha256 sized e f (omega (arith, x.position))
        (omega (arith, y.position)) (x.hashed ∙ same ∙ sym y.hashed)) [
          | inr found ↦ inr found
          | inl (at, prev, text) ↦
              inl (sym x.position ∙ at ∙ y.position, sym x.linked ∙ prev ∙ y.linked, text)
        ]

  -- The last entry of a chain is in order at the chain's last position.
  last-IsLink :
      (i : ℕ) (p : Bytes) (e : LogEntry) (es : List LogEntry)
      → IsChain ports i p (e ∷ es)
      → (q : Bytes) × (f : LogEntry) × IsLink ports (i + length es) q f
        × (tip_hash p (e ∷ es) ≡ f.entry_hash)
        × ((t : Bytes)
            → Memᴰ t (entry_texts ports.sha256 f)
            → Memᴰ t (log_texts ports.sha256 (e ∷ es)))
  last-IsLink i p e [] (x, _) =
      let n : i + 0 ≡ i = omega arith in (p, e, rw n x, refl, λ t m. Memᴰ.append_left [] m)
  last-IsLink i p e (f ∷ es) (_, chain) =
      let n : i + suc (length es) ≡ i + 1 + length es = omega arith in
      let (q, g, x, tip, among) = last-IsLink (i + 1) e.entry_hash f es chain in
      (q, g, rw n x, tip, λ t m. Memᴰ.append_right (entry_texts ports.sha256 e) (among t m))

  -- Chains of one length with one tip hash agree on every entry.
  IsChain-inj :
      (i : ℕ) (p q : Bytes) (es fs : List LogEntry)
      → IsChain ports i p es
      → IsChain ports i q fs
      → length es ≡ length fs
      → i + length es < u64
      → tip_hash p es ≡ tip_hash q fs
      → ((p ≡ q) × (hashes es ≡ hashes fs) × (map signed_text es ≡ map signed_text fs))
        ⊎ Collision ports.sha256 (log_texts ports.sha256 es) (log_texts ports.sha256 fs)
  IsChain-inj i p q [] [] x y h fits tip = inl (tip, refl, refl)
  IsChain-inj i p q [] (f ∷ fs) x y h fits tip = absurd (omega arith)
  IsChain-inj i p q (e ∷ es) [] x y h fits tip = absurd (omega arith)
  IsChain-inj i p q (e ∷ es) (f ∷ fs) (x, xs) (y, ys) h fits tip =
      elim (IsChain-inj (i + 1) e.entry_hash f.entry_hash es fs xs ys (omega arith) (omega arith)
        tip) [
          | inr found ↦ inr (
              Collision-append_right (entry_texts ports.sha256 e) (entry_texts ports.sha256 f)
                found)
          | inl (same, rest, texts) ↦
              elim (IsLink-inj i i p q e f x y (omega arith) (omega arith) same) [
                | inr found ↦ inr (
                    Collision-append_left (log_texts ports.sha256 es) (log_texts ports.sha256 fs)
                      found)
                | inl (_, prev, text) ↦ inl (prev, cc (same, rest), cc (text, texts))
              ]
        ]

  -- Chains with one tip hash agree on every entry, also if their lengths are not known to agree.
  IsChain-binding :
      (es fs : List LogEntry)
      → es ≢ []
      → fs ≢ []
      → IsChain ports 0 genesis_hash es
      → IsChain ports 0 genesis_hash fs
      → length es < 2 ^ 63
      → length fs < 2 ^ 63
      → tip_hash genesis_hash es ≡ tip_hash genesis_hash fs
      → ((hashes es ≡ hashes fs) × (map signed_text es ≡ map signed_text fs))
        ⊎ Collision ports.sha256 (log_texts ports.sha256 es) (log_texts ports.sha256 fs)
  IsChain-binding [] fs n m x y h k tip = absurd (n refl)
  IsChain-binding (e ∷ es) [] n m x y h k tip = absurd (m refl)
  IsChain-binding (e ∷ es) (f ∷ fs) n m x y h k tip =
      let (q, e', xl, te, me) = last-IsLink 0 genesis_hash e es x in
      let (r, f', yl, tf, mf) = last-IsLink 0 genesis_hash f fs y in
      elim (IsLink-inj (0 + length es) (0 + length fs) q r e' f' xl yl (omega arith) (omega arith)
        (sym te ∙ tip ∙ tf)) [
          | inr found ↦ inr (Collision-mono me mf found)
          | inl (at, _, _) ↦
              elim (IsChain-inj 0 genesis_hash genesis_hash (e ∷ es) (f ∷ fs) x y
                (omega (arith, at)) (omega arith) tip) [
                  | inr found ↦ inr found
                  | inl (_, hs, texts) ↦ inl (hs, texts)
                ]
        ]

-- Entries that say the same in the same order, with the same signatures.
abbrev pub SayTheSame : List LogEntry → List LogEntry → Type 0
SayTheSame [] [] = Unit
SayTheSame (e ∷ es) (f ∷ fs) =
    SaysTheSame e.message f.message × (e.message.signature ≡ f.message.signature) × SayTheSame es fs
SayTheSame _ _ = ⊥

abbrev pub AreReadable : List LogEntry → Type 0
AreReadable es = All (λ e. IsReadable e.message) es

-- Signed texts with signatures determine what is said.
signed_text-SayTheSame :
    (es fs : List LogEntry)
    → AreReadable es
    → AreReadable fs
    → map signed_text es ≡ map signed_text fs
    → SayTheSame es fs
signed_text-SayTheSame [] [] h k same = tt
signed_text-SayTheSame [] (f ∷ fs) h k same = absurd (omega (arith, ap length same))
signed_text-SayTheSame (e ∷ es) [] h k same = absurd (omega (arith, ap length same))
signed_text-SayTheSame (e ∷ es) (f ∷ fs) (he, hes) (hf, hfs) same =
    let (message, signature) =
      signing_payload_inj e.message f.message e.message.signature f.message.signature he hf (cc) in
    (message, signature, signed_text-SayTheSame es fs hes hfs (cc))

module _ {S C B : Type 0} (ports : Ports S C B) (laws : IsStorage ports.storage)
    (sized : IsSized ports.sha256) where
  -- The entry hashes and the signed texts of logs that `Verify` calls valid.
  verify_binding_texts :
      (l l' : Log S C B) (c : Bytes) (r r' : VerifyResult)
      → laws.entries l.store c ≢ []
      → laws.entries l'.store c ≢ []
      → length (laws.entries l.store c) < 2 ^ 63
      → length (laws.entries l'.store c) < 2 ^ 63
      → verify ports l c ≡ ok r
      → r.valid ≡ true
      → verify ports l' c ≡ ok r'
      → r'.valid ≡ true
      → tip_hash genesis_hash (laws.entries l.store c)
        ≡ tip_hash genesis_hash (laws.entries l'.store c)
      → ((hashes (laws.entries l.store c) ≡ hashes (laws.entries l'.store c))
          × (map signed_text (laws.entries l.store c) ≡ map signed_text (laws.entries l'.store c)))
        ⊎ Collision ports.sha256
            (log_texts ports.sha256 (laws.entries l.store c))
            (log_texts ports.sha256 (laws.entries l'.store c))
  verify_binding_texts l l' c r r' n n' h h' done valid done' valid' tip =
      let (q, at, (sound, _), _) = verify_lem ports laws l c in
      let (q', at', (sound', _), _) = verify_lem ports laws l' c in
      let same : q ≡ r = cc in
      let same' : q' ≡ r' = cc in
      IsChain-binding ports sized (laws.entries l.store c) (laws.entries l'.store c) n n'
        (sound (ap (λ (x : VerifyResult). x.valid) same ∙ valid))
        (sound' (ap (λ (x : VerifyResult). x.valid) same' ∙ valid')) h h' tip

  -- Two non-empty logs of a chat that Verify calls valid and whose current hashes agree hold the
  -- same entry hashes, and their messages agree one by one on every signed field, the time up to
  -- its text, and on the signature, or one of the texts hashed for the entries of one log and a
  -- different one hashed for the other have one SHA-256 digest. The lengths are below 2^63. The
  -- messages have valid UTF-8, bytes and an int as their version. Digests are of 32 bytes. The
  -- store keeps the contract of its port.
  pub verify_binding :
      (l l' : Log S C B) (c : Bytes) (r r' : VerifyResult)
      → laws.entries l.store c ≢ []
      → laws.entries l'.store c ≢ []
      → length (laws.entries l.store c) < 2 ^ 63
      → length (laws.entries l'.store c) < 2 ^ 63
      → AreReadable (laws.entries l.store c)
      → AreReadable (laws.entries l'.store c)
      → verify ports l c ≡ ok r
      → r.valid ≡ true
      → verify ports l' c ≡ ok r'
      → r'.valid ≡ true
      → tip_hash genesis_hash (laws.entries l.store c)
        ≡ tip_hash genesis_hash (laws.entries l'.store c)
      → ((hashes (laws.entries l.store c) ≡ hashes (laws.entries l'.store c))
          × SayTheSame (laws.entries l.store c) (laws.entries l'.store c))
        ⊎ Collision ports.sha256
            (log_texts ports.sha256 (laws.entries l.store c))
            (log_texts ports.sha256 (laws.entries l'.store c))
  verify_binding l l' c r r' n n' h h' read read' done valid done' valid' tip =
      elim (verify_binding_texts l l' c r r' n n' h h' done valid done' valid' tip) [
        | inr found ↦ inr found
        | inl (hs, texts) ↦ inl (
          hs,
          signed_text-SayTheSame (laws.entries l.store c) (laws.entries l'.store c) read read'
              texts,
        )
      ]
