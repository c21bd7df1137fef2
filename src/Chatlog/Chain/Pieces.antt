-- ===== src/Chatlog/Chain/Pieces.antt =====
-- The parts of a chain of entries of internal/chatlog/log.go, and the hashes at which they begin.
use decentralized_messenger.Common.{
  ℕ, zero, suc, ◌+◌, ◌≤◌, ◌≡◌, refl, List, [], ◌∷◌, some, arith, Bytes, length, take, drop,
  get_elem?, last?,
}
use decentralized_messenger.Models.{LogEntry}
use decentralized_messenger.Chatlog.{Ports, hashes}
use decentralized_messenger.Chatlog.Chain.{IsLink, IsChain, tip_hash}

-- The tip hash behind some entries is that of the last one.
pub tip_hash-last? :
    (p : Bytes) (e : LogEntry) (es : List LogEntry)
    → (f : LogEntry) × (last? (e ∷ es) ≡ some f) × (tip_hash p (e ∷ es) ≡ f.entry_hash)
tip_hash-last? p e [] = (e, refl, refl)
tip_hash-last? p e (f ∷ es) = tip_hash-last? e.entry_hash f es

pub tip_hash-take :
    (p : Bytes) (es : List LogEntry) (i : ℕ) (h : Bytes)
    → get_elem? (hashes es) i ≡ some h
    → tip_hash p (take (suc i) es) ≡ h
tip_hash-take p [] i h e = absurd (cc)
tip_hash-take p (f ∷ es) zero h e = cc
tip_hash-take p (f ∷ es) (suc i) h e = tip_hash-take f.entry_hash es i h e

module _ {S C B : Type 0} (ports : Ports S C B) where
  -- The end of a chain is a chain from the hash before it.
  pub IsChain-drop :
      (i : ℕ) (p : Bytes) (es : List LogEntry) (n : ℕ)
      → n ≤ length es
      → IsChain ports i p es
      → IsChain ports (i + n) (tip_hash p (take n es)) (drop n es)
  IsChain-drop i p es zero h x = let e : i + 0 ≡ i = omega arith in rw e x
  IsChain-drop i p [] (suc n) h x = absurd (omega arith)
  IsChain-drop i p (e ∷ es) (suc n) h (_, x) =
      let at : i + suc n ≡ i + 1 + n = omega arith in
      rw at (IsChain-drop (i + 1) e.entry_hash es n (omega arith) x)

  pub tip_hash-drop :
      (p : Bytes) (es : List LogEntry) (n : ℕ)
      → n ≤ length es
      → tip_hash (tip_hash p (take n es)) (drop n es) ≡ tip_hash p es
  tip_hash-drop p es zero h = refl
  tip_hash-drop p [] (suc n) h = absurd (omega arith)
  tip_hash-drop p (e ∷ es) (suc n) h = tip_hash-drop e.entry_hash es n (omega arith)

  -- The entry at a position of a chain is in order behind the one before it.
  pub IsChain-get_elem? :
      (i : ℕ) (p : Bytes) (es : List LogEntry) (j : ℕ) (e : LogEntry)
      → IsChain ports i p es
      → get_elem? es j ≡ some e
      → IsLink ports (i + j) (tip_hash p (take j es)) e
  IsChain-get_elem? i p [] j e x at = absurd (cc)
  IsChain-get_elem? i p (f ∷ es) zero e (x, _) at =
      let n : i + 0 ≡ i = omega arith in let same : f ≡ e = cc in rw (n, ← same) x
  IsChain-get_elem? i p (f ∷ es) (suc j) e (_, x) at =
      let n : i + suc j ≡ i + 1 + j = omega arith in
      rw n (IsChain-get_elem? (i + 1) f.entry_hash es j e x at)
