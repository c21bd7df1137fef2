-- ===== src/Chatlog/Durable/Texts.antt =====
-- The hashes that internal/chatlog/log.go gives to its store are texts of ASCII, which a `text` column
-- of ScyllaDB takes.
use decentralized_messenger.Common.{
  ℕ, zero, suc, ◌+◌, List, [], ◌∷◌, ◌++◌, arith, Bytes, drop, replicate, All,
}
use decentralized_messenger.Codec.Hex.{hex_encode-ascii}
use decentralized_messenger.Codec.Json.Utf8.{IsAscii}
use decentralized_messenger.Hash.{IsSized}
use decentralized_messenger.Models.{LogEntry, genesis_hash, compute_hash}
use decentralized_messenger.Merkle.Ascii.{IsAsciiText}
use decentralized_messenger.Chatlog.{Ports, hashes}
use decentralized_messenger.Chatlog.Chain.{IsChain, tip_hash}

replicate-ascii : (n c : ℕ) → IsAscii c → IsAsciiText (replicate n c)
replicate-ascii zero c h = tt
replicate-ascii (suc n) c h = (h, replicate-ascii n c h)

pub genesis_hash-ascii : IsAsciiText genesis_hash
genesis_hash-ascii = replicate-ascii 64 b'0' (omega arith)

module _ (sha256 : Bytes → Bytes) (sized : IsSized sha256) where
  pub compute_hash-ascii : (e : LogEntry) → IsAsciiText (compute_hash sha256 e)
  unfolding compute_hash
  compute_hash-ascii e = hex_encode-ascii _ (sized.bytes _)

pub hashes-append_ascii :
    (es : List LogEntry) (e : LogEntry)
    → All IsAsciiText (hashes es)
    → IsAsciiText e.entry_hash
    → All IsAsciiText (hashes (es ++ e ∷ []))
hashes-append_ascii [] e h new = (new, tt)
hashes-append_ascii (f ∷ es) e (first, h) new = (first, hashes-append_ascii es e h new)

pub hashes-drop_ascii :
    (n : ℕ) (es : List LogEntry)
    → All IsAsciiText (hashes es)
    → All IsAsciiText (hashes (drop n es))
hashes-drop_ascii zero es h = h
hashes-drop_ascii (suc n) [] h = tt
hashes-drop_ascii (suc n) (e ∷ es) (_, h) = hashes-drop_ascii n es h

pub tip_hash-ascii :
    (prev : Bytes) (es : List LogEntry)
    → IsAsciiText prev
    → All IsAsciiText (hashes es)
    → IsAsciiText (tip_hash prev es)
tip_hash-ascii prev [] h hs = h
tip_hash-ascii prev (e ∷ es) h (he, hs) = tip_hash-ascii e.entry_hash es he hs

module _ {S C B : Type 0} (ports : Ports S C B) (sized : IsSized ports.sha256) where
  pub hashes-ascii :
      (i : ℕ) (prev : Bytes) (es : List LogEntry)
      → IsChain ports i prev es
      → All IsAsciiText (hashes es)
  hashes-ascii i prev [] chain = tt
  hashes-ascii i prev (e ∷ es) (link, chain) = (
    rw link.hashed at (compute_hash-ascii ports.sha256 sized e),
    hashes-ascii (i + 1) e.entry_hash es chain,
  )
