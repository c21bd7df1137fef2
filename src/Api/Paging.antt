-- ===== src/Api/Paging.antt =====
-- A client that reads a chat page by page over `handleHistory` of internal/api/server.go.
use decentralized_messenger.Common.{
  ℕ, zero, suc, ◌+◌, ◌-◌, ◌^◌, ◌<◌, ◌≡◌, refl, sym, ap, ◌∙◌, true, false, List, [], ◌∷◌, ◌++◌,
  append-nil, none, some, inl, inr, Bool-cases, arith, ltb, ◌==◌, if◌then◌else◌, Bytes, length,
  length-take, length-drop, take, drop, take_all, drop_all, take-append-drop, get_elem?,
  get_elem?-some, get_elem?-take, get_elem?-drop,
}
use decentralized_messenger.Models.{LogEntry, genesis_hash}
use decentralized_messenger.Storage.{IsStorage}
use decentralized_messenger.Chatlog.{Ports, Log, next_u64}
use decentralized_messenger.Chatlog.Chain.{IsChain}
use decentralized_messenger.Chatlog.Chain.Pieces.{IsChain-get_elem?}
use decentralized_messenger.Chatlog.Invariant.{IsWellFormed}
use decentralized_messenger.Chatlog.Replay.{history_lem}
use decentralized_messenger.Api.{
  success, failure, next_from, history_page, handle_history, parse_uint_query, max_history_limit,
  default_history_limit,
}
use decentralized_messenger.Codec.Decimal.{
  u64, format_uint, length-format_uint-positive, parse_uint-format_uint,
}

module _ {S C B : Type 0} (ports : Ports S C B) where
  -- The client asks for at most so many pages, each from the cursor of the one before.
  unfoldable pub read_pages : ℕ → Log S C B → Bytes → ℕ → ℕ → List LogEntry
  read_pages zero l chat_id limit from = []
  read_pages (suc pages) l chat_id limit from =
      elim (handle_history ports l chat_id (format_uint from) (format_uint limit)) [
        | failure status ↦ []
        | success status page ↦
            page.messages
            ++ elim page.next_from [ none ↦ [] | some next ↦ read_pages pages l chat_id limit next ]
      ]

not_zero : (n : ℕ) → 0 < n → (n == 0) ≡ false
not_zero n h = ground arith

drop-drop : {A : Type 0} (m n : ℕ) (xs : List A) → drop m (drop n xs) ≡ drop (n + m) xs
drop-drop m zero xs = ap (λ k. drop k xs) (omega arith)
drop-drop m (suc n) [] = drop_all m [] (omega arith) ∙ sym (drop_all (suc n + m) [] (omega arith))
drop-drop m (suc n) (x ∷ xs) =
    drop-drop m n xs ∙ ap (λ k. drop k (x ∷ xs)) {x = suc (n + m)} (omega arith)

module _ {S C B : Type 0} (ports : Ports S C B) where
  -- The cursor behind a page of a chain.
  next_from-page :
      (es : List LogEntry) (from limit : ℕ)
      → IsChain ports 0 genesis_hash es
      → length es < 2 ^ 63
      → 0 < limit
      → next_from limit (take limit (drop from es))
        ≡ (if ltb (length es) (from + limit) then none else some (from + limit))
  unfolding next_from next_u64
  next_from-page es from limit chain fits pos =
      let size = length-take limit (drop from es) in
      let left = length-drop from es in
      elim (Bool-cases (ltb (length es) (from + limit))) [
        | inl short ↦
            let test : (length (take limit (drop from es)) == limit) ≡ false = ground arith in
            rw (short, test) refl
        | inr full ↦
            let n : length (take limit (drop from es)) ≡ limit = ground arith in
            let (e, at) = get_elem?-some es (from + (limit - 1)) (ground arith) in
            let last : get_elem? (take limit (drop from es)) (limit - 1) ≡ some e =
              get_elem?-take limit (drop from es) (limit - 1) (omega arith)
              ∙ get_elem?-drop from es (limit - 1)
              ∙ at in
            let link = IsChain-get_elem? ports 0 genesis_hash es (from + (limit - 1)) e chain at in
            rw (full, n, last) (ground (arith, link.position))
      ]

parse_uint_query-format_uint :
    (v fallback : ℕ) → v < u64 → parse_uint_query (format_uint v) fallback ≡ some v
unfolding parse_uint_query
parse_uint_query-format_uint v fallback h =
    let written : (length (format_uint v) == 0) ≡ false =
      not_zero (length (format_uint v)) (length-format_uint-positive v h) in
    rw written (parse_uint-format_uint v h)

-- How many entries a page has at most.
abbrev most : ℕ → ℕ
most limit = if ltb max_history_limit limit then max_history_limit else limit

module _ {S C B : Type 0} (ports : Ports S C B) (laws : IsStorage ports.storage) where
  history_page_lem :
      (l : Log S C B) (c : Bytes) (limit from : ℕ)
      → IsWellFormed ports laws l
      → length (laws.entries l.store c) < 2 ^ 63
      → 0 < limit
      → history_page ports l c from limit
        ≡ success 200 (record {
          messages = take (most limit) (drop from (laws.entries l.store c));
          next_from =
              if ltb (length (laws.entries l.store c)) (from + most limit)
              then none
              else some (from + most limit);
        })
  unfolding history_page
  history_page_lem l c limit from wf fits pos =
      let some_entries : 0 < most limit = ground arith in
      let test : ltb 0 (most limit) ≡ true = ground arith in
      rw (history_page, history_lem ports laws l c from (most limit))
        (rw test (
          rw
            (next_from-page ports (laws.entries l.store c) from (most limit) (wf.chain c) fits
              some_entries)
            refl))

  -- The response to a request for a page, with its numbers in decimal.
  handle_history_lem :
      (l : Log S C B) (c : Bytes) (limit from : ℕ)
      → IsWellFormed ports laws l
      → length (laws.entries l.store c) < 2 ^ 63
      → 0 < limit
      → limit < u64
      → from < u64
      → handle_history ports l c (format_uint from) (format_uint limit)
        ≡ success 200 (record {
          messages = take (most limit) (drop from (laws.entries l.store c));
          next_from =
              if ltb (length (laws.entries l.store c)) (from + most limit)
              then none
              else some (from + most limit);
        })
  unfolding handle_history
  handle_history_lem l c limit from wf fits pos h h' =
      let asks : (limit == 0) ≡ false = ground arith in
      rw (handle_history, parse_uint_query-format_uint from 0 h')
        (rw (handle_history, parse_uint_query-format_uint limit default_history_limit h)
          (rw (handle_history, asks) (history_page_lem l c limit from wf fits pos)))

  read_pages_from :
      (pages : ℕ) (l : Log S C B) (c : Bytes) (limit from : ℕ)
      → IsWellFormed ports laws l
      → length (laws.entries l.store c) < 2 ^ 63
      → 0 < limit
      → limit < u64
      → from < u64
      → length (laws.entries l.store c) < from + pages
      → read_pages ports pages l c limit from ≡ drop from (laws.entries l.store c)
  unfolding read_pages
  read_pages_from zero l c limit from wf fits pos h h' enough =
      sym (drop_all from (laws.entries l.store c) (omega arith))
  read_pages_from (suc pages) l c limit from wf fits pos h h' enough =
      let es = laws.entries l.store c in
      let some_entries : 0 < most limit = ground arith in
      rw (read_pages, handle_history_lem l c limit from wf fits pos h h')
        (elim (Bool-cases (ltb (length es) (from + most limit))) [
          | inl short ↦ rw short (
              append-nil _
              ∙ take_all (most limit) (drop from es) (ground (arith, length-drop from es)))
          | inr full ↦ rw full (
              ap (λ rest. take (most limit) (drop from es) ++ rest)
                (read_pages_from pages l c limit (from + most limit) wf fits pos h (ground arith)
                    (omega arith)
                  ∙ sym (drop-drop (most limit) from es))
              ∙ take-append-drop (most limit) (drop from es))
        ])

  -- On a log that keeps the invariant, a client of handleHistory that starts at 0 and follows the
  -- cursors reads the whole chat, in order, with any positive limit below 2^64 and with more pages
  -- than there are entries. The log has fewer than 2^63 entries. The store keeps the contract of
  -- its port.
  pub read_pages_lem :
      (pages : ℕ) (l : Log S C B) (c : Bytes) (limit : ℕ)
      → IsWellFormed ports laws l
      → length (laws.entries l.store c) < 2 ^ 63
      → 0 < limit
      → limit < u64
      → length (laws.entries l.store c) < pages
      → read_pages ports pages l c limit 0 ≡ laws.entries l.store c
  read_pages_lem pages l c limit wf fits pos h enough =
      read_pages_from pages l c limit 0 wf fits pos h (omega arith) (omega arith)
