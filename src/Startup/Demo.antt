-- ===== src/Startup/Demo.antt =====
-- The demonstration of cmd/messenger/main.go.
use decentralized_messenger.Common.{
  ℕ, zero, suc, ◌+◌, ◌*◌, ◌/◌, ◌^◌, ◌<◌, ◌≡◌, refl, sym, ap, ◌∙◌, true, List, [], ◌∷◌, map, arith,
  if◌then◌else◌, Bytes, length, length-append, length-drop, take, bytes_eq,
}
use mathlib.Core.Path.{subst}
use decentralized_messenger.Result.{Result, ok, err, ◌>>=◌}
use decentralized_messenger.Hash.{IsSized, length-hex_digest}
use decentralized_messenger.Models.{
  SignedMessage, LogEntry, genesis_hash, compute_hash, new_message,
}
use decentralized_messenger.Crypto.Keys.{
  IsEd25519, signed_by, sign_message-ok, verify_message, verify_message-signed_by,
  generate_key_pair,
}
use decentralized_messenger.Storage.{IsStorage}
use decentralized_messenger.Chatlog.{Ports, Log, supported_version, append_message}
use decentralized_messenger.Chatlog.Chain.{IsChain, tip_hash, verify_lem}
use decentralized_messenger.Chatlog.Append.{next_entry}
use decentralized_messenger.Chatlog.Invariant.{IsWellFormed}
use decentralized_messenger.Chatlog.Invariant.Effect.{IsAccepted, append_message-Effect}
use decentralized_messenger.Chatlog.Invariant.Preserved.{append_message-IsWellFormed}
use decentralized_messenger.Chatlog.Replay.{sync_lem}
use decentralized_messenger.Service.{submit}
use decentralized_messenger.Startup.{
  Reading, DemoReport, demo_chat, unsigned_message, printed, demo_message, hash_prefix, add_line,
  demo_loop, submit_signed, demo_report, after_line, finish_demo, run_demo,
}
use decentralized_messenger.Chatlog.{make_entry}

-- Numbers that follow one another.
abbrev pub count_from : ℕ → ℕ → List ℕ
count_from n zero = []
count_from n (suc k) = n ∷ count_from (n + 1) k

abbrev pub numbers : List (ℕ × Bytes) → List ℕ
numbers = map (λ line. line.0)

hash_prefix-ok : (h : Bytes) → length h ≡ 64 → hash_prefix h ≡ ok (take 16 h)
unfolding hash_prefix
hash_prefix-ok h e = ground arith

-- A report that the demonstration succeeded.
pub record IsSuccess (report : DemoReport) : Type 0 where
  pub appended : numbers report.appended ≡ 0 ∷ 1 ∷ 2 ∷ []
  pub valid : report.result.valid ≡ true
  pub entries : report.result.entries ≡ 3
  pub synced : report.new_entries ≡ 3
  pub status : report.exit_status ≡ 0

module _ {S C B : Type 0} (ports : Ports S C B) (laws : IsStorage ports.storage)
    (sized : IsSized ports.sha256) (signs : IsEd25519 ports.ed25519) where
  length-compute_hash : (e : LogEntry) → length (compute_hash ports.sha256 e) ≡ 64
  unfolding compute_hash
  length-compute_hash e = length-hex_digest ports.sha256 sized _

  length-tip_hash :
      (i : ℕ) (prev : Bytes) (es : List LogEntry)
      → length prev ≡ 64
      → IsChain ports i prev es
      → length (tip_hash prev es) ≡ 64
  length-tip_hash i prev [] h chain = h
  length-tip_hash i prev (e ∷ es) h (link, chain) =
      length-tip_hash (i + 1) e.entry_hash es (ap length (sym link.hashed) ∙ length-compute_hash e)
        chain

  module _ (k : Bytes) (key : signs.IsKey k) where
    abbrev round : ℕ → Reading → SignedMessage
    round i r = signed_by ports.ed25519 (unsigned_message (ports.ed25519.public k) i r) k

    demo_message-round :
        (i : ℕ) (r : Reading)
        → demo_message ports.ed25519 k (ports.ed25519.public k) i r ≡ ok (round i r)
    unfolding demo_message
    demo_message-round i r = sign_message-ok ports.ed25519 _ k (signs.length-private k key)

    round-signed : (i : ℕ) (r : Reading) → verify_message ports.ed25519 (round i r) ≡ true
    unfolding new_message
    round-signed i r =
        verify_message-signed_by ports.ed25519 signs (unsigned_message (ports.ed25519.public k) i r)
          k key refl

    round-supported : (i : ℕ) (r : Reading) → supported_version (round i r).schema_version ≡ true
    unfolding new_message supported_version
    round-supported i r = refl

    round-chat : (i : ℕ) (r : Reading) → (round i r).chat_id ≡ demo_chat
    unfolding new_message
    round-chat i r = refl

    -- One round on a chat of `n` entries: the message is appended at position `n`.
    module _ (i : ℕ) (r : Reading) (l : Log S C B) (wf : IsWellFormed ports laws l)
        (room : length (laws.entries l.store demo_chat) < 2 ^ 63) where
      abbrev after : Log S C B
      after = (append_message ports l (round i r) r.appended).1

      submit-append :
          submit ports l (round i r) 0 r.appended ≡ append_message ports l (round i r) r.appended
      unfolding submit
      submit-append = refl

      here : length (laws.entries l.store (round i r).chat_id) < 2 ^ 63
      here = rw (round-chat i r) room

      after-IsWellFormed : IsWellFormed ports laws after
      after-IsWellFormed = append_message-IsWellFormed ports laws l (round i r) r.appended wf here

      accepted : IsAccepted ports laws l (round i r)
      accepted = record { supported = round-supported i r; signed = round-signed i r; room = here }

      length-after :
          length (laws.entries after.store demo_chat) ≡ length (laws.entries l.store demo_chat) + 1
      unfolding new_message bytes_eq
      length-after =
          let eff = (append_message-Effect ports laws l (round i r) r.appended wf accepted).1 in
          ap length (eff.entries demo_chat) ∙ length-append (laws.entries l.store demo_chat) _

      abbrev line : ℕ × Bytes
      line = (
        length (laws.entries l.store (round i r).chat_id),
        take 16 (next_entry ports laws l (round i r)).entry_hash,
      )

      round-printed : printed (append_message ports l (round i r) r.appended).0 ≡ ok line
      unfolding make_entry
      round-printed =
          let result = (append_message-Effect ports laws l (round i r) r.appended wf accepted).0 in
          ap printed result
          ∙ ap (λ (p : Result Bytes). p >>= λ h. ok (line.0, h))
              (hash_prefix-ok _ (length-compute_hash _))

      demo_loop-round :
          (rs : List Reading)
          → demo_loop ports k (ports.ed25519.public k) i (r ∷ rs) l
            ≡ add_line ports line (demo_loop ports k (ports.ed25519.public k) (i + 1) rs after)
      unfolding demo_loop submit
      demo_loop-round rs =
          ap
            (λ signed.
              let (submitted, l') = submit_signed ports signed r.appended l in
              after_line ports (printed submitted) l'
                (demo_loop ports k (ports.ed25519.public k) (i + 1) rs l'))
            (demo_message-round i r)
          ∙ ap
              (λ x.
                after_line ports x after
                  (demo_loop ports k (ports.ed25519.public k) (i + 1) rs after))
              round-printed

    -- On a chat with room, the loop appends a message in each of its rounds.
    pub record Appends (n : ℕ) (most : ℕ) (run : Result (List (ℕ × Bytes)) × Log S C B)
        : Type 0 where
      pub lines : List (ℕ × Bytes)
      pub done : run.0 ≡ ok lines
      pub counted : numbers lines ≡ count_from n most
      pub formed : IsWellFormed ports laws run.1
      pub grown : length (laws.entries run.1.store demo_chat) ≡ n + most

    Appends-add_line :
        (line : ℕ × Bytes) (n m most : ℕ) (run : Result (List (ℕ × Bytes)) × Log S C B)
        → line.0 ≡ n
        → m ≡ n + 1
        → Appends m most run
        → Appends n (suc most) (add_line ports line run)
    Appends-add_line line n m most (err e, l') first next rest = let d = rest.done in cc
    Appends-add_line line n m most (ok lines, l') first next rest = record {
      lines = line ∷ rest.lines;
      done = (let d = rest.done in cc);
      counted = (let c = rest.counted in cc);
      formed = rest.formed;
      grown = omega (arith, rest.grown);
    }

    demo_loop_lem :
        (i : ℕ) (rs : List Reading) (l : Log S C B)
        → IsWellFormed ports laws l
        → length (laws.entries l.store demo_chat) + length rs < 2 ^ 63
        → Appends
            (length (laws.entries l.store demo_chat))
            (length rs)
            (demo_loop ports k (ports.ed25519.public k) i rs l)
    unfolding demo_loop
    demo_loop_lem i [] l wf room = record {
      lines = [];
      done = refl;
      counted = refl;
      formed = wf;
      grown = omega arith;
    }
    demo_loop_lem i (r ∷ rs) l wf room =
        let free : length (laws.entries l.store demo_chat) < 2 ^ 63 = omega arith in
        let grown = length-after i r l wf free in
        subst (Appends (length (laws.entries l.store demo_chat)) (suc (length rs)))
          (sym (demo_loop-round i r l wf free rs))
          (Appends-add_line (line i r l wf free) _ _ (length rs) _
            (ap (λ c. length (laws.entries l.store c)) (round-chat i r)) grown
            (demo_loop_lem (i + 1) rs (after i r l wf free) (after-IsWellFormed i r l wf free)
              (omega arith)))

    demo_report_lem :
        (l : Log S C B) (lines : List (ℕ × Bytes))
        → IsWellFormed ports laws l
        → length (laws.entries l.store demo_chat) ≡ 3
        → numbers lines ≡ 0 ∷ 1 ∷ 2 ∷ []
        → (report : DemoReport) × (demo_report ports l lines ≡ ok report) × IsSuccess report
    unfolding demo_report
    demo_report_lem l lines wf three h =
        let (r, verified, (_, complete), counted) = verify_lem ports laws l demo_chat in
        let (b, synced, catches) = sync_lem ports laws l demo_chat wf (omega arith) in
        let valid : r.valid ≡ true = complete (wf.chain demo_chat) in
        let long : length b.current_hash ≡ 64 =
          ap length catches.tip
          ∙ length-tip_hash 0 genesis_hash (laws.entries l.store demo_chat) refl
              (wf.chain demo_chat) in
        (
          record {
            appended = lines;
            result = r;
            new_entries = length b.new_entries;
            current_hash = take 16 b.current_hash;
            exit_status = if r.valid then 0 else 1;
          },
          rw (verified, synced, hash_prefix-ok b.current_hash long) refl,
          record {
            appended = h;
            valid = valid;
            entries = (rw valid at counted) ∙ three;
            synced = omega (
              arith,
              ap length catches.entries,
              length-drop (100 * (length (laws.entries l.store demo_chat) / 100))
                  (laws.entries l.store demo_chat),
            );
            status = rw valid refl;
          },
        )

    finish_demo-ok :
        (run : Result (List (ℕ × Bytes)) × Log S C B) (lines : List (ℕ × Bytes))
        → run.0 ≡ ok lines
        → (finish_demo ports run).0 ≡ demo_report ports run.1 lines
    unfolding finish_demo
    finish_demo-ok (err e, l) lines h = cc
    finish_demo-ok (ok ls, l) lines h = cc

    -- On a log that keeps the invariant, with no entries of the chat of the demonstration, runDemo
    -- with a key pair from the generator succeeds: it appends entries 0, 1 and 2, Verify calls the
    -- chat valid with 3 entries, Sync returns 3 new entries, and the exit status is 0. Digests are
    -- of 32 bytes and Ed25519 keeps its documented laws. The key is one of its generator. The
    -- store keeps the contract of its port.
    pub run_demo_lem :
        (l : Log S C B) (first second third : Reading)
        → IsWellFormed ports laws l
        → laws.entries l.store demo_chat ≡ []
        → (report : DemoReport) × ((run_demo ports (ok k) first second third l).0 ≡ ok report)
          × IsSuccess report
    unfolding run_demo finish_demo generate_key_pair
    run_demo_lem l first second third wf empty =
        let none : length (laws.entries l.store demo_chat) ≡ 0 = ap length empty in
        let run = demo_loop ports k (ports.ed25519.public k) 1 (first ∷ second ∷ third ∷ []) l in
        let loop : Appends 0 3 run =
          rw none at (demo_loop_lem 1 (first ∷ second ∷ third ∷ []) l wf (omega arith)) in
        let (report, reported, success) =
          demo_report_lem run.1 loop.lines loop.formed loop.grown loop.counted in
        (report, finish_demo-ok run loop.lines loop.done ∙ reported, success)
