-- ===== src/Chatlog/Locks/Schedule.antt =====
-- Any interleaving of concurrent calls of `Append` of internal/chatlog/log.go.
use decentralized_messenger.Common.{
  ℕ, suc, ◌+◌, ◌^◌, ◌<◌, ◌≤◌, ◌≡◌, refl, sym, ap, true, false, Bool, ◌&&◌, List, [], ◌∷◌, inl, inr,
  Bool-cases, arith, Bytes, bytes_eq, bytes_eq_iff, length,
}
use mathlib.Core.Path.{subst, subst₂}
use decentralized_messenger.Codec.Time.{Time}
use decentralized_messenger.Result.{ok}
use decentralized_messenger.Models.{SignedMessage}
use decentralized_messenger.Storage.{IsStorage}
use decentralized_messenger.Chatlog.{Ports, Log, VerifyResult}
use decentralized_messenger.Chatlog.Queries.{verify}
use decentralized_messenger.Chatlog.Chain.{verify_lem}
use decentralized_messenger.Chatlog.Reach.{IsEmpty, IsEmpty-IsWellFormed}
use decentralized_messenger.Chatlog.Locks.{
  Stage, idle, checked, positioned, written, notified, windowed, gathered, snapped, cached, is_free,
  advance, Node, Action, enter, proceed, set_stage, may_enter, act, act_all,
}
use decentralized_messenger.Chatlog.Locks.Stages.{IsAt, IsSound, IsAt-IsChain}
use decentralized_messenger.Chatlog.Locks.Advance.{
  Holds, advance-Holds, advance-other, length-advance-le,
}

and-true : (a b : Bool) → (a && b) ≡ true → (a ≡ true) × (b ≡ true)
and-true true b h = (refl, h)
and-true false b h = absurd (cc h)

module _ {S C B : Type 0} (ports : Ports S C B) (laws : IsStorage ports.storage) where
  -- Every chat is as the stage of its call says, and has at most `k` entries.
  pub record IsConsistent (k : ℕ) (n : Node S C B) : Type 0 where
    pub chats : (c : Bytes) → Holds ports laws c n.log (n.stage c)
    pub bound : (c : Bytes) → length (laws.entries n.log.store c) ≤ k

  idle-IsSound :
      (c : Bytes) (l : Log S C B) (s : Stage)
      → is_free s ≡ true
      → Holds ports laws c l s
      → IsSound ports c (laws.entries l.store c) (laws.snapshots l.store c)
  idle-IsSound c l idle h x = x
  idle-IsSound c l (checked msg now) h x = absurd (cc h)
  idle-IsSound c l (positioned msg now p i) h x = absurd (cc h)
  idle-IsSound c l (written e now) h x = absurd (cc h)
  idle-IsSound c l (notified e now) h x = absurd (cc h)
  idle-IsSound c l (windowed e now from index) h x = absurd (cc h)
  idle-IsSound c l (gathered e snap) h x = absurd (cc h)
  idle-IsSound c l (snapped e snap) h x = absurd (cc h)
  idle-IsSound c l (cached e) h x = absurd (cc h)

  -- A message that may enter leaves its chat as the stage behind the checks says.
  entered :
      (n : Node S C B) (msg : SignedMessage) (now : Time)
      → may_enter ports n msg ≡ true
      → Holds ports laws msg.chat_id n.log (n.stage msg.chat_id)
      → Holds ports laws msg.chat_id n.log (checked msg now)
  entered n msg now may x =
      let (supported, rest) = and-true _ _ may in
      let (signed, free) = and-true _ _ rest in
      (
        idle-IsSound msg.chat_id n.log (n.stage msg.chat_id) free x,
        record { chat = refl; supported = supported; signed = signed },
      )

  -- The chats of a log where one chat has come to another stage.
  set_stage-Holds :
      (c : Bytes) (s : Stage) (stage : Bytes → Stage) (l : Log S C B)
      → Holds ports laws c l s
      → ((d : Bytes) → bytes_eq c d ≡ false → Holds ports laws d l (stage d))
      → (d : Bytes) → Holds ports laws d l (set_stage c s stage d)
  set_stage-Holds c s stage l here there d = elim (Bool-cases (bytes_eq c d)) [
    | inl same ↦ rw same (subst (λ e. Holds ports laws e l s) ((bytes_eq_iff c d).0 same) here)
    | inr other ↦ rw other (there d other)
  ]

  act-IsConsistent :
      (k : ℕ) (n : Node S C B) (action : Action)
      → IsConsistent k n
      → k + 1 < 2 ^ 63
      → IsConsistent (k + 1) (act ports n action)
  unfolding act
  act-IsConsistent k n (enter msg now) x h = elim (Bool-cases (may_enter ports n msg)) [
    | inr not ↦ rw not (record { chats = x.chats; bound = λ d. omega (arith, x.bound d) })
    | inl may ↦ rw may (record {
      chats =
          set_stage-Holds msg.chat_id (checked msg now) n.stage n.log
            (entered n msg now may (x.chats msg.chat_id)) (λ d other. x.chats d);
      bound = λ d. omega (arith, x.bound d);
    })
  ]
  act-IsConsistent k n (proceed c) x h = record {
    chats =
        set_stage-Holds c (advance ports c n.log (n.stage c)).1 n.stage
          (advance ports c n.log (n.stage c)).0
          (advance-Holds ports laws c n.log (n.stage c) (x.chats c) (omega (arith, x.bound c)))
          (λ d other.
            let (es, snaps) = advance-other ports laws c n.log (n.stage c) d other (x.chats c) in
            subst₂ (IsAt ports d (n.stage d)) (sym es) (sym snaps) (x.chats d));
    bound = λ d. omega (arith, length-advance-le ports laws c n.log (n.stage c) d, x.bound d);
  }

  act_all-IsConsistent :
      (actions : List Action) (k : ℕ) (n : Node S C B)
      → IsConsistent k n
      → k + length actions < 2 ^ 63
      → IsConsistent (k + length actions) (act_all ports n actions)
  unfolding act_all
  act_all-IsConsistent [] k n x h =
      let same : k ≡ k + 0 = omega arith in subst (λ j. IsConsistent j n) same x
  act_all-IsConsistent (action ∷ actions) k n x h =
      let same : k + 1 + length actions ≡ k + suc (length actions) = omega arith in
      subst (λ j. IsConsistent j (act_all ports (act ports n action) actions)) same
        (act_all-IsConsistent actions (k + 1) (act ports n action)
          (act-IsConsistent k n action x (omega arith)) (omega arith))

  IsConsistent-empty :
      (n : Node S C B)
      → IsEmpty ports laws n.log
      → ((c : Bytes) → n.stage c ≡ idle)
      → IsConsistent 0 n
  IsConsistent-empty n empty free =
      let wf = IsEmpty-IsWellFormed ports laws n.log empty in
      record {
        chats =
            λ c. rw (free c) (record { chain = wf.chain c; own = wf.own c; sealed = wf.sealed c });
        bound = λ c. omega (arith, ap length (empty.entries c));
      }

  -- From an empty store with no call under way, after any interleaving of fewer than 2^63 steps of
  -- concurrent calls of Append, each of which holds the lock of its chat, Verify calls the log of
  -- every chat valid and counts all of its entries, also while calls are under way. The store
  -- keeps the contract of its port.
  pub verify-act_all :
      (n : Node S C B) (actions : List Action) (c : Bytes)
      → IsEmpty ports laws n.log
      → ((d : Bytes) → n.stage d ≡ idle)
      → length actions < 2 ^ 63
      → (r : VerifyResult) × (verify ports (act_all ports n actions).log c ≡ ok r)
        × (r.valid ≡ true)
        × (r.entries ≡ length (laws.entries (act_all ports n actions).log.store c))
  verify-act_all n actions c empty free h =
      let m = act_all ports n actions in
      let x = act_all-IsConsistent actions 0 n (IsConsistent-empty n empty free) (omega arith) in
      let (r, done, (_, complete), count) = verify_lem ports laws m.log c in
      let valid = complete (IsAt-IsChain ports c (m.stage c) _ _ (x.chats c)) in
      (r, done, valid, rw valid at count)

  -- From an empty store with no call under way, after any interleaving of fewer than 2^63 steps of
  -- concurrent calls of Append, a chat whose lock nobody holds is a hash chain of its own messages
  -- and has one right snapshot for each full window of 100 entries. The store keeps the contract
  -- of its port.
  pub act_all-IsSound :
      (n : Node S C B) (actions : List Action) (c : Bytes)
      → IsEmpty ports laws n.log
      → ((d : Bytes) → n.stage d ≡ idle)
      → length actions < 2 ^ 63
      → (act_all ports n actions).stage c ≡ idle
      → IsSound ports c
          (laws.entries (act_all ports n actions).log.store c)
          (laws.snapshots (act_all ports n actions).log.store c)
  act_all-IsSound n actions c empty free h quiet =
      let m = act_all ports n actions in
      let x = act_all-IsConsistent actions 0 n (IsConsistent-empty n empty free) (omega arith) in
      idle-IsSound c m.log (m.stage c) (ap is_free quiet) (x.chats c)
