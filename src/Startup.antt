-- ===== src/Startup.antt =====
-- cmd/messenger/main.go: what a node is built from, by its environment, and the demonstration that it
-- runs with `-demo`. What is printed to the log of the process is left out.
pub mod Demo
pub mod Process
use decentralized_messenger.Common.{
  ℕ, ◌+◌, ◌*◌, ◌^◌, ◌≡◌, refl, false, List, [], ◌∷◌, ◌++◌, ltb, ◌==◌, if◌then◌else◌, Bytes, codes,
  length, take,
}
use decentralized_messenger.Codec.Decimal.{pos, itoa}
use decentralized_messenger.Codec.Time.{Time}
use decentralized_messenger.Result.{Result, ok, err, panic, ◌>>=◌}
use decentralized_messenger.Models.{SignedMessage, LogEntry, new_message, content_type_text}
use decentralized_messenger.Crypto.Keys.{Ed25519, sign_message, generate_key_pair}
use decentralized_messenger.Chatlog.{Ports, Log, VerifyResult}
use decentralized_messenger.Service
use decentralized_messenger.Service.{submit}

-- `os.Getenv`: a variable that is not set is the empty text.
abbrev pub Env : Type 0
Env = Bytes → Bytes

unfoldable pub env_or : Env → Bytes → Bytes → Bytes
env_or env key fallback = if length (env key) == 0 then fallback else env key

abbrev with_first : ℕ → List Bytes → List Bytes
with_first b [] = []
with_first b (part ∷ parts) = (b ∷ part) ∷ parts

-- `strings.Split(s, ",")`
unfoldable pub split_commas : Bytes → List Bytes
split_commas [] = [] ∷ []
split_commas (b ∷ s) =
    let parts = split_commas s in if b == b',' then [] ∷ parts else with_first b parts

-- The adapter of each port. A cache is given a time to live of `time.Hour`, in nanoseconds.
pub data StorageChoice : Type 0 where
  memory_store : StorageChoice
  scylla_store : (keyspace : Bytes) (hosts : List Bytes) → StorageChoice

pub data CacheChoice : Type 0 where
  memory_cache : CacheChoice
  redis_cache : (addr password : Bytes) (db ttl : ℕ) → CacheChoice

pub data BrokerChoice : Type 0 where
  memory_broker : BrokerChoice
  rabbitmq_broker : (url : Bytes) → BrokerChoice

unfoldable pub build_storage : Env → StorageChoice
build_storage env =
    let hosts = env (codes "SCYLLA_HOSTS") in
    if length hosts == 0
    then memory_store
    else scylla_store (env_or env (codes "SCYLLA_KEYSPACE") (codes "messenger"))
        (split_commas hosts)

unfoldable pub build_cache : Env → CacheChoice
build_cache env =
    let addr = env (codes "REDIS_ADDR") in
    if length addr == 0
    then memory_cache
    else redis_cache addr (env (codes "REDIS_PASSWORD")) 0 (3600 * 10 ^ 9)

unfoldable pub build_broker : Env → BrokerChoice
build_broker env =
    let url = env (codes "RABBITMQ_URL") in
    if length url == 0 then memory_broker else rabbitmq_broker url

abbrev pub demo_chat : Bytes
demo_chat = codes "demo-chat"

-- What one round of the loop reads from the random source and the clock.
pub record Reading : Type 0 where
  pub random : Bytes
  pub created : Time
  pub appended : Time

-- The message of a round, which the client builds and signs.
abbrev pub unsigned_message : Bytes → ℕ → Reading → SignedMessage
unsigned_message public_key i r =
    new_message r.random r.created demo_chat (codes "alice") public_key
      (codes "message " ++ itoa (pos i)) content_type_text [] false

unfoldable pub demo_message : Ed25519 → Bytes → Bytes → ℕ → Reading → Result SignedMessage
demo_message ed private_key public_key i r =
    sign_message ed (unsigned_message public_key i r) private_key

-- `hash[:16]`, which panics if there is less.
unfoldable pub hash_prefix : Bytes → Result Bytes
hash_prefix hash = if ltb (length hash) 16 then err panic else ok (take 16 hash)

-- What the demonstration prints, and the status that the process ends with.
pub record DemoReport : Type 0 where
  pub appended : List (ℕ × Bytes)
  pub result : VerifyResult
  pub new_entries : ℕ
  pub current_hash : Bytes
  pub exit_status : ℕ

abbrev pub printed : Result LogEntry → Result (ℕ × Bytes)
printed submitted = do
  entry ← submitted
  prefix ← hash_prefix entry.entry_hash
  ok (entry.sequence, prefix)

module _ {S C B : Type 0} (ports : Ports S C B) where
  abbrev pub add_line :
      (ℕ × Bytes) → Result (List (ℕ × Bytes)) × Log S C B → Result (List (ℕ × Bytes)) × Log S C B
  add_line line (err e, l) = (err e, l)
  add_line line (ok lines, l) = (ok (line ∷ lines), l)

  -- A round from what it prints on: an error ends the demonstration.
  abbrev pub after_line :
      Result (ℕ × Bytes)
      → Log S C B
      → Result (List (ℕ × Bytes)) × Log S C B
      → Result (List (ℕ × Bytes)) × Log S C B
  after_line (err e) l rest = (err e, l)
  after_line (ok line) l rest = add_line line rest

  -- `Submit` of a message that is signed.
  abbrev pub submit_signed : Result SignedMessage → Time → Log S C B → Result LogEntry × Log S C B
  submit_signed (err e) now l = (err e, l)
  submit_signed (ok msg) now l = submit ports l msg 0 now

  -- The loop, from round `i` on, with the readings of its rounds.
  unfoldable pub demo_loop :
      Bytes → Bytes → ℕ → List Reading → Log S C B → Result (List (ℕ × Bytes)) × Log S C B
  demo_loop private_key public_key i [] l = (ok [], l)
  demo_loop private_key public_key i (r ∷ rs) l =
      let msg = demo_message ports.ed25519 private_key public_key i r in
      let (submitted, l') = submit_signed msg r.appended l in
      after_line (printed submitted) l' (demo_loop private_key public_key (i + 1) rs l')

  -- What follows the loop.
  unfoldable pub demo_report : Log S C B → List (ℕ × Bytes) → Result DemoReport
  demo_report l lines = do
    result ← Service.verify ports l demo_chat
    bundle ← Service.sync ports l demo_chat
    prefix ← hash_prefix bundle.current_hash
    ok (record {
      appended = lines;
      result = result;
      new_entries = length bundle.new_entries;
      current_hash = prefix;
      exit_status = if result.valid then 0 else 1;
    })

  unfoldable pub finish_demo : Result (List (ℕ × Bytes)) × Log S C B → Result DemoReport × Log S C B
  finish_demo (err e, l) = (err e, l)
  finish_demo (ok lines, l) = (demo_report l lines, l)

  -- `runDemo`, from what `ed25519.GenerateKey` returns and the readings of the three rounds.
  unfoldable pub run_demo :
      Result Bytes → Reading → Reading → Reading → Log S C B → Result DemoReport × Log S C B
  run_demo generated first second third l = elim (generate_key_pair ports.ed25519 generated) [
    | err e ↦ (err e, l)
    | ok pair ↦ finish_demo (demo_loop pair.0 pair.1 1 (first ∷ second ∷ third ∷ []) l)
  ]

split_example : split_commas (codes "a,bc,") ≡ codes "a" ∷ codes "bc" ∷ [] ∷ []
unfolding split_commas
split_example = refl
