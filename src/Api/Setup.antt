-- ===== src/Api/Setup.antt =====
-- `NewServer` and its options, and `clientIP`, of internal/api/server.go.
use decentralized_messenger.Common.{List, [], ◌∷◌, none, some, Bytes}
use decentralized_messenger.Chatlog.{Log}
use decentralized_messenger.RateLimit.{Limiter}
use decentralized_messenger.Result.{Result, ok, err}
use decentralized_messenger.Api.Routes.{Server}

-- `Option`, on the server that it configures.
abbrev pub ServerOption : Type 0 → Type 0 → Type 0 → Type 0 → Type 0
ServerOption R S C B = Server R S C B → Server R S C B

unfoldable pub with_rate_limit : {R S C B : Type 0} → Limiter R → ServerOption R S C B
with_rate_limit l s = record s { limiter = some l }

-- The loop over the options.
unfoldable pub configured :
    {R S C B : Type 0} → Server R S C B → List (ServerOption R S C B) → Server R S C B
configured s [] = s
configured s (opt ∷ opts) = configured (opt s) opts

unfoldable pub new_server :
    {R S C B : Type 0} → Log S C B → List (ServerOption R S C B) → Server R S C B
new_server log opts = configured (record { limiter = none; log = log }) opts

-- `clientIP`, from the address of the peer and what `net.SplitHostPort` makes of it: the host.
unfoldable pub client_ip : (Bytes → Result Bytes) → Bytes → Bytes
client_ip split_host_port remote_addr = elim (split_host_port remote_addr) [
  | ok host ↦ host
  | err e ↦ remote_addr
]
