-- ===== src/Startup/Process.antt =====
-- The process of cmd/messenger/main.go: its flags, and the server until it is shut down. What the HTTP
-- server returns is an argument, and so is the order in which it and a signal come.
use decentralized_messenger.Common.{
  ℕ, ◌*◌, ◌^◌, ◌≡◌, ◌⊎◌, refl, inl, inr, Bool, true, false, List, [], ◌∷◌, Option, none, some,
  Bool-cases, if◌then◌else◌,
}
use decentralized_messenger.Result.{Error, Result, ok, err, graceful_shutdown}
use decentralized_messenger.Chatlog.{Log}
use decentralized_messenger.RateLimit.Eviction.{new_limiter}
use decentralized_messenger.Api.Routes.{Server}
use decentralized_messenger.Api.Setup.{with_rate_limit, new_server}

-- Ten minutes in nanoseconds.
abbrev pub rate_limit_idle_timeout : ℕ
rate_limit_idle_timeout = 600 * 10 ^ 9

-- `main` behind the demonstration: a rate that is not positive disables the limit.
unfoldable pub server_of : {R S C B : Type 0} → Bool → Log S C B → Server R S C B
server_of rate_is_positive log = new_server log (
    if rate_is_positive
    then with_rate_limit (new_limiter rate_limit_idle_timeout).limiter ∷ []
    else [])

-- `ListenAndServe` returns, or the context is cancelled by a signal.
pub data Happening : Type 0 where
  served : Result (Unit {0}) → Happening
  interrupted : Happening

-- The end of `runUntilShutdown`, from what `Shutdown` returns.
abbrev pub drained : Result (Unit {0}) → Result (Unit {0})
drained (ok _) = ok tt
drained (err e) = err (graceful_shutdown e)

-- `runUntilShutdown`, from what happens in turn, while it waits with nothing to return.
-- `is_server_closed` is `errors.Is(err, http.ErrServerClosed)`.
unfoldable pub run_until_shutdown :
    (Error → Bool) → Result (Unit {0}) → List Happening → Option (Result (Unit {0}))
run_until_shutdown is_server_closed shutdown [] = none
run_until_shutdown is_server_closed shutdown (interrupted ∷ rest) = some (drained shutdown)
run_until_shutdown is_server_closed shutdown (served (ok _) ∷ rest) =
    run_until_shutdown is_server_closed shutdown rest
run_until_shutdown is_server_closed shutdown (served (err e) ∷ rest) = elim (is_server_closed e) [
  | true ↦ run_until_shutdown is_server_closed shutdown rest
  | false ↦ some (err e)
]

-- Something is among what happens.
abbrev pub Happens : Happening → List Happening → Type 0
Happens h [] = ⊥
Happens h (first ∷ rest) = (first ≡ h) ⊎ Happens h rest

-- What is returned behind a signal: nothing if `Shutdown` succeeds, and its error, wrapped, if not.
abbrev pub Drains : Result (Unit {0}) → Result (Unit {0}) → Type 0
Drains shutdown result =
    ((shutdown ≡ ok tt) × (result ≡ ok tt))
    ⊎ ((e : Error) × (shutdown ≡ err e) × (result ≡ err (graceful_shutdown e)))

drained-Drains : (shutdown : Result (Unit {0})) → Drains shutdown (drained shutdown)
drained-Drains (ok _) = inl (refl, refl)
drained-Drains (err e) = inr (e, refl, refl)

-- How the server may end: drained behind a signal, or failed by itself.
abbrev pub Ends : (Error → Bool) → Result (Unit {0}) → List Happening → Result (Unit {0}) → Type 0
Ends is_server_closed shutdown happenings result =
    (Drains shutdown result × Happens interrupted happenings)
    ⊎ ((e : Error) × (result ≡ err e)
        × (is_server_closed e ≡ false)
        × Happens (served (err e)) happenings)

Ends-later :
    (is_server_closed : Error → Bool) (shutdown : Result (Unit {0})) (h : Happening)
    (rest : List Happening) (result : Result (Unit {0}))
    → Ends is_server_closed shutdown rest result
    → Ends is_server_closed shutdown (h ∷ rest) result
Ends-later is_server_closed shutdown h rest result (inl (drains, found)) = inl (drains, inr found)
Ends-later is_server_closed shutdown h rest result (inr (e, failed, other, found)) =
    inr (e, failed, other, inr found)

-- Whatever ListenAndServe returns before and behind it, when a signal is among what happens,
-- runUntilShutdown returns: with nothing where Shutdown succeeds and with its error wrapped where
-- it fails, or with an error of ListenAndServe that is not ErrServerClosed.
pub run_until_shutdown_lem :
    (is_server_closed : Error → Bool) (shutdown : Result (Unit {0})) (happenings : List Happening)
    → Happens interrupted happenings
    → (result : Result (Unit {0})) × (run_until_shutdown is_server_closed shutdown happenings
        ≡ some result)
      × Ends is_server_closed shutdown happenings result
unfolding run_until_shutdown
run_until_shutdown_lem closed shutdown [] h = absurd h
run_until_shutdown_lem closed shutdown (interrupted ∷ rest) h =
    (drained shutdown, refl, inl (drained-Drains shutdown, inl refl))
run_until_shutdown_lem closed shutdown (served (ok _) ∷ rest) (inl h) = absurd (cc)
run_until_shutdown_lem closed shutdown (served (ok _) ∷ rest) (inr h) =
    let (result, done, ended) = run_until_shutdown_lem closed shutdown rest h in
    (result, done, Ends-later closed shutdown _ rest result ended)
run_until_shutdown_lem closed shutdown (served (err e) ∷ rest) (inl h) = absurd (cc)
run_until_shutdown_lem closed shutdown (served (err e) ∷ rest) (inr h) =
    elim (Bool-cases (closed e)) [
      | inl shut ↦
          let (result, done, ended) = run_until_shutdown_lem closed shutdown rest h in
          (
            result,
            rw (shut, run_until_shutdown) done,
            Ends-later closed shutdown (served (err e)) rest result ended,
          )
      | inr failed ↦ (err e, rw (failed, run_until_shutdown) refl, inr (e, refl, failed, inl refl))
    ]
