-- ===== src/Lifecycle.antt =====
-- src/net/network_service.h and network_service.cc: how a service starts and stops.
--
-- What the deriving class does is outside: `SetUp`, `OnStart` and `CleanUp` give the results that are
-- arguments. A thread that waits in `AwaitStop` is woken by `unblock`; `await_stop` tells whether it waits.
pub mod Balance
mod Tests
use server_client_peer_netwo.Base.{
  ℕ, ◌+◌, Bool, true, false, not, ◌&&◌, List, [], ◌∷◌, ◌++◌, if◌then◌else◌,
}
use server_client_peer_netwo.Result.{Result, ok, err}

pub record NetworkService : Type 0 where
  pub use_signals : Bool
  pub running : Bool
  pub needs_cleanup : Bool

-- `result<void, Error>`
abbrev pub Outcome : Type 0
Outcome = Result (Unit {0}) ℕ

-- What is called, in order
pub data Call : Type 0 where
  set_up on_start on_stop unblock clean_up : Call
  install_handler default_handler : Call

-- `NetworkService(bool use_signals)`
abbrev pub made : Bool → NetworkService
made use_signals = record { use_signals = use_signals; running = false; needs_cleanup = false }

unfoldable pub start : Outcome → Outcome → NetworkService → NetworkService × (List Call × Outcome)
start (err e) started s = (s, (set_up ∷ [], err e))
start (ok u) started s = (
  record s { running = true; needs_cleanup = true },
  ((set_up ∷ (if s.use_signals then install_handler ∷ [] else [])) ++ (on_start ∷ []), started),
)

unfoldable pub signal_stop : NetworkService → NetworkService × List Call
signal_stop s = (record s { running = false }, on_stop ∷ (unblock ∷ []))

unfoldable pub attempt_clean_up : Outcome → NetworkService → NetworkService × (List Call × Outcome)
attempt_clean_up cleaned s =
    if s.needs_cleanup
    then (record s { needs_cleanup = false }, (clean_up ∷ [], cleaned))
    else (s, ([], ok tt))

unfoldable pub stop : Outcome → NetworkService → NetworkService × (List Call × Outcome)
stop cleaned s =
    let (s1, calls) = signal_stop s in
    let (s2, (more, r)) = attempt_clean_up cleaned s1 in (s2, (calls ++ more, r))

-- `AwaitStop` waits first, or goes on at once.
unfoldable pub waits : NetworkService → Bool
waits s = s.running

-- What follows the wait in `AwaitStop`
unfoldable pub await_stop : Outcome → NetworkService → NetworkService × (List Call × Outcome)
await_stop cleaned s = attempt_clean_up cleaned s

-- The second condition asks that the argument be false and true.
unfoldable pub switch_signal_handling : Bool → NetworkService → NetworkService × List Call
switch_signal_handling use_signals s = (
  record s { use_signals = use_signals },
  (if s.use_signals && not use_signals
      then default_handler ∷ (default_handler ∷ [])
      else if not use_signals && use_signals
      then install_handler ∷ (install_handler ∷ [])
      else []),
)

-- A call of the service, with what the deriving class gives
pub data Step : Type 0 where
  starts : Outcome → Outcome → Step
  stops : Outcome → Step
  signals : Step
  -- a wait of `AwaitStop` is over
  awaits : Outcome → Step
  switches : Bool → Step

unfoldable pub step : Step → NetworkService → NetworkService × List Call
step (starts a b) s = ((start a b s).0, (start a b s).1.0)
step (stops r) s = ((stop r s).0, (stop r s).1.0)
step signals s = signal_stop s
step (awaits r) s = ((await_stop r s).0, (await_stop r s).1.0)
step (switches b) s = switch_signal_handling b s

unfoldable pub steps : List Step → NetworkService → NetworkService × List Call
steps [] s = (s, [])
steps (x ∷ xs) s = ((steps xs (step x s).0).0, (step x s).1 ++ (steps xs (step x s).0).1)
