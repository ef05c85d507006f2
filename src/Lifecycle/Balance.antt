-- ===== src/Lifecycle/Balance.antt =====
-- How often a service of network_service.cc cleans up.
use server_client_peer_netwo.Base.{
  ℕ, suc, ◌+◌, ◌≤◌, ◌≡◌, refl, Bool, true, false, List, [], ◌∷◌, ◌++◌, if◌then◌else◌, arith,
}
use server_client_peer_netwo.Result.{ok, err}
use server_client_peer_netwo.Lifecycle.{
  NetworkService, Outcome, Call, set_up, on_start, on_stop, unblock, clean_up, install_handler,
  default_handler, start, signal_stop, attempt_clean_up, stop, await_stop, waits,
  switch_signal_handling, Step, starts, stops, signals, awaits, switches, step, steps,
}

abbrev pub clean_ups : List Call → ℕ
clean_ups [] = 0
clean_ups (clean_up ∷ cs) = suc (clean_ups cs)
clean_ups (set_up ∷ cs) = clean_ups cs
clean_ups (on_start ∷ cs) = clean_ups cs
clean_ups (on_stop ∷ cs) = clean_ups cs
clean_ups (unblock ∷ cs) = clean_ups cs
clean_ups (install_handler ∷ cs) = clean_ups cs
clean_ups (default_handler ∷ cs) = clean_ups cs

-- The starts whose `SetUp` went well
abbrev pub set_ups : List Step → ℕ
set_ups [] = 0
set_ups (starts (ok u) b ∷ xs) = suc (set_ups xs)
set_ups (starts (err e) b ∷ xs) = set_ups xs
set_ups (stops r ∷ xs) = set_ups xs
set_ups (signals ∷ xs) = set_ups xs
set_ups (awaits r ∷ xs) = set_ups xs
set_ups (switches b ∷ xs) = set_ups xs

abbrev pub flag : Bool → ℕ
flag b = if b then 1 else 0

clean_ups-append : (a b : List Call) → clean_ups (a ++ b) ≡ clean_ups a + clean_ups b
clean_ups-append [] b = omega arith
clean_ups-append (clean_up ∷ cs) b = omega (arith, clean_ups-append cs b)
clean_ups-append (set_up ∷ cs) b = clean_ups-append cs b
clean_ups-append (on_start ∷ cs) b = clean_ups-append cs b
clean_ups-append (on_stop ∷ cs) b = clean_ups-append cs b
clean_ups-append (unblock ∷ cs) b = clean_ups-append cs b
clean_ups-append (install_handler ∷ cs) b = clean_ups-append cs b
clean_ups-append (default_handler ∷ cs) b = clean_ups-append cs b

one_step :
    (x : Step) (s : NetworkService)
    → clean_ups (step x s).1 + flag (step x s).0.needs_cleanup
      ≤ flag s.needs_cleanup + set_ups (x ∷ [])
unfolding step start stop signal_stop attempt_clean_up await_stop switch_signal_handling
one_step (starts (err e) b) s = ground arith
one_step (starts (ok u) b) s = ground arith
one_step (stops r) s = ground arith
one_step signals s = ground arith
one_step (awaits r) s = ground arith
one_step (switches b) s = ground arith

set_ups-cons : (x : Step) (xs : List Step) → set_ups (x ∷ xs) ≡ set_ups (x ∷ []) + set_ups xs
set_ups-cons (starts (ok u) b) xs = omega arith
set_ups-cons (starts (err e) b) xs = omega arith
set_ups-cons (stops r) xs = omega arith
set_ups-cons signals xs = omega arith
set_ups-cons (awaits r) xs = omega arith
set_ups-cons (switches b) xs = omega arith

-- Whatever is called, a service cleans up no more often than it was set up, and once more if that was still to do; what is still
-- to do at the end counts with it.
pub clean_ups-bound :
    (xs : List Step) (s : NetworkService)
    → clean_ups (steps xs s).1 + flag (steps xs s).0.needs_cleanup
      ≤ flag s.needs_cleanup + set_ups xs
unfolding steps
clean_ups-bound [] s = omega arith
clean_ups-bound (x ∷ xs) s = omega (
  arith,
  one_step x s,
  clean_ups-bound xs (step x s).0,
  clean_ups-append (step x s).1 (steps xs (step x s).0).1,
  set_ups-cons x xs,
)

-- A service whose `SetUp` goes well runs; whether a thread waits for it or stops it, it then cleans up, just once
-- however often it is stopped again, and no thread waits for it any more.
pub start-stop :
    (s : NetworkService) (started cleaned again : Outcome)
    → let s1 = (start (ok tt) started s).0 in
      let s2 = (stop cleaned s1).0 in
      (waits s1 ≡ true)
      × ((stop cleaned s1).1 ≡ (on_stop ∷ (unblock ∷ (clean_up ∷ [])), cleaned))
      × (waits s2 ≡ false)
      × ((stop again s2).1 ≡ (on_stop ∷ (unblock ∷ []), ok tt))
      × ((await_stop again s2).1 ≡ ([], ok tt))
unfolding start stop signal_stop attempt_clean_up await_stop waits
start-stop s started cleaned again = (refl, refl, refl, refl, refl)

-- Switching the handling of signals on installs no handler, though the service counts as using signals after it.
pub switch-installs_nothing :
    (s : NetworkService) → switch_signal_handling true s ≡ (record s { use_signals = true }, [])
unfolding switch_signal_handling
switch-installs_nothing s = ground arith
