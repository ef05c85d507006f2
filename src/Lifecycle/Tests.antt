-- ===== src/Lifecycle/Tests.antt =====
-- A service of network_service.cc that is started once and stopped twice.
use server_client_peer_netwo.Base.{◌+◌, ◌≤◌, false, [], ◌∷◌}
use server_client_peer_netwo.Result.{ok}
use server_client_peer_netwo.Lifecycle.{made, starts, stops, awaits, steps}
use server_client_peer_netwo.Lifecycle.Balance.{clean_ups, set_ups, flag, clean_ups-bound}

clean_ups-bound_example :
    clean_ups
        (steps (starts (ok tt) (ok tt) ∷ (stops (ok tt) ∷ (awaits (ok tt) ∷ []))) (made false)).1
      + flag
          (steps
            (starts (ok tt) (ok tt) ∷ (stops (ok tt) ∷ (awaits (ok tt) ∷ [])))
            (made false)).0.needs_cleanup
    ≤ flag false + set_ups (starts (ok tt) (ok tt) ∷ (stops (ok tt) ∷ (awaits (ok tt) ∷ [])))
clean_ups-bound_example =
    clean_ups-bound (starts (ok tt) (ok tt) ∷ (stops (ok tt) ∷ (awaits (ok tt) ∷ []))) (made false)
