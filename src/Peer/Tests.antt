-- ===== src/Peer/Tests.antt =====
-- Managers of peer_network_manager.cc at concrete states.
use server_client_peer_netwo.Base.{
  ◌≡◌, refl, true, false, some, none, List, [], ◌∷◌, length, ◌&&◌, ◌⊎◌,
}
use server_client_peer_netwo.Result.{ok, err, ◌>>=◌}
use server_client_peer_netwo.Peer.{
  initializing, connected, Manager, PeerConnection, Reference, Event, await, report, client, server,
  stop, network_to, null_pointer, step, await_connected, on_client_connection, on_server_connection,
  check_if_connected, is_connected_impl, all_connected, erase_all, change_entry, update_state,
  transition, succeed_connected, construct_network,
}
use server_client_peer_netwo.Peer.Callbacks.{Balance}
use server_client_peer_netwo.Peer.Runs.{run, run-Balance}
use server_client_peer_netwo.Peer.Complete.{
  all_at, both_ways, check_if_connected_lem, stranger-breaks_network,
}

-- The one peer, at 9:80, with id 4.
abbrev start : Manager
start = record {
  running = true;
  peer_locations = (9, 80) ∷ [];
  state = initializing;
  managed = [];
  connected_callbacks = [];
  recovered_callbacks = [];
  stopping_error = none;
}

abbrev both : List PeerConnection
both = record { location = (9, 80); id = 4; in_socket = some 6; out_socket = some 5 } ∷ []

abbrev history : List Event
history = await 1 ∷ client (ok (4, ((9, 80), 5))) ∷ server (ok (4, 6)) ∷ report 1 ∷ stop ∷ []

run-Balance_example : Balance 1 1 1 (run start history)
run-Balance_example = run-Balance 1 history start

-- The callback is scheduled with the network once both handshakes are through.
run-history :
    (run start (await 1 ∷ client (ok (4, ((9, 80), 5))) ∷ server (ok (4, 6)) ∷ []) >>= λ r. ok r.1)
    ≡ ok (network_to 1 ∷ [])
unfolding run step await_connected on_client_connection on_server_connection check_if_connected
    is_connected_impl all_connected erase_all change_entry update_state transition succeed_connected
run-history = refl

check_if_connected_lem_example :
    ((both_ways both && all_at both start.peer_locations ≡ true)
      × (check_if_connected (record start { managed = both; connected_callbacks = 1 ∷ [] })
          ≡ ok (record start { managed = both; state = connected }, network_to 1 ∷ []))
      × ((refs : List Reference) × (construct_network both ≡ ok refs) × (length refs ≡ 1)))
    ⊎ ((both_ways both && all_at both start.peer_locations ≡ false)
        × (check_if_connected (record start { managed = both; connected_callbacks = 1 ∷ [] })
            ≡ ok (record start { managed = both; connected_callbacks = 1 ∷ [] }, [])))
check_if_connected_lem_example =
    check_if_connected_lem (record start { managed = both; connected_callbacks = 1 ∷ [] }) refl

stranger-breaks_network_example :
    (on_server_connection (record start { state = connected; managed = both }) (ok (7, 8)) >>= λ r.
    await_connected r.0 2)
    ≡ err null_pointer
stranger-breaks_network_example =
    stranger-breaks_network (record start { state = connected; managed = both }) 7 8 2 refl refl
