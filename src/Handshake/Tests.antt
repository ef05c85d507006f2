-- ===== src/Handshake/Tests.antt =====
-- Handshakes of send_handshake_service.cc and receive_handshake_service.cc between two nodes.
use server_client_peer_netwo.Base.{ℕ, ◌≡◌, refl, ◌≢◌, ◌⊎◌, some, true, List, [], ◌∷◌, ◌++◌, arith}
use server_client_peer_netwo.Result.{ok, err, ◌>>=◌}
use server_client_peer_netwo.StateMachine
use server_client_peer_netwo.StateMachine.{run, start}
use server_client_peer_netwo.StateMachine.Ends.{Falls, run-ends}
use server_client_peer_netwo.StateMachine.Once.{ReportedOnce, start-ReportedOnce, stops, follow}
use server_client_peer_netwo.Handshake.Send.{Settings}
use server_client_peer_netwo.Handshake.Receive
use server_client_peer_netwo.Handshake.Receive.{fresh_receiver}
use server_client_peer_netwo.Handshake.Exchange.{exchange, opening, offering}
use server_client_peer_netwo.Handshake.Exchange.Stages.{exchange_lem, established, rejected}

abbrev password : List ℕ
password = 112 ∷ 119 ∷ []

abbrev node : ℕ → Settings
node id = record { id = id; password = some password }

exchange_lem_example :
    ((password ≡ password)
      × (exchange (λ byte k. 0) (node 1) (node 2) ≡ ok (established (node 1) (node 2) password)))
    ⊎ ((password ≢ password)
        × ((opening (λ byte k. 0) (node 1) (node 2) >>= λ c.
              offering (λ byte k. 0) (node 1) (node 2) c)
            ≡ ok (rejected (node 1) (node 2) password)))
exchange_lem_example =
    exchange_lem (λ byte k. 0) (node 1) (node 2) password password refl refl (λ k. refl)
      (omega arith)

-- Only `Initialize` goes on by itself.
abbrev rank : Receive.State → ℕ
rank Receive.initialize = 1
rank _ = 0

receiver-Falls : Falls (Receive.service (node 1)) rank
unfolding Receive.handle Receive.is_async Receive.should_stop Receive.next_state
receiver-Falls Receive.initialize t h e g = ground arith
receiver-Falls Receive.await_handshake t h e g = ground arith
receiver-Falls Receive.send_response t h e g = ground arith
receiver-Falls Receive.receive_ok t h e g = ground arith
receiver-Falls Receive.stopped t h e g = ground arith

run-ends_example : run (Receive.service (node 1)) 2 fresh_receiver ≢ err StateMachine.no_progress
run-ends_example =
    run-ends (Receive.service (node 1)) rank receiver-Falls 2 fresh_receiver (omega arith)

start-ReportedOnce_example : ReportedOnce (Receive.service (node 1)) (
    start (Receive.service (node 1)) 3 fresh_receiver true >>= λ r.
    follow (Receive.service (node 1)) 3 r.0 (stops ∷ stops ∷ []) >>= λ p. ok (p.0, r.1 ++ p.1))
start-ReportedOnce_example =
    start-ReportedOnce (Receive.service (node 1)) 3 fresh_receiver (stops ∷ stops ∷ [])
