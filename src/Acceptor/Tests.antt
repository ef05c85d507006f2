-- ===== src/Acceptor/Tests.antt =====
-- Peers of peer_acceptor.cc, one of them awaited.
use server_client_peer_netwo.Base.{[], ◌∷◌, some}
use server_client_peer_netwo.Acceptor.{Acceptor, awaits, accepts, steps}
use server_client_peer_netwo.Acceptor.Allowed.{OnlyFrom, awaited, steps-OnlyFrom}

abbrev idle : Acceptor
idle = record { allowed = []; pending_connections = [] }

steps-OnlyFrom_example :
    OnlyFrom
      (awaited (awaits (1, 2) ∷ (accepts (some (1, 9)) ∷ (accepts (some (3, 4)) ∷ []))) [])
      (steps (awaits (1, 2) ∷ (accepts (some (1, 9)) ∷ (accepts (some (3, 4)) ∷ []))) idle).1
steps-OnlyFrom_example =
    steps-OnlyFrom (awaits (1, 2) ∷ (accepts (some (1, 9)) ∷ (accepts (some (3, 4)) ∷ []))) idle
