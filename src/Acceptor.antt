-- ===== src/Acceptor.antt =====
-- src/net/peer/peer_acceptor.h and peer_acceptor.cc: the connections that peers make.
--
-- The allowed addresses are a list. A handshake is received by a service of its own; what happens at its end
-- and in `CleanUp` is as in the connector. The socket closes with the handler unless the handshake has it.
pub mod Allowed
mod Tests
use server_client_peer_netwo.Base.{
  ℕ, Bool, true, false, ◌||◌, Option, none, some, List, [], ◌∷◌, ◌++◌, ◌==◌, ◌≡◌, if◌then◌else◌,
}
use server_client_peer_netwo.Result.{Result, ok, err}
use server_client_peer_netwo.Peer.{Location}
use server_client_peer_netwo.Connector.{
  Pending, Effect, begin_handshake, is_pending, finished, clean_up,
}

pub record Acceptor : Type 0 where
  pub allowed : List ℕ
  pub pending_connections : Pending

-- `allowed_.find(address)`
unfoldable pub is_allowed : ℕ → List ℕ → Bool
is_allowed a [] = false
is_allowed a (x ∷ xs) = (a == x) || is_allowed a xs

unfoldable pub await_connection_from : Location → Acceptor → Acceptor
await_connection_from l s = record s { allowed = l.0 ∷ s.allowed }

-- `OnAccept`, by the name of the peer
unfoldable pub on_accept : Option Location → Acceptor → Acceptor × List Effect
on_accept none s = (s, [])
on_accept (some peer) s =
    if is_allowed peer.0 s.allowed
    then (if is_pending peer s.pending_connections then (s, []) else (
      record s { pending_connections = s.pending_connections ++ (peer ∷ []) },
      begin_handshake peer ∷ [],
    ))
    else (s, [])

-- What happens to an acceptor
pub data Event : Type 0 where
  awaits : Location → Event
  accepts : Option Location → Event
  ends : Location → Result (Unit {0}) ℕ → Event
  cleans : Event

unfoldable pub step : Event → Acceptor → Acceptor × List Effect
step (awaits l) s = (await_connection_from l s, [])
step (accepts peer) s = on_accept peer s
step (ends l r) s = (
  record s { pending_connections = (finished l r s.pending_connections).0 },
  (finished l r s.pending_connections).1,
)
step cleans s = (
  record s { pending_connections = (clean_up s.pending_connections).0 },
  (clean_up s.pending_connections).1,
)

unfoldable pub steps : List Event → Acceptor → Acceptor × List Effect
steps [] s = (s, [])
steps (e ∷ es) s = ((steps es (step e s).0).0, (step e s).1 ++ (steps es (step e s).0).1)
