-- ===== src/Connector/Tests.antt =====
-- A peer that peer_connector.cc is asked to connect to twice.
use server_client_peer_netwo.Base.{◌≡◌, ◌+◌, refl, [], ◌∷◌}
use server_client_peer_netwo.Result.{ok, err}
use server_client_peer_netwo.Peer.{Location}
use server_client_peer_netwo.Connector.{
  Runs, nothing, connects, ends, begin_handshake, call_back, duplicate_target, is_pending, erase,
  connect, finished,
}
use server_client_peer_netwo.Connector.Balance.{answers, Runs-balance}

abbrev peer : Location
peer = (1, 2)

twice :
    Runs [] []
      (begin_handshake peer ∷ (call_back (err duplicate_target) ∷ (call_back (ok peer) ∷ [])))
      2
unfolding connect is_pending finished erase
twice = connects peer (connects peer (ends peer (ok tt) refl nothing))

Runs-balance_example :
    answers (begin_handshake peer ∷ (call_back (err duplicate_target) ∷ (call_back (ok peer) ∷ [])))
      + 0
    ≡ 0 + 2
Runs-balance_example = Runs-balance twice
