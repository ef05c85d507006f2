-- ===== src/Mutex/Pair/Progress.antt =====
-- A node of the two waits for its peer only while something is under way.
use server_client_peer_netwo.Mutex.Pair.{Pair}
use server_client_peer_netwo.Mutex.Pair.Inv.{Inv}
