-- ===== src/Connector.antt =====
-- src/net/peer/peer_connector.h and peer_connector.cc: the connections to peers that are being made.
--
-- The map of the pending connections is the list of its keys. A handshake is a service of its own; when it
-- ends, it gives the connector a result. What is scheduled in the thread pool is an effect.
pub mod Balance
mod Tests
use server_client_peer_netwo.Base.{
  ℕ, suc, ◌≡◌, Bool, true, false, ◌||◌, List, [], ◌∷◌, ◌++◌, if◌then◌else◌,
}
use server_client_peer_netwo.Result.{Result, ok, err}
use server_client_peer_netwo.Peer.{Location, same_location}

abbrev pub Pending : Type 0
Pending = List Location

pub data ConnectError : Type 0 where
  duplicate_target : ConnectError
  from_handshake : ℕ → ConnectError

pub data Effect : Type 0 where
  -- the handshake with a peer is started
  begin_handshake : Location → Effect
  -- `callback_`, with an error or with the connection to a peer
  call_back : Result Location ConnectError → Effect
  cancel schedule_stop : Location → Effect

unfoldable pub is_pending : Location → Pending → Bool
is_pending l [] = false
is_pending l (p ∷ ps) = let rest = is_pending l ps in same_location l p || rest

unfoldable pub erase : Location → Pending → Pending
erase l [] = []
erase l (p ∷ ps) = let rest = erase l ps in if same_location l p then ps else p ∷ rest

unfoldable pub connect : Location → Pending → Pending × List Effect
connect target ps =
    if is_pending target ps
    then (ps, call_back (err duplicate_target) ∷ [])
    else (ps ++ (target ∷ []), begin_handshake target ∷ [])

-- The callback of the handshake
unfoldable pub finished : Location → Result (Unit {0}) ℕ → Pending → Pending × List Effect
finished target (err n) ps = (erase target ps, call_back (err (from_handshake n)) ∷ [])
finished target (ok u) ps = (erase target ps, call_back (ok target) ∷ [])

unfoldable pub clean_up : Pending → Pending × List Effect
clean_up [] = ([], [])
clean_up (p ∷ ps) = let rest = clean_up ps in (p ∷ rest.0, cancel p ∷ (schedule_stop p ∷ rest.1))

-- What happens to a connector; a handshake ends only while it is pending.
pub data Runs : Pending → Pending → List Effect → ℕ → Type 0 where
  nothing : {ps : Pending} → Runs ps ps [] 0
  connects :
      {ps qs : Pending} {es : List Effect} {n : ℕ} (l : Location)
      → Runs (connect l ps).0 qs es n
      → Runs ps qs ((connect l ps).1 ++ es) (suc n)
  ends :
      {ps qs : Pending} {es : List Effect} {n : ℕ} (l : Location) (r : Result (Unit {0}) ℕ)
      → is_pending l ps ≡ true
      → Runs (finished l r ps).0 qs es n
      → Runs ps qs ((finished l r ps).1 ++ es) n
  cleans :
      {ps qs : Pending} {es : List Effect} {n : ℕ}
      → Runs (clean_up ps).0 qs es n
      → Runs ps qs ((clean_up ps).1 ++ es) n
