-- ===== src/Connector/Balance.antt =====
-- How many calls of `Connect` of peer_connector.cc are answered.
use server_client_peer_netwo.Base.{
  ℕ, suc, ◌+◌, ◌≡◌, true, List, [], ◌∷◌, ◌++◌, length, length-append, arith,
}
use server_client_peer_netwo.Result.{Result, ok, err}
use server_client_peer_netwo.Peer.{Location}
use server_client_peer_netwo.Connector.{
  Pending, Effect, begin_handshake, call_back, cancel, schedule_stop, is_pending, erase, connect,
  finished, clean_up, Runs, nothing, connects, ends, cleans,
}

abbrev pub answers : List Effect → ℕ
answers [] = 0
answers (call_back r ∷ es) = suc (answers es)
answers (begin_handshake l ∷ es) = answers es
answers (cancel l ∷ es) = answers es
answers (schedule_stop l ∷ es) = answers es

answers-append : (a b : List Effect) → answers (a ++ b) ≡ answers a + answers b
answers-append [] b = omega arith
answers-append (call_back r ∷ es) b = omega (arith, answers-append es b)
answers-append (begin_handshake l ∷ es) b = answers-append es b
answers-append (cancel l ∷ es) b = answers-append es b
answers-append (schedule_stop l ∷ es) b = answers-append es b

length-erase :
    (l : Location) (ps : Pending) → is_pending l ps ≡ true → suc (length (erase l ps)) ≡ length ps
unfolding erase is_pending
length-erase l [] h = ground (arith, h)
length-erase l (p ∷ ps) h = ground (arith, h, length-erase l ps)

connect-balance :
    (l : Location) (ps : Pending)
    → answers (connect l ps).1 + length (connect l ps).0 ≡ suc (length ps)
unfolding connect
connect-balance l ps = ground (arith, length-append ps (l ∷ []))

finished-balance :
    (l : Location) (r : Result (Unit {0}) ℕ) (ps : Pending)
    → is_pending l ps ≡ true
    → answers (finished l r ps).1 + length (finished l r ps).0 ≡ length ps
unfolding finished
finished-balance l (ok u) ps h = omega (arith, length-erase l ps h)
finished-balance l (err n) ps h = omega (arith, length-erase l ps h)

clean_up-balance : (ps : Pending) → answers (clean_up ps).1 + length (clean_up ps).0 ≡ length ps
unfolding clean_up
clean_up-balance [] = omega arith
clean_up-balance (p ∷ ps) = omega (arith, clean_up-balance ps)

-- Whatever happens to a connector, as long as only pending handshakes end, the answers given and the connections that are pending at
-- the end are together as many as those pending at the start and the calls of `Connect`.
pub Runs-balance :
    {ps qs : Pending} {es : List Effect} {n : ℕ}
    → Runs ps qs es n
    → answers es + length qs ≡ length ps + n
Runs-balance nothing = omega arith
Runs-balance {ps} (connects {es = es} l run) =
    omega (arith, Runs-balance run, connect-balance l ps, answers-append (connect l ps).1 es)
Runs-balance {ps} (ends {es = es} l r h run) =
    omega
      (arith, Runs-balance run, finished-balance l r ps h, answers-append (finished l r ps).1 es)
Runs-balance {ps} (cleans {es = es} run) =
    omega (arith, Runs-balance run, clean_up-balance ps, answers-append (clean_up ps).1 es)
