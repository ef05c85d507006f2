-- ===== src/Peer.antt =====
-- src/net/peer/peer_network_manager.h and .cc: the manager of the connections to the peers.
--
-- A callback, a socket and the cause of an error are known by numbers; a location is a host and a
-- port. A handler returns the manager anew with what it schedules and runs, in order.
-- `managed_connections_` is a list of entries with different ids.
pub mod Callbacks
pub mod Complete
pub mod Runs
mod Tests
use server_client_peer_netwo.Base.{
  ℕ, zero, suc, Bool, true, false, not, ◌&&◌, ◌||◌, Option, none, some, List, [], ◌∷◌, ◌++◌, map,
  ◌==◌, if◌then◌else◌,
}
use server_client_peer_netwo.Result.{Result, ok, err, ◌>>=◌}

pub data State : Type 0 where
  initializing connected recovering broken closed : State

abbrev pub Location : Type 0
Location = ℕ × ℕ

pub record PeerConnection : Type 0 where
  pub location : Location
  pub id : ℕ
  pub in_socket : Option ℕ
  pub out_socket : Option ℕ

-- The errors that the manager makes.
pub data Problem : Type 0 where
  disconnected stopped : Problem
  connect_failed accept_failed : ℕ → Problem

pub record Manager : Type 0 where
  pub running : Bool
  pub peer_locations : List Location
  pub state : State
  pub managed : List PeerConnection
  pub connected_callbacks : List ℕ
  pub recovered_callbacks : List ℕ
  pub stopping_error : Option Problem

-- `PeerConnectionReference`: an id, the incoming and the outgoing socket.
abbrev pub Reference : Type 0
Reference = ℕ × (ℕ × ℕ)

-- A null pointer followed, and a recursion that did not end.
pub data Fault : Type 0 where
  null_pointer no_progress : Fault

pub data Effect : Type 0 where
  -- a connected callback is scheduled with the network, or run at once with it
  network_to : ℕ → Effect
  network_now : ℕ → List Reference → Effect
  recovered_to : ℕ → Effect
  error_to_connected error_to_recovered : Problem → ℕ → Effect
  unblock : Effect
  close : ℕ → Effect

abbrev pub Outcome : Type 0
Outcome = Result (Manager × List Effect) Fault

abbrev pub state_eq : State → State → Bool
state_eq initializing initializing = true
state_eq connected connected = true
state_eq recovering recovering = true
state_eq broken broken = true
state_eq closed closed = true
state_eq _ _ = false

-- Two keys of a hash container, whose hash takes both parts in. `Location::operator==` holds of any two
-- ports too, if one is `kAnyPort`, which the keys of a container must not need.
abbrev pub same_location : Location → Location → Bool
same_location a b = (a.0 == b.0) && (a.1 == b.1)

abbrev pub value_or {ℓ} : {A : Type ℓ} → Option A → A → A
value_or none d = d
value_or (some a) d = a

-- `SendSuccessToCallbacks` with `kConnected` or with `kRecovering`
unfoldable pub succeed_connected : Manager → Manager × List Effect
succeed_connected m = (record m { connected_callbacks = [] }, map network_to m.connected_callbacks)

unfoldable pub succeed_recovered : Manager → Manager × List Effect
succeed_recovered m =
    (record m { recovered_callbacks = [] }, map recovered_to m.recovered_callbacks)

-- `SendErrorToCallbacks` with `kAll`
unfoldable pub send_error : Problem → Manager → Manager × List Effect
send_error p m = (
  record m { connected_callbacks = []; recovered_callbacks = [] },
  map (error_to_connected p) m.connected_callbacks
      ++ map (error_to_recovered p) m.recovered_callbacks,
)

-- The switches of `UpdateState`, by the new state and the old; `stop` is `SignalStop`.
unfoldable pub transition : (Manager → Outcome) → State → State → Manager → Outcome
transition stop connected recovering m =
    let (m', es) = succeed_recovered m in
    let (m'', es') = succeed_connected m' in ok (m'', es ++ es')
transition stop connected initializing m = ok (succeed_connected m)
transition stop connected _ m = ok (m, [])
transition stop broken _ m = ok (send_error (value_or m.stopping_error disconnected) m)
transition stop closed _ m = do
  let sent = send_error (value_or m.stopping_error stopped) m
  (m', es) ← stop sent.0
  ok (m', sent.1 ++ es)
transition stop initializing _ m = ok (m, [])
transition stop recovering _ m = ok (m, [])

-- `UpdateState`, on fuel: closing calls `SignalStop`, which calls `OnStop`, which updates again.
unfoldable pub update_state : ℕ → State → Manager → Outcome
update_state zero new m = err no_progress
update_state (suc fuel) new m =
    if state_eq new m.state || state_eq m.state closed
    then ok (m, [])
    else transition
        (λ m'. do
          (m'', es) ← update_state fuel closed (record m' { running = false })
          ok (m'', es ++ (unblock ∷ [])))
        new m.state (record m { state = new })

-- Closing updates once more and finds itself closed.
abbrev pub update_fuel : ℕ
update_fuel = 2

abbrev pub update : State → Manager → Outcome
update new m = update_state update_fuel new m

-- `NetworkService::SignalStop`, with the manager's `OnStop`
unfoldable pub signal_stop : Manager → Outcome
signal_stop m = do
  (m', es) ← update closed (record m { running = false })
  ok (m', es ++ (unblock ∷ []))

unfoldable pub signal_stop_with_error : Manager → Problem → Outcome
signal_stop_with_error m p = update closed (record m { stopping_error = some p })

abbrev pub pointed {ℓ} : {A : Type ℓ} → Option A → Result A Fault
pointed none = err null_pointer
pointed (some a) = ok a

-- `ConstructNetwork`
unfoldable pub construct_network : List PeerConnection → Result (List Reference) Fault
construct_network [] = ok []
construct_network (c ∷ cs) = do
  i ← pointed c.in_socket
  o ← pointed c.out_socket
  rest ← construct_network cs
  ok ((c.id, (i, o)) ∷ rest)

unfoldable pub await_connected : Manager → ℕ → Outcome
await_connected m callback =
    if state_eq m.state connected
    then (do refs ← construct_network m.managed; ok (m, network_now callback refs ∷ []))
    else ok (record m { connected_callbacks = m.connected_callbacks ++ (callback ∷ []) }, [])

unfoldable pub report_error : Manager → ℕ → Outcome
report_error m callback =
    update broken (record m { recovered_callbacks = m.recovered_callbacks ++ (callback ∷ []) })

-- `GetConnectionMapEntry`, and what its caller then does to the entry.
unfoldable pub change_entry :
    ℕ → (PeerConnection → PeerConnection) → List PeerConnection → List PeerConnection
change_entry id change [] =
    change (record { location = (0, 0); id = id; in_socket = none; out_socket = none }) ∷ []
change_entry id change (c ∷ cs) =
    let rest = change_entry id change cs in if c.id == id then change c ∷ cs else c ∷ rest

abbrev pub present {ℓ} : {A : Type ℓ} → Option A → Bool
present none = false
present (some a) = true

-- The erasures of `IsConnectedImpl` from its set of locations.
unfoldable pub erase_all : Location → List Location → List Location
erase_all l [] = []
erase_all l (k ∷ ks) = let rest = erase_all l ks in if same_location l k then rest else k ∷ rest

-- The loop of `IsConnectedImpl` and its last line, by the locations that are left.
unfoldable pub all_connected : List Location → List PeerConnection → Bool
all_connected left [] = elim left [ [] ↦ true | _ ∷ _ ↦ false ]
all_connected left (c ∷ cs) =
    let rest = all_connected (erase_all c.location left) cs in
    if not (present c.in_socket) || not (present c.out_socket) then false else rest

unfoldable pub is_connected_impl : Manager → Bool
is_connected_impl m =
    if state_eq m.state connected then true else all_connected m.peer_locations m.managed

unfoldable pub check_if_connected : Manager → Outcome
check_if_connected m = if is_connected_impl m then update connected m else ok (m, [])

-- The results of the handshakes: the server's id, its location and the socket; and the client's id
-- and the socket.
unfoldable pub on_client_connection : Manager → Result (ℕ × (Location × ℕ)) ℕ → Outcome
on_client_connection m (err e) = signal_stop_with_error m (connect_failed e)
on_client_connection m (ok (server, (target, socket))) = check_if_connected (record m {
  managed =
      change_entry server (λ c. record c { location = target; out_socket = some socket }) m.managed;
})

unfoldable pub on_server_connection : Manager → Result (ℕ × ℕ) ℕ → Outcome
on_server_connection m (err e) = signal_stop_with_error m (accept_failed e)
on_server_connection m (ok (client, socket)) = check_if_connected (record m {
  managed = change_entry client (λ c. record c { in_socket = some socket }) m.managed;
})

-- The sockets that `CleanUp` closes.
unfoldable pub clean_up : List PeerConnection → List Effect
clean_up [] = []
clean_up (c ∷ cs) =
    let closing : Option ℕ → List Effect = λ s. elim s [ none ↦ [] | some k ↦ close k ∷ [] ] in
    closing c.in_socket ++ (closing c.out_socket ++ clean_up cs)

pub data Event : Type 0 where
  await report : ℕ → Event
  client : Result (ℕ × (Location × ℕ)) ℕ → Event
  server : Result (ℕ × ℕ) ℕ → Event
  stop : Event

unfoldable pub step : Manager → Event → Outcome
step m (await c) = await_connected m c
step m (report c) = report_error m c
step m (client r) = on_client_connection m r
step m (server r) = on_server_connection m r
step m stop = signal_stop m
