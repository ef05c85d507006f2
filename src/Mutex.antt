-- ===== src/Mutex.antt =====
-- src/net/mutex/distributed_mutual_exclusion_service.h and .cc: one node of the Ricart-Agrawala
-- algorithm with the optimization of Roucairol and Carvalho.
--
-- A handler takes the node's state and returns it anew with what it sends and calls, in order. The
-- entries of `network_` are known by their connection's id, which is the key of the manager's map
-- and so their own. What the operation does in the critical section is outside: it is called by the
-- effect `run`, and the callback that it is given is the event `release`. Clocks are `size_t`.
pub mod Invariant
pub mod Release
pub mod Runs
pub mod Pair
mod Tests
use server_client_peer_netwo.Base.{
  ℕ, zero, suc, ◌+◌, ◌%◌, ◌^◌, max, ◌≡◌, Bool, true, false, not, ◌&&◌, ◌||◌, Option, none, some,
  List, [], ◌∷◌, ◌++◌, ltb, ◌==◌, if◌then◌else◌, length, name_eq,
}
use server_client_peer_netwo.Result.{Result, ok, err, ◌>>=◌}
use server_client_peer_netwo.Messages.{Clocked}

pub data State : Type 0 where
  waiting requesting in_critical_section : State

-- `MutualExclusionRequest`; an operation is known by a number.
pub record Request : Type 0 where
  pub file_name : List ℕ
  pub operation : ℕ
  pub timestamp : ℕ

-- `DelayedRequest`, with the entry by its id.
pub record Delayed : Type 0 where
  pub peer : ℕ
  pub request : Clocked

pub record Node : Type 0 where
  pub id : ℕ
  pub network : List ℕ
  -- `have_permission_for` of each entry
  pub permitted : ℕ → List ℕ → Bool
  pub timestamp : ℕ
  pub state : State
  pub my_request : Option Request
  pub delayed : List Delayed

pub data Effect : Type 0 where
  send_request send_reply : ℕ → Clocked → Effect
  -- the operation is called with the right to the critical section, or with an error
  run refuse : ℕ → Effect
  -- `ReportError` on the entry's incoming or outgoing connection
  report_in report_out : ℕ → Effect
  ready : Effect

-- `value()` of an empty optional throws.
pub data Fault : Type 0 where
  bad_optional_access no_progress : Fault

abbrev pub Outcome : Type 0
Outcome = Result (Node × List Effect) Fault

-- What a message of a peer can be, for `OnReceiveMessage`: the receive failed, or an opcode that
-- the switch names, or any other.
pub data Received : Type 0 where
  failed error_message unknown : Received
  reply request : Clocked → Received

abbrev pub tick : ℕ → ℕ → ℕ
tick seen own = max ((seen + 1) % 2 ^ 64) ((own + 1) % 2 ^ 64)

-- `emplace` and `erase` on the entry's set of file names.
abbrev pub grant : Node → ℕ → List ℕ → ℕ → List ℕ → Bool
grant n peer file p f = if (p == peer) && name_eq file f then true else n.permitted p f

abbrev pub revoke : Node → ℕ → List ℕ → ℕ → List ℕ → Bool
revoke n peer file p f = if (p == peer) && name_eq file f then false else n.permitted p f

abbrev pub clocked : ℕ → List ℕ → Clocked
clocked t f = record { timestamp = t; file_name = f }

-- `std::all_of` over the entries
unfoldable pub all_permitted : (ℕ → List ℕ → Bool) → List ℕ → List ℕ → Bool
all_permitted permitted [] f = true
all_permitted permitted (p ∷ ps) f = permitted p f && all_permitted permitted ps f

-- `OnNetworkConnected`: an entry without permissions for each connection.
unfoldable pub on_network_connected : Node → List ℕ → Node × List Effect
on_network_connected n peers = (record n { network = peers; permitted = λ p f. false }, ready ∷ [])

-- `CheckForMutualExclusion`, with `PerformCriticalSection`
unfoldable pub check_for_mutual_exclusion : Node → Outcome
check_for_mutual_exclusion n = elim n.my_request [
  | none ↦ err bad_optional_access
  | some req ↦
      if all_permitted n.permitted n.network req.file_name
      then ok (record n { state = in_critical_section }, run req.operation ∷ [])
      else ok (n, [])
]

-- The test of `OnReceiveRequest` for a request that goes before mine.
abbrev pub goes_first : Request → ℕ → Clocked → ℕ → Bool
goes_first mine my_id theirs their_id =
    ltb theirs.timestamp mine.timestamp
    || ((mine.timestamp == theirs.timestamp) && ltb their_id my_id)

abbrev pub reply_now : Node → ℕ → Clocked → Outcome
reply_now n peer req = ok (n, send_reply peer (clocked n.timestamp req.file_name) ∷ [])

abbrev pub forget : Node → ℕ → List ℕ → Node
forget n peer file = record n { permitted = revoke n peer file }

abbrev pub delayed_by : Node → ℕ → Clocked → Node
delayed_by n peer req = record n {
  delayed = n.delayed ++ (record { peer = peer; request = req } ∷ []);
}

abbrev pub delay : Node → ℕ → Clocked → Outcome
delay n peer req = ok (delayed_by n peer req, [])

-- The case `kRequesting`
unfoldable pub answer_requesting : Node → ℕ → Clocked → Outcome
answer_requesting n peer req = elim n.my_request [
  | none ↦ err bad_optional_access
  | some mine ↦
      if not (name_eq mine.file_name req.file_name)
      then reply_now (forget n peer req.file_name) peer req
      else if goes_first mine n.id req peer
      then reply_now n peer req
      else delay n peer req
]

unfoldable pub answer : State → Node → ℕ → Clocked → Outcome
answer waiting n peer req = reply_now (forget n peer req.file_name) peer req
answer in_critical_section n peer req = delay n peer req
answer requesting n peer req = answer_requesting n peer req

unfoldable pub on_receive_request : Node → ℕ → Clocked → Outcome
on_receive_request n peer req =
    answer n.state (record n { timestamp = tick req.timestamp n.timestamp }) peer req

unfoldable pub on_receive_message : Node → ℕ → Received → Outcome
on_receive_message n peer failed = ok (n, report_in peer ∷ [])
on_receive_message n peer error_message = ok (n, report_in peer ∷ [])
on_receive_message n peer unknown = ok (n, [])
on_receive_message n peer (request req) = on_receive_request n peer req
on_receive_message n peer (reply rep) = check_for_mutual_exclusion (record n {
  timestamp = tick rep.timestamp n.timestamp;
  permitted = grant n peer rep.file_name;
})

-- `OnSendMessage`, by whether the send succeeded
unfoldable pub on_send_message : Node → ℕ → Bool → Node × List Effect
on_send_message n peer sent = (n, if sent then [] else report_out peer ∷ [])

-- The loop of `RequestMutualExclusion`
unfoldable pub requests : (ℕ → List ℕ → Bool) → Request → List ℕ → List Effect
requests permitted req [] = []
requests permitted req (p ∷ ps) =
    let rest = requests permitted req ps in
    if permitted p req.file_name
    then rest
    else send_request p (clocked req.timestamp req.file_name) ∷ rest

abbrev pub has_value {ℓ} : {A : Type ℓ} → Option A → Bool
has_value none = false
has_value (some a) = true

abbrev pub is_waiting : State → Bool
is_waiting waiting = true
is_waiting requesting = false
is_waiting in_critical_section = false

unfoldable pub run_with_mutual_exclusion : Node → List ℕ → ℕ → Outcome
run_with_mutual_exclusion n file operation =
    let req : Request = record {
      file_name = file;
      operation = operation;
      timestamp = n.timestamp;
    } in
    if has_value n.my_request || not (is_waiting n.state)
    then ok (n, refuse operation ∷ [])
    else (do
      (n', entered) ←
          check_for_mutual_exclusion (record n { my_request = some req; state = requesting })
      ok (n', requests n.permitted req n.network ++ entered))

abbrev pub pop_front {ℓ} : {A : Type ℓ} → List A → List A
pop_front [] = []
pop_front (x ∷ xs) = xs

-- The loop of `DeliverDelayedRequests`, on fuel: the front is answered, then popped.
unfoldable pub deliver_delayed_requests : ℕ → Node → Outcome
deliver_delayed_requests zero n = err no_progress
deliver_delayed_requests (suc fuel) n = elim n.delayed [
  | [] ↦ ok (n, [])
  | next ∷ _ ↦ do
    (n', sent) ← on_receive_request n next.peer next.request
    (n'', more) ← deliver_delayed_requests fuel (record n' { delayed = pop_front n'.delayed })
    ok (n'', sent ++ more)
]

unfoldable pub release_mutual_exclusion : Node → Outcome
release_mutual_exclusion n =
    deliver_delayed_requests (suc (length n.delayed))
      (record n { my_request = none; state = waiting })

-- What can happen to a node.
pub data Event : Type 0 where
  receive : ℕ → Received → Event
  sent : ℕ → Bool → Event
  run_with : List ℕ → ℕ → Event
  release : Event

unfoldable pub step : Node → Event → Outcome
step n (receive peer msg) = on_receive_message n peer msg
step n (sent peer done) = ok (on_send_message n peer done)
step n (run_with file operation) = run_with_mutual_exclusion n file operation
step n release = release_mutual_exclusion n
