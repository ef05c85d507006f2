-- ===== src/Client.antt =====
-- src/net/client/impl/project2_client.h and project2_client.cc: what the client does with its servers.
--
-- The client is a state machine. A handler begins a connection, a message or a request for mutual
-- exclusion; Callbacks has what their callbacks do. The random numbers, the number of a text and the
-- text of a number come from the standard library, and are parameters; so is the property of the
-- servers. A pointer to a server is its index. A draw of an index that is not in the range is its end.
pub mod Callbacks
pub mod Flags
pub mod Steps
pub mod Rounds
pub mod Stops
pub mod Names
mod Tests
use server_client_peer_netwo.Base.{
  ℕ, zero, suc, Bool, true, false, not, Option, none, some, List, [], ◌∷◌, ◌++◌, ◌==◌, ltb,
  if◌then◌else◌, length, map, codes,
}
use server_client_peer_netwo.Result.{Result, ok, err, ◌>>=◌}
use server_client_peer_netwo.StateMachine.{Status, Handled, Behavior}
use server_client_peer_netwo.Strings
use server_client_peer_netwo.Strings.{split}
use server_client_peer_netwo.Messages.{Message, Failure, throwing, empty_message, op_enquiry}

pub data State : Type 0 where
  connect_to_servers send_enquiry receive_enquiry_response wait : State
  send_read receive_read_response send_write receive_write_response stopped : State

-- The errors by their texts, and those of the services
pub data ClientError : Type 0 where
  no_server_list empty_server_list malformed_location malformed_port : ClientError
  no_server no_file no_file_names : ClientError
  unexpected_opcode : ℕ → ClientError
  from_service : ℕ → ClientError

-- A message's conversion that fails, an absent optional, a null pointer, and a loop that did not end
pub data Fault : Type 0 where
  conversion : Failure → Fault
  bad_optional_access null_pointer no_progress : Fault

-- The flags of a `Server`
pub record Remote : Type 0 where
  pub operation_sent : Bool
  pub performed_write : Bool

-- `mutex_operation_done_t`, the callback that releases mutual exclusion, by a name.
pub record Grant : Type 0 where
  pub name : ℕ

pub record Client : Type 0 where
  pub num_servers : ℕ
  pub servers : List Remote
  pub file_names : List (List ℕ)
  pub current_server : Option ℕ
  pub current_file_name : Option (List ℕ)
  pub finished_critical_section_callback : Option Grant

pub data Action : Type 0 where
  connect : List ℕ → ℕ → Action
  write_to : ℕ → Message → Action
  read_from : ℕ → Action
  run_with_mutual_exclusion : List ℕ → Action
  -- the call of `finished_critical_section_callback_`
  release : Grant → Action
  sleep : ℕ → Action

-- What the random devices give in `Wait` and in `ChangeServer` and `ChangeFile`
pub record Draws : Type 0 where
  pub ms_to_sleep : ℕ
  pub should_write : Bool
  pub server : ℕ
  pub file : ℕ

-- `servers_property` is the value of "servers"; `read_number` is `>>` to a port, and `show` is `<<` of a
-- number.
pub record Surroundings : Type 0 where
  pub servers_property : Option (List ℕ)
  pub read_number : List ℕ → Option ℕ
  pub show : ℕ → List ℕ
  pub id : ℕ
  pub draws : Draws

abbrev pub Step : Type 0
Step = Handled State Client ClientError Action

abbrev pub begins : Client → List Action → Step
begins c actions = record { instance_ = c; actions = actions; forced = none; reported = none }

abbrev pub reports : Client → List Action → Status ClientError → Step
reports c actions r = record { instance_ = c; actions = actions; forced = none; reported = some r }

abbrev pub converting {ℓ} : {A : Type ℓ} → Result A Failure → Result A Fault
converting (ok a) = ok a
converting (err e) = err (conversion e)

abbrev pub splitting {ℓ} : {A : Type ℓ} → Result A Strings.Fault → Result A Fault
splitting (ok a) = ok a
splitting (err e) = err no_progress

-- `*p` of a pointer that may be null
abbrev pub deref {ℓ} : {A : Type ℓ} → Option A → Result A Fault
deref none = err null_pointer
deref (some a) = ok a

unfoldable pub nth_name : List (List ℕ) → ℕ → Option (List ℕ)
nth_name [] i = none
nth_name (n ∷ ns) zero = some n
nth_name (n ∷ ns) (suc i) = nth_name ns i

unfoldable pub change_server : Surroundings → Client → Result Client ClientError
change_server o c =
    if ltb o.draws.server (length c.servers)
    then ok (record c { current_server = some o.draws.server })
    else err no_server

unfoldable pub change_file : Surroundings → Client → Result Client ClientError
change_file o c = elim (nth_name c.file_names o.draws.file) [
  | none ↦ err no_file
  | some n ↦ ok (record c { current_file_name = some n })
]

-- `string_to_num` of src/util/number.h
unfoldable pub string_to_num : Surroundings → List ℕ → Option ℕ
string_to_num o str = o.read_number str

-- One server of the list: the connection that is begun, or an error.
unfoldable pub connect_one : Surroundings → List (List ℕ) → Result Action ClientError
connect_one o (host ∷ (port ∷ [])) = elim (string_to_num o port) [
  | none ↦ err malformed_port
  | some p ↦ ok (connect host p)
]
connect_one o _ = err malformed_location

-- The loop over the servers, which an error ends.
unfoldable pub connect_all :
    Surroundings → List (List ℕ) → Result (List Action × Option (Status ClientError)) Fault
connect_all o [] = ok ([], none)
connect_all o (s ∷ ss) = do
  host_port ← splitting (split s 58)
  elim (connect_one o host_port) [
    | err e ↦ ok ([], some (err e))
    | ok a ↦ do (actions, r) ← connect_all o ss; ok (a ∷ actions, r)
  ]

unfoldable pub connecting : Surroundings → Client → Result Step Fault
connecting o c = elim o.servers_property [
  | none ↦ ok (reports c [] (err no_server_list))
  | some text ↦ if length text == 0 then ok (reports c [] (err empty_server_list)) else (do
    servers ← splitting (split text 44)
    (actions, r) ← connect_all o servers
    ok (record {
      instance_ = record c { num_servers = length servers };
      actions = actions;
      forced = none;
      reported = r;
    }))
]

unfoldable pub enquiring : Surroundings → Client → Result Step Fault
enquiring o c = elim (change_server o c) [
  | err e ↦ ok (reports c [] (err e))
  | ok c' ↦ do
    i ← deref c'.current_server
    msg ← converting (throwing (empty_message op_enquiry))
    ok (begins c' (write_to i msg ∷ []))
]

-- The random server and file of `Wait`
unfoldable pub choose : Surroundings → Client → Client × Status ClientError
choose o c = elim (change_server o c) [
  | err e ↦ (c, err e)
  | ok c1 ↦ elim (change_file o c1) [ err e ↦ (c1, err e) | ok c2 ↦ (c2, ok tt) ]
]

-- `Wait` sets the next state before anything can fail.
unfoldable pub waiting : Surroundings → Client → Step
waiting o c = record {
  instance_ = (choose o c).0;
  actions = sleep o.draws.ms_to_sleep ∷ [];
  forced = some (if o.draws.should_write then send_write else send_read);
  reported = some (choose o c).1;
}

abbrev pub unsent : Remote → Remote
unsent r = record r { operation_sent = false }

abbrev pub unperformed : Remote → Remote
unperformed r = record r { performed_write = false }

-- The handlers of `SendRead` and `SendWrite`, up to the callback
unfoldable pub asking : Client → Result Step Fault
asking c = do
  name ← deref c.current_file_name
  ok (begins (record c { servers = map unsent c.servers }) (run_with_mutual_exclusion name ∷ []))

-- `0 ∷ 1 ∷ …`, the servers from an index on
unfoldable pub indices : ℕ → List Remote → List ℕ
indices i [] = []
indices i (r ∷ rs) = i ∷ indices (suc i) rs

unfoldable pub reading_all : Client → Step
reading_all c =
    begins (record c { servers = map unperformed c.servers }) (map read_from (indices 0 c.servers))

unfoldable pub reading : Client → Result Step Fault
reading c = do i ← deref c.current_server; ok (begins c (read_from i ∷ []))

unfoldable pub handle : Surroundings → State → Client → Result Step Fault
handle o connect_to_servers c = connecting o c
handle o send_enquiry c = enquiring o c
handle o receive_enquiry_response c = reading c
handle o wait c = ok (waiting o c)
handle o send_read c = asking c
handle o receive_read_response c = reading c
handle o send_write c = asking c
handle o receive_write_response c = ok (reading_all c)
handle o stopped c = ok (begins c [])

unfoldable pub is_async : State → Bool
is_async wait = false
is_async stopped = false
is_async _ = true

unfoldable pub should_stop : State → Bool
should_stop stopped = true
should_stop _ = false

-- `Wait` sets its next state itself.
unfoldable pub next_state : State → State
next_state connect_to_servers = send_enquiry
next_state send_enquiry = receive_enquiry_response
next_state receive_enquiry_response = wait
next_state wait = wait
next_state send_read = receive_read_response
next_state receive_read_response = wait
next_state send_write = receive_write_response
next_state receive_write_response = wait
next_state stopped = stopped

abbrev pub client : Surroundings → Behavior State Client ClientError Action Fault
client o = record {
  is_async = is_async;
  should_stop = should_stop;
  next_state = next_state;
  handle = handle o;
}
