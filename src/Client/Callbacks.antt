-- ===== src/Client/Callbacks.antt =====
-- The callbacks of the handlers of project2_client.cc: what they change, do and report.
--
-- A callback that reports calls the callback of the state machine; one that does not leaves the
-- machine where it is.
use server_client_peer_netwo.Base.{
  ℕ, zero, suc, Bool, true, false, ◌&&◌, Option, none, some, List, [], ◌∷◌, ◌++◌, ◌==◌,
  if◌then◌else◌, length, map, codes,
}
use server_client_peer_netwo.Result.{Result, ok, err, ◌>>=◌}
use server_client_peer_netwo.StateMachine
use server_client_peer_netwo.StateMachine.{Status, Machine, Effect, act, complete}
use server_client_peer_netwo.Strings.Trim.{split_trim}
use server_client_peer_netwo.Messages.{
  Message, op_ok, op_error, op_response, op_read, throwing, opcode_byte, string_message, to_text,
  write_message,
}
use server_client_peer_netwo.Client.{
  State, stopped, Client, ClientError, from_service, unexpected_opcode, no_file_names, Fault,
  bad_optional_access, Remote, Grant, Action, write_to, release, Surroundings, converting,
  splitting, deref, indices, client,
}

pub record Called : Type 0 where
  pub instance_ : Client
  pub actions : List Action
  pub forced : Option State
  pub reported : Option (Status ClientError)

abbrev pub silent : Client → List Action → Called
silent c actions = record { instance_ = c; actions = actions; forced = none; reported = none }

abbrev pub says : Client → Status ClientError → Called
says c r = record { instance_ = c; actions = []; forced = none; reported = some r }

-- `set_next_state(Stop::instance())`, and success
abbrev pub stopping : Client → Called
stopping c = record { instance_ = c; actions = []; forced = some stopped; reported = some (ok tt) }

-- The result of a service, passed on
abbrev pub passing : Result (Unit {0}) ℕ → Status ClientError
passing (ok u) = ok u
passing (err n) = err (from_service n)

-- The callback of `NewConnection`: a server is added, and the last one reports.
unfoldable pub on_connected : Client → Result (Unit {0}) ℕ → Called
on_connected c (err n) = says c (err (from_service n))
on_connected c (ok u) =
    let servers = c.servers ++ (record { operation_sent = false; performed_write = false } ∷ []) in
    let c' : Client = record c { servers = servers } in
    if length servers == c.num_servers then says c' (ok tt) else silent c' []

-- The answer to an Enquiry
unfoldable pub on_enquiry_response : Client → Result Message ℕ → Result Called Fault
on_enquiry_response c (err n) = ok (says c (err (from_service n)))
on_enquiry_response c (ok msg) = elim msg.opcode [
  | op_response ↦ (do
    text ← converting (to_text op_response msg)
    names ← splitting (split_trim text 44 (32 ∷ (9 ∷ [])))
    ok (
        says (record c { file_names = names })
          (if length names == 0 then err no_file_names else ok tt)))
  | op_error ↦ (do text ← converting (to_text op_error msg); ok (stopping c))
  | _ ↦ ok (says c (err (unexpected_opcode (opcode_byte msg.opcode))))
]

-- Mutual exclusion for a read
unfoldable pub on_read_granted : Client → Result Grant ℕ → Result Called Fault
on_read_granted c (err n) = ok (says c (err (from_service n)))
on_read_granted c (ok g) = do
  i ← deref c.current_server
  name ← deref c.current_file_name
  msg ← converting (throwing (string_message op_read name))
  ok (silent (record c { finished_critical_section_callback = some g }) (write_to i msg ∷ []))

-- `finished_critical_section_callback_.value()(…)`
unfoldable pub releasing : Client → Result Called Fault
releasing c = elim c.finished_critical_section_callback [
  | none ↦ err bad_optional_access
  | some g ↦ ok (silent c (release g ∷ []))
]

-- The answer to a Read
unfoldable pub on_read_response : Client → Result Message ℕ → Result Called Fault
on_read_response c (err n) = ok (says c (err (from_service n)))
on_read_response c (ok msg) = elim msg.opcode [
  | op_response ↦ (do text ← converting (to_text op_response msg); releasing c)
  | op_error ↦ (do text ← converting (to_text op_error msg); ok (stopping c))
  | _ ↦ ok (says c (err (unexpected_opcode (opcode_byte msg.opcode))))
]

-- The text that is appended: `(id, timestamp)`
abbrev pub appended : Surroundings → ℕ → List ℕ
appended o timestamp = ((codes "(" ++ o.show o.id) ++ codes ", ") ++ (o.show timestamp ++ codes ")")

-- The loop over the servers, from an index on.
unfoldable pub write_all : List ℕ → List ℕ → List ℕ → Result (List Action) Fault
write_all name text [] = ok []
write_all name text (i ∷ is) = do
  msg ← converting (throwing (write_message (record { file_name = name; line = text })))
  rest ← write_all name text is
  ok (write_to i msg ∷ rest)

-- Mutual exclusion for a write, at a time of the mutual exclusion service
unfoldable pub on_write_granted : Surroundings → ℕ → Client → Result Grant ℕ → Result Called Fault
on_write_granted o timestamp c (err n) = ok (says c (err (from_service n)))
on_write_granted o timestamp c (ok g) = do
  name ← deref c.current_file_name
  actions ← write_all name (appended o timestamp) (indices 0 c.servers)
  ok (silent (record c { finished_critical_section_callback = some g }) actions)

unfoldable pub update : (Remote → Remote) → ℕ → List Remote → List Remote
update f i [] = []
update f zero (r ∷ rs) = f r ∷ rs
update f (suc i) (r ∷ rs) = r ∷ update f i rs

-- `std::all_of`
unfoldable pub all_of : (Remote → Bool) → List Remote → Bool
all_of p [] = true
all_of p (r ∷ rs) = p r && all_of p rs

abbrev pub sent : Remote → Remote
sent r = record r { operation_sent = true }

abbrev pub performed : Remote → Remote
performed r = record r { performed_write = true }

abbrev pub is_sent : Remote → Bool
is_sent r = r.operation_sent

abbrev pub is_performed : Remote → Bool
is_performed r = r.performed_write

-- A Write is sent to a server, or not.
unfoldable pub on_write_sent : ℕ → Client → Result (Unit {0}) ℕ → Called
on_write_sent i c (err n) = says c (err (from_service n))
on_write_sent i c (ok u) =
    let servers = update sent i c.servers in
    let c' : Client = record c { servers = servers } in
    if all_of is_sent servers then says c' (ok tt) else silent c' []

-- The answer of a server to a Write
unfoldable pub on_write_response : ℕ → Client → Result Message ℕ → Result Called Fault
on_write_response i c (err n) = ok (says c (err (from_service n)))
on_write_response i c (ok msg) = elim msg.opcode [
  | op_ok ↦
      (let servers = update performed i c.servers in
        let c' : Client = record c { servers = servers } in
        if all_of is_performed servers then releasing c' else ok (silent c' []))
  | op_error ↦ (do text ← converting (to_text op_error msg); ok (stopping c))
  | _ ↦ ok (says c (err (unexpected_opcode (opcode_byte msg.opcode))))
]

-- A callback that a handler has given is called. The mutual exclusion service gives its time with a grant.
pub data Event : Type 0 where
  connected enquiry_written read_written released : Result (Unit {0}) ℕ → Event
  enquiry_answered read_answered : Result Message ℕ → Event
  read_granted : Result Grant ℕ → Event
  write_granted : ℕ → Result Grant ℕ → Event
  write_sent : ℕ → Result (Unit {0}) ℕ → Event
  write_answered : ℕ → Result Message ℕ → Event

unfoldable pub on_event : Surroundings → Client → Event → Result Called Fault
on_event o c (connected r) = ok (on_connected c r)
on_event o c (enquiry_written r) = ok (says c (passing r))
on_event o c (read_written r) = ok (says c (passing r))
on_event o c (released r) = ok (says c (passing r))
on_event o c (enquiry_answered r) = on_enquiry_response c r
on_event o c (read_answered r) = on_read_response c r
on_event o c (read_granted r) = on_read_granted c r
on_event o c (write_granted time r) = on_write_granted o time c r
on_event o c (write_sent i r) = ok (on_write_sent i c r)
on_event o c (write_answered i r) = on_write_response i c r

abbrev pub ClientMachine : Type 0
ClientMachine = Machine State Client ClientError

abbrev pub Outcome : Type 0
Outcome = Result (ClientMachine × List (Effect ClientError Action)) (StateMachine.Fault Fault)

-- Rounds of `run` between two callbacks: `Wait`, and the state behind it, or the one that stops.
abbrev pub rounds : ℕ
rounds = 3

-- The machine after a callback
unfoldable pub goes_on : Surroundings → ClientMachine → Called → Outcome
goes_on o m h = elim h.reported [
  | none ↦ ok (record m { instance_ = h.instance_ }, map act h.actions)
  | some r ↦ do
    (m', es) ← complete (client o) rounds m h.instance_ h.forced r
    ok (m', map act h.actions ++ es)
]

unfoldable pub step : Surroundings → ClientMachine → Event → Outcome
step o m e = do called ← StateMachine.throwing (on_event o m.instance_ e); goes_on o m called

unfoldable pub steps : Surroundings → ClientMachine → List Event → Outcome
steps o m [] = ok (m, [])
steps o m (e ∷ es) = do
  (m', first) ← step o m e
  (m'', rest) ← steps o m' es
  ok (m'', first ++ rest)
