-- ===== src/Server.antt =====
-- src/net/server/impl/project2_service.h and project2_service.cc: what the server does for one client.
--
-- The service is a state machine. A handler begins to read or to write a message; `on_read` and
-- `on_written` are the callbacks that it gives. The received message is overwritten before it is used
-- again, so what its conversion takes out of it stays here. The files are part of the instance, since
-- other services change them, too.

pub mod Sessions
pub mod Made
pub mod Answers
pub mod Refusals
mod Tests
use server_client_peer_netwo.Base.{
  ℕ, Bool, true, false, Option, none, some, List, [], ◌∷◌, ◌++◌, ◌==◌, codes,
}
use server_client_peer_netwo.Result.{Result, ok, err, ◌>>=◌}
use server_client_peer_netwo.StateMachine.{Status, Handled, Behavior}
use server_client_peer_netwo.Messages.{
  Message, Opcode, op_ok, op_error, op_response, op_enquiry, op_read, op_write, Failure, throwing,
  opcode_byte, empty_message, string_message, to_text, to_write,
}
use server_client_peer_netwo.Strings.{join}
use server_client_peer_netwo.Files.{
  Directory, FileError, invalid_access, not_opened, from_system, Access, read_file, append_file,
  visible_files,
}

pub data State : Type 0 where
  await_message handle_enquiry handle_read handle_write handle_invalid_opcode stopped : State

-- What the callback of a write does: it passes the result on, or sets `Stop` as the next state.
pub data After : Type 0 where
  passes stops : After

pub data Action : Type 0 where
  read_message : Action
  write_message : Message → After → Action

pub record Service : Type 0 where
  pub last_received : Message
  pub files : Directory

-- What the services of the program around it give: the names' checks, the name of the client, and
-- the files in the directory.
pub record Surroundings : Type 0 where
  pub access : Access
  pub peer_name : Result (List ℕ) FileError
  pub listing : Result (List (List ℕ)) FileError

-- The text of an error. That of the system is logged only.
abbrev pub what : FileError → List ℕ
what invalid_access = codes "Invalid file access"
what (not_opened name) = codes "Failed to open file " ++ name
what (from_system n) = []

abbrev pub Step : Type 0
Step = Handled State Service FileError Action

abbrev pub begins : Service → Action → Step
begins t a = record { instance_ = t; actions = a ∷ []; forced = none; reported = none }

abbrev pub reports : Service → FileError → Step
reports t e = record { instance_ = t; actions = []; forced = none; reported = some (err e) }

-- The text of a message that is sent, with what comes after it
abbrev pub sends_text : Service → Opcode → List ℕ → After → Result Step Failure
sends_text t op text after = do
  msg ← throwing (string_message op text)
  ok (begins t (write_message msg after))

unfoldable pub enquire : Surroundings → Service → Result Step Failure
enquire o t = elim (visible_files o.listing) [
  | err e ↦ ok (reports t e)
  | ok names ↦ sends_text t op_response (join names (codes ", ")) passes
]

unfoldable pub read_for : Surroundings → Service → Result Step Failure
read_for o t = do
  name ← to_text op_read t.last_received
  elim (read_file o.access t.files name) [
    | err e ↦ sends_text t op_error (what e) stops
    | ok line ↦ sends_text t op_response line passes
  ]

unfoldable pub write_for : Surroundings → Service → Result Step Failure
write_for o t = do
  w ← to_write t.last_received
  elim (append_file o.access t.files w.file_name w.line) [
    | err e ↦ sends_text t op_error (what e) stops
    | ok files ↦ (do
      reply ← throwing (empty_message op_ok)
      ok (begins (record t { files = files }) (write_message reply passes)))
  ]

-- A handler that first asks for the client's name
abbrev pub with_peer : Surroundings → Service → Result Step Failure → Result Step Failure
with_peer o t k = elim o.peer_name [ err e ↦ ok (reports t e) | ok name ↦ k ]

unfoldable pub handle : Surroundings → State → Service → Result Step Failure
handle o await_message t = ok (begins t read_message)
handle o handle_enquiry t = with_peer o t (enquire o t)
handle o handle_read t = with_peer o t (read_for o t)
handle o handle_write t = with_peer o t (write_for o t)
handle o handle_invalid_opcode t =
    with_peer o t (sends_text t op_error (codes "Invalid opcode") passes)
handle o stopped t = ok (record { instance_ = t; actions = []; forced = none; reported = none })

unfoldable pub is_async : State → Bool
is_async stopped = false
is_async _ = true

unfoldable pub should_stop : State → Bool
should_stop stopped = true
should_stop _ = false

-- Where no state is named, the handler's callback sets it; then a state is its own next one.
unfoldable pub next_state : State → State
next_state await_message = await_message
next_state handle_enquiry = await_message
next_state handle_read = await_message
next_state handle_write = await_message
next_state handle_invalid_opcode = stopped
next_state stopped = stopped

abbrev pub service : Surroundings → Behavior State Service FileError Action Failure
service o = record {
  is_async = is_async;
  should_stop = should_stop;
  next_state = next_state;
  handle = handle o;
}

-- The state for an opcode
unfoldable pub handler_of : Opcode → State
handler_of op_enquiry = handle_enquiry
handler_of op_read = handle_read
handler_of op_write = handle_write
handler_of _ = handle_invalid_opcode

-- The callback of `ReadMessage`: the instance, the next state that it sets, and what it reports.
unfoldable pub on_read : Service → Result Message ℕ → Service × Option State × Status FileError
on_read t (err n) = (t, none, err (from_system n))
on_read t (ok msg) = (record t { last_received = msg }, some (handler_of msg.opcode), ok tt)

-- The callbacks of `WriteMessage`
unfoldable pub on_written : After → Status FileError → Option State × Status FileError
on_written passes r = (none, r)
on_written stops r = (some stopped, ok tt)
