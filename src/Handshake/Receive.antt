-- ===== src/Handshake/Receive.antt =====
-- receive_handshake_service.h and .cc: the side that is connected to.
use server_client_peer_netwo.Base.{
  ℕ, ◌%◌, Bool, true, false, none, some, List, [], ◌∷◌, ◌==◌, if◌then◌else◌, name_eq,
}
use server_client_peer_netwo.Result.{Result, ok, err, ◌>>=◌}
use server_client_peer_netwo.StateMachine.{Status, Handled, Behavior, Machine}
use server_client_peer_netwo.Messages.{
  Message, Failure, throwing, opcode_byte, op_ok, op_error, op_establish_connection,
  establish_connection_message, to_text, to_establish_connection,
}
use server_client_peer_netwo.Handshake.{
  Action, write, read, HandshakeError, no_password, wrong_password, denied, invalid_opcode,
  from_peer, from_service,
}
use server_client_peer_netwo.Handshake.Send.{Settings, no_id}

pub data State : Type 0 where
  initialize await_handshake send_response receive_ok stopped : State

pub record Receiver : Type 0 where
  pub expected_password : List ℕ
  pub client_id : ℕ

abbrev pub Step : Type 0
Step = Handled State Receiver HandshakeError Action

abbrev pub begins : Receiver → Action → Step
begins t a = record { instance_ = t; actions = a ∷ []; forced = none; reported = none }

abbrev pub reports : Receiver → Status HandshakeError → Step
reports t r = record { instance_ = t; actions = []; forced = none; reported = some r }

unfoldable pub is_async : State → Bool
is_async initialize = false
is_async stopped = false
is_async await_handshake = true
is_async send_response = true
is_async receive_ok = true

unfoldable pub should_stop : State → Bool
should_stop stopped = true
should_stop initialize = false
should_stop await_handshake = false
should_stop send_response = false
should_stop receive_ok = false

unfoldable pub next_state : State → State
next_state initialize = await_handshake
next_state await_handshake = send_response
next_state send_response = receive_ok
next_state receive_ok = stopped
next_state stopped = stopped

unfoldable pub handle : Settings → State → Receiver → Result Step Failure
handle o initialize t = elim o.password [
  | none ↦ ok (reports t (err no_password))
  | some password ↦ ok (reports (record t { expected_password = password }) (ok tt))
]
handle o await_handshake t = ok (begins t read)
handle o send_response t = do
  msg ← throwing (establish_connection_message (record { id = o.id % 256; message = [] }))
  ok (begins t (write msg))
handle o receive_ok t = ok (begins t read)
handle o stopped t = ok (record { instance_ = t; actions = []; forced = none; reported = none })

abbrev pub service : Settings → Behavior State Receiver HandshakeError Action Failure
service o = record {
  is_async = is_async;
  should_stop = should_stop;
  next_state = next_state;
  handle = handle o;
}

-- The callback of `ReadMessage` in `AwaitHandshake`. A conversion's own error is passed on, which
-- is its opcode's; an exception is not.
unfoldable pub on_handshake :
    (ℕ → ℕ → ℕ) → Receiver → Result Message ℕ → Result (Receiver × Status HandshakeError) Failure
on_handshake overshift t (err e) = ok (t, err (from_service e))
on_handshake overshift t (ok msg) =
    if opcode_byte msg.opcode == opcode_byte op_establish_connection
    then (do
      establish ← to_establish_connection overshift msg
      if name_eq t.expected_password establish.message
          then ok (record t { client_id = establish.id }, ok tt)
          else ok (t, err wrong_password))
    else if opcode_byte msg.opcode == opcode_byte op_error
    then (do text ← to_text op_error msg; ok (t, err (from_peer text)))
    else ok (t, err invalid_opcode)

-- The callback of `ReadMessage` in `ReceiveOk`
unfoldable pub on_ok : Result Message ℕ → Status HandshakeError
on_ok (err e) = err (from_service e)
on_ok (ok msg) = if opcode_byte msg.opcode == opcode_byte op_ok then ok tt else err denied

abbrev pub fresh_receiver : Machine State Receiver HandshakeError
fresh_receiver = record {
  running = false;
  has_callback = false;
  result_of_last_run = ok tt;
  forced_next_state = none;
  instance_ = record { expected_password = []; client_id = no_id };
  current_state = initialize;
}
