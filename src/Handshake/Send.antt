-- ===== src/Handshake/Send.antt =====
-- send_handshake_service.h and .cc: the side that connects.
use server_client_peer_netwo.Base.{
  ℕ, ◌%◌, Bool, true, false, Option, none, some, List, [], ◌∷◌, ◌==◌, if◌then◌else◌,
}
use server_client_peer_netwo.Result.{Result, ok, err, ◌>>=◌}
use server_client_peer_netwo.StateMachine.{Status, Handled, Behavior, Machine}
use server_client_peer_netwo.Messages.{
  Message, Failure, throwing, opcode_byte, op_ok, op_establish_connection,
  establish_connection_message, empty_message, to_establish_connection,
}
use server_client_peer_netwo.Handshake.{
  Action, connect, write, read, HandshakeError, no_password, denied, from_service,
}

pub data State : Type 0 where
  connecting send_handshake receive_handshake send_ok stopped : State

-- `options.id` and the property `password`
pub record Settings : Type 0 where
  pub id : ℕ
  pub password : Option (List ℕ)

pub record Sender : Type 0 where
  pub server_id : ℕ

abbrev pub Step : Type 0
Step = Handled State Sender HandshakeError Action

abbrev pub begins : Sender → Action → Step
begins t a = record { instance_ = t; actions = a ∷ []; forced = none; reported = none }

unfoldable pub is_async : State → Bool
is_async stopped = false
is_async connecting = true
is_async send_handshake = true
is_async receive_handshake = true
is_async send_ok = true

unfoldable pub should_stop : State → Bool
should_stop stopped = true
should_stop connecting = false
should_stop send_handshake = false
should_stop receive_handshake = false
should_stop send_ok = false

unfoldable pub next_state : State → State
next_state connecting = send_handshake
next_state send_handshake = receive_handshake
next_state receive_handshake = send_ok
next_state send_ok = stopped
next_state stopped = stopped

unfoldable pub handle : Settings → State → Sender → Result Step Failure
handle o connecting t = ok (begins t (connect 10))
handle o send_handshake t = elim o.password [
  | none ↦
      ok (record { instance_ = t; actions = []; forced = none; reported = some (err no_password) })
  | some password ↦ do
    msg ← throwing (establish_connection_message (record { id = o.id % 256; message = password }))
    ok (begins t (write msg))
]
handle o receive_handshake t = ok (begins t read)
handle o send_ok t = do msg ← throwing (empty_message op_ok); ok (begins t (write msg))
handle o stopped t = ok (record { instance_ = t; actions = []; forced = none; reported = none })

abbrev pub service : Settings → Behavior State Sender HandshakeError Action Failure
service o = record {
  is_async = is_async;
  should_stop = should_stop;
  next_state = next_state;
  handle = handle o;
}

-- The callbacks of `Connect` and of `WriteMessage`
unfoldable pub on_done : Result (Unit {0}) ℕ → Status HandshakeError
on_done (ok u) = ok u
on_done (err e) = err (from_service e)

-- The callback of `ReadMessage` in `ReceiveHandshake`
unfoldable pub on_received :
    (ℕ → ℕ → ℕ) → Sender → Result Message ℕ → Result (Sender × Status HandshakeError) Failure
on_received overshift t (err e) = ok (t, err (from_service e))
on_received overshift t (ok msg) =
    if opcode_byte msg.opcode == opcode_byte op_establish_connection
    then (do
      establish ← to_establish_connection overshift msg
      ok (record t { server_id = establish.id }, ok tt))
    else ok (t, err denied)

-- The constructor; there is no id yet.
abbrev pub no_id : ℕ
no_id = 255

abbrev pub fresh_sender : Machine State Sender HandshakeError
fresh_sender = record {
  running = false;
  has_callback = false;
  result_of_last_run = ok tt;
  forced_next_state = none;
  instance_ = record { server_id = no_id };
  current_state = connecting;
}
