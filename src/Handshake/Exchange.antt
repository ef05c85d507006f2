-- ===== src/Handshake/Exchange.antt =====
-- The two sides of send_handshake_service.cc and receive_handshake_service.cc on one connection, on
-- which each message that is written is received.
pub mod Stages
use server_client_peer_netwo.Base.{
  ℕ, ◌%◌, ◌≤◌, ◌<◌, ◌≡◌, refl, sym, ap, ◌⊎◌, inl, inr, ◌≢◌, true, false, Bool-cases, none, some,
  List, [], ◌∷◌, arith, length, name_eq, name_eq→eq, name_eq_refl,
}
use server_client_peer_netwo.Result.{Result, ok, err, ◌>>=◌, Result-cases}
use server_client_peer_netwo.StateMachine
use server_client_peer_netwo.StateMachine.{
  Status, Machine, Effect, act, report, unblock, start, complete, run, iterate, call_back,
  after_async, after_sync, stop, stop_with_result, goto_next_state,
}
use server_client_peer_netwo.Messages.{
  Message, Failure, EstablishConnection, establish_connection_message, to_establish_connection,
  op_establish_connection, empty_message, op_ok,
}
use server_client_peer_netwo.Messages.RoundTrip.{
  to_establish_connection-establish_connection_message,
}
use server_client_peer_netwo.Buffer.{fresh, default_size, of_size}
use server_client_peer_netwo.Handshake.{Action, write, HandshakeError, wrong_password}
use server_client_peer_netwo.Handshake.Send
use server_client_peer_netwo.Handshake.Send.{Settings, Sender, fresh_sender, on_done, on_received}
use server_client_peer_netwo.Handshake.Receive
use server_client_peer_netwo.Handshake.Receive.{Receiver, fresh_receiver, on_handshake, on_ok}

abbrev pub SenderMachine : Type 0
SenderMachine = Machine Send.State Sender HandshakeError

abbrev pub ReceiverMachine : Type 0
ReceiverMachine = Machine Receive.State Receiver HandshakeError

-- Both sides with what they have done last.
pub record Connection : Type 0 where
  pub sender : SenderMachine
  pub receiver : ReceiverMachine
  pub sent : List (Effect HandshakeError Action)
  pub answered : List (Effect HandshakeError Action)

abbrev pub Fault : Type 0
Fault = StateMachine.Fault Failure

-- The message that is written last, or what the reader waits for in vain.
abbrev pub written : List (Effect HandshakeError Action) → Result Message ℕ
written [] = err 0
written (act (write msg) ∷ es) = ok msg
written (act a ∷ es) = written es
written (report r ∷ es) = written es
written (unblock ∷ es) = written es

abbrev pub rounds : ℕ
rounds = 3

module _ (overshift : ℕ → ℕ → ℕ) (client server : Settings) where
  -- The services start, and the connection is made.
  unfoldable pub opening : Result Connection Fault
  opening = do
    (s, _) ← start (Send.service client) rounds fresh_sender true
    (r, _) ← start (Receive.service server) rounds fresh_receiver true
    (s', es) ← complete (Send.service client) rounds s s.instance_ none (on_done (ok tt))
    ok (record { sender = s'; receiver = r; sent = es; answered = [] })

  -- The sender's message is written, and received.
  unfoldable pub offering : Connection → Result Connection Fault
  offering c = do
    (s, _) ←
        complete (Send.service client) rounds c.sender c.sender.instance_ none (on_done (ok tt))
    (t, status) ←
        StateMachine.throwing (on_handshake overshift c.receiver.instance_ (written c.sent))
    (r, es) ← complete (Receive.service server) rounds c.receiver t none status
    ok (record { sender = s; receiver = r; sent = []; answered = es })

  -- The receiver's answer is written, and received.
  unfoldable pub answering : Connection → Result Connection Fault
  answering c = do
    (r, _) ←
        complete (Receive.service server) rounds c.receiver c.receiver.instance_ none
          (on_done (ok tt))
    (t, status) ←
        StateMachine.throwing (on_received overshift c.sender.instance_ (written c.answered))
    (s, es) ← complete (Send.service client) rounds c.sender t none status
    ok (record { sender = s; receiver = r; sent = es; answered = [] })

  -- The sender's Ok is written, and received.
  unfoldable pub closing : Connection → Result Connection Fault
  closing c = do
    (s, es) ←
        complete (Send.service client) rounds c.sender c.sender.instance_ none (on_done (ok tt))
    (r, fs) ←
        complete (Receive.service server) rounds c.receiver c.receiver.instance_ none
          (on_ok (written c.sent))
    ok (record { sender = s; receiver = r; sent = es; answered = fs })

  unfoldable pub exchange : Result Connection Fault
  exchange = do a ← opening; b ← offering a; c ← answering b; closing c
