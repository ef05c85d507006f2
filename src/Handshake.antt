-- ===== src/Handshake.antt =====
-- src/net/peer/service/send_handshake_service.h, .cc and receive_handshake_service.h, .cc: the two
-- sides of the handshake between peers, each a state machine.
--
-- What the sockets do is outside: an action is what a handler begins, and the callback that it gives
-- with it is a function here, from what came of the action to what the machine's callback gets.
pub mod Send
pub mod Receive
pub mod Exchange
mod Tests
use server_client_peer_netwo.Base.{ℕ, List}
use server_client_peer_netwo.Messages.{Message}

pub data Action : Type 0 where
  -- to the target, with so many attempts
  connect : ℕ → Action
  write : Message → Action
  read : Action

-- The errors by their texts: those of the services, that of a received Error message, and those of
-- the message service and the socket, by a number.
pub data HandshakeError : Type 0 where
  no_password wrong_password denied invalid_opcode : HandshakeError
  from_peer : List ℕ → HandshakeError
  from_service : ℕ → HandshakeError
