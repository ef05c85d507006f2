-- ===== src/Delivery.antt =====
-- A message from one end of a connection to the other: src/net/proto/async_message_service.cc at both
-- ends, over `Socket::Send` and `Socket::Receive` of src/net/socket.cc.
--
-- A writer and a reader use the buffers of their sockets, so that each starts from its socket's
-- buffer here. The kernel takes each view whole, and gives all the bytes of a message in one `read`.
pub mod Write
pub mod Read
pub mod Stream
mod Tests
use server_client_peer_netwo.Base.{ℕ, ◌≤◌, ◌≡◌, true, false, List, [], ◌==◌, length, some}
use server_client_peer_netwo.Result.{ok}
use server_client_peer_netwo.Buffer.{default_size, size}
use server_client_peer_netwo.Buffer.Valid.{IsValid, contents}
use server_client_peer_netwo.Buffer.Views.{Viewable}
use server_client_peer_netwo.Messages.{Message, opcode_byte, op_file_transfer}
use server_client_peer_netwo.Reader.{Reader}
use server_client_peer_netwo.Reader.Process.{read_message, deliver}
use server_client_peer_netwo.Socket.{Socket, is_open, send, receive, got}
use server_client_peer_netwo.Socket.Whole.{whole}
use server_client_peer_netwo.Writer.{Writer, fill_output_buffer, start_write, succeed}

-- The default of the parameter of `Receive`
abbrev pub receive_size : ℕ
receive_size = 1024

-- A message that is no file transfer, with a valid body that can be viewed and of at most 509 bytes:
-- twice the body and the header fit in a buffer of the default size.
pub record IsPlain (msg : Message) : Type 0 where
  pub body_valid : IsValid msg.body
  pub body_viewable : Viewable msg.body
  pub body_small : size msg.body ≤ 509
  pub no_transfer : (opcode_byte msg.opcode == opcode_byte op_file_transfer) ≡ false

-- An open socket whose output is empty and of the default size.
pub record IsReady (s : Socket) : Type 0 where
  pub output_valid : IsValid s.output
  pub output_empty : contents s.output ≡ []
  pub output_capacity : s.output.capacity ≡ default_size
  pub can_send : is_open s ≡ true

-- An open socket whose input is empty and of the default size.
pub record IsWaiting (t : Socket) : Type 0 where
  pub input_valid : IsValid t.input
  pub input_empty : contents t.input ≡ []
  pub input_open : t.input.full ≡ false
  pub input_capacity : t.input.capacity ≡ default_size
  pub can_receive : is_open t ≡ true
