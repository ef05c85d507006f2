-- ===== src/Messages.antt =====
-- src/net/proto/messages.h and src/net/proto/messages.cc: the messages, and their conversions to
-- and from an opcode with a body.
--
-- A string is the list of its bytes. `overshift` is the parameter of `Bytes.extract`.
pub mod RoundTrip
pub mod Texts
mod Tests
use server_client_peer_netwo.Base.{
  ℕ, ◌≡◌, refl, List, [], ◌∷◌, Bool, true, false, Option, none, some, ◌^◌, ◌-◌, ◌==◌, if◌then◌else◌,
}
use server_client_peer_netwo.Result.{Result, ok, err, ◌>>=◌, ◌>>◌}
use server_client_peer_netwo.Buffer.{
  Buffer, Fault, of_size, of_string, default_size, put_iter, put, get_many, to_string, size,
}
use server_client_peer_netwo.Buffer.Until.{get_until}
use server_client_peer_netwo.Bytes.{insert, extract}

-- `other` stands for the values of the underlying byte that name no opcode.
pub data Opcode : Type 0 where
  op_ok op_error op_establish_connection op_response op_file_transfer : Opcode
  op_transmit_data op_finished op_enquiry op_read op_write op_request op_reply op_shutdown : Opcode
  other : ℕ → Opcode

-- The underlying bytes.
abbrev pub opcode_byte : Opcode → ℕ
opcode_byte op_ok = 0
opcode_byte op_error = 1
opcode_byte op_establish_connection = 2
opcode_byte op_response = 3
opcode_byte op_file_transfer = 4
opcode_byte op_transmit_data = 5
opcode_byte op_finished = 6
opcode_byte op_enquiry = 7
opcode_byte op_read = 8
opcode_byte op_write = 9
opcode_byte op_request = 100
opcode_byte op_reply = 101
opcode_byte op_shutdown = 200
opcode_byte (other n) = n

abbrev pub body_size_length : ℕ
body_size_length = 4

abbrev pub max_body_size : ℕ
max_body_size = 2 ^ 32 - 1

-- "\r\n"
abbrev pub string_delimiter : List ℕ
string_delimiter = 13 ∷ 10 ∷ []

pub record Message : Type 0 where
  pub opcode : Opcode
  pub body : Buffer

pub record EstablishConnection : Type 0 where
  pub id : ℕ
  pub message : List ℕ

pub record Write : Type 0 where
  pub file_name : List ℕ
  pub line : List ℕ

-- `RequestMessage` and `ReplyMessage`: a Lamport clock and a file name.
pub record Clocked : Type 0 where
  pub timestamp : ℕ
  pub file_name : List ℕ

-- How a conversion fails: the error that `ASSERT_OPCODE` returns, or an exception of the buffer.
pub data Failure : Type 0 where
  bad_opcode : Failure
  thrown : Fault → Failure

abbrev pub throwing {ℓ} : {A : Type ℓ} → Result A Fault → Result A Failure
throwing (ok a) = ok a
throwing (err e) = err (thrown e)

-- `ToMessage` of the messages without a body.
unfoldable pub empty_message : Opcode → Result Message Fault
empty_message op = do body ← of_size default_size; ok (record { opcode = op; body = body })

-- `ToMessage` of the messages with one string, which becomes the body.
unfoldable pub string_message : Opcode → List ℕ → Result Message Fault
string_message op text = do body ← of_string text; ok (record { opcode = op; body = body })

unfoldable pub establish_connection_message : EstablishConnection → Result Message Fault
establish_connection_message m = do
  fresh_body ← of_size default_size
  with_id ← insert 1 fresh_body m.id
  body ← put_iter with_id m.message false
  ok (record { opcode = op_establish_connection; body = body })

unfoldable pub write_message : Write → Result Message Fault
write_message m = do
  fresh_body ← of_size default_size
  with_name ← put_iter fresh_body m.file_name true
  delimited ← put with_name (some string_delimiter) true
  body ← put_iter delimited m.line true
  ok (record { opcode = op_write; body = body })

-- `ToMessage` of `RequestMessage` and `ReplyMessage`, by the opcode.
unfoldable pub clocked_message : Opcode → Clocked → Result Message Fault
clocked_message op m = do
  fresh_body ← of_size default_size
  with_clock ← insert 8 fresh_body m.timestamp
  body ← put_iter with_clock m.file_name false
  ok (record { opcode = op; body = body })

unfoldable pub assert_opcode : Message → Opcode → Result (Unit {0}) Failure
assert_opcode msg expected =
    if opcode_byte msg.opcode == opcode_byte expected then ok tt else err bad_opcode

-- `ToOk`, `ToFinished`, `ToEnquiry`
unfoldable pub to_empty : Opcode → Message → Result (Unit {0}) Failure
to_empty op msg = assert_opcode msg op

-- `ToError`, `ToResponse`, `ToFileTransfer`, `ToRead` and `ToTransmitData`, which calls
-- `get_many(size())` as `to_string` does.
unfoldable pub to_text : Opcode → Message → Result (List ℕ) Failure
to_text op msg = do _ ← assert_opcode msg op; (text, _) ← throwing (to_string msg.body); ok text

module _ (overshift : ℕ → ℕ → ℕ) where
  unfoldable pub to_establish_connection : Message → Result EstablishConnection Failure
  to_establish_connection msg = do
    _ ← assert_opcode msg op_establish_connection
    (id, body) ← throwing (extract overshift 1 msg.body)
    (text, _) ← throwing (to_string body)
    ok (record { id = id; message = text })

  -- `ToRequest` and `ToReply`
  unfoldable pub to_clocked : Opcode → Message → Result Clocked Failure
  to_clocked op msg = do
    _ ← assert_opcode msg op
    (clock, body) ← throwing (extract overshift 8 msg.body)
    (text, _) ← throwing (to_string body)
    ok (record { timestamp = clock; file_name = text })

unfoldable pub to_write : Message → Result Write Failure
to_write msg = do
  _ ← assert_opcode msg op_write
  (name, body) ← throwing (get_until msg.body string_delimiter)
  (line, _) ← throwing (to_string body)
  ok (record { file_name = name; line = line })
