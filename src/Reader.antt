-- ===== src/Reader.antt =====
-- The reading half of src/net/proto/async_message_service.h and .cc: the bytes of the socket's input
-- buffer become messages, by chunks as they come.
--
-- The socket, the polls and the files are outside. What `Socket::Receive` gives is the input buffer
-- that it leaves. `create_file` is the result of the temporary file service, a path or nothing; what
-- is written to the file of a transfer is an effect. `file_transfer_count_` is a field
-- here, and `reading_`, which the service only sets, is left out.
pub mod Process
pub mod Frame
mod Tests
use server_client_peer_netwo.Base.{
  ℕ, zero, suc, ◌+◌, ◌-◌, Bool, true, false, not, ◌&&◌, ◌||◌, Option, none, some, List, [], ◌∷◌,
  ◌++◌, ltb, ◌==◌, if◌then◌else◌, min,
}
use server_client_peer_netwo.Result.{Result, ok, err, ◌>>=◌}
use server_client_peer_netwo.Buffer.{
  Buffer, Fault, of_size, default_size, size, get, get_many, put_iter,
}
use server_client_peer_netwo.Buffer.Shift.{reserve}
use server_client_peer_netwo.Buffer.Views.{move, view, view_data}
use server_client_peer_netwo.Bytes.{extract}
use server_client_peer_netwo.Messages.{
  Opcode, op_ok, op_error, op_establish_connection, op_response, op_file_transfer, op_transmit_data,
  op_finished, op_enquiry, op_read, op_write, op_request, op_reply, op_shutdown, other, Message,
  opcode_byte,
}

pub record Reader : Type 0 where
  pub input : Buffer
  pub parent : Option Message
  pub transfer_file_name : List ℕ
  pub finished_compound : Bool
  pub opcode : Option Opcode
  pub expected : Option ℕ
  pub body : Buffer
  pub file_transfer_count : ℕ

-- The errors of the code by their messages, an exception, an absent optional, and a loop that did
-- not end.
pub data ReadError : Type 0 where
  cannot_create invalid_compound incomplete invalid_frame : ReadError
  receive_failed timed_out poll_failed : ReadError
  exception : Fault → ReadError
  bad_optional_access no_progress : ReadError

-- Bytes appended to the file of a transfer.
pub data Written : Type 0 where
  append_to : List ℕ → List ℕ → Written

abbrev pub raising {ℓ} : {A : Type ℓ} → Result A Fault → Result A ReadError
raising (ok a) = ok a
raising (err e) = err (exception e)

abbrev pub value {ℓ} : {A : Type ℓ} → Option A → Result A ReadError
value none = err bad_optional_access
value (some a) = ok a

abbrev pub is_set {ℓ} : {A : Type ℓ} → Option A → Bool
is_set none = false
is_set (some a) = true

-- `static_cast<Opcode>`
unfoldable pub to_opcode : ℕ → Opcode
to_opcode n =
    if n == 0
    then op_ok
    else if n == 1
    then op_error
    else if n == 2
    then op_establish_connection
    else if n == 3
    then op_response
    else if n == 4
    then op_file_transfer
    else if n == 5
    then op_transmit_data
    else if n == 6
    then op_finished
    else if n == 7
    then op_enquiry
    else if n == 8
    then op_read
    else if n == 9
    then op_write
    else if n == 100
    then op_request
    else if n == 101
    then op_reply
    else if n == 200
    then op_shutdown
    else other n

unfoldable pub reset_current_message : Reader → Result Reader ReadError
reset_current_message r = do
  body ← raising (of_size default_size)
  ok (record r { opcode = none; expected = none; body = body })

unfoldable pub reset_compound_message : Reader → Result Reader ReadError
reset_compound_message r =
    reset_current_message (record r { parent = none; finished_compound = false })

unfoldable pub finished_reading_current_message : Reader → Bool
finished_reading_current_message r = elim r.expected [
  | none ↦ false
  | some n ↦ is_set r.opcode && (n == size r.body)
]

unfoldable pub finished_reading : Reader → Bool
finished_reading r = (is_set r.parent && r.finished_compound) || finished_reading_current_message r

-- The two guarded parts of the header in `ProcessBytesIntoCurrentMessage`: whether to go on, the
-- reader, and the bytes still available.
unfoldable pub read_opcode : Reader → ℕ → Result (Bool × (Reader × ℕ)) ReadError
read_opcode r available =
    if is_set r.opcode
    then ok (true, (r, available))
    else if ltb available 1
    then ok (false, (r, available))
    else (do
      (byte, input) ← raising (get r.input)
      ok (true, (record r { opcode = some (to_opcode byte); input = input }, available - 1)))

unfoldable pub read_body : Reader → ℕ → Result Reader ReadError
read_body r available = do
  expected ← value r.expected
  let have = size r.body
  if ltb have expected
      then (do
        (bytes, input) ← raising (get_many r.input (min available (expected - have)))
        body ← raising (put_iter r.body bytes false)
        ok (record r { input = input; body = body }))
      else ok r

module _ (overshift : ℕ → ℕ → ℕ) where
  unfoldable pub read_expected : Reader → ℕ → Result (Bool × (Reader × ℕ)) ReadError
  read_expected r available =
      if is_set r.expected
      then ok (true, (r, available))
      else if ltb available 4
      then ok (false, (r, available))
      else (do
        (expected, input) ← raising (extract overshift 4 r.input)
        body ← raising (if expected == 0 then ok r.body else reserve r.body expected)
        ok (
          true,
          (record r { expected = some expected; input = input; body = body }, available - 4),
        ))

  unfoldable pub process_bytes_into_current_message : Reader → ℕ → Result (Bool × Reader) ReadError
  process_bytes_into_current_message r available = do
    (named, (r1, left1)) ← read_opcode r available
    if not named then ok (false, r1) else (do
      (sized, (r2, left2)) ← read_expected r1 left1
      if not sized then ok (false, r2) else (do r3 ← read_body r2 left2; ok (true, r3)))

-- The opcodes by their bytes
abbrev pub same_opcode : Opcode → Opcode → Bool
same_opcode a b = opcode_byte a == opcode_byte b

module _ (create_file : ℕ → Option (List ℕ)) where
  -- `MakeTransferFileName` gives the count to the file's name.
  unfoldable pub handle_compound_message_header : Reader → Opcode → Result Reader ReadError
  handle_compound_message_header r op =
      let (held, left) = move r.body in
      let r' : Reader = record r {
        parent = some (record { opcode = op; body = held });
        body = left;
      } in
      if same_opcode op op_file_transfer
      then (let n = r.file_transfer_count + 1 in
          elim (create_file n) [
            | none ↦ err cannot_create
            | some path ↦ ok (record r' { transfer_file_name = path; file_transfer_count = n })
          ])
      else err invalid_compound

-- The bytes of a message's views, in order.
unfoldable pub viewed : Buffer → List (ℕ × ℕ) → Result (List ℕ) ReadError
viewed b [] = ok []
viewed b ((off, n) ∷ vs) = do
  bytes ← raising (view_data b off n)
  rest ← viewed b vs
  elim bytes [ none ↦ ok rest | some xs ↦ ok (xs ++ rest) ]

unfoldable pub handle_compound_message_frame :
    Reader → Message → Opcode → Result (Reader × List Written) ReadError
handle_compound_message_frame r parent op =
    if not (finished_reading_current_message r)
    then err incomplete
    else if not (same_opcode parent.opcode op_file_transfer)
    then err invalid_compound
    else if same_opcode op op_transmit_data
    then (do bytes ← viewed r.body (view r.body); ok (r, append_to r.transfer_file_name bytes ∷ []))
    else if same_opcode op op_finished
    then ok (record r { finished_compound = true }, [])
    else err invalid_frame
