-- ===== src/Writer.antt =====
-- The writing half of src/net/proto/async_message_service.h and .cc: a message goes to the socket's
-- output buffer, and from there to the peer.
--
-- The socket and the file to transfer are outside. What `Socket::Send` gives is the number of bytes
-- sent with the output buffer that it leaves; a poll gives its status; the reads from the file are
-- the results of `readsome` in order, each the bytes read, the last of them empty or left out.
pub mod Frame
mod Tests
use server_client_peer_netwo.Base.{
  ℕ, zero, suc, ◌+◌, ◌-◌, ◌%◌, ◌^◌, Bool, true, false, not, Option, none, some, List, [], ◌∷◌, ◌++◌,
  ltb, ◌==◌, if◌then◌else◌, length,
}
use server_client_peer_netwo.Result.{Result, ok, err, ◌>>=◌}
use server_client_peer_netwo.Buffer.{Buffer, Fault, size, put, add_size, sub_size}
use server_client_peer_netwo.Buffer.Views.{move_buffer}
use server_client_peer_netwo.Bytes.{insert}
use server_client_peer_netwo.Messages.{
  Opcode, op_file_transfer, op_transmit_data, op_finished, Message, opcode_byte, max_body_size,
  Failure, thrown, throwing, to_text, empty_message, string_message,
}

pub record Writer : Type 0 where
  pub output : Buffer
  pub attempting_to_send : ℕ
  pub writing : Bool

-- Why a write fails: the body is too big, the file cannot be opened or read, the conversion fails
-- or an exception is thrown, or the socket fails, times out or cannot be polled.
pub data WriteError : Type 0 where
  body_too_big cannot_open cannot_read : WriteError
  conversion : Failure → WriteError
  send_failed timed_out poll_failed : WriteError

abbrev pub converting {ℓ} : {A : Type ℓ} → Result A Failure → Result A WriteError
converting (ok a) = ok a
converting (err e) = err (conversion e)

abbrev pub guarding {ℓ} : {A : Type ℓ} → Result A Fault → Result A WriteError
guarding r = converting (throwing r)

-- `kOpcodeLength` and `kBodySizeLength`
abbrev pub opcode_length : ℕ
opcode_length = 1

abbrev pub header_length : ℕ
header_length = 5

unfoldable pub put_message_in_output_buffer : Writer → Message → Result Writer WriteError
put_message_in_output_buffer w msg =
    let body_size = size msg.body in
    if ltb max_body_size body_size then err body_too_big else (do
      with_opcode ← guarding (put w.output (some (opcode_byte msg.opcode ∷ [])) true)
      with_size ← guarding (insert 4 with_opcode (body_size % 2 ^ 32))
      (output, _) ← guarding (move_buffer with_size msg.body true)
      ok (record w {
        output = output;
        attempting_to_send = add_size w.attempting_to_send (header_length + body_size);
      }))

abbrev pub chunk_size : Bool → ℕ
chunk_size server = if server then 200 else 100

abbrev pub zeros : ℕ → List ℕ
zeros zero = []
zeros (suc n) = 0 ∷ zeros n

-- The chunk of the size asked for, into whose front the bytes were read.
abbrev pub chunk_data : Bool → List ℕ → List ℕ
chunk_data server bytes = bytes ++ zeros (chunk_size server - length bytes)

-- The loop over the chunks of the file; `none` is a negative count.
unfoldable pub put_chunks : Bool → Writer → List (Option (List ℕ)) → Result Writer WriteError
put_chunks server w [] = ok w
put_chunks server w (none ∷ reads) = err cannot_read
put_chunks server w (some [] ∷ reads) = ok w
put_chunks server w (some (x ∷ xs) ∷ reads) = do
  msg ← guarding (string_message op_transmit_data (chunk_data server (x ∷ xs)))
  w' ← put_message_in_output_buffer w msg
  let rest = put_chunks server w' reads
  if ltb (length (x ∷ xs)) (chunk_size server) then ok w' else rest

-- `file` tells whether the file of a name can be opened, and what the reads from it give.
unfoldable pub fill_output_buffer :
    Bool → (List ℕ → Option (List (Option (List ℕ)))) → Writer → Message → Result Writer WriteError
fill_output_buffer server file w msg =
    let idle : Writer = record w { attempting_to_send = 0 } in
    if opcode_byte msg.opcode == opcode_byte op_file_transfer
    then (do
      name ← converting (to_text op_file_transfer msg)
      elim (file name) [
        | none ↦ err cannot_open
        | some reads ↦ do
          header ← guarding (string_message op_file_transfer name)
          started ← put_message_in_output_buffer idle header
          sent ← put_chunks server started reads
          finished ← guarding (empty_message op_finished)
          put_message_in_output_buffer sent finished
      ])
    else put_message_in_output_buffer idle msg

-- What a handler does with its callback: it calls it with success or an error, or it schedules the
-- next poll or the next send.
pub data Next : Type 0 where
  succeed : Next
  fail : WriteError → Next
  poll_for_write send_bytes_again : Next

unfoldable pub finished_sending : Writer → Bool
finished_sending w = w.attempting_to_send == 0

-- `SendBytes`, by what `Socket::Send` gives where it is called.
unfoldable pub send_bytes : Writer → Option (ℕ × Buffer) → Writer × Next
send_bytes w sent = if finished_sending w then (w, succeed) else elim sent [
  | none ↦ (w, fail send_failed)
  | some (n, output) ↦
      let w' : Writer = record w {
        output = output;
        attempting_to_send =
            if ltb w.attempting_to_send n then 0 else sub_size w.attempting_to_send n;
      } in
      (w', if finished_sending w' then succeed else poll_for_write)
]

-- `PollStatus`, and a poll that gives an error.
pub data Polled : Type 0 where
  success expire other poll_error : Polled

unfoldable pub poll_for_write_result : Polled → Next
poll_for_write_result success = send_bytes_again
poll_for_write_result expire = fail timed_out
poll_for_write_result other = fail poll_failed
poll_for_write_result poll_error = fail poll_failed

-- The callback that `WriteMessage` makes clears `writing_` first.
unfoldable pub finish : Writer × Next → Writer × Next
finish (w, succeed) = (record w { writing = false }, succeed)
finish (w, fail e) = (record w { writing = false }, fail e)
finish (w, n) = (w, n)

-- By what `Socket::Send` gives, if it comes to it. After a failure to fill the output buffer, what
-- was put there before is still in it; this is left out.
unfoldable pub start_write :
    Bool
    → (List ℕ → Option (List (Option (List ℕ))))
    → Writer
    → Message
    → Option (ℕ × Buffer)
    → Result (Writer × Next) WriteError
start_write server file w msg sent = do
  w' ← fill_output_buffer server file (record w { writing = true }) msg
  ok (finish (send_bytes w' sent))
