-- ===== src/Reader/Process.antt =====
-- `ProcessBytes`, `ProcessAllBytes`, `ReceiveBytes` and `ReadMessage` of async_message_service.cc.
use server_client_peer_netwo.Base.{
  ℕ, zero, suc, Bool, true, not, ◌||◌, Option, none, some, List, [], ◌++◌, ◌==◌, if◌then◌else◌,
}
use server_client_peer_netwo.Result.{Result, ok, err, ◌>>=◌}
use server_client_peer_netwo.Buffer.{Buffer, size}
use server_client_peer_netwo.Messages.{Message, op_file_transfer}
use server_client_peer_netwo.Reader.{
  Reader, ReadError, Written, value, same_opcode, no_progress, receive_failed, finished_reading,
  finished_reading_current_message, process_bytes_into_current_message,
  handle_compound_message_header, handle_compound_message_frame, reset_current_message,
  reset_compound_message,
}

module _ (overshift : ℕ → ℕ → ℕ) (create_file : ℕ → Option (List ℕ)) where
  -- After `ProcessBytesIntoCurrentMessage`: the header of a compound message, a frame of one, or
  -- a message of its own.
  unfoldable pub process_bytes : Reader → ℕ → Result (Bool × (Reader × List Written)) ReadError
  process_bytes r available = do
    (progress, r1) ← process_bytes_into_current_message overshift r available
    if not (finished_reading_current_message r1) then ok (progress, (r1, [])) else (do
      op ← value r1.opcode
      if same_opcode op op_file_transfer
          then (do
            r2 ← handle_compound_message_header create_file r1 op
            r3 ← reset_current_message r2
            ok (progress, (r3, [])))
          else elim r1.parent [
            | none ↦ ok (progress, (r1, []))
            | some parent ↦ do
              (r2, written) ← handle_compound_message_frame r1 parent op
              r3 ← reset_current_message r2
              ok (progress, (r3, written))
          ])

  -- The loop, on fuel.
  unfoldable pub process_all : ℕ → Bool → Reader → Result (Reader × List Written) ReadError
  process_all zero progress r = err no_progress
  process_all (suc fuel) progress r =
      if not progress || finished_reading r
      then ok (r, [])
      else if size r.input == 0
      then ok (r, [])
      else (do
        (progress', (r', written)) ← process_bytes r (size r.input)
        (r'', more) ← process_all fuel progress' r'
        ok (r'', written ++ more))

  unfoldable pub process_all_bytes : Reader → Result (Reader × List Written) ReadError
  process_all_bytes r = process_all (suc (size r.input)) true r

  unfoldable pub get_returned_message : Reader → Result Message ReadError
  get_returned_message r = elim r.parent [
    | some msg ↦ ok msg
    | none ↦ do op ← value r.opcode; ok (record { opcode = op; body = r.body })
  ]

  -- What a handler does with its callback: it calls it with a message, or it schedules a poll.
  pub data Next : Type 0 where
    deliver : Message → Next
    poll_for_read : Next

  -- `ReceiveBytes`, by the input buffer that `Socket::Receive` leaves where it is called; an error is
  -- given to the callback.
  unfoldable pub receive_bytes :
      Reader → Option Buffer → Result (Reader × (Next × List Written)) ReadError
  receive_bytes r received =
      if finished_reading r
      then (do msg ← get_returned_message r; ok (r, (deliver msg, [])))
      else elim received [
        | none ↦ err receive_failed
        | some input ↦ do
          (r', written) ← process_all_bytes (record r { input = input })
          if finished_reading r'
              then (do msg ← get_returned_message r'; ok (r', (deliver msg, written)))
              else ok (r', (poll_for_read, written))
      ]

  unfoldable pub read_message :
      Reader → Option Buffer → Result (Reader × (Next × List Written)) ReadError
  read_message r received = do
    fresh_reader ← reset_compound_message r
    (r', written) ← process_all_bytes fresh_reader
    (r'', (next, more)) ← receive_bytes r' received
    ok (r'', (next, written ++ more))
