-- ===== src/Delivery/Write.antt =====
-- The sender's end: async_message_service.cc puts a message on the wire.
use server_client_peer_netwo.Base.{
  ℕ, ◌+◌, ◌≤◌, ◌<◌, ◌≡◌, refl, ap, ◌∙◌, inl, Bool, true, false, List, ◌++◌, ◌==◌, Option, some,
  length, length-append, arith,
}
use server_client_peer_netwo.Result.{ok}
use server_client_peer_netwo.Buffer.{Buffer, size, space_remaining}
use server_client_peer_netwo.Buffer.Valid.{contents, length-contents, space_remaining_lem}
use server_client_peer_netwo.Bytes.RoundTrip.{le_bytes, length-le_bytes}
use server_client_peer_netwo.Messages.{Message, opcode_byte, op_file_transfer}
use server_client_peer_netwo.Reader.Frame.{not_full}
use server_client_peer_netwo.Socket.{Socket, is_open, send}
use server_client_peer_netwo.Socket.Whole.{whole, send-whole}
use server_client_peer_netwo.Writer.{
  Writer, put_message_in_output_buffer, fill_output_buffer, finished_sending, finish, send_bytes,
  start_write, succeed,
}
use server_client_peer_netwo.Writer.Frame.{frame, put_message_in_output_buffer_lem}
use server_client_peer_netwo.Delivery.{IsPlain, IsReady}

pub length-frame : (msg : Message) → length (frame msg) ≡ 5 + size msg.body
length-frame msg = omega (
  arith,
  length-append (le_bytes 4 (size msg.body)) (contents msg.body),
  length-le_bytes 4 (size msg.body),
  length-contents msg.body,
)

module _ (server : Bool) (file : List ℕ → Option (List (Option (List ℕ)))) where
  fill-plain :
      (w : Writer) (msg : Message)
      → (opcode_byte msg.opcode == opcode_byte op_file_transfer) ≡ false
      → fill_output_buffer server file w msg
        ≡ put_message_in_output_buffer (record w { attempting_to_send = 0 }) msg
  unfolding fill_output_buffer
  fill-plain w msg h = rw h refl

-- All is sent at once.
send_bytes-all :
    (w : Writer) (output : Buffer) (n : ℕ)
    → 0 < n
    → w.attempting_to_send ≡ n
    → send_bytes w (some (n, output))
      ≡ (record w { output = output; attempting_to_send = 0 }, succeed)
unfolding send_bytes finished_sending
send_bytes-all w output n pos e = ground (arith, e)

-- The message is put in the output buffer, the socket sends its frame, and the callback is called with success.
pub record Sends (server : Bool) (file : List ℕ → Option (List (Option (List ℕ)))) (w : Writer)
    (msg : Message) (s s' : Socket) : Type 0 where
  pub filled : Writer
  pub filling :
      fill_output_buffer server file (record w { output = s.output; writing = true }) msg
      ≡ ok filled
  pub sending :
      send (whole filled.output) (record s { output = filled.output })
      ≡ (s', (frame msg, ok (length (frame msg))))
  pub after : Writer
  pub starting :
      start_write server file
        (record w { output = s.output })
        msg
        (some (length (frame msg), s'.output))
      ≡ ok (after, succeed)

pub write-plain :
    (server : Bool) (file : List ℕ → Option (List (Option (List ℕ)))) (w : Writer) (msg : Message)
    (s : Socket)
    → IsPlain msg
    → IsReady s
    → (s' : Socket) × Sends server file w msg s s' × IsReady s'
unfolding start_write finish is_open
write-plain server file w msg s p r =
    let start : Writer = record w { output = s.output; writing = true; attempting_to_send = 0 } in
    let free : 5 + size msg.body ≤ space_remaining s.output = omega (
      arith,
      p.body_small,
      r.output_capacity,
      space_remaining_lem r.output_valid,
      length-contents s.output,
      ap length r.output_empty,
    ) in
    let (w', e, v, held, count, cap) =
      put_message_in_output_buffer_lem start msg r.output_valid p.body_valid p.body_viewable
        (omega (arith, p.body_small)) free in
    let all : contents w'.output ≡ frame msg = held ∙ ap (λ xs. xs ++ frame msg) r.output_empty in
    let n : size w'.output ≡ length (frame msg) =
      omega (arith, length-contents w'.output, ap length all) in
    let open_out : w'.output.full ≡ false =
      not_full v (omega (arith, n, length-frame msg, p.body_small, cap, r.output_capacity)) in
    let (s', sent, made, v', left) =
      send-whole (record s { output = w'.output }) v (inl open_out)
        (omega (arith, n, length-frame msg)) r.can_send in
    let filling =
      fill-plain server file (record w { output = s.output; writing = true }) msg p.no_transfer
      ∙ e in
    (
      s',
      record {
        filled = w';
        filling = filling;
        sending = sent ∙ ap (λ x. (s', x)) (ground (arith, all, n));
        after = record w' { output = s'.output; attempting_to_send = 0; writing = false };
        starting = ground (
          arith,
          filling,
          send_bytes-all w' s'.output (length (frame msg)),
          count,
          length-frame msg,
          p.body_small,
        );
      },
      record {
        output_valid = v';
        output_empty = left;
        output_capacity = ap (λ x. x.output.capacity) made ∙ cap ∙ r.output_capacity;
        can_send = ap is_open made ∙ r.can_send;
      },
    )
