-- ===== src/Writer/Frame.antt =====
-- What async_message_service.cc puts in the output buffer for a message.
use server_client_peer_netwo.Base.{
  ℕ, ◌+◌, ◌^◌, ◌≤◌, ◌<◌, ◌≡◌, refl, ap, ◌∙◌, true, some, List, [], ◌∷◌, ◌++◌, append_assoc,
  length-append, arith, length,
}
use server_client_peer_netwo.Result.{ok}
use server_client_peer_netwo.Buffer.{Buffer, size, space_remaining, put, put_iter, add_size}
use server_client_peer_netwo.Buffer.Valid.{IsValid, contents, space_remaining_lem, length-contents}
use server_client_peer_netwo.Buffer.Write.{put_iter-in_place}
use server_client_peer_netwo.Buffer.Views.{Viewable, move_buffer_lem}
use server_client_peer_netwo.Bytes.RoundTrip.{insert_lem, le_bytes, length-le_bytes}
use server_client_peer_netwo.Messages.{Message, opcode_byte}
use server_client_peer_netwo.Writer.{Writer, put_message_in_output_buffer, header_length}

-- A message on the wire: the opcode, the size of the body in four bytes, and the body.
abbrev pub frame : Message → List ℕ
frame msg = (opcode_byte msg.opcode ∷ le_bytes 4 (size msg.body)) ++ contents msg.body

put-some : (b : Buffer) (xs : List ℕ) → put b (some xs) true ≡ put_iter b xs true
unfolding put
put-some b xs = refl

-- A message with a valid body of less than 2 ^ 32 bytes, not full or beginning at 0, is put behind
-- what a valid output buffer holds as its frame, if there is room for it, and the count of bytes to
-- send grows by the frame's length.
pub put_message_in_output_buffer_lem :
    (w : Writer) (msg : Message)
    → IsValid w.output
    → IsValid msg.body
    → Viewable msg.body
    → size msg.body < 2 ^ 32
    → 5 + size msg.body ≤ space_remaining w.output
    → (w' : Writer) × (put_message_in_output_buffer w msg ≡ ok w')
      × IsValid w'.output
      × (contents w'.output ≡ contents w.output ++ frame msg)
      × (w'.attempting_to_send ≡ add_size w.attempting_to_send (length (frame msg)))
      × (w'.output.capacity ≡ w.output.capacity)
unfolding put_message_in_output_buffer
put_message_in_output_buffer_lem w msg v u view small room =
    let op = opcode_byte msg.opcode ∷ [] in
    let n = size msg.body in
    let (a, ea, wa) = put_iter-in_place op true v (omega arith) in
    let room_a : 4 + n ≤ space_remaining a = omega (
      arith,
      space_remaining_lem v,
      space_remaining_lem wa.valid,
      length-contents a,
      length-contents w.output,
      ap length wa.held,
      length-append (contents w.output) op,
      wa.same_capacity,
    ) in
    let (b, eb, vb, hb, cb, _) = insert_lem 4 n wa.valid (omega arith) in
    let room_b : n ≤ space_remaining b = omega (
      arith,
      space_remaining_lem wa.valid,
      space_remaining_lem vb,
      length-contents a,
      length-contents b,
      ap length hb,
      length-append (contents a) (le_bytes 4 n),
      length-le_bytes 4 n,
      cb,
    ) in
    let (c, d, ec, vc, _, hc, _, rc) = move_buffer_lem vb u view room_b in
    (
      record w {
        output = c;
        attempting_to_send = add_size w.attempting_to_send (header_length + n);
      },
      ground (arith, put-some w.output op, ea, eb, ec),
      vc,
      hc
          ∙ ap (λ xs. xs ++ contents msg.body) (hb ∙ ap (λ xs. xs ++ le_bytes 4 n) wa.held)
          ∙ ap (λ xs. xs ++ contents msg.body) (append_assoc (contents w.output) op (le_bytes 4 n))
          ∙ append_assoc (contents w.output) (op ++ le_bytes 4 n) (contents msg.body),
      ap (add_size w.attempting_to_send) (
          omega (
            arith,
            length-append (le_bytes 4 n) (contents msg.body),
            length-le_bytes 4 n,
            length-contents msg.body,
          )),
      rc ∙ cb ∙ wa.same_capacity,
    )
