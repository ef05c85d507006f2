-- ===== src/Writer/Tests.antt =====
-- Messages of async_message_service.cc put in a buffer of 16 bytes.
use server_client_peer_netwo.Base.{◌≡◌, refl, inl, some, ◌++◌, false, arith, length}
use server_client_peer_netwo.Result.{ok}
use server_client_peer_netwo.Buffer.{Buffer, fresh, add_size, size, space_remaining}
use server_client_peer_netwo.Buffer.Valid.{IsValid, contents}
use server_client_peer_netwo.Messages.{Message, op_response}
use server_client_peer_netwo.Writer.{
  Writer, put_message_in_output_buffer, send_bytes, succeed, poll_for_write, finished_sending,
}
use server_client_peer_netwo.Writer.Frame.{frame, put_message_in_output_buffer_lem}

abbrev blank : Buffer
blank = fresh (λ i. 0) 16 false

abbrev idle : Writer
idle = record { output = blank; attempting_to_send = 0; writing = false }

-- The bytes 0, 1, 2.
abbrev response : Message
response = record {
  opcode = op_response;
  body = record { mem = λ i. i; capacity = 4; read = 0; write = 3; full = false };
}

blank-IsValid : IsValid blank
blank-IsValid = ground arith

response-IsValid : IsValid response.body
response-IsValid = ground arith

three_held : size response.body ≡ 3
unfolding size
three_held = refl

all_free : space_remaining blank ≡ 16
unfolding size space_remaining
all_free = refl

put_message_in_output_buffer_lem_example :
    (w : Writer) × (put_message_in_output_buffer idle response ≡ ok w)
    × IsValid w.output
    × (contents w.output ≡ contents blank ++ frame response)
    × (w.attempting_to_send ≡ add_size 0 (length (frame response)))
    × (w.output.capacity ≡ 16)
put_message_in_output_buffer_lem_example =
    put_message_in_output_buffer_lem idle response blank-IsValid response-IsValid (inl refl)
      (omega (arith, three_held)) (omega (arith, three_held, all_free))

-- Eight bytes are sent in two steps.
send-first :
    (send_bytes (record idle { attempting_to_send = 8 }) (some (5, blank))).1 ≡ poll_for_write
unfolding send_bytes finished_sending
send-first = refl

send-rest : (send_bytes (record idle { attempting_to_send = 3 }) (some (3, blank))).1 ≡ succeed
unfolding send_bytes finished_sending
send-rest = refl
