-- ===== src/Delivery/Tests.antt =====
-- Two messages over a connection, by async_message_service.cc and socket.cc.
use server_client_peer_netwo.Base.{◌≡◌, refl, false, inl, none, List, [], ◌∷◌, map, arith, tabulate}
use server_client_peer_netwo.Buffer.{Buffer, fresh, size}
use server_client_peer_netwo.Buffer.Valid.{contents}
use server_client_peer_netwo.Messages.{Message, op_response, op_enquiry}
use server_client_peer_netwo.Socket.{Socket, connected, is_open}
use server_client_peer_netwo.Delivery.{IsPlain, IsReady, IsWaiting}
use server_client_peer_netwo.Delivery.Stream.{Link, said, none_left, plain, Stream, delivers-all}

abbrev blank : Buffer
blank = fresh (λ i. 0) 1024 false

abbrev open_socket : Socket
open_socket = record { state = connected; sockfd = 5; input = blank; output = blank }

abbrev link : Link
link = record {
  writer = record { output = blank; attempting_to_send = 0; writing = false };
  sender = open_socket;
  reader = record {
    input = blank;
    parent = none;
    transfer_file_name = [];
    finished_compound = false;
    opcode = none;
    expected = none;
    body = blank;
    file_transfer_count = 0;
  };
  receiver = open_socket;
}

-- The bytes 0, 1, 2, and no bytes.
abbrev response : Message
response = record {
  opcode = op_response;
  body = record { mem = λ i. i; capacity = 4; read = 0; write = 3; full = false };
}

abbrev enquiry : Message
enquiry = record { opcode = op_enquiry; body = blank }

blank-empty : contents blank ≡ []
unfolding contents size tabulate
blank-empty = refl

three_held : size response.body ≡ 3
unfolding size
three_held = refl

none_held : size enquiry.body ≡ 0
unfolding size
none_held = refl

is_ready : IsReady open_socket
unfolding is_open
is_ready = record {
  output_valid = ground arith;
  output_empty = blank-empty;
  output_capacity = refl;
  can_send = refl;
}

is_waiting : IsWaiting open_socket
unfolding is_open
is_waiting = record {
  input_valid = ground arith;
  input_empty = blank-empty;
  input_open = refl;
  input_capacity = refl;
  can_receive = refl;
}

response-IsPlain : IsPlain response
response-IsPlain = record {
  body_valid = ground arith;
  body_viewable = inl refl;
  body_small = omega (arith, three_held);
  no_transfer = refl;
}

enquiry-IsPlain : IsPlain enquiry
enquiry-IsPlain = record {
  body_valid = ground arith;
  body_viewable = inl refl;
  body_small = omega (arith, none_held);
  no_transfer = refl;
}

delivers-all_example :
    (l : Link) × (msgs : List Message) × Stream false
      (λ name. none)
      (λ byte k. 0)
      (λ n. none)
      (response ∷ enquiry ∷ [])
      msgs
      link
      l
    × (map said msgs ≡ map said (response ∷ enquiry ∷ []))
    × IsReady l.sender
    × IsWaiting l.receiver
delivers-all_example =
    delivers-all false (λ name. none) (λ byte k. 0) (λ n. none) (λ k. refl) link
      (response ∷ enquiry ∷ []) (plain response-IsPlain (plain enquiry-IsPlain none_left)) is_ready
      is_waiting
