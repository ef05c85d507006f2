-- ===== src/Reader/Tests.antt =====
-- A message that async_message_service.cc reads from a buffer of 16 bytes.
use server_client_peer_netwo.Base.{
  ℕ, ◌≡◌, refl, true, false, none, List, [], ◌∷◌, ◌++◌, arith, get_or, tabulate,
}
use server_client_peer_netwo.Result.{ok}
use server_client_peer_netwo.Buffer.{fresh, size, space_remaining}
use server_client_peer_netwo.Buffer.Valid.{IsValid, contents}
use server_client_peer_netwo.Bytes.RoundTrip.{le_bytes}
use server_client_peer_netwo.Reader.{Reader, process_bytes_into_current_message}
use server_client_peer_netwo.Reader.Frame.{
  Fresh, HasMessage, Kept, process_bytes_into_current_message_lem,
}

-- A Response with the bytes 8, 9, and one byte of the next message.
abbrev wire : List ℕ
wire = 3 ∷ 2 ∷ 0 ∷ 0 ∷ 0 ∷ 8 ∷ 9 ∷ 4 ∷ []

abbrev start : Reader
start = record {
  input = record { mem = λ i. get_or wire i 0; capacity = 16; read = 0; write = 8; full = false };
  parent = none;
  transfer_file_name = [];
  finished_compound = false;
  opcode = none;
  expected = none;
  body = fresh (λ i. 0) 1024 false;
  file_transfer_count = 0;
}

body-IsValid : IsValid start.body
body-IsValid = ground arith

input-IsValid : IsValid start.input
input-IsValid = ground arith

body_empty : contents start.body ≡ []
unfolding contents size tabulate
body_empty = refl

all_free : space_remaining start.body ≡ 1024
unfolding size space_remaining
all_free = refl

contents-wire : contents start.input ≡ wire
unfolding contents size tabulate
contents-wire = refl

wire-frame : contents start.input ≡ 3 ∷ (le_bytes 4 2 ++ ((8 ∷ 9 ∷ []) ++ (4 ∷ [])))
unfolding le_bytes
wire-frame = contents-wire

start-Fresh : Fresh start
start-Fresh = record {
  no_opcode = refl;
  no_size = refl;
  body_valid = body-IsValid;
  body_empty = body_empty;
  body_open = refl;
}

process_bytes_into_current_message_lem_example :
    (r : Reader) × (process_bytes_into_current_message (λ byte k. 0) start (size start.input)
      ≡ ok (true, r))
    × HasMessage 3 2 (8 ∷ 9 ∷ []) (4 ∷ []) r
    × Kept start r
process_bytes_into_current_message_lem_example =
    process_bytes_into_current_message_lem (λ byte k. 0) (λ k. refl) start 3 (8 ∷ 9 ∷ []) (4 ∷ [])
      start-Fresh input-IsValid refl refl (omega arith) (omega (arith, all_free)) (omega arith)
      wire-frame
