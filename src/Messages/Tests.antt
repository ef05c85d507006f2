-- ===== src/Messages/Tests.antt =====
-- Messages of net/proto/messages.cc and integers of util/bytes.h at concrete values.
use server_client_peer_netwo.Base.{
  ℕ, ◌*◌, ◌%◌, ◌^◌, ◌≡◌, refl, false, List, [], ◌∷◌, ◌++◌, arith, replicate, tabulate,
  if◌then◌else◌, ◌==◌, ◌-◌,
}
use server_client_peer_netwo.Result.{ok, ◌>>=◌}
use server_client_peer_netwo.Buffer.{Buffer, get, size, empty, advance_read, fresh}
use server_client_peer_netwo.Buffer.Valid.{contents}
use server_client_peer_netwo.Bytes.{extract, extract_loop, shift_int, int_to_unsigned, width}
use server_client_peer_netwo.Bytes.RoundTrip.{le_bytes}
use server_client_peer_netwo.Messages.{
  Clocked, Write, EstablishConnection, op_request, clocked_message, to_clocked, write_message,
  to_write,
}
use server_client_peer_netwo.Messages.RoundTrip.{to_clocked-clocked_message, to_write-write_message}

-- Shift counts taken modulo 32, as an x86 processor does.
abbrev masked : ℕ → ℕ → ℕ
masked byte k = byte * 2 ^ (k % 32)

masked-zero : (k : ℕ) → masked 0 k ≡ 0
masked-zero k = omega arith

-- "ab.txt"
abbrev name : List ℕ
name = 97 ∷ 98 ∷ 46 ∷ 116 ∷ 120 ∷ 116 ∷ []

abbrev asked : Clocked
asked = record { timestamp = 70000; file_name = name }

to_clocked-clocked_message_example :
    (clocked_message op_request asked >>= λ msg. ok (to_clocked masked op_request msg))
    ≡ ok (ok asked)
to_clocked-clocked_message_example =
    to_clocked-clocked_message masked op_request asked masked-zero (omega arith) (omega arith)

abbrev long_name : Clocked
long_name = record { timestamp = 1; file_name = replicate 1017 97 }

abbrev hello : EstablishConnection
hello = record { id = 3; message = name }

abbrev entry : Write
entry = record { file_name = name; line = 40 ∷ 49 ∷ 41 ∷ [] }

to_write-write_message_example : (write_message entry >>= λ msg. ok (to_write msg)) ≡ ok (ok entry)
to_write-write_message_example = to_write-write_message entry (omega arith) (omega arith)

abbrev small : Buffer
small = fresh (λ i. 0) 16 false

-- 258 in eight bytes
abbrev number : Buffer
number = record {
  mem = λ i. if i == 0 then 2 else if i == 1 then 1 else 0;
  capacity = 16;
  read = 0;
  write = 8;
  full = false;
}

contents-number : contents number ≡ le_bytes 8 258 ++ []
unfolding contents size tabulate le_bytes
contents-number = refl

-- 2 ^ 31 in eight bytes
abbrev large_number : Buffer
large_number = record number { mem = λ i. if i == 3 then 128 else 0 }

-- It comes back with all higher bits set.
extract-large_number : (extract masked 8 large_number >>= λ r. ok r.0) ≡ ok (2 ^ 64 - 2 ^ 31)
unfolding extract extract_loop shift_int int_to_unsigned width get empty advance_read size
extract-large_number = refl
