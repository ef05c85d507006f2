-- ===== src/Socket/Receive.antt =====
-- What `Socket::Receive` of socket.cc puts in the input buffer.
use server_client_peer_netwo.Base.{
  ℕ, ◌+◌, ◌^◌, ◌≤◌, ◌<◌, ◌≡◌, ap, ◌∙◌, ◌⊎◌, true, false, List, ◌++◌, length, arith,
}
use server_client_peer_netwo.Result.{ok}
use server_client_peer_netwo.Buffer.{
  Buffer, size, space_remaining, space_remaining_until_end, copy_in, commit, write_bytes,
}
use server_client_peer_netwo.Buffer.Valid.{IsValid, contents, until_end_lem, mem-IsValid, space-mem}
use server_client_peer_netwo.Buffer.Write.{
  advanced, advance_write_lem, advanced-IsValid, write_bytes_lem, straight-Stored,
  contents-advanced,
}
use server_client_peer_netwo.Buffer.Many.{Readable}
use server_client_peer_netwo.Buffer.Shift.{reserve-makes_room}
use server_client_peer_netwo.Socket.{Socket, got, is_open, receive}

-- What the kernel writes behind the cursor, in the room up to the end.
module _ {b : Buffer} (xs : List ℕ) (v : IsValid b) (fits : length xs ≤ space_remaining_until_end b)
    (room : length xs ≤ space_remaining b) where
  abbrev pub filled : Buffer
  filled = advanced (record b { mem = copy_in b.mem b.write xs }) (length xs)

  pub filled-write : write_bytes b.mem b.capacity b.write xs ≡ ok (copy_in b.mem b.write xs)
  filled-write = write_bytes_lem b.mem b.capacity b.write xs (ground (arith, until_end_lem v))

  pub filled-commit : commit (record b { mem = copy_in b.mem b.write xs }) (length xs) ≡ ok filled
  unfolding commit
  filled-commit =
      advance_write_lem {b = record b { mem = copy_in b.mem b.write xs }} (length xs)
        (mem-IsValid b (copy_in b.mem b.write xs) v)
        (rw (space-mem b (copy_in b.mem b.write xs)) room)

  pub filled-IsValid : IsValid filled
  filled-IsValid =
      advanced-IsValid {b = record b { mem = copy_in b.mem b.write xs }} (length xs)
        (mem-IsValid b (copy_in b.mem b.write xs) v)
        (rw (space-mem b (copy_in b.mem b.write xs)) room)

  pub contents-filled : contents filled ≡ contents b ++ xs
  contents-filled =
      contents-advanced xs (copy_in b.mem b.write xs) v room (straight-Stored xs v room fits)

-- An open socket, with a valid input buffer that is not full and either has room for the bytes asked for or can be
-- read whole, below 2 ^ 62 bytes in all, receives what the kernel gives, no more than was asked for: just these bytes are appended to those held.
pub receive_lem :
    (s : Socket) (n : ℕ) (xs : List ℕ)
    → IsValid s.input
    → is_open s ≡ true
    → s.input.full ≡ false
    → 0 < n
    → (n ≤ space_remaining s.input) ⊎ Readable s.input (size s.input)
    → size s.input + n < 2 ^ 62
    → length xs ≤ n
    → (input : Buffer) × (receive n (got xs) s ≡ ok (record s { input = input }, length xs))
      × IsValid input
      × (contents input ≡ contents s.input ++ xs)
unfolding receive
receive_lem s n xs v o nf pos c small le =
    let (b, e, vb, same, near, free) = reserve-makes_room n v nf pos c small in
    let fits : length xs ≤ space_remaining_until_end b = omega arith in
    let room : length xs ≤ space_remaining b = omega arith in
    (
      filled xs vb fits room,
      ground (arith, o, e, filled-write xs vb fits room, filled-commit xs vb fits room),
      filled-IsValid xs vb fits room,
      contents-filled xs vb fits room ∙ ap (λ ys. ys ++ xs) same,
    )
