-- ===== src/Socket/Tests.antt =====
-- A socket of socket.cc with four bytes to send, and four to receive.
use server_client_peer_netwo.Base.{
  ℕ, ◌≡◌, ◌+◌, refl, true, false, Bool, none, some, Option, ◌⊎◌, inl, List, [], ◌∷◌, ◌++◌, arith,
  length, ltb, if◌then◌else◌, take,
}
use server_client_peer_netwo.Result.{ok, err}
use server_client_peer_netwo.Buffer.{Buffer, fresh, size, overflow, space_remaining}
use server_client_peer_netwo.Buffer.Valid.{IsValid, contents}
use server_client_peer_netwo.Buffer.Read.{released}
use server_client_peer_netwo.Socket.{
  Socket, SocketError, Call, Written, Read, close, is_closed, poll, for_read, events, success,
  receive_closed, send_closed, exception, connected, wrote, would_block, got, is_open, send,
  receive,
}
use server_client_peer_netwo.Socket.Close.{close-once, poll-hangup}
use server_client_peer_netwo.Socket.Send.{send_lem, send-repeats}
use server_client_peer_netwo.Socket.Receive.{receive_lem}

-- The output holds the bytes 0, 1, 2, 3.
abbrev loaded : Socket
loaded = record {
  state = connected;
  sockfd = 5;
  input = fresh (λ i. 0) 8 false;
  output = record { mem = λ i. i; capacity = 8; read = 0; write = 4; full = false };
}

input-IsValid : IsValid loaded.input
input-IsValid = ground arith

output-IsValid : IsValid loaded.output
output-IsValid = ground arith

four_held : size loaded.output ≡ 4
unfolding size
four_held = refl

none_held : size loaded.input ≡ 0
unfolding size
none_held = refl

eight_free : space_remaining loaded.input ≡ 8
unfolding space_remaining size
eight_free = refl

loaded-open : is_open loaded ≡ true
unfolding is_open
loaded-open = refl

send_lem_example :
    (s : Socket) × (wire : List ℕ) × (send (wrote 3 ∷ (would_block ∷ [])) loaded
      ≡ (s, (wire, ok 3)))
    × IsValid s.output
    × (length wire ≡ 3)
    × (wire ++ contents s.output ≡ contents loaded.output)
send_lem_example =
    send_lem loaded 3 [] output-IsValid loaded-open (inl refl) (omega arith)
      (omega (arith, four_held))

-- Three bytes go, then two of the same again: the buffer is asked to drop five of its four bytes.
send-repeats_example : send (wrote 3 ∷ (wrote 2 ∷ (would_block ∷ []))) loaded ≡ (
    if ltb (size loaded.output) (3 + 2)
    then (
      loaded,
      (
        take 3 (contents loaded.output) ++ take 2 (contents loaded.output),
        err (exception overflow),
      ),
    )
    else (
      record loaded { output = released loaded.output (3 + 2) },
      (take 3 (contents loaded.output) ++ take 2 (contents loaded.output), ok (3 + 2)),
    ))
send-repeats_example =
    send-repeats loaded 3 2 [] output-IsValid loaded-open (inl refl) (omega arith) (omega arith)
      (omega (arith, four_held))

receive_lem_example :
    (input : Buffer) × (receive 6 (got (7 ∷ 8 ∷ [])) loaded
      ≡ ok (record loaded { input = input }, 2))
    × IsValid input
    × (contents input ≡ contents loaded.input ++ 7 ∷ 8 ∷ [])
receive_lem_example =
    receive_lem loaded 6 (7 ∷ 8 ∷ []) input-IsValid loaded-open refl (omega arith)
      (inl (omega (arith, eight_free))) (omega (arith, none_held)) (omega arith)

close-once_example :
    (s' : Socket) × (calls : List Call) × (e : Option SocketError) × (close true true loaded
      ≡ (s', (calls, e)))
    × (((e ≡ none)
          × (is_closed s' ≡ true)
          × ((shut' done' : Bool) → close shut' done' s' ≡ (s', ([], none))))
        ⊎ ((x : SocketError) × (e ≡ some x) × (s' ≡ loaded)))
close-once_example = close-once true true loaded

poll-hangup_example :
    (s' : Socket) × (poll for_read (events false true true true) loaded ≡ (s', ok success))
    × ((n : ℕ) (r : Read) → receive n r s' ≡ err receive_closed)
    × ((ws : List Written) → send ws s' ≡ (s', ([], err send_closed)))
poll-hangup_example = poll-hangup loaded true loaded-open
