-- ===== src/Socket/Close.antt =====
-- `Close`, and what a hangup in `Poll` of socket.cc does to the later calls.
use server_client_peer_netwo.Base.{
  ℕ, ◌≡◌, refl, ◌⊎◌, inl, inr, Bool, true, false, not, ◌&&◌, ◌||◌, none, some, Option, List, [],
  ◌==◌, Bool-cases, arith,
}
use server_client_peer_netwo.Result.{ok, err}
use server_client_peer_netwo.Socket.{
  Socket, SocketState, uninitialized, initialized, connected, half_closed, closed, is_state,
  is_open, is_closed, invalid_socket, Call, SocketError, close_by_state, close_descriptor, close,
  for_read, events, poll, poll_status, success, Written, Read, send, send_closed, receive,
  receive_closed,
}

-- What `Close` gives
pub data IsCloseOf (s s' : Socket) : List Call → Option SocketError → Type 0 where
  -- the socket ends closed
  ends : {calls : List Call} → is_closed s' ≡ true → IsCloseOf s s' calls none
  -- an error leaves it as it is
  stays : {calls : List Call} {e : SocketError} → s' ≡ s → IsCloseOf s s' calls (some e)

close-outcome :
    (shut done : Bool) (s : Socket) (state : SocketState)
    → IsCloseOf s
        (close_by_state state shut done s).0
        (close_by_state state shut done s).1.0
        (close_by_state state shut done s).1.1
unfolding close_by_state close_descriptor is_closed
close-outcome true true s connected = ends (ground arith)
close-outcome true false s connected = stays refl
close-outcome false done s connected = stays refl
close-outcome shut true s half_closed = ends (ground arith)
close-outcome shut false s half_closed = stays refl
close-outcome shut true s initialized = ends (ground arith)
close-outcome shut false s initialized = stays refl
close-outcome shut done s uninitialized = ends (ground arith)
close-outcome shut done s closed = ends (ground arith)

-- What is promised of the result of a `Close`.
abbrev CloseResult : Socket → Socket → Option SocketError → Type 0
CloseResult s s' e =
    ((e ≡ none)
      × (is_closed s' ≡ true)
      × ((shut done : Bool) → close shut done s' ≡ (s', ([], none))))
    ⊎ ((x : SocketError) × (e ≡ some x) × (s' ≡ s))

again : (shut done : Bool) (s : Socket) → is_closed s ≡ true → close shut done s ≡ (s, ([], none))
unfolding close
again shut done s c = rw c refl

outcome-result :
    {s s' : Socket} {calls : List Call} {e : Option SocketError}
    → IsCloseOf s s' calls e
    → CloseResult s s' e
outcome-result {s' = s'} (ends c) = inl (refl, c, λ shut done. again shut done s' c)
outcome-result (stays {e = x} h) = inr (x, refl, h)

-- Whether the calls of the kernel succeed or not, `Close` gives no error and leaves a closed socket, on which a further
-- `Close` does nothing and calls nothing, or it gives an error and leaves the socket as it was.
pub close-once :
    (shut done : Bool) (s : Socket)
    → (s' : Socket) × (calls : List Call) × (e : Option SocketError) × (close shut done s
        ≡ (s', (calls, e)))
      × (((e ≡ none)
            × (is_closed s' ≡ true)
            × ((shut' done' : Bool) → close shut' done' s' ≡ (s', ([], none))))
          ⊎ ((x : SocketError) × (e ≡ some x) × (s' ≡ s)))
unfolding close
close-once shut done s = elim (Bool-cases (is_closed s)) [
  | inl c ↦ (s, [], none, rw c refl, inl (refl, c, λ shut' done'. again shut' done' s c))
  | inr o ↦
      let r = close_by_state s.state shut done s in
      (r.0, r.1.0, r.1.1, rw o refl, outcome-result (close-outcome shut done s s.state))
]

open-not_closed : (s : Socket) → is_open s ≡ true → is_closed s ≡ false
unfolding is_open is_closed
open-not_closed s o = cases s.state (s.sockfd == invalid_socket) o
  where
    cases :
        (state : SocketState) (bad : Bool)
        → (is_state state connected && not bad) ≡ true
        → (is_state state uninitialized || is_state state closed || bad) ≡ false
    cases connected false h = refl
    cases connected true h = ground arith
    cases uninitialized bad h = ground arith
    cases initialized bad h = ground arith
    cases half_closed bad h = ground arith
    cases closed bad h = ground arith

-- When a poll of a connected socket for reading finds bytes to read and a hangup, it gives success, but the socket
-- counts as half closed: each `Receive` and each `Send` after it refuses, and the bytes stay unread.
pub poll-hangup :
    (s : Socket) (writable : Bool)
    → is_open s ≡ true
    → (s' : Socket) × (poll for_read (events false true true writable) s ≡ (s', ok success))
      × ((n : ℕ) (r : Read) → receive n r s' ≡ err receive_closed)
      × ((ws : List Written) → send ws s' ≡ (s', ([], err send_closed)))
unfolding poll poll_status receive send is_open
poll-hangup s writable o =
    (record s { state = half_closed }, rw (open-not_closed s o) refl, λ n r. refl, λ ws. refl)
