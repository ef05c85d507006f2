-- ===== src/Socket.antt =====
-- src/net/socket.h and socket.cc: a non-blocking socket with its two buffers.
--
-- The kernel is outside: what its calls return is an argument, a list where a loop calls `write`. A
-- `write` puts the bytes that it takes on the wire, which the other end reads. `errno` tells only
-- whether a call would block.

pub mod Close
pub mod Receive
pub mod Send
pub mod Whole
mod Tests
use server_client_peer_netwo.Base.{
  ℕ, ◌+◌, Bool, true, false, not, ◌&&◌, ◌||◌, Option, none, some, List, [], ◌∷◌, ◌++◌, ltb, ◌==◌,
  if◌then◌else◌, length, take,
}
use server_client_peer_netwo.Result.{Result, ok, err, ◌>>=◌}
use server_client_peer_netwo.Buffer.{Buffer, Fault, consume, commit, write_bytes}
use server_client_peer_netwo.Buffer.Shift.{reserve}
use server_client_peer_netwo.Buffer.Views.{view, view_data}

pub data SocketState : Type 0 where
  uninitialized initialized connected half_closed closed : SocketState

pub data PollOption : Type 0 where
  any for_read for_write : PollOption

pub data PollStatus : Type 0 where
  expire failure success : PollStatus

pub record Socket : Type 0 where
  pub state : SocketState
  pub sockfd : ℕ
  pub input : Buffer
  pub output : Buffer

-- The errors by their texts, and an exception of a buffer.
pub data SocketError : Type 0 where
  shutdown_failed close_failed poll_failed : SocketError
  send_closed send_failed receive_closed receive_failed : SocketError
  exception : Fault → SocketError

-- `std::numeric_limits<port_t>::max() + 1`
abbrev pub invalid_socket : ℕ
invalid_socket = 65536

abbrev pub is_state : SocketState → SocketState → Bool
is_state uninitialized uninitialized = true
is_state initialized initialized = true
is_state connected connected = true
is_state half_closed half_closed = true
is_state closed closed = true
is_state _ _ = false

unfoldable pub is_open : Socket → Bool
is_open s = is_state s.state connected && not (s.sockfd == invalid_socket)

unfoldable pub is_closed : Socket → Bool
is_closed s =
    is_state s.state uninitialized || is_state s.state closed || (s.sockfd == invalid_socket)

-- The calls of `Close`, in order
pub data Call : Type 0 where
  shutdown_call close_call : ℕ → Call

-- The cases of the switch from `kHalfClosed` on, and what follows it.
unfoldable pub close_descriptor : Bool → Socket → Socket × (List Call × Option SocketError)
close_descriptor done s =
    if done
    then (record s { state = closed; sockfd = invalid_socket }, (close_call s.sockfd ∷ [], none))
    else (s, (close_call s.sockfd ∷ [], some close_failed))

-- `Close`, by whether `shutdown` and `close` succeed. The states without a case go behind the switch.
unfoldable pub close_by_state :
    SocketState → Bool → Bool → Socket → Socket × (List Call × Option SocketError)
close_by_state connected shut done s =
    if shut
    then (let (s', (calls, e)) = close_descriptor done s in
        (s', (shutdown_call s.sockfd ∷ calls, e)))
    else (s, (shutdown_call s.sockfd ∷ [], some shutdown_failed))
close_by_state half_closed shut done s = close_descriptor done s
close_by_state initialized shut done s = close_descriptor done s
close_by_state uninitialized shut done s =
    (record s { state = closed; sockfd = invalid_socket }, ([], none))
close_by_state closed shut done s =
    (record s { state = closed; sockfd = invalid_socket }, ([], none))

unfoldable pub close : Bool → Bool → Socket → Socket × (List Call × Option SocketError)
close shut done s = if is_closed s then (s, ([], none)) else close_by_state s.state shut done s

-- What `poll` returns: an error, no event in time, or the events.
pub data Polled : Type 0 where
  poll_error nothing : Polled
  events : Bool → Bool → Bool → Bool → Polled

-- The last switch of `Poll`, by whether POLLIN and POLLOUT are set.
unfoldable pub poll_status : PollOption → Bool → Bool → PollStatus
poll_status for_write readable writable = if writable then success else failure
poll_status for_read readable writable = if readable then success else failure
poll_status any readable writable = success

-- `Poll`; the events are POLLERR or POLLNVAL, POLLHUP, POLLIN and POLLOUT.
unfoldable pub poll : PollOption → Polled → Socket → Socket × Result PollStatus SocketError
poll option polled s = if is_closed s then (s, ok failure) else elim polled [
  | poll_error ↦ (s, err poll_failed)
  | nothing ↦ (s, ok expire)
  | events bad hung readable writable ↦ if bad then (s, ok failure) else (
    (if hung then record s { state = half_closed } else s),
    ok (poll_status option readable writable),
  )
]

-- What a `write` returns: the number of bytes taken, that it would block, or another error.
pub data Written : Type 0 where
  wrote : ℕ → Written
  would_block write_error : Written

-- What sending does: the bytes on the wire, the answers of the kernel that are left, and the number of
-- bytes that the code counts, or an error.
pub record Sending : Type 0 where
  pub wire : List ℕ
  pub answers : List Written
  pub counted : Result ℕ SocketError

abbrev pub raising {ℓ} : {A : Type ℓ} → Result A Fault → Result A SocketError
raising (ok a) = ok a
raising (err e) = err (exception e)

-- The loop over one view, of the bytes `xs`, from `local_bytes_sent` on. Each call is given the whole
-- view. Where no answer is left, the call would block.
unfoldable pub send_view : List ℕ → ℕ → List Written → Sending
send_view xs local [] = record { wire = []; answers = []; counted = ok local }
send_view xs local (a ∷ ws) =
    if ltb local (length xs)
    then elim a [
      | wrote n ↦
          let rest = send_view xs (local + n) ws in record rest { wire = take n xs ++ rest.wire }
      | would_block ↦ record { wire = []; answers = ws; counted = ok local }
      | write_error ↦ record { wire = []; answers = ws; counted = err send_failed }
    ]
    else record { wire = []; answers = a ∷ ws; counted = ok local }

-- A null pointer comes with a view of no bytes.
abbrev pub bytes_of : Option (List ℕ) → List ℕ
bytes_of none = []
bytes_of (some xs) = xs

-- The loop over the views: the wire grows, and a `write` that would block ends only its view.
unfoldable pub send_views : Buffer → List (ℕ × ℕ) → ℕ → List Written → Sending
send_views b [] total ws = record { wire = []; answers = ws; counted = ok total }
send_views b ((off, n) ∷ vs) total ws = elim (view_data b off n) [
  | err e ↦ record { wire = []; answers = ws; counted = err (exception e) }
  | ok bytes ↦
      let one = send_view (bytes_of bytes) 0 ws in
      elim one.counted [
        | err e ↦ one
        | ok n' ↦
            let more = send_views b vs (total + n') one.answers in
            record more { wire = one.wire ++ more.wire }
      ]
]

-- `Send`: the socket, what is on the wire, and the number of bytes or the error.
unfoldable pub send : List Written → Socket → Socket × (List ℕ × Result ℕ SocketError)
send ws s =
    if not (is_open s)
    then (s, ([], err send_closed))
    else (let sent = send_views s.output (view s.output) 0 ws in
        elim sent.counted [
          | err e ↦ (s, (sent.wire, err e))
          | ok total ↦ elim (consume s.output total) [
            | err e ↦ (s, (sent.wire, err (exception e)))
            | ok output ↦ (record s { output = output }, (sent.wire, ok total))
          ]
        ])

-- What a `read` returns: the bytes, that it would block, or another error.
pub data Read : Type 0 where
  got : List ℕ → Read
  nothing_yet read_error : Read

-- `Receive` of at most `bytes` bytes. The kernel writes behind the cursor that `reserve` returns.
unfoldable pub receive : ℕ → Read → Socket → Result (Socket × ℕ) SocketError
receive bytes answer s = if not (is_open s) then err receive_closed else (do
  input ← raising (reserve s.input bytes)
  elim answer [
    | nothing_yet ↦ ok (record s { input = input }, 0)
    | read_error ↦ err receive_failed
    | got xs ↦ (do
      mem ← raising (write_bytes input.mem input.capacity input.write xs)
      input' ← raising (commit (record input { mem = mem }) (length xs))
      ok (record s { input = input' }, length xs))
  ])
