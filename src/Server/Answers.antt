-- ===== src/Server/Answers.antt =====
-- What a client of project2_service.cc is answered.
use server_client_peer_netwo.Base.{
  ℕ, ◌+◌, ◌*◌, ◌≤◌, ◌<◌, ◌≡◌, ◌≢◌, Free, refl, ap, ◌∙◌, true, false, none, some, List, [], ◌∷◌,
  ◌++◌, arith, name_eq, name_eq_refl, if◌then◌else◌, length,
}
use server_client_peer_netwo.Result.{Result, ok, ◌>>=◌}
use server_client_peer_netwo.StateMachine
use server_client_peer_netwo.StateMachine.{Status, Machine, Effect, act, report, unblock}
use server_client_peer_netwo.Buffer
use server_client_peer_netwo.Buffer.{
  Buffer, max_alloc, of_size, put_iter, put, of_string, default_size,
}
use server_client_peer_netwo.Messages.{
  Message, Write, op_ok, op_response, op_read, Failure, throwing, empty_message, string_message,
  write_message, to_text, to_write,
}
use server_client_peer_netwo.Files.{
  Directory, newline, read_file, append_file, is_hidden, append_line, read_last_line, content_of,
}
use server_client_peer_netwo.Files.LastLine.{read_last_line-append_line}
use server_client_peer_netwo.Server
use server_client_peer_netwo.Server.{
  State, await_message, handle_read, handle_write, stopped, After, passes, stops, Action,
  read_message, Service, Surroundings, what, service, handle, handler_of, is_async, should_stop,
  next_state, read_for, write_for,
}
use server_client_peer_netwo.Server.Sessions.{
  ServiceMachine, Outcome, serves, IsReady, serves-passes,
}
use server_client_peer_netwo.Server.Made.{made_text, made_write}

abbrev pub thrown {ℓ} : {A : Type ℓ} → Result A Buffer.Fault → Result A (StateMachine.Fault Failure)
thrown r = StateMachine.throwing (throwing r)

module _ (o : Surroundings) where
  -- A client writes a line to a file, and then reads the file.
  unfoldable pub write_then_read : ServiceMachine → Write → Outcome
  write_then_read m w = do
    wr ← thrown (write_message w)
    rd ← thrown (string_message op_read w.file_name)
    (m', es) ← serves o m wr passes (ok tt)
    (m'', fs) ← serves o m' rd passes (ok tt)
    ok (m'', es ++ fs)

  abbrev appended : Directory → Write → Directory
  appended files w n =
      if name_eq w.file_name n
      then some (append_line (content_of (files w.file_name)) w.line)
      else files n

  module _ (m : ServiceMachine) (peer : List ℕ) (w : Write) (before : List ℕ) (ready : IsReady o m)
      (known : o.peer_name ≡ ok peer) (direct : o.access.is_direct w.file_name ≡ true)
      (writable : o.access.is_writable w.file_name ≡ true) where
    handles-write :
        (wr : Message) (files : Directory)
        → to_write wr ≡ ok w
        → (reply : Message) → empty_message op_ok ≡ ok reply
        → handle o handle_write (record { last_received = wr; files = files })
          ≡ ok (
              Server.begins
                (record { last_received = wr; files = appended files w })
                (Server.write_message reply passes))
    unfolding handle write_for append_file
    handles-write wr files conv reply rep = ground (arith, known, conv, direct, writable, rep)

    handles-read :
        (rd reply : Message) (files : Directory) (content : List ℕ)
        → is_hidden w.file_name ≡ false
        → files w.file_name ≡ some content
        → to_text op_read rd ≡ ok w.file_name
        → string_message op_response (read_last_line content) ≡ ok reply
        → handle o handle_read (record { last_received = rd; files = files })
          ≡ ok (
              Server.begins
                (record { last_received = rd; files = files })
                (Server.write_message reply passes))
    unfolding handle read_for read_file
    handles-read rd reply files content seen held conv rep =
        ground (arith, known, conv, direct, seen, held, rep)

abbrev ok_message : Message
ok_message = record { opcode = op_ok; body = Buffer.fresh (λ i. 0) default_size false }

empty_message-ok : empty_message op_ok ≡ ok ok_message
unfolding empty_message of_size
empty_message-ok = refl

short-allocated : (n m : ℕ) → n + 2 + 2 * m < 1024 → (n ≤ max_alloc) × (m ≤ max_alloc)
short-allocated n m h = (omega (arith, h), omega (arith, h))

-- A client of a service that waits for a message writes a line to a file that ends in a newline, and
-- then reads the file: it is answered Ok and then a Response with the line, and the service waits for
-- a message again. The line is not empty and has no newline, the name is in the root, not hidden and
-- without a carriage return, the system opens the file, the name of the peer is known, and the two
-- fit in the default size as for to_write-write_message.
pub write_then_read_lem :
    (o : Surroundings) (m : ServiceMachine) (peer : List ℕ) (w : Write) (before : List ℕ)
    → IsReady o m
    → o.peer_name ≡ ok peer
    → o.access.is_direct w.file_name ≡ true
    → o.access.is_writable w.file_name ≡ true
    → is_hidden w.file_name ≡ false
    → m.instance_.files w.file_name ≡ some (before ++ (newline ∷ []))
    → w.line ≢ []
    → Free newline w.line
    → Free 13 w.file_name
    → length w.file_name + 2 + 2 * length w.line < 1024
    → (m' : ServiceMachine) × (a : Message) × (b : Message) × (write_then_read o m w
        ≡ ok (
          m',
          act (Server.write_message a passes)
              ∷ (act read_message
                  ∷ (act (Server.write_message b passes) ∷ (act read_message ∷ []))),
        ))
      × (a.opcode ≡ op_ok)
      × (b.opcode ≡ op_response)
      × (to_text op_response b ≡ ok w.line)
      × IsReady o m'
unfolding write_then_read is_async should_stop next_state handler_of
write_then_read_lem o m peer w before ready known direct writable seen held nonempty line free
      short =
    let small = short-allocated (length w.file_name) (length w.line) short in
    let (wr, made_wr, conv_wr, op_wr) = made_write w free short in
    let (rd, made_rd, conv_rd, op_rd) = made_text op_read w.file_name small.0 in
    let (b, made_b, conv_b, op_b) = made_text op_response w.line small.1 in
    let files : Directory = appended o m.instance_.files w in
    let content : List ℕ = append_line (before ++ (newline ∷ [])) w.line in
    let t : Service = record { last_received = wr; files = files } in
    let m1 : ServiceMachine = record m {
      forced_next_state = none;
      instance_ = t;
      current_state = await_message;
    } in
    let last : read_last_line content ≡ w.line =
      (read_last_line-append_line before w.line nonempty line).0 in
    let now : files w.file_name ≡ some content =
      ground (arith, name_eq_refl w.file_name, ap (λ c. append_line (content_of c) w.line) held) in
    let first =
      serves-passes o m wr ok_message handle_write t ready (ap handler_of op_wr) refl refl refl (
        handles-write o m peer w before ready known direct writable wr m.instance_.files conv_wr
          ok_message empty_message-ok) in
    let t' : Service = record { last_received = rd; files = files } in
    let second =
      serves-passes o m1 rd b handle_read t' (ready.0, refl) (ap handler_of op_rd) refl refl refl
        (handles-read o m peer w before ready known direct writable rd b files content seen now
          conv_rd (ap (string_message op_response) last ∙ made_b)) in
    (
      record m { forced_next_state = none; instance_ = t'; current_state = await_message },
      ok_message,
      b,
      ground (arith, made_wr, made_rd, first, second),
      refl,
      op_b,
      conv_b,
      (ready.0, refl),
    )
