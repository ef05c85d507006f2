-- ===== src/Delivery/Stream.antt =====
-- Messages over a connection, one after another.
use server_client_peer_netwo.Base.{
  ℕ, ◌+◌, ◌≡◌, refl, sym, ap, ap₂, ◌∙◌, Bool, true, List, [], ◌∷◌, ◌++◌, map, Option, some, length,
  arith,
}
use server_client_peer_netwo.Result.{ok}
use server_client_peer_netwo.Buffer.Valid.{contents, length-contents}
use server_client_peer_netwo.Bytes.RoundTrip.{le_bytes}
use server_client_peer_netwo.Messages.{Message, opcode_byte}
use server_client_peer_netwo.Reader.{Reader}
use server_client_peer_netwo.Reader.Process.{read_message, deliver}
use server_client_peer_netwo.Socket.{Socket, send, receive, got}
use server_client_peer_netwo.Socket.Whole.{whole}
use server_client_peer_netwo.Writer.{Writer, start_write, fill_output_buffer, succeed}
use server_client_peer_netwo.Writer.Frame.{frame}
use server_client_peer_netwo.Delivery.{IsPlain, IsReady, IsWaiting, receive_size}
use server_client_peer_netwo.Delivery.Write.{write-plain, length-frame}
use server_client_peer_netwo.Delivery.Read.{read-plain}

-- The two ends of a connection, each with its message service.
pub record Link : Type 0 where
  pub writer : Writer
  pub sender : Socket
  pub reader : Reader
  pub receiver : Socket

-- What a message says: its opcode's byte, and its body.
abbrev pub said : Message → ℕ × List ℕ
said msg = (opcode_byte msg.opcode, contents msg.body)

pub data ArePlain : List Message → Type 0 where
  none_left : ArePlain []
  plain :
      {msg : Message} {msgs : List Message} → IsPlain msg → ArePlain msgs → ArePlain (msg ∷ msgs)

module _ (server : Bool) (file : List ℕ → Option (List (Option (List ℕ)))) (overshift : ℕ → ℕ → ℕ)
    (create_file : ℕ → Option (List ℕ)) where
  -- One message: the writer fills the output and calls back with success for what the socket has sent,
  -- which arrives at the other socket, and the reader there gives a message to its callback.
  pub record Delivered (msg msg' : Message) (l l' : Link) : Type 0 where
    pub filled : Writer
    pub filling :
        fill_output_buffer server file
          (record l.writer { output = l.sender.output; writing = true })
          msg
        ≡ ok filled
    pub wire : List ℕ
    pub sending :
        send (whole filled.output) (record l.sender { output = filled.output })
        ≡ (l'.sender, (wire, ok (length wire)))
    pub starting :
        start_write server file
          (record l.writer { output = l.sender.output })
          msg
          (some (length wire, l'.sender.output))
        ≡ ok (l'.writer, succeed)
    pub arrived : Socket
    pub receiving : receive receive_size (got wire) l.receiver ≡ ok (arrived, length wire)
    pub reading :
        read_message overshift create_file
          (record l.reader { input = l.receiver.input })
          (some arrived.input)
        ≡ ok (l'.reader, (deliver msg', []))
    pub consumed : l'.receiver ≡ record arrived { input = l'.reader.input }

  -- Messages one after another, each read before the next is written.
  pub data Stream : List Message → List Message → Link → Link → Type 0 where
    finished : {l : Link} → Stream [] [] l l
    then_next :
        {msg msg' : Message} {msgs msgs' : List Message} {l m n : Link}
        → Delivered msg msg' l m
        → Stream msgs msgs' m n
        → Stream (msg ∷ msgs) (msg' ∷ msgs') l n

  module _ (zero_shift : (k : ℕ) → overshift 0 k ≡ 0) where
    delivers-one :
        (l : Link) (msg : Message)
        → IsPlain msg
        → IsReady l.sender
        → IsWaiting l.receiver
        → (l' : Link) × (msg' : Message) × Delivered msg msg' l l'
          × (said msg' ≡ said msg)
          × IsReady l'.sender
          × IsWaiting l'.receiver
    delivers-one l msg p ready waiting =
        let (s', w, ready') = write-plain server file l.writer msg l.sender p ready in
        let n = length-contents msg.body in
        let (t', r', msg', received, read, op, body, waiting') =
          read-plain overshift zero_shift create_file l.reader l.receiver (opcode_byte msg.opcode)
            (contents msg.body) waiting (omega (arith, p.body_small, n)) p.no_transfer in
        let same : (opcode_byte msg.opcode ∷ le_bytes 4 (length (contents msg.body)))
              ++ contents msg.body
            ≡ frame msg =
          ap (λ k. (opcode_byte msg.opcode ∷ le_bytes 4 k) ++ contents msg.body) n in
        let count : 5 + length (contents msg.body) ≡ length (frame msg) =
          omega (arith, n, length-frame msg) in
        (
          record {
            writer = w.after;
            sender = s';
            reader = r';
            receiver = record t' { input = r'.input };
          },
          msg',
          record {
            filled = w.filled;
            filling = w.filling;
            wire = frame msg;
            sending = w.sending;
            starting = w.starting;
            arrived = t';
            receiving =
                ap (λ x. receive receive_size (got x) l.receiver) (sym same)
                ∙ received
                ∙ ap (λ k. ok (t', k)) count;
            reading = read;
            consumed = refl;
          },
          ap₂ (λ a b. (a, b)) op body,
          ready',
          waiting',
        )

    -- Between two open sockets whose output and input are empty and of the default size, a list of messages, which are no file
    -- transfers and have valid bodies of at most 509 bytes that are not full or begin at 0, is delivered one by one when the kernel takes each
    -- view whole and gives each message in one read: each write and each read succeeds, the messages that come out have the opcodes and
    -- the bodies of those that went in, in order, and the sockets end as they began, on a machine where 0 stays 0 under every shift.
    pub delivers-all :
        (l : Link) (msgs : List Message)
        → ArePlain msgs
        → IsReady l.sender
        → IsWaiting l.receiver
        → (l' : Link) × (msgs' : List Message) × Stream msgs msgs' l l'
          × (map said msgs' ≡ map said msgs)
          × IsReady l'.sender
          × IsWaiting l'.receiver
    delivers-all l [] none_left ready waiting = (l, [], finished, refl, ready, waiting)
    delivers-all l (msg ∷ msgs) (plain p ps) ready waiting =
        let (m, msg', one, same, ready_m, waiting_m) = delivers-one l msg p ready waiting in
        let (n, msgs', more, all, ready_n, waiting_n) = delivers-all m msgs ps ready_m waiting_m in
        (n, msg' ∷ msgs', then_next one more, ap₂ ◌∷◌ same all, ready_n, waiting_n)
