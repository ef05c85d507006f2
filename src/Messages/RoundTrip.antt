-- ===== src/Messages/RoundTrip.antt =====
-- Which messages of net/proto/messages.cc come back from their conversion to a body.
use server_client_peer_netwo.Base.{
  ℕ, ◌+◌, ◌*◌, ◌^◌, ◌≤◌, ◌<◌, ◌≡◌, refl, ap, ◌∙◌, List, [], ◌∷◌, ◌++◌, append_assoc, Bool, true,
  false, some, arith, length, length-append, tabulate, Free, ==_refl,
}
use server_client_peer_netwo.Result.{ok, err, ◌>>=◌}
use server_client_peer_netwo.Buffer.{
  Buffer, fresh, of_size, default_size, put_iter, put, to_string, size, space_remaining, overflow,
}
use server_client_peer_netwo.Buffer.Valid.{
  IsValid, contents, length-contents, size-used, space_remaining_lem,
}
use server_client_peer_netwo.Buffer.Write.{put_iter-in_place}
use server_client_peer_netwo.Buffer.Many.{Readable, to_string_lem}
use server_client_peer_netwo.Buffer.Read.{released}
use server_client_peer_netwo.Buffer.Resize.{put_iter-overflow}
use server_client_peer_netwo.Buffer.Delimiter.{get_until-stops}
use server_client_peer_netwo.Bytes.{insert}
use server_client_peer_netwo.Bytes.RoundTrip.{
  le_bytes, length-le_bytes, insert_lem, extract-one, extract-eight,
}
use server_client_peer_netwo.Messages.{
  Opcode, EstablishConnection, Write, Clocked, opcode_byte, op_write, op_establish_connection,
  string_delimiter, establish_connection_message, write_message, clocked_message,
  to_establish_connection, to_clocked, to_write, assert_opcode,
}

-- A message's body as the conversions build it: from the start of an array of the default size.
pub record Body (text : List ℕ) (b : Buffer) : Type 0 where
  pub valid : IsValid b
  pub held : contents b ≡ text
  pub at_start : b.read ≡ 0
  pub default_capacity : b.capacity ≡ default_size

abbrev blank : Buffer
blank = fresh (λ i. 0) default_size false

of_size-default : of_size default_size ≡ ok blank
unfolding of_size
of_size-default = refl

blank-Body : Body [] blank
unfolding contents size tabulate
blank-Body = record { valid = omega arith; held = refl; at_start = refl; default_capacity = refl }

-- Writing on, while the default size has room.
Body-put_iter :
    {text : List ℕ} {b : Buffer} (xs : List ℕ) (allow : Bool)
    → Body text b
    → length text + length xs ≤ default_size
    → (b' : Buffer) × (put_iter b xs allow ≡ ok b') × Body (text ++ xs) b'
Body-put_iter {text} {b} xs allow body h =
    let (b', e, w) = put_iter-in_place xs allow body.valid (
      omega (
        arith,
        space_remaining_lem body.valid,
        length-contents b,
        ap length body.held,
        body.default_capacity,
      )) in
    (
      b',
      e,
      record {
        valid = w.valid;
        held = w.held ∙ ap (λ ys. ys ++ xs) body.held;
        at_start = w.same_read ∙ body.at_start;
        default_capacity = w.same_capacity ∙ body.default_capacity;
      },
    )

Body-insert :
    {b : Buffer} (n v : ℕ)
    → Body [] b
    → n ≤ default_size
    → (b' : Buffer) × (insert n b v ≡ ok b') × Body (le_bytes n v) b'
Body-insert {b} n v body h =
    let (b', e, val, held, cap, rd) = insert_lem n v body.valid (
      omega (
        arith,
        space_remaining_lem body.valid,
        length-contents b,
        ap length body.held,
        body.default_capacity,
      )) in
    (
      b',
      e,
      record {
        valid = val;
        held = held ∙ ap (λ ys. ys ++ le_bytes n v) body.held;
        at_start = rd ∙ body.at_start;
        default_capacity = cap ∙ body.default_capacity;
      },
    )

-- What is left of such a body after a prefix is taken reads back whole, if it is short enough to
-- lie twice in the array behind the prefix.
Body-to_string :
    {text : List ℕ} {b : Buffer} (pre rest : List ℕ) (b' : Buffer)
    → Body text b
    → text ≡ pre ++ rest
    → length pre + length rest + length rest ≤ default_size
    → length pre + length rest < default_size
    → IsValid b'
    → contents b' ≡ rest
    → b'.write ≡ b.write
    → b'.capacity ≡ b.capacity
    → (b'' : Buffer) × (to_string b' ≡ ok (rest, b''))
Body-to_string {text} {b} pre rest b' body split twice once val held wr same =
    let behind : b.write ≡ length pre + length rest = ground (
      arith,
      size-used body.valid,
      length-contents b,
      ap length body.held,
      ap length split,
      length-append pre rest,
    ) in
    let count : size b' ≡ length rest = omega (arith, length-contents b', ap length held) in
    let readable : Readable b' (size b') = ground (arith, size-used val) in
    let (e, _, _) = to_string_lem val readable in
    (released b' (size b'), e ∙ ap (λ xs. ok (xs, released b' (size b'))) held)

-- The encoding of a Request or Reply whose name fits behind the clock in the default size.
clocked-Body :
    (op : Opcode) (m : Clocked)
    → 8 + length m.file_name ≤ default_size
    → (b : Buffer) × (clocked_message op m ≡ ok (record { opcode = op; body = b }))
      × Body (le_bytes 8 m.timestamp ++ m.file_name) b
unfolding clocked_message
clocked-Body op m h =
    let (b, e, body) = Body-insert 8 m.timestamp blank-Body (omega arith) in
    let (b', e', body') =
      Body-put_iter m.file_name false body (omega (arith, length-le_bytes 8 m.timestamp)) in
    (b', ground (arith, of_size-default, e, e'), body')

assert_opcode-same :
    (op : Opcode) (b : Buffer) → assert_opcode (record { opcode = op; body = b }) op ≡ ok tt
unfolding assert_opcode
assert_opcode-same op b = rw (==_refl (opcode_byte op))

-- A Request or a Reply comes back from its body: the clock below 2 ^ 31, the file name of at most
-- 508 bytes, and 0 staying 0 under every shift of the machine.
pub to_clocked-clocked_message :
    (overshift : ℕ → ℕ → ℕ) (op : Opcode) (m : Clocked)
    → ((k : ℕ) → overshift 0 k ≡ 0)
    → m.timestamp < 2 ^ 31
    → length m.file_name ≤ 508
    → (clocked_message op m >>= λ msg. ok (to_clocked overshift op msg)) ≡ ok (ok m)
unfolding to_clocked
to_clocked-clocked_message overshift op m z small short =
    let (b, e, body) = clocked-Body op m (omega arith) in
    let (b', got, ext) =
      extract-eight overshift z m.timestamp m.file_name body.valid body.held small in
    let (b'', text) =
      Body-to_string (le_bytes 8 m.timestamp) m.file_name b' body refl
        (omega (arith, length-le_bytes 8 m.timestamp))
        (omega (arith, length-le_bytes 8 m.timestamp)) ext.valid ext.held ext.same_write
        ext.same_capacity in
    ground (arith, e, assert_opcode-same op b, got, text)

-- A Request or a Reply with a file name that does not fit behind the clock in the default size
-- cannot be sent: its conversion throws.
pub clocked_message-overflow :
    (op : Opcode) (m : Clocked) → 1016 < length m.file_name → clocked_message op m ≡ err overflow
unfolding clocked_message
clocked_message-overflow op m long =
    let (b, e, body) = Body-insert 8 m.timestamp blank-Body (omega arith) in
    let full : space_remaining b < length m.file_name = omega (
      arith,
      space_remaining_lem body.valid,
      length-contents b,
      ap length body.held,
      length-le_bytes 8 m.timestamp,
      body.default_capacity,
    ) in
    ground (arith, of_size-default, e, put_iter-overflow b m.file_name full)

-- A handshake comes back from its body: the id a byte, and the password of at most 511 bytes.
pub to_establish_connection-establish_connection_message :
    (overshift : ℕ → ℕ → ℕ) (m : EstablishConnection)
    → ((k : ℕ) → overshift 0 k ≡ 0)
    → m.id < 256
    → length m.message ≤ 511
    → (establish_connection_message m >>= λ msg. ok (to_establish_connection overshift msg))
      ≡ ok (ok m)
unfolding to_establish_connection establish_connection_message
to_establish_connection-establish_connection_message overshift m z small short =
    let (c, e, clock) = Body-insert 1 m.id blank-Body (omega arith) in
    let (b, e', body) =
      Body-put_iter m.message false clock (omega (arith, length-le_bytes 1 m.id)) in
    let (b', got, ext) = extract-one overshift z m.id m.message body.valid body.held small in
    let (b'', text) =
      Body-to_string (le_bytes 1 m.id) m.message b' body refl
        (omega (arith, length-le_bytes 1 m.id)) (omega (arith, length-le_bytes 1 m.id)) ext.valid
        ext.held ext.same_write ext.same_capacity in
    ground (arith, of_size-default, e, e', assert_opcode-same op_establish_connection b, got, text)

put-put_iter : (b : Buffer) (xs : List ℕ) → put b (some xs) true ≡ put_iter b xs true
unfolding put
put-put_iter b xs = refl

-- A Write comes back from its body: no carriage return in the file name, and the name, the
-- delimiter and twice the line together below the default size.
pub to_write-write_message :
    (m : Write)
    → Free 13 m.file_name
    → length m.file_name + 2 + 2 * length m.line < 1024
    → (write_message m >>= λ msg. ok (to_write msg)) ≡ ok (ok m)
unfolding to_write write_message
to_write-write_message m free short =
    let (b, e, body) = Body-put_iter m.file_name true blank-Body (omega arith) in
    let (c, e', body') = Body-put_iter string_delimiter true body (omega arith) in
    let (d, e'', body'') =
      Body-put_iter m.line true body' (omega (arith, length-append m.file_name string_delimiter)) in
    let held = body''.held ∙ append_assoc m.file_name string_delimiter m.line in
    let (b', got, left) = get_until-stops 13 (10 ∷ []) m.file_name m.line body''.valid free held in
    let (b'', text) =
      Body-to_string (m.file_name ++ string_delimiter) m.line b' body'' refl
        (omega (arith, length-append m.file_name string_delimiter))
        (omega (arith, length-append m.file_name string_delimiter)) left.valid left.held
        left.same_write left.same_capacity in
    ground (
      arith,
      of_size-default,
      e,
      put-put_iter b string_delimiter,
      e',
      e'',
      assert_opcode-same op_write d,
      got,
      text,
    )
