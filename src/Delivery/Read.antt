-- ===== src/Delivery/Read.antt =====
-- The receiver's end: async_message_service.cc reads a message that came in one piece.
use server_client_peer_netwo.Base.{
  ℕ, zero, suc, tabulate, ◌+◌, ◌≤◌, ◌<◌, ◌≡◌, refl, sym, ap, ◌∙◌, inl, inr, true, false, List, [],
  ◌∷◌, ◌++◌, ◌==◌, Option, none, some, length, length-append, append-nil, arith, Bool-cases,
}
use server_client_peer_netwo.Result.{ok}
use server_client_peer_netwo.Buffer.{
  Buffer, default_size, of_size, fresh, size, space_remaining, space_remaining_until_end,
}
use server_client_peer_netwo.Buffer.Valid.{
  IsValid, contents, length-contents, size-used, space_remaining_lem, until_end_lem,
}
use server_client_peer_netwo.Buffer.Shift.{
  reserve, shift_lem, shifted, shifted-IsValid, contents-shifted,
}
use server_client_peer_netwo.Bytes.RoundTrip.{le_bytes, length-le_bytes}
use server_client_peer_netwo.Messages.{Message, opcode_byte, op_file_transfer}
use server_client_peer_netwo.Reader.{
  Reader, to_opcode, finished_reading, finished_reading_current_message, reset_current_message,
  reset_compound_message, process_bytes_into_current_message,
}
use server_client_peer_netwo.Reader.Frame.{Fresh, process_bytes_into_current_message_lem}
use server_client_peer_netwo.Reader.Process.{
  process_bytes, process_all, process_all_bytes, get_returned_message, receive_bytes, read_message,
  deliver,
}
use server_client_peer_netwo.Socket.{Socket, is_open, receive, got}
use server_client_peer_netwo.Socket.Receive.{
  filled, filled-write, filled-commit, filled-IsValid, contents-filled,
}
use server_client_peer_netwo.Delivery.{IsWaiting, receive_size}

-- What `reserve` gives in an empty buffer of the default size: one that begins at the start of its array.
record Start (b b' : Buffer) : Type 0 where
  reserved : reserve b receive_size ≡ ok b'
  valid : IsValid b'
  no_bytes : contents b' ≡ []
  at_start : (b'.read ≡ 0) × (b'.write ≡ 0)
  open_buffer : b'.full ≡ false
  same_capacity : b'.capacity ≡ b.capacity
  near : space_remaining_until_end b' ≡ receive_size
  room : space_remaining b' ≡ receive_size

reserve-empty :
    (b : Buffer)
    → IsValid b
    → contents b ≡ []
    → b.full ≡ false
    → b.capacity ≡ default_size
    → (b' : Buffer) × Start b b'
unfolding reserve
reserve-empty b v e nf cap =
    let none_held : size b ≡ 0 = omega (arith, length-contents b, ap length e) in
    let level : b.read ≡ b.write = ground (arith, size-used v, none_held) in
    elim (Bool-cases (b.write == 0)) [
      | inl zero_write ↦ (
        b,
        record {
          reserved = ground (arith, until_end_lem v);
          valid = v;
          no_bytes = e;
          at_start = (ground arith, ground arith);
          open_buffer = nf;
          same_capacity = refl;
          near = ground (arith, until_end_lem v);
          room = omega (arith, space_remaining_lem v);
        },
      )
      | inr later ↦
          let vs = shifted-IsValid v nf in
          let same = contents-shifted v nf ∙ e in
          (
            shifted b,
            record {
              reserved = ground (arith, until_end_lem v, space_remaining_lem v, shift_lem v);
              valid = vs;
              no_bytes = same;
              at_start = (refl, ground arith);
              open_buffer = nf;
              same_capacity = refl;
              near = ground (arith, until_end_lem vs);
              room =
                  ground
                    (arith, space_remaining_lem vs, length-contents (shifted b), ap length same);
            },
          )
    ]

blank-empty : contents (fresh (λ i. 0) 1024 false) ≡ []
unfolding contents size tabulate
blank-empty = refl

blank-free : space_remaining (fresh (λ i. 0) 1024 false) ≡ 1024
unfolding space_remaining size
blank-free = refl

-- What the bytes are in after they came: an input that begins at the start of its array.
record Arrived (t t' : Socket) (xs : List ℕ) : Type 0 where
  receiving : receive receive_size (got xs) t ≡ ok (t', length xs)
  valid : IsValid t'.input
  held : contents t'.input ≡ xs
  read_start : t'.input.read ≡ 0
  write_end : t'.input.write ≡ length xs
  not_full_yet : t'.input.full ≡ false
  same_capacity : t'.input.capacity ≡ default_size
  still_open : is_open t' ≡ true

arrives :
    (t : Socket) (xs : List ℕ)
    → IsWaiting t
    → 0 < length xs
    → length xs < receive_size
    → (t' : Socket) × Arrived t t' xs
unfolding receive is_open
arrives t xs wait pos small =
    let (b, st) =
      reserve-empty t.input wait.input_valid wait.input_empty wait.input_open wait.input_capacity in
    let near : length xs ≤ space_remaining_until_end b = omega (arith, st.near) in
    let room : length xs ≤ space_remaining b = omega (arith, st.room) in
    let (rd, wr) = st.at_start in
    let cap : b.capacity ≡ 1024 = st.same_capacity ∙ wait.input_capacity in
    (
      record t { input = filled xs st.valid near room },
      record {
        receiving = ground (
          arith,
          wait.can_receive,
          st.reserved,
          filled-write xs st.valid near room,
          filled-commit xs st.valid near room,
        );
        valid = filled-IsValid xs st.valid near room;
        held = contents-filled xs st.valid near room ∙ ap (λ ys. ys ++ xs) st.no_bytes;
        read_start = rd;
        write_end = ground (arith, wr, cap);
        not_full_yet = ground (arith, rd, wr, cap);
        same_capacity = cap;
        still_open = wait.can_receive;
      },
    )

opcode-byte : (op : ℕ) → opcode_byte (to_opcode op) ≡ op
unfolding to_opcode
opcode-byte op = ground arith

-- A message that came whole, to a reader that waits for one.
module _ (overshift : ℕ → ℕ → ℕ) (zero_shift : (k : ℕ) → overshift 0 k ≡ 0)
    (create_file : ℕ → Option (List ℕ)) where
  -- The reader at the start of `ReadMessage`
  abbrev reset : Reader → Reader
  reset r = record r {
    parent = none;
    finished_compound = false;
    opcode = none;
    expected = none;
    body = fresh (λ i. 0) 1024 false;
  }

  reset_lem : (r : Reader) → reset_compound_message r ≡ ok (reset r)
  unfolding reset_compound_message reset_current_message of_size
  reset_lem r = refl

  not_finished :
      (r : Reader) (b : Buffer) → finished_reading (record (reset r) { input = b }) ≡ false
  unfolding finished_reading finished_reading_current_message
  not_finished r b = refl

  nothing_to_do :
      (r : Reader)
      → size r.input ≡ 0
      → finished_reading r ≡ false
      → process_all_bytes overshift create_file r ≡ ok (r, [])
  unfolding process_all_bytes process_all
  nothing_to_do r h nf = ground (arith, h, nf)

  finishes : (r : Reader) → finished_reading_current_message r ≡ true → finished_reading r ≡ true
  unfolding finished_reading
  finishes r h = ground (arith, h)

  one_round :
      (r r' : Reader) (op : ℕ)
      → process_bytes_into_current_message overshift r (size r.input) ≡ ok (true, r')
      → finished_reading_current_message r' ≡ true
      → r'.opcode ≡ some (to_opcode op)
      → (op == opcode_byte op_file_transfer) ≡ false
      → r'.parent ≡ none
      → process_bytes overshift create_file r (size r.input) ≡ ok (true, (r', []))
  unfolding process_bytes
  one_round r r' op e fin o plain p = ground (arith, e, fin, o, p, opcode-byte op)

  stops :
      (n : ℕ) (r : Reader)
      → 0 < n
      → finished_reading r ≡ true
      → process_all overshift create_file n true r ≡ ok (r, [])
  unfolding process_all
  stops zero r pos fin = absurd (omega arith)
  stops (suc n) r pos fin = ground (arith, fin)

  all_rounds :
      (r r' : Reader)
      → 0 < size r.input
      → finished_reading r ≡ false
      → process_bytes overshift create_file r (size r.input) ≡ ok (true, (r', []))
      → finished_reading r' ≡ true
      → process_all_bytes overshift create_file r ≡ ok (r', [])
  unfolding process_all_bytes process_all
  all_rounds r r' pos nf e fin = ground (arith, nf, e, stops (size r.input) r' pos fin)

  -- `ReadMessage` of a reader whose input was empty, once the bytes have come.
  answered :
      (r q' : Reader) (before input : Buffer) (op : ℕ)
      → size before ≡ 0
      → 0 < size input
      → process_bytes_into_current_message overshift
          (record (reset r) { input = input })
          (size input)
        ≡ ok (true, q')
      → finished_reading_current_message q' ≡ true
      → q'.opcode ≡ some (to_opcode op)
      → (op == opcode_byte op_file_transfer) ≡ false
      → q'.parent ≡ none
      → read_message overshift create_file (record r { input = before }) (some input)
        ≡ ok (q', (deliver (record { opcode = to_opcode op; body = q'.body }), []))
  unfolding read_message receive_bytes get_returned_message
  answered r q' before input op none_yet pos went fin named plain single =
      let q : Reader = record (reset r) { input = input } in
      let done = finishes q' fin in
      ground (
        arith,
        reset_lem (record r { input = before }),
        nothing_to_do (record (reset r) { input = before }) none_yet (not_finished r before),
        not_finished r before,
        all_rounds q q' pos (not_finished r input) (one_round q q' op went fin named plain single)
            done,
        done,
        named,
        single,
      )

  pub read-plain :
      (r : Reader) (t : Socket) (op : ℕ) (bytes : List ℕ)
      → IsWaiting t
      → length bytes ≤ 509
      → (op == opcode_byte op_file_transfer) ≡ false
      → (t' : Socket) × (r' : Reader) × (msg : Message) × (receive receive_size
            (got ((op ∷ le_bytes 4 (length bytes)) ++ bytes))
            t
          ≡ ok (t', 5 + length bytes))
        × (read_message overshift create_file (record r { input = t.input }) (some t'.input)
            ≡ ok (r', (deliver msg, [])))
        × (opcode_byte msg.opcode ≡ op)
        × (contents msg.body ≡ bytes)
        × IsWaiting (record t' { input = r'.input })
  unfolding is_open
  read-plain r t op bytes wait small plain =
      let n = length bytes in
      let xs : List ℕ = (op ∷ le_bytes 4 n) ++ bytes in
      let len : length xs ≡ 5 + n =
        omega (arith, length-append (le_bytes 4 n) bytes, length-le_bytes 4 n) in
      let (t', a) = arrives t xs wait (omega arith) (omega arith) in
      let q : Reader = record (reset r) { input = t'.input } in
      let f : Fresh q = record {
        no_opcode = refl;
        no_size = refl;
        body_valid = ground arith;
        body_empty = blank-empty;
        body_open = refl;
      } in
      let (q', went, has, kept) =
        process_bytes_into_current_message_lem overshift zero_shift q op bytes [] f a.valid
          a.read_start a.not_full_yet (omega (arith, a.write_end, len, a.same_capacity))
          (omega (arith, blank-free)) (omega arith)
          (a.held ∙ ap (λ ys. op ∷ (le_bytes 4 n ++ ys)) (sym (append-nil bytes))) in
      (
        t',
        q',
        record { opcode = to_opcode op; body = q'.body },
        a.receiving ∙ ap (λ k. ok (t', k)) len,
        answered r q' t.input t'.input op
            (omega (arith, length-contents t.input, ap length wait.input_empty))
            (omega (arith, length-contents t'.input, ap length a.held)) went has.is_finished
            has.has_opcode plain kept.same_parent,
        opcode-byte op,
        has.has_body,
        record {
          input_valid = kept.input_valid;
          input_empty = has.leaves;
          input_open = kept.input_open;
          input_capacity = kept.same_capacity ∙ a.same_capacity;
          can_receive = a.still_open;
        },
      )
