-- ===== src/Reader/Frame.antt =====
-- How async_message_service.cc reads a message that came whole.
use server_client_peer_netwo.Base.{
  ℕ, ◌+◌, ◌-◌, ◌^◌, ◌≤◌, ◌<◌, ◌≡◌, refl, ap, ◌∙◌, inl, true, false, none, some, List, [], ◌∷◌, ◌++◌,
  length-append, arith, length, take, drop,
}
use server_client_peer_netwo.Result.{ok}
use server_client_peer_netwo.Buffer.{Buffer, size, space_remaining}
use server_client_peer_netwo.Buffer.Valid.{
  IsValid, contents, space_remaining_lem, length-contents, size-le, size-used, until_end_lem,
}
use server_client_peer_netwo.Buffer.Write.{put_iter-in_place}
use server_client_peer_netwo.Buffer.Read.{released, get_lem}
use server_client_peer_netwo.Buffer.Many.{Readable, get_many_lem}
use server_client_peer_netwo.Buffer.Shift.{reserve-makes_room}
use server_client_peer_netwo.Bytes.RoundTrip.{le_bytes, length-le_bytes, extract-four}
use server_client_peer_netwo.Messages.{Opcode}
use server_client_peer_netwo.Reader.{
  Reader, to_opcode, read_opcode, read_expected, read_body, process_bytes_into_current_message,
  finished_reading_current_message,
}

-- A reader at the start of a message.
pub record Fresh (r : Reader) : Type 0 where
  pub no_opcode : r.opcode ≡ none
  pub no_size : r.expected ≡ none
  pub body_valid : IsValid r.body
  pub body_empty : contents r.body ≡ []
  pub body_open : r.body.full ≡ false

-- The reader has just the message: its opcode, its size, its bytes, and no more than them is taken
-- from the input.
pub record HasMessage (op n : ℕ) (bytes rest : List ℕ) (r : Reader) : Type 0 where
  pub has_opcode : r.opcode ≡ some (to_opcode op)
  pub has_size : r.expected ≡ some n
  pub has_body : contents r.body ≡ bytes
  pub leaves : contents r.input ≡ rest
  pub is_finished : finished_reading_current_message r ≡ true

-- What reading a message that is none of a compound leaves: the rest of the reader, and an input that
-- is valid, not full, and of the same capacity.
pub record Kept (r r' : Reader) : Type 0 where
  pub same_parent : r'.parent ≡ r.parent
  pub same_compound : r'.finished_compound ≡ r.finished_compound
  pub input_valid : IsValid r'.input
  pub input_open : r'.input.full ≡ false
  pub same_capacity : r'.input.capacity ≡ r.input.capacity

pub not_full : {b : Buffer} → IsValid b → size b < b.capacity → b.full ≡ false
not_full v h = ground (arith, size-used v)

take-front :
    (xs ys : List ℕ) → (take (length xs) (xs ++ ys) ≡ xs) × (drop (length xs) (xs ++ ys) ≡ ys)
take-front [] ys = (refl, refl)
take-front (x ∷ xs) ys = (ap (λ zs. x ∷ zs) (take-front xs ys).0, (take-front xs ys).1)

-- The bytes behind the header can be read, in a buffer that begins at 0.
after_header :
    {b b' : Buffer} (n k : ℕ)
    → IsValid b
    → IsValid b'
    → b.read ≡ 0
    → b.full ≡ false
    → n + b.write ≤ b.capacity
    → b'.write ≡ b.write
    → b'.capacity ≡ b.capacity
    → size b ≡ k + size b'
    → 0 < k
    → Readable b' n
after_header {b} {b'} n k v v' r0 nf fits sw sc held pos = ground (arith, size-used v, size-used v')

complete :
    (r : Reader) (op : Opcode) (n : ℕ)
    → r.opcode ≡ some op
    → r.expected ≡ some n
    → size r.body ≡ n
    → finished_reading_current_message r ≡ true
unfolding finished_reading_current_message
complete r op n a b h = ground (arith, a, b, h)

module _ (overshift : ℕ → ℕ → ℕ) (zero_shift : (k : ℕ) → overshift 0 k ≡ 0) where
  some_body :
      (r : Reader) (op : ℕ) (bytes rest : List ℕ)
      → Fresh r
      → IsValid r.input
      → r.input.read ≡ 0
      → r.input.full ≡ false
      → length bytes + r.input.write ≤ r.input.capacity
      → 0 < length bytes
      → length bytes ≤ space_remaining r.body
      → length bytes < 2 ^ 32
      → contents r.input ≡ op ∷ (le_bytes 4 (length bytes) ++ (bytes ++ rest))
      → (r' : Reader) × (process_bytes_into_current_message overshift r (size r.input)
          ≡ ok (true, r'))
        × HasMessage op (length bytes) bytes rest r'
        × Kept r r'
  unfolding process_bytes_into_current_message read_opcode read_expected read_body
  some_body r op bytes rest f v r0 nf fits pos room small e =
      let n = length bytes in
      let header = le_bytes 4 n in
      let total : size r.input ≡ 5 + (n + length rest) = omega (
        arith,
        length-contents r.input,
        ap length e,
        length-append header (bytes ++ rest),
        length-le_bytes 4 n,
        length-append bytes rest,
      ) in
      let (got, va, ha) = get_lem op (header ++ (bytes ++ rest)) v e in
      let (b, eb, xb) = extract-four overshift zero_shift n (bytes ++ rest) va ha small in
      let total_b : size b ≡ n + length rest =
        omega (arith, length-contents b, ap length xb.held, length-append bytes rest) in
      let (c, ec, vc, hc, roomy, _) =
        reserve-makes_room n f.body_valid f.body_open pos (inl room)
          (omega (arith, length-contents r.body, ap length f.body_empty)) in
      let none_held : size c ≡ 0 =
        omega (arith, length-contents c, ap length hc, ap length f.body_empty) in
      let room_c : n ≤ space_remaining c =
        ground (arith, until_end_lem vc, space_remaining_lem vc, size-used vc) in
      let (d, ed, wd) = put_iter-in_place bytes false vc room_c in
      let readable : Readable b n =
        after_header n 5 v xb.valid r0 nf fits xb.same_write xb.same_capacity
          (omega (arith, total, total_b)) (omega arith) in
      let (em, vm, hm) = get_many_lem n xb.valid (omega (arith, total_b)) readable in
      let (front, back) = take-front bytes rest in
      let taken : take n (contents b) ≡ bytes = ap (take n) xb.held ∙ front in
      let r1 : Reader = record r { opcode = some (to_opcode op); input = released r.input 1 } in
      let r2 : Reader = record r1 { expected = some n; input = b; body = c } in
      let r3 : Reader = record r2 { input = released b n; body = d } in
      let e1 : read_opcode r (size r.input) ≡ ok (true, (r1, size r.input - 1)) =
        ground (arith, f.no_opcode, got, total) in
      let e2 : read_expected overshift r1 (size r.input - 1)
          ≡ ok (true, (r2, size r.input - 1 - 4)) =
        ground (arith, f.no_size, eb, ec, total) in
      let e3 : read_body r2 (size r.input - 1 - 4) ≡ ok r3 =
        ground (arith, em, ed, taken, none_held, total) in
      (
        r3,
        ground (arith, e1, e2, e3),
        record {
          has_opcode = refl;
          has_size = refl;
          has_body = wd.held ∙ ap (λ xs. xs ++ bytes) (hc ∙ f.body_empty);
          leaves = hm ∙ ap (drop n) xb.held ∙ back;
          is_finished = complete r3 (to_opcode op) n refl refl (
              omega (
                arith,
                length-contents d,
                ap length wd.held,
                length-append (contents c) bytes,
                length-contents c,
                none_held,
              ));
        },
        record {
          same_parent = refl;
          same_compound = refl;
          input_valid = vm;
          input_open = ground arith;
          same_capacity = xb.same_capacity;
        },
      )

  no_body :
      (r : Reader) (op : ℕ) (rest : List ℕ)
      → Fresh r
      → IsValid r.input
      → contents r.input ≡ op ∷ (le_bytes 4 0 ++ rest)
      → (r' : Reader) × (process_bytes_into_current_message overshift r (size r.input)
          ≡ ok (true, r'))
        × HasMessage op 0 [] rest r'
        × Kept r r'
  unfolding process_bytes_into_current_message read_opcode read_expected read_body
  no_body r op rest f v e =
      let total : size r.input ≡ 5 + length rest = omega (
        arith,
        length-contents r.input,
        ap length e,
        length-append (le_bytes 4 0) rest,
        length-le_bytes 4 0,
      ) in
      let (got, va, ha) = get_lem op (le_bytes 4 0 ++ rest) v e in
      let (b, eb, xb) = extract-four overshift zero_shift 0 rest va ha (omega arith) in
      let none_held : size r.body ≡ 0 =
        omega (arith, length-contents r.body, ap length f.body_empty) in
      let r1 : Reader = record r { opcode = some (to_opcode op); input = released r.input 1 } in
      let r2 : Reader = record r1 { expected = some 0; input = b } in
      let e1 : read_opcode r (size r.input) ≡ ok (true, (r1, size r.input - 1)) =
        ground (arith, f.no_opcode, got, total) in
      let e2 : read_expected overshift r1 (size r.input - 1)
          ≡ ok (true, (r2, size r.input - 1 - 4)) =
        ground (arith, f.no_size, eb, total) in
      let e3 : read_body r2 (size r.input - 1 - 4) ≡ ok r2 = ground (arith, none_held) in
      (
        r2,
        ground (arith, e1, e2, e3),
        record {
          has_opcode = refl;
          has_size = refl;
          has_body = f.body_empty;
          leaves = xb.held;
          is_finished = complete r2 (to_opcode op) 0 refl refl none_held;
        },
        record {
          same_parent = refl;
          same_compound = refl;
          input_valid = xb.valid;
          input_open = not_full xb.valid (
              omega
                (arith, total, size-le v, length-contents b, ap length xb.held, xb.same_capacity));
          same_capacity = xb.same_capacity;
        },
      )

  -- A message with a body of less than 2 ^ 32 bytes that is whole in a valid input, which begins at
  -- the start of its array, is not full and has as much room after it as the body is long, is read at
  -- once into a fresh reader that has room for it, and no more than it is taken from the input, on a
  -- machine where 0 stays 0 under every shift.
  pub process_bytes_into_current_message_lem :
      (r : Reader) (op : ℕ) (bytes rest : List ℕ)
      → Fresh r
      → IsValid r.input
      → r.input.read ≡ 0
      → r.input.full ≡ false
      → length bytes + r.input.write ≤ r.input.capacity
      → length bytes ≤ space_remaining r.body
      → length bytes < 2 ^ 32
      → contents r.input ≡ op ∷ (le_bytes 4 (length bytes) ++ (bytes ++ rest))
      → (r' : Reader) × (process_bytes_into_current_message overshift r (size r.input)
          ≡ ok (true, r'))
        × HasMessage op (length bytes) bytes rest r'
        × Kept r r'
  process_bytes_into_current_message_lem r op [] rest f v r0 nf fits room small e =
      no_body r op rest f v e
  process_bytes_into_current_message_lem r op (x ∷ xs) rest f v r0 nf fits room small e =
      some_body r op (x ∷ xs) rest f v r0 nf fits (omega arith) room small e
