-- ===== src/Server/Made.antt =====
-- The messages of a client of project2_service.cc, and what their conversions give back.
use server_client_peer_netwo.Base.{
  ℕ, ◌+◌, ◌*◌, ◌≤◌, ◌<◌, ◌≡◌, Free, refl, inl, inr, true, some, List, arith, length,
}
use server_client_peer_netwo.Result.{Result, ok, err, ◌>>=◌, Result-cases}
use server_client_peer_netwo.Buffer.{
  Buffer, max_alloc, of_size, put_iter, put, of_string, default_size,
}
use server_client_peer_netwo.Messages.{
  Message, Opcode, Write, op_write, string_message, string_delimiter, write_message, to_text,
  to_write,
}
use server_client_peer_netwo.Messages.RoundTrip.{to_write-write_message}
use server_client_peer_netwo.Messages.Texts.{to_text-string_message}

-- A message that is made, with its conversion.
made {ℓ κ} :
    {A : Type ℓ} {B : Type κ} {E : Type 0} (r : Result A E) (f : A → B) (v : B)
    → (r >>= λ a. ok (f a)) ≡ ok v
    → (a : A) × (r ≡ ok a) × (f a ≡ v)
made (ok a) f v e = (a, refl, cc)
made (err x) f v e = cc

opcode-string :
    (op : Opcode) (text : List ℕ) (msg : Message)
    → string_message op text ≡ ok msg
    → msg.opcode ≡ op
unfolding string_message
opcode-string op text msg e = elim (Result-cases (of_string text)) [
  | inl (b, h) ↦ ground (arith, h, e)
  | inr (x, h) ↦ ground (arith, h, e)
]

-- The last step of write_message
opcode-written :
    {E : Type 0} (r : Result (Buffer) E) (msg : Message)
    → (r >>= λ b. ok (record { opcode = op_write; body = b })) ≡ ok msg
    → msg.opcode ≡ op_write
opcode-written (ok b) msg e = ground (arith, e)
opcode-written (err x) msg e = cc

opcode-write : (w : Write) (msg : Message) → write_message w ≡ ok msg → msg.opcode ≡ op_write
unfolding write_message
opcode-write w msg e = elim (Result-cases (of_size default_size)) [
  | inr (x, h) ↦ ground (arith, h, e)
  | inl (b, h) ↦ elim (Result-cases (put_iter b w.file_name true)) [
    | inr (x, h') ↦ ground (arith, h, h', e)
    | inl (b', h') ↦ elim (Result-cases (put b' (some string_delimiter) true)) [
      | inr (x, h'') ↦ ground (arith, h, h', h'', e)
      | inl (b'', h'') ↦
          opcode-written (put_iter b'' w.line true) msg (ground (arith, h, h', h'', e))
    ]
  ]
]

pub made_text :
    (op : Opcode) (text : List ℕ)
    → length text ≤ max_alloc
    → (msg : Message) × (string_message op text ≡ ok msg)
      × (to_text op msg ≡ ok text)
      × (msg.opcode ≡ op)
made_text op text h =
    let (msg, e, back) =
      made (string_message op text) (to_text op) (ok text) (to_text-string_message op text h) in
    (msg, e, back, opcode-string op text msg e)

pub made_write :
    (w : Write)
    → Free 13 w.file_name
    → length w.file_name + 2 + 2 * length w.line < 1024
    → (msg : Message) × (write_message w ≡ ok msg) × (to_write msg ≡ ok w) × (msg.opcode ≡ op_write)
made_write w free short =
    let (msg, e, back) =
      made (write_message w) to_write (ok w) (to_write-write_message w free short) in
    (msg, e, back, opcode-write w msg e)
