-- ===== src/Buffer/Shift.antt =====
-- `shift` and `reserve` of util/buffer.cc: making the bytes, or the room, contiguous.
use server_client_peer_netwo.Base.{
  ℕ, ◌+◌, ◌-◌, ◌^◌, ◌≤◌, ◌<◌, ◌≡◌, refl, sym, ap, ◌∙◌, ◌⊎◌, inl, inr, true, false, ◌&&◌, ltb, leb,
  ◌==◌, if◌then◌else◌, Bool-cases, arith, tabulate, length, length-tabulate, get_or-tabulate,
  tabulate-congr,
}
use server_client_peer_netwo.Result.{Result, ok, err, ◌>>=◌}
use server_client_peer_netwo.Buffer.{
  Buffer, Fault, size, empty, read_bytes, write_bytes, resize, space_remaining,
  space_remaining_until_end, zero_reserve, copy_in, copy_out, consume, advance_read,
}
use server_client_peer_netwo.Buffer.Valid.{
  IsValid, offset, contents, size-used, size-le, space_remaining_lem, until_end_lem,
  length-contents,
}
use server_client_peer_netwo.Buffer.Write.{write_bytes_lem}
use server_client_peer_netwo.Buffer.Many.{read_bytes_lem, Readable, byte}
use server_client_peer_netwo.Buffer.Resize.{regrown, resize_lem}

-- `memmove` is a read of the source followed by a write. Offsets are in range where this runs, so
-- that no difference goes below 0.
unfoldable pub shift : Buffer → Result Buffer Fault
shift b =
    if b.full && (b.read == 0)
    then ok b
    else if ltb b.read b.write
    then (do
      moved ← read_bytes b.mem b.capacity b.read (b.write - b.read)
      mem ← write_bytes b.mem b.capacity 0 moved
      ok (record b { mem = mem; read = 0; write = b.write - b.read }))
    else (do
      temp ← read_bytes b.mem b.capacity 0 b.write
      front ← read_bytes b.mem b.capacity b.read (b.capacity - b.read)
      mem ← write_bytes b.mem b.capacity 0 front
      mem' ← write_bytes mem b.capacity (b.capacity - b.read) temp
      ok (record b { mem = mem'; read = 0; write = size b }))

-- The pointer that `reserve` returns is at the write cursor of the new buffer.
unfoldable pub reserve : Buffer → ℕ → Result Buffer Fault
reserve b n =
    if n == 0
    then err zero_reserve
    else if leb n (space_remaining_until_end b)
    then ok b
    else if leb n (space_remaining b)
    then shift b
    else resize b n

-- The array after `shift`, in the two cases.
abbrev slid : Buffer → ℕ → ℕ
slid b = copy_in b.mem 0 (copy_out b.mem b.read (b.write - b.read))

abbrev joined : Buffer → ℕ → ℕ
joined b =
    copy_in (copy_in b.mem 0 (copy_out b.mem b.read (b.capacity - b.read))) (b.capacity - b.read)
      (copy_out b.mem 0 b.write)

abbrev pub shifted : Buffer → Buffer
shifted b = record b {
  mem = if b.full && (b.read == 0) then b.mem else if ltb b.read b.write then slid b else joined b;
  read = 0;
  write = if b.full && (b.read == 0) then b.write else size b;
}

-- `shift` never leaves the array.
pub shift_lem : {b : Buffer} → IsValid b → shift b ≡ ok (shifted b)
unfolding shift
shift_lem {b} v = ground (
  arith,
  size-used v,
  read_bytes_lem b.mem b.capacity b.read (b.write - b.read),
  write_bytes_lem b.mem b.capacity 0 (copy_out b.mem b.read (b.write - b.read)),
  length-tabulate (b.write - b.read) (λ i. b.mem (b.read + i)),
  read_bytes_lem b.mem b.capacity 0 b.write,
  read_bytes_lem b.mem b.capacity b.read (b.capacity - b.read),
  length-tabulate (b.capacity - b.read) (λ i. b.mem (b.read + i)),
  length-tabulate b.write (λ i. b.mem (0 + i)),
  write_bytes_lem b.mem b.capacity 0 (copy_out b.mem b.read (b.capacity - b.read)),
  write_bytes_lem (copy_in b.mem 0 (copy_out b.mem b.read (b.capacity - b.read))) b.capacity
      (b.capacity - b.read) (copy_out b.mem 0 b.write),
)

-- Away from the exception below the bytes move to the start of the array, in order.
shifted-byte :
    {b : Buffer} (i : ℕ) → IsValid b → b.full ≡ false → i < size b → (shifted b).mem i ≡ byte b i
shifted-byte {b} i v nf h = ground (
  arith,
  size-used v,
  length-tabulate (b.write - b.read) (λ i. b.mem (b.read + i)),
  length-tabulate (b.capacity - b.read) (λ i. b.mem (b.read + i)),
  length-tabulate b.write (λ i. b.mem (0 + i)),
  get_or-tabulate (b.write - b.read) (λ i. b.mem (b.read + i)) i 0,
  get_or-tabulate (b.capacity - b.read) (λ i. b.mem (b.read + i)) i 0,
  get_or-tabulate b.write (λ i. b.mem (0 + i)) (i - (b.capacity - b.read)) 0,
)

pub shifted-IsValid : {b : Buffer} → IsValid b → b.full ≡ false → IsValid (shifted b)
shifted-IsValid {b} v nf = ground (arith, size-used v)

size-shifted : {b : Buffer} → IsValid b → b.full ≡ false → size (shifted b) ≡ size b
size-shifted {b} v nf = ground (arith, size-used v, size-used (shifted-IsValid v nf))

pub contents-shifted : {b : Buffer} → IsValid b → b.full ≡ false → contents (shifted b) ≡ contents b
unfolding contents
contents-shifted {b} v nf =
    ap (λ n. tabulate n (byte (shifted b))) (size-shifted v nf)
    ∙ tabulate-congr (size b) (byte (shifted b)) (byte b) (λ i h.
      ap (shifted b).mem {x = offset b.capacity 0 i} {y = i} (ground (arith, size-le v))
      ∙ shifted-byte i v nf h)

-- `shift` on a valid buffer that is not full: it succeeds, keeps the invariant and the bytes held,
-- and puts the read cursor at 0 and the write cursor behind the bytes.
pub shift-keeps :
    {b : Buffer}
    → IsValid b
    → b.full ≡ false
    → (b' : Buffer) × (shift b ≡ ok b')
      × IsValid b'
      × (contents b' ≡ contents b)
      × (b'.read ≡ 0)
      × (b'.write ≡ size b)
shift-keeps {b} v nf =
    (shifted b, shift_lem v, shifted-IsValid v nf, contents-shifted v nf, refl, ground arith)

-- On a full buffer that does not begin at 0, `shift` leaves the write cursor at the capacity: once
-- all is consumed, the buffer counts as holding all its bytes again.
pub shift-full_breaks :
    {b : Buffer}
    → IsValid b
    → b.full ≡ true
    → 0 < b.read
    → (s t : Buffer) × (shift b ≡ ok s)
      × (size s ≡ b.capacity)
      × (consume s b.capacity ≡ ok t)
      × (empty t ≡ false)
      × (size t ≡ b.capacity)
unfolding consume size empty advance_read
shift-full_breaks {b} v f pos = (
  shifted b,
  record b { mem = joined b; read = 0; write = b.capacity; full = false },
  shift_lem v,
  ground arith,
  ground arith,
  ground arith,
  ground arith,
)

-- `reserve` of a positive size on a valid buffer that is not full, which can be read whole if it
-- has to grow, below 2 ^ 62 bytes in all: the bytes are kept, and the size asked for is free and contiguous after them.
pub reserve-makes_room :
    {b : Buffer} (n : ℕ)
    → IsValid b
    → b.full ≡ false
    → 0 < n
    → (n ≤ space_remaining b) ⊎ Readable b (size b)
    → size b + n < 2 ^ 62
    → (b' : Buffer) × (reserve b n ≡ ok b')
      × IsValid b'
      × (contents b' ≡ contents b)
      × (n ≤ space_remaining_until_end b')
      × (n ≤ space_remaining b')
unfolding reserve
reserve-makes_room {b} n v nf pos c small =
    elim (Bool-cases (leb n (space_remaining_until_end b))) [
      | inl near ↦ (
        b,
        ground arith,
        v,
        refl,
        ground arith,
        ground (arith, until_end_lem v, space_remaining_lem v, size-used v),
      )
      | inr far ↦ elim (Bool-cases (leb n (space_remaining b))) [
        | inl round ↦ (
          shifted b,
          ground (arith, shift_lem v),
          shifted-IsValid v nf,
          contents-shifted v nf,
          ground (arith, until_end_lem (shifted-IsValid v nf), space_remaining_lem v, size-used v),
          ground (
            arith,
            space_remaining_lem v,
            space_remaining_lem (shifted-IsValid v nf),
            size-shifted v nf,
          ),
        )
        | inr short ↦
            let r : Readable b (size b) = ground (arith, short) in
            let (room, e, enough, valid, same) = resize_lem n v r small in
            (
              regrown b room,
              ground (arith, e),
              valid,
              same,
              ground (arith, until_end_lem valid, length-contents b),
              omega (
                arith,
                space_remaining_lem valid,
                length-contents b,
                length-contents (regrown b room),
                ap length same,
              ),
            )
      ]
    ]

-- On a full buffer, `reserve` of no more than lies after the write cursor succeeds with the buffer
-- as it is, though no room is left: the pointer is at the oldest unread byte.
pub reserve-full_aliases :
    {b : Buffer} (n : ℕ)
    → IsValid b
    → b.full ≡ true
    → 0 < n
    → b.write + n ≤ b.capacity
    → (reserve b n ≡ ok b) × (space_remaining b ≡ 0) × (b.write ≡ b.read)
unfolding reserve
reserve-full_aliases {b} n v f pos h = (
  ground (arith, until_end_lem v),
  ground (arith, space_remaining_lem v, size-used v),
  sym (v.full_at f),
)
