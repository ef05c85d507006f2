-- ===== src/Buffer/Many.antt =====
-- Bulk reads: `read_into`, `get_many` and `to_string`.
--
-- `read_into` takes the length of its first piece from `space_remaining_until_end`, which measures
-- the room after the write cursor, not the bytes after the read cursor.
use server_client_peer_netwo.Base.{
  ℕ, ◌+◌, ◌-◌, ◌≤◌, ◌<◌, ◌≡◌, sym, ap, ap₂, ◌∙◌, ◌⊎◌, inl, inr, true, false, [], leb, tabulate,
  length, Bool-cases, take, drop, take-all, drop-all, take-tabulate, tabulate-append,
  tabulate-congr, arith, ◌++◌,
}
use server_client_peer_netwo.Result.{ok, err}
use server_client_peer_netwo.Buffer.{
  Buffer, size, read_into, read_bytes, get_many, to_string, space_remaining_until_end, bad_access,
  copy_out,
}
use server_client_peer_netwo.Buffer.Valid.{
  IsValid, offset, contents, size-used, size-le, length-contents, until_end_lem,
}
use server_client_peer_netwo.Buffer.Read.{
  released, advance_read_lem, released-IsValid, contents-released,
}

-- A full buffer; or one that does not go round, and holds no more than is free behind it; or one
-- that goes round, and is read no further than the end, or has as much free as lies before it.
abbrev pub Readable : Buffer → ℕ → Type 0
Readable b n =
    (b.full ≡ true)
    ⊎ ((b.read ≤ b.write) × (n + b.write ≤ b.capacity))
    ⊎ ((b.write < b.read)
        × (((b.read + n ≤ b.capacity) × (n + b.write ≤ b.read))
            ⊎ (b.read + b.read ≡ b.capacity + b.write)))

pub read_bytes_lem :
    (mem : ℕ → ℕ) (cap off n : ℕ)
    → off + n ≤ cap
    → read_bytes mem cap off n ≡ ok (copy_out mem off n)
unfolding read_bytes
read_bytes_lem mem cap off n h = ground arith

pub read_bytes-out :
    (mem : ℕ → ℕ) (cap off n : ℕ) → cap < off + n → read_bytes mem cap off n ≡ err bad_access
unfolding read_bytes
read_bytes-out mem cap off n h = ground arith

abbrev pub byte : Buffer → ℕ → ℕ
byte b i = b.mem (offset b.capacity b.read i)

pub take-contents : (b : Buffer) (n : ℕ) → n ≤ size b → take n (contents b) ≡ tabulate n (byte b)
unfolding contents
take-contents b n h = take-tabulate n (size b) (byte b) h

-- A piece that does not reach the end of the array.
pub straight :
    (b : Buffer) (n : ℕ)
    → b.read + n ≤ b.capacity
    → b.read < b.capacity
    → copy_out b.mem b.read n ≡ tabulate n (byte b)
straight b n h v = tabulate-congr n (λ i. b.mem (b.read + i)) (byte b) (λ i p. ap b.mem (same i p))
  where
    same : (i : ℕ) → i < n → b.read + i ≡ offset b.capacity b.read i
    same i p = ground arith

-- A piece up to the end of the array, and one from its start.
pub joined :
    (b : Buffer) (k n : ℕ)
    → b.read + k ≡ b.capacity
    → k ≤ n
    → copy_out b.mem b.read k ++ copy_out b.mem 0 (n - k) ≡ tabulate n (byte b)
joined b k n h le =
    ap₂ ◌++◌ (tabulate-congr k _ (byte b) (λ i p. ap b.mem (front i p)))
      (tabulate-congr (n - k) _ (λ i. byte b (k + i)) (λ i p. ap b.mem (back i p)))
    ∙ sym (tabulate-append k (n - k) (byte b))
    ∙ ap (λ m. tabulate m (byte b)) total
  where
    front : (i : ℕ) → i < k → b.read + i ≡ offset b.capacity b.read i
    front i p = ground arith

    back : (i : ℕ) → i < n - k → 0 + i ≡ offset b.capacity b.read (k + i)
    back i p = ground arith

    total : k + (n - k) ≡ n
    total = omega arith

read_straight :
    (b : Buffer) (n : ℕ)
    → n ≤ space_remaining_until_end b
    → read_into b n ≡ read_bytes b.mem b.capacity b.read n
unfolding read_into
read_straight b n h = ground arith

read_split :
    (b : Buffer) (n k : ℕ)
    → space_remaining_until_end b ≡ k
    → k < n
    → b.read + k ≤ b.capacity
    → n ≤ b.capacity
    → read_into b n ≡ ok (copy_out b.mem b.read k ++ copy_out b.mem 0 (n - k))
unfolding read_into
read_split b n k e h in1 in2 =
    ground
      (arith, read_bytes_lem b.mem b.capacity b.read k, read_bytes_lem b.mem b.capacity 0 (n - k))

pub read_into_lem :
    {b : Buffer} (n : ℕ)
    → IsValid b
    → n ≤ size b
    → Readable b n
    → read_into b n ≡ ok (take n (contents b))
read_into_lem {b} n v h r = elim (Bool-cases (leb n (space_remaining_until_end b))) [
  | inl fits ↦
      read_straight b n (ground arith)
      ∙ read_bytes_lem b.mem b.capacity b.read n (ground (arith, until_end_lem v, size-used v))
      ∙ ap ok (
          straight b n (ground (arith, until_end_lem v, size-used v)) v.read_in
          ∙ sym (take-contents b n h))
  | inr over ↦
      read_split b n (b.capacity - b.read) (ground (arith, until_end_lem v, size-used v))
        (ground (arith, until_end_lem v, size-used v)) (omega arith) (omega (arith, size-le v))
      ∙ ap ok (
          joined b (b.capacity - b.read) n (omega arith)
            (ground (arith, until_end_lem v, size-used v))
          ∙ sym (take-contents b n h))
]

-- `get_many` on a readable amount returns the oldest bytes and leaves the others.
pub get_many_lem :
    {b : Buffer} (n : ℕ)
    → IsValid b
    → n ≤ size b
    → Readable b n
    → (get_many b n ≡ ok (take n (contents b), released b n))
      × IsValid (released b n)
      × (contents (released b n) ≡ drop n (contents b))
unfolding get_many
get_many_lem {b} n v h r = (
  ground (arith, read_into_lem n v h r, advance_read_lem n v h),
  released-IsValid n v h,
  contents-released n v h,
)

-- `to_string` on a readable buffer returns all that it holds, and leaves it empty.
pub to_string_lem :
    {b : Buffer}
    → IsValid b
    → Readable b (size b)
    → (to_string b ≡ ok (contents b, released b (size b)))
      × IsValid (released b (size b))
      × (contents (released b (size b)) ≡ [])
unfolding to_string
to_string_lem {b} v r =
    let (e, v', c) = get_many_lem (size b) v (omega arith) r in
    (e ∙ ap (λ xs. ok (xs, released b (size b))) all, v', c ∙ drop-all (size b) (contents b) held)
  where
    held : length (contents b) ≤ size b
    held = omega (arith, length-contents b)

    all : take (size b) (contents b) ≡ contents b
    all = take-all (size b) (contents b) held

-- The fault of the measure on a buffer that does not go round: a read of more than is free behind
-- the bytes takes the free length's bytes rightly, and the rest from the start of the array.
pub get_many-wrong_piece :
    {b : Buffer} (n : ℕ)
    → IsValid b
    → n ≤ size b
    → b.full ≡ false
    → b.read ≡ 0
    → b.capacity < n + b.write
    → get_many b n
      ≡ ok (
        take (b.capacity - b.write) (contents b) ++ take (n - (b.capacity - b.write)) (contents b),
        released b n,
      )
unfolding get_many
get_many-wrong_piece {b} n v h nf r0 over = ground (
  arith,
  read_split b n k free (omega arith) (omega arith) (omega (arith, size-le v)),
  piece k (ground (arith, size-used v)),
  from_start,
  piece (n - k) (omega arith),
  advance_read_lem n v h,
)
  where
    k : ℕ
    k = b.capacity - b.write

    free : space_remaining_until_end b ≡ k
    free = ground (arith, until_end_lem v)

    piece : (m : ℕ) → m ≤ size b → copy_out b.mem b.read m ≡ take m (contents b)
    piece m le = straight b m (omega (arith, size-le v)) v.read_in ∙ sym (take-contents b m le)

    from_start : copy_out b.mem 0 (n - k) ≡ copy_out b.mem b.read (n - k)
    from_start = ap (λ r. copy_out b.mem r (n - k)) (sym r0)

-- The fault on a buffer that goes round: a read past the end of the array.
pub get_many-out_of_bounds :
    {b : Buffer} (n : ℕ)
    → IsValid b
    → b.write < b.read
    → n + b.write ≤ b.read
    → n ≤ size b
    → b.capacity < b.read + n
    → get_many b n ≡ err bad_access
unfolding get_many
get_many-out_of_bounds {b} n v c h le over =
    ground (arith, read_straight b n, until_end_lem v, read_bytes-out b.mem b.capacity b.read n)
