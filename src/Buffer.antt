-- ===== src/Buffer.antt =====
-- src/util/buffer.h and src/util/buffer.cc: the circular byte buffer.
--
-- The array that `data_` points to is a function from offsets to bytes beside its `capacity`;
-- each access goes through `read_bytes` or `write_bytes`, which fault outside the array. What
-- `new[]` leaves indeterminate is 0 here. An exception discards the buffer, as no caller in the
-- repository catches one. Sizes are `size_t`: sums and differences wrap at 2 ^ 64.
pub mod Valid
pub mod Write
pub mod Read
pub mod Many
pub mod Resize
pub mod Until
pub mod Kept
pub mod Delimiter
pub mod Shift
pub mod Views
mod Tests
use server_client_peer_netwo.Base.{
  ℕ, zero, suc, ◌+◌, ◌-◌, ◌*◌, ◌/◌, ◌%◌, ◌^◌, Bool, true, false, not, ◌&&◌, ◌||◌, Option, none,
  some, List, [], ◌∷◌, ◌++◌, ltb, leb, ◌==◌, if◌then◌else◌, length, get_or, take, drop, tabulate,
}
use server_client_peer_netwo.Result.{Result, ok, err, ◌>>=◌}

-- The exceptions by their messages; then what is no exception of the class: `new[]` failing, an
-- access outside the array (undefined behaviour), and a loop that did not end.
pub data Fault : Type 0 where
  zero_size null_data null_store overflow max_exceeded empty_read zero_reserve : Fault
  bad_alloc bad_access no_progress : Fault

pub record Buffer : Type 0 where
  pub mem : ℕ → ℕ
  pub capacity : ℕ
  pub read : ℕ
  pub write : ℕ
  pub full : Bool

abbrev pub size_mod : ℕ
size_mod = 2 ^ 64

abbrev pub add_size : ℕ → ℕ → ℕ
add_size a b = (a + b) % size_mod

abbrev pub sub_size : ℕ → ℕ → ℕ
sub_size a b = (a + size_mod - b) % size_mod

abbrev pub max_size : ℕ
max_size = 2 ^ 64 - 1

abbrev pub default_size : ℕ
default_size = 1024

-- The largest array that `new uint8_t[n]` gives, PTRDIFF_MAX bytes.
abbrev pub max_alloc : ℕ
max_alloc = 2 ^ 63 - 1

abbrev pub alloc : ℕ → Result (ℕ → ℕ) Fault
alloc n = if ltb max_alloc n then err bad_alloc else ok (λ i. 0)

-- `memcpy` to and from an array of `cap` bytes.
abbrev pub copy_in : (ℕ → ℕ) → ℕ → List ℕ → ℕ → ℕ
copy_in mem off xs i = if leb off i && ltb i (off + length xs) then get_or xs (i - off) 0 else mem i

abbrev pub copy_out : (ℕ → ℕ) → ℕ → ℕ → List ℕ
copy_out mem off n = tabulate n (λ i. mem (off + i))

unfoldable pub write_bytes : (ℕ → ℕ) → ℕ → ℕ → List ℕ → Result (ℕ → ℕ) Fault
write_bytes mem cap off xs =
    if leb (off + length xs) cap then ok (copy_in mem off xs) else err bad_access

unfoldable pub read_bytes : (ℕ → ℕ) → ℕ → ℕ → ℕ → Result (List ℕ) Fault
read_bytes mem cap off n = if leb (off + n) cap then ok (copy_out mem off n) else err bad_access

abbrev pub fresh : (ℕ → ℕ) → ℕ → Bool → Buffer
fresh mem cap full = record { mem = mem; capacity = cap; read = 0; write = 0; full = full }

-- `buffer(std::size_t size)`
unfoldable pub of_size : ℕ → Result Buffer Fault
of_size n = if n == 0 then err zero_size else (do mem ← alloc n; ok (fresh mem n false))

-- `buffer(const void* data, std::size_t size)`; `none` is the null pointer.
unfoldable pub of_data : Option (List ℕ) → ℕ → Result Buffer Fault
of_data bytes n =
    if n == 0
    then (do mem ← alloc default_size; ok (fresh mem default_size false))
    else elim bytes [
      | none ↦ err null_data
      | some xs ↦ do mem ← alloc n; mem' ← write_bytes mem n 0 xs; ok (fresh mem' n true)
    ]

-- `buffer(std::string&& data)` and `buffer(std::vector<std::uint8_t>&& data)`
unfoldable pub of_string : List ℕ → Result Buffer Fault
of_string xs = of_data (some xs) (length xs)

unfoldable pub reset : Buffer → Buffer
reset b = record b { read = 0; write = 0; full = false }

unfoldable pub empty : Buffer → Bool
empty b = not b.full && (b.read == b.write)

unfoldable pub size : Buffer → ℕ
size b =
    if b.full
    then b.capacity
    else if leb b.read b.write
    then sub_size b.write b.read
    else sub_size (add_size b.capacity b.write) b.read

unfoldable pub space_remaining : Buffer → ℕ
space_remaining b = sub_size b.capacity (size b)

unfoldable pub space_remaining_until_end : Buffer → ℕ
space_remaining_until_end b =
    if ltb b.write b.read then sub_size b.read b.write else sub_size b.capacity b.write

-- An index that has gone past the end comes back by the capacity, once.
abbrev pub circle : ℕ → ℕ → ℕ
circle cap i = if leb cap i then sub_size i cap else i

unfoldable pub advance_write : Buffer → ℕ → Result Buffer Fault
advance_write b by =
    let w = circle b.capacity (add_size b.write by) in
    if by == 0
    then ok b
    else if b.full || ltb (space_remaining b) by
    then err overflow
    else ok (record b { write = w; full = b.read == w })

unfoldable pub advance_read : Buffer → ℕ → Result Buffer Fault
advance_read b by =
    if by == 0
    then ok b
    else if ltb (size b) by
    then err overflow
    else ok (record b { read = circle b.capacity (add_size b.read by); full = false })

-- Copies `n` bytes of the buffer out, up to the end and then from the start.
unfoldable pub read_into : Buffer → ℕ → Result (List ℕ) Fault
read_into b n =
    let first = space_remaining_until_end b in
    if leb n first then read_bytes b.mem b.capacity b.read n else (do
      front ← read_bytes b.mem b.capacity b.read first
      back ← read_bytes b.mem b.capacity 0 (n - first)
      ok (front ++ back))

-- The loop of `resize`, on fuel: `new_capacity` doubles until it is enough.
unfoldable pub grow : ℕ → ℕ → ℕ → Option ℕ
grow zero new needed = none
grow (suc fuel) new needed =
    let start = if ltb (max_size / 2) new then needed else new in
    let rest = grow fuel ((start * 2) % size_mod) needed in
    if ltb new needed then rest else some new

abbrev pub grow_fuel : ℕ
grow_fuel = 65

unfoldable pub resize : Buffer → ℕ → Result Buffer Fault
resize b to_fit =
    let cur = size b in
    if leb (max_size - to_fit) cur
    then err max_exceeded
    else elim (grow grow_fuel b.capacity (cur + to_fit)) [
      | none ↦ err no_progress
      | some cap ↦ do
        mem ← alloc cap
        xs ← read_into b cur
        mem' ← write_bytes mem cap 0 xs
        advance_write (fresh mem' cap false) cur
    ]

-- The test that opens both `put`s.
unfoldable pub make_room : Buffer → ℕ → Bool → Result Buffer Fault
make_room b n allow_resize =
    if ltb (space_remaining b) n then (if allow_resize then resize b n else err overflow) else ok b

-- The copy that both `put`s share: up to the end, then from the start.
unfoldable pub store : Buffer → List ℕ → Result (ℕ → ℕ) Fault
store b xs =
    let first = space_remaining_until_end b in
    if leb (length xs) first then write_bytes b.mem b.capacity b.write xs else (do
      mem ← write_bytes b.mem b.capacity b.write (take first xs)
      write_bytes mem b.capacity 0 (drop first xs))

unfoldable pub put_iter : Buffer → List ℕ → Bool → Result Buffer Fault
put_iter b xs allow_resize = do
  b' ← make_room b (length xs) allow_resize
  mem ← store b' xs
  advance_write (record b' { mem = mem }) (length xs)

-- `put(const void* data, std::size_t size, bool allow_resize)`
unfoldable pub put : Buffer → Option (List ℕ) → Bool → Result Buffer Fault
put b bytes allow_resize = elim bytes [
  | none ↦ err null_store
  | some xs ↦ put_iter b xs allow_resize
]

-- `put(std::uint8_t byte, bool allow_resize)`
unfoldable pub put_byte : Buffer → ℕ → Bool → Result Buffer Fault
put_byte b byte allow_resize = put b (some (byte ∷ [])) allow_resize

unfoldable pub get : Buffer → Result (ℕ × Buffer) Fault
get b =
    if empty b
    then err empty_read
    else if ltb b.read b.capacity
    then (do b' ← advance_read b 1; ok (b.mem b.read, b'))
    else err bad_access

unfoldable pub get_many : Buffer → ℕ → Result (List ℕ × Buffer) Fault
get_many b amount =
    if ltb (size b) amount
    then err overflow
    else (do xs ← read_into b amount; b' ← advance_read b amount; ok (xs, b'))

unfoldable pub to_string : Buffer → Result (List ℕ × Buffer) Fault
to_string b = get_many b (size b)

unfoldable pub consume : Buffer → ℕ → Result Buffer Fault
consume b amount = if ltb (size b) amount then err overflow else advance_read b amount

unfoldable pub commit : Buffer → ℕ → Result Buffer Fault
commit b n = advance_write b n
