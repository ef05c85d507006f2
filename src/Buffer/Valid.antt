-- ===== src/Buffer/Valid.antt =====
-- The representation invariant of util/buffer.cc, the bytes that a buffer holds, and the
-- arithmetic of its sizes and cursors under the invariant.
use server_client_peer_netwo.Base.{
  ℕ, ◌+◌, ◌-◌, ◌≤◌, ◌<◌, ◌≡◌, refl, true, List, ltb, leb, ◌==◌, if◌then◌else◌, tabulate, length,
  length-tabulate, arith,
}
use server_client_peer_netwo.Buffer.{
  Buffer, max_alloc, circle, add_size, size, empty, space_remaining, space_remaining_until_end,
}

pub record IsValid (b : Buffer) : Type 0 where
  pub positive : 0 < b.capacity
  pub small : b.capacity ≤ max_alloc
  pub read_in : b.read < b.capacity
  pub write_in : b.write < b.capacity
  pub full_at : b.full ≡ true → b.read ≡ b.write

-- The offset of the `i`-th byte from cursor `start` on, going round once.
abbrev pub offset : ℕ → ℕ → ℕ → ℕ
offset cap start i = if ltb (start + i) cap then start + i else start + i - cap

-- The unread bytes, oldest first.
unfoldable pub contents : Buffer → List ℕ
contents b = tabulate (size b) (λ i. b.mem (offset b.capacity b.read i))

pub length-contents : (b : Buffer) → length (contents b) ≡ size b
unfolding contents
length-contents b = length-tabulate (size b) _

-- What `size` is when nothing wraps.
abbrev pub used : Buffer → ℕ
used b =
    if b.full
    then b.capacity
    else if leb b.read b.write
    then b.write - b.read
    else b.capacity + b.write - b.read

pub size-used : {b : Buffer} → IsValid b → size b ≡ used b
unfolding size
size-used v = ground arith

pub size-le : {b : Buffer} → IsValid b → size b ≤ b.capacity
unfolding size
size-le v = ground arith

pub space_remaining_lem : {b : Buffer} → IsValid b → space_remaining b + size b ≡ b.capacity
unfolding space_remaining
space_remaining_lem v = ground (arith, size-le v)

pub until_end_lem :
    {b : Buffer}
    → IsValid b
    → space_remaining_until_end b
      ≡ (if ltb b.write b.read then b.read - b.write else b.capacity - b.write)
unfolding space_remaining_until_end
until_end_lem v = ground arith

-- Where `advance_write` puts the cursor.
pub circle_lem :
    {b : Buffer} (i by : ℕ)
    → IsValid b
    → i < b.capacity
    → by ≤ b.capacity
    → circle b.capacity (add_size i by) ≡ offset b.capacity i by
circle_lem i by v h k = ground arith

-- `empty` says that no byte is held.
pub empty-iff_size : {b : Buffer} → IsValid b → empty b ≡ (size b == 0)
unfolding empty size
empty-iff_size v = ground arith

-- Sizes do not depend on the bytes.
module _ (b : Buffer) (mem : ℕ → ℕ) where
  pub size-mem : size (record b { mem = mem }) ≡ size b
  unfolding size
  size-mem = refl

  pub space-mem : space_remaining (record b { mem = mem }) ≡ space_remaining b
  unfolding space_remaining size
  space-mem = refl

  pub mem-IsValid : IsValid b → IsValid (record b { mem = mem })
  mem-IsValid v = ground arith
