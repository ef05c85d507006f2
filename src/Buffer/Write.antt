-- ===== src/Buffer/Write.antt =====
-- Writing to a buffer with room for the bytes: `advance_write`, `store` and the two `put`s.
use server_client_peer_netwo.Base.{
  ℕ, ◌+◌, ◌-◌, ◌≤◌, ◌<◌, ◌≡◌, refl, ap, ap₂, ◌∙◌, inl, inr, Bool, List, leb, ◌==◌, if◌then◌else◌,
  tabulate, length, get_or, take, drop, length-take, length-drop, get_or-take, get_or-drop,
  tabulate-append, tabulate-congr, tabulate-get_or, arith, ◌++◌, Bool-cases,
}
use server_client_peer_netwo.Result.{ok}
use server_client_peer_netwo.Buffer.{
  Buffer, size, space_remaining, space_remaining_until_end, advance_write, store, write_bytes,
  make_room, put_iter, copy_in,
}
use server_client_peer_netwo.Buffer.Valid.{
  IsValid, offset, contents, size-used, space_remaining_lem, until_end_lem, circle_lem, size-mem,
  space-mem, mem-IsValid,
}

-- The buffer after `advance_write`.
abbrev pub advanced : Buffer → ℕ → Buffer
advanced b by = record b {
  write = offset b.capacity b.write by;
  full = if by == 0 then b.full else b.read == offset b.capacity b.write by;
}

pub advance_write_lem :
    {b : Buffer} (by : ℕ)
    → IsValid b
    → by ≤ space_remaining b
    → advance_write b by ≡ ok (advanced b by)
unfolding advance_write
advance_write_lem {b} by v h =
    ground (arith, space_remaining_lem v, circle_lem b.write by v, size-used v)

pub advanced-IsValid :
    {b : Buffer} (by : ℕ) → IsValid b → by ≤ space_remaining b → IsValid (advanced b by)
advanced-IsValid {b} by v h = ground (arith, space_remaining_lem v, size-used v)

pub size-advanced :
    {b : Buffer} (by : ℕ) → IsValid b → by ≤ space_remaining b → size (advanced b by) ≡ size b + by
size-advanced {b} by v h =
    ground (arith, space_remaining_lem v, size-used v, size-used (advanced-IsValid by v h))

pub write_bytes_lem :
    (mem : ℕ → ℕ) (cap off : ℕ) (xs : List ℕ)
    → off + length xs ≤ cap
    → write_bytes mem cap off xs ≡ ok (copy_in mem off xs)
unfolding write_bytes
write_bytes_lem mem cap off xs h = ground arith

-- What `store` leaves in the array: the bytes from the write cursor on, and the unread bytes as
-- they were.
pub record Stored (b : Buffer) (xs : List ℕ) (mem : ℕ → ℕ) : Type 0 where
  pub new : (j : ℕ) → j < length xs → mem (offset b.capacity b.write j) ≡ get_or xs j 0
  pub old :
      (i : ℕ) → i < size b → mem (offset b.capacity b.read i) ≡ b.mem (offset b.capacity b.read i)

-- the array after the two copies of a write that goes round
abbrev pub circled : Buffer → ℕ → List ℕ → ℕ → ℕ
circled b first xs = copy_in (copy_in b.mem b.write (take first xs)) 0 (drop first xs)

module _ {b : Buffer} (xs : List ℕ) (v : IsValid b) (room : length xs ≤ space_remaining b) where
  pub straight-Stored :
      length xs ≤ space_remaining_until_end b → Stored b xs (copy_in b.mem b.write xs)
  straight-Stored fits = record {
    new = λ j h. ground (arith, space_remaining_lem v, until_end_lem v, size-used v);
    old = λ i h. ground (arith, space_remaining_lem v, until_end_lem v, size-used v);
  }

  circled-Stored :
      space_remaining_until_end b < length xs
      → Stored b xs (circled b (space_remaining_until_end b) xs)
  circled-Stored over = record {
    new = λ j h. ground (
      arith,
      space_remaining_lem v,
      until_end_lem v,
      size-used v,
      length-take (space_remaining_until_end b) xs,
      length-drop (space_remaining_until_end b) xs,
      get_or-take (space_remaining_until_end b) xs j 0,
      get_or-drop (space_remaining_until_end b) xs (j - space_remaining_until_end b) j 0,
    );
    old = λ i h. ground (
      arith,
      space_remaining_lem v,
      until_end_lem v,
      size-used v,
      length-take (space_remaining_until_end b) xs,
      length-drop (space_remaining_until_end b) xs,
    );
  }

  -- `store` stays inside the array, and writes what `Stored` says.
  pub store_lem : (mem : ℕ → ℕ) × (store b xs ≡ ok mem) × Stored b xs mem
  unfolding store
  store_lem = elim (Bool-cases (leb (length xs) (space_remaining_until_end b))) [
    | inl fits ↦ (
      copy_in b.mem b.write xs,
      ground (arith, write_bytes_lem b.mem b.capacity b.write xs, until_end_lem v),
      straight-Stored (ground arith),
    )
    | inr over ↦ (
      circled b (space_remaining_until_end b) xs,
      ground (
        arith,
        until_end_lem v,
        space_remaining_lem v,
        size-used v,
        length-take (space_remaining_until_end b) xs,
        length-drop (space_remaining_until_end b) xs,
        write_bytes_lem b.mem b.capacity b.write (take (space_remaining_until_end b) xs),
        write_bytes_lem (copy_in b.mem b.write (take (space_remaining_until_end b) xs)) b.capacity 0
            (drop (space_remaining_until_end b) xs),
      ),
      circled-Stored (ground arith),
    )
  ]

pub make_room-in_place :
    (b : Buffer) (n : ℕ) (allow_resize : Bool)
    → n ≤ space_remaining b
    → make_room b n allow_resize ≡ ok b
unfolding make_room
make_room-in_place b n allow h = ground arith

-- Writing in place: no resize is needed.
pub contents-advanced :
    {b : Buffer} (xs : List ℕ) (mem : ℕ → ℕ)
    → IsValid b
    → length xs ≤ space_remaining b
    → Stored b xs mem
    → contents (advanced (record b { mem = mem }) (length xs)) ≡ contents b ++ xs
unfolding contents
contents-advanced {b} xs mem v room s =
    ap (λ n. tabulate n table)
      (size-advanced {b = record b { mem = mem }} (length xs) (mem-IsValid b mem v)
          (rw (space-mem b mem) room)
        ∙ ap (λ k. k + length xs) (size-mem b mem))
    ∙ tabulate-append (size b) (length xs) table
    ∙ ap₂ ◌++◌ (tabulate-congr (size b) _ _ s.old) (
        tabulate-congr (length xs) _ _
          (λ i h. ground (arith, s.new i h, size-used v, space_remaining_lem v))
        ∙ tabulate-get_or xs 0)
  where
    table : ℕ → ℕ
    table i = mem (offset b.capacity b.read i)

-- A write of `xs` in place: they are appended, and only the write cursor and `full` move.
pub record Wrote (b : Buffer) (xs : List ℕ) (b' : Buffer) : Type 0 where
  pub valid : IsValid b'
  pub held : contents b' ≡ contents b ++ xs
  pub same_capacity : b'.capacity ≡ b.capacity
  pub same_read : b'.read ≡ b.read
  pub moved : b'.write ≡ offset b.capacity b.write (length xs)

-- `put_iter` with room in place: no resize and no fault.
pub put_iter-in_place :
    {b : Buffer} (xs : List ℕ) (allow_resize : Bool)
    → IsValid b
    → length xs ≤ space_remaining b
    → (b' : Buffer) × (put_iter b xs allow_resize ≡ ok b') × Wrote b xs b'
unfolding put_iter
put_iter-in_place {b} xs allow v room =
    let (mem, stored, s) = store_lem xs v room in
    (
      advanced (record b { mem = mem }) (length xs),
      ground (
        arith,
        make_room-in_place b (length xs) allow,
        stored,
        space-mem b mem,
        advance_write_lem {b = record b { mem = mem }} (length xs) (mem-IsValid b mem v),
      ),
      record {
        valid = advanced-IsValid (length xs) (mem-IsValid b mem v) (rw (space-mem b mem) room);
        held = contents-advanced xs mem v room s;
        same_capacity = refl;
        same_read = refl;
        moved = refl;
      },
    )
