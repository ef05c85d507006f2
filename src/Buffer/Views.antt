-- ===== src/Buffer/Views.antt =====
-- `view`, `move_buffer` and the copies of util/buffer.cc.
use server_client_peer_netwo.Base.{
  ℕ, ◌+◌, ◌-◌, ◌≤◌, ◌<◌, min, ◌≡◌, refl, ap, ◌∙◌, ◌⊎◌, inl, inr, Bool, true, false, List, [], ◌∷◌,
  ◌++◌, leb, ◌==◌, if◌then◌else◌, Bool-cases, arith, length, length-tabulate, Option, none, some,
  append_assoc, length-append, drop-all,
}
use server_client_peer_netwo.Result.{Result, ok, err, ◌>>=◌}
use server_client_peer_netwo.Buffer.{
  Buffer, Fault, size, reset, of_size, put, put_iter, consume, read_bytes, space_remaining,
  zero_reserve, copy_out, bad_access,
}
use server_client_peer_netwo.Buffer.Valid.{
  IsValid, contents, size-used, space_remaining_lem, length-contents,
}
use server_client_peer_netwo.Buffer.Write.{put_iter-in_place}
use server_client_peer_netwo.Buffer.Read.{released, consume_lem}
use server_client_peer_netwo.Buffer.Many.{read_bytes_lem, read_bytes-out, straight, joined}
use server_client_peer_netwo.Buffer.Shift.{reserve}

-- A `buffer_view` by its offset and size.
unfoldable pub view : Buffer → List (ℕ × ℕ)
view b =
    if leb b.read b.write
    then (b.read, size b) ∷ []
    else (b.read, b.capacity - b.read) ∷ (0, b.write) ∷ []

-- The bytes that a view's pointer gives; a moved-from buffer, of capacity 0, has a null pointer.
unfoldable pub view_data : Buffer → ℕ → ℕ → Result (Option (List ℕ)) Fault
view_data b off n =
    if b.capacity == 0 then ok none else (do xs ← read_bytes b.mem b.capacity off n; ok (some xs))

unfoldable pub move_views : Buffer → Buffer → Bool → List (ℕ × ℕ) → ℕ → Result (Buffer × ℕ) Fault
move_views this other allow_resize [] written = ok (this, written)
move_views this other allow_resize ((off, n) ∷ vs) written = do
  let write_size = if allow_resize then n else min (space_remaining this) n
  xs ← view_data other off write_size
  this' ← put this xs allow_resize
  move_views this' other allow_resize vs (written + write_size)

-- Both buffers after the move.
unfoldable pub move_buffer : Buffer → Buffer → Bool → Result (Buffer × Buffer) Fault
move_buffer this other allow_resize = do
  (this', written) ← move_views this other allow_resize (view other) 0
  other' ← consume other written
  ok (this', other')

unfoldable pub put_views : Buffer → Buffer → List (ℕ × ℕ) → Result Buffer Fault
put_views this other [] = ok this
put_views this other ((off, n) ∷ vs) = do
  xs ← view_data other off n
  this' ← put this xs false
  put_views this' other vs

unfoldable pub copy_into : Buffer → Buffer → Result Buffer Fault
copy_into this other = do this' ← reserve this (size other); put_views this' other (view other)

-- `buffer(const buffer& other)`
unfoldable pub copy : Buffer → Result Buffer Fault
copy other = do this ← of_size other.capacity; copy_into this other

-- `operator=(const buffer& rhs)`
unfoldable pub assign : Buffer → Buffer → Result Buffer Fault
assign this other = copy_into (reset this) other

-- `buffer(buffer&& other)`: the new buffer, and what is left of the old one.
unfoldable pub move : Buffer → Buffer × Buffer
move other = (other, reset (record other { capacity = 0 }))

-- `operator=(buffer&& rhs)`: the two are swapped.
unfoldable pub move_assign : Buffer → Buffer → Buffer × Buffer
move_assign this other = (other, this)

-- Copying an empty buffer throws: `copy_into` reserves its size, and `reserve` refuses 0.
pub copy-empty_throws :
    {b : Buffer}
    → IsValid b
    → contents b ≡ []
    → (copy b ≡ err zero_reserve) × ((this : Buffer) → assign this b ≡ err zero_reserve)
unfolding copy assign copy_into of_size reserve
copy-empty_throws {b} v e =
    let none_held : size b ≡ 0 = omega (arith, length-contents b, ap length e) in
    (ground (arith, none_held), λ this. ground (arith, none_held))

-- A buffer whose views stay in the array: all but a full one that does not begin at 0.
abbrev pub Viewable : Buffer → Type 0
Viewable b = (b.full ≡ false) ⊎ (b.read ≡ 0)

-- The bytes in one view, and in two.
pub one_piece :
    {b : Buffer}
    → IsValid b
    → Viewable b
    → b.read ≤ b.write
    → (b.read + size b ≤ b.capacity) × (copy_out b.mem b.read (size b) ≡ contents b)
unfolding contents
one_piece {b} v w h =
    let fits : b.read + size b ≤ b.capacity = ground (arith, size-used v) in
    (fits, straight b (size b) fits v.read_in)

pub two_pieces :
    {b : Buffer}
    → IsValid b
    → b.write < b.read
    → copy_out b.mem b.read (b.capacity - b.read) ++ copy_out b.mem 0 b.write ≡ contents b
unfolding contents
two_pieces {b} v h =
    ap (λ n. copy_out b.mem b.read (b.capacity - b.read) ++ copy_out b.mem 0 n) {x = b.write}
      {y = size b - (b.capacity - b.read)} (ground (arith, size-used v))
    ∙ joined b (b.capacity - b.read) (size b) (omega arith) (ground (arith, size-used v))

put-some : (b : Buffer) (xs : List ℕ) (allow : Bool) → put b (some xs) allow ≡ put_iter b xs allow
unfolding put
put-some b xs allow = refl

pub view_data_lem :
    {b : Buffer} (off n : ℕ)
    → IsValid b
    → off + n ≤ b.capacity
    → view_data b off n ≡ ok (some (copy_out b.mem off n))
unfolding view_data
view_data_lem {b} off n v h = ground (arith, read_bytes_lem b.mem b.capacity off n h)

-- What a move of all views does, when the bytes fit.
record Moved (this other : Buffer) (xs : List ℕ) (r : Result (Buffer × ℕ) Fault) : Type 0 where
  after : Buffer
  returns : r ≡ ok (after, length xs)
  valid : IsValid after
  held : contents after ≡ contents this ++ xs
  same_capacity : after.capacity ≡ this.capacity

move_one :
    {this other : Buffer}
    → IsValid this
    → IsValid other
    → Viewable other
    → other.read ≤ other.write
    → size other ≤ space_remaining this
    → Moved this other (contents other) (move_views this other true (view other) 0)
unfolding move_views view
move_one {this} {other} v u w h room =
    let (fits, whole) = one_piece u w h in
    let (this', e, wrote) =
      put_iter-in_place (contents other) true v (omega (arith, length-contents other)) in
    record {
      after = this';
      returns = ground (
        arith,
        view_data_lem other.read (size other) u fits,
        whole,
        put-some this (contents other) true,
        e,
        length-contents other,
      );
      valid = wrote.valid;
      held = wrote.held;
      same_capacity = wrote.same_capacity;
    }

move_two :
    {this other : Buffer}
    → IsValid this
    → IsValid other
    → other.write < other.read
    → size other ≤ space_remaining this
    → Moved this other (contents other) (move_views this other true (view other) 0)
unfolding move_views view
move_two {this} {other} v u h room =
    let whole = two_pieces u h in
    let lens = ap length whole in
    let sum = length-append front back in
    let len = length-tabulate (other.capacity - other.read) (λ i. other.mem (other.read + i)) in
    let len' = length-tabulate other.write (λ i. other.mem (0 + i)) in
    let (mid, e, w) = put_iter-in_place front true v (omega (arith, length-contents other)) in
    let fits : length back ≤ space_remaining mid = omega (
      arith,
      length-contents other,
      space_remaining_lem v,
      space_remaining_lem w.valid,
      length-contents mid,
      length-contents this,
      ap length w.held,
      length-append (contents this) front,
      w.same_capacity,
    ) in
    let (last, e', w') = put_iter-in_place back true w.valid fits in
    record {
      after = last;
      returns = ground (
        arith,
        view_data_lem other.read (other.capacity - other.read) u (omega arith),
        view_data_lem 0 other.write u (omega arith),
        put-some this front true,
        put-some mid back true,
        e,
        e',
        len,
        len',
        sum,
        lens,
      );
      valid = w'.valid;
      held =
          w'.held
          ∙ ap (λ ys. ys ++ back) w.held
          ∙ append_assoc (contents this) front back
          ∙ ap (λ ys. contents this ++ ys) whole;
      same_capacity = w'.same_capacity ∙ w.same_capacity;
    }
  where
    front : List ℕ
    front = copy_out other.mem other.read (other.capacity - other.read)

    back : List ℕ
    back = copy_out other.mem 0 other.write

-- `move_buffer` with leave to resize and room enough: all bytes of the other buffer are appended
-- in order, and the other buffer is left empty.
pub move_buffer_lem :
    {this other : Buffer}
    → IsValid this
    → IsValid other
    → Viewable other
    → size other ≤ space_remaining this
    → (this' other' : Buffer) × (move_buffer this other true ≡ ok (this', other'))
      × IsValid this'
      × IsValid other'
      × (contents this' ≡ contents this ++ contents other)
      × (contents other' ≡ [])
      × (this'.capacity ≡ this.capacity)
unfolding move_buffer
move_buffer_lem {this} {other} v u w room =
    let moved : Moved this other (contents other) (move_views this other true (view other) 0) =
      elim (Bool-cases (leb other.read other.write)) [
        | inl flat ↦ move_one v u w (ground (arith, flat)) room
        | inr bent ↦ move_two v u (ground (arith, bent)) room
      ] in
    elim (consume_lem (size other) u) [
      | inr (over, _) ↦ absurd (omega arith)
      | inl (_, e, valid, left) ↦ (
        moved.after,
        released other (size other),
        ground (arith, moved.returns, e, length-contents other),
        moved.valid,
        valid,
        moved.held,
        left ∙ drop-all (size other) (contents other) (omega (arith, length-contents other)),
        moved.same_capacity,
      )
    ]

-- A full buffer that does not begin at 0 has one view, of its whole capacity from the read cursor
-- on, and it runs past the end of the array.
pub view-full_out_of_bounds :
    {b : Buffer}
    → IsValid b
    → b.full ≡ true
    → 0 < b.read
    → (this : Buffer) → move_buffer this b true ≡ err bad_access
unfolding move_buffer move_views view view_data
view-full_out_of_bounds {b} v f pos this =
    ground (arith, size-used v, read_bytes-out b.mem b.capacity b.read (size b), v.full_at f)
