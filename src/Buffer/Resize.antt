-- ===== src/Buffer/Resize.antt =====
-- Growing a buffer: the doubling loop of `resize`, and the two `put`s when they resize.
use native.Mathlib.Nat.{pow-suc}
use server_client_peer_netwo.Base.{
  ℕ, zero, suc, ◌+◌, ◌*◌, ◌^◌, ◌≤◌, ◌<◌, ◌≡◌, refl, ap, ◌∙◌, ◌⊎◌, inl, inr, true, false, List, [],
  ltb, some, tabulate, length, Bool-cases, arith, ◌++◌, take-all,
}
use server_client_peer_netwo.Result.{ok, err}
use server_client_peer_netwo.Buffer.{
  Buffer, size, grow, resize, make_room, put_iter, fresh, advance_write, space_remaining, max_alloc,
  copy_in, overflow,
}
use server_client_peer_netwo.Buffer.Valid.{
  IsValid, contents, size-used, length-contents, until_end_lem, space-mem, mem-IsValid,
  space_remaining_lem,
}
use server_client_peer_netwo.Buffer.Write.{
  advanced, straight-Stored, contents-advanced, advance_write_lem, advanced-IsValid,
  put_iter-in_place, make_room-in_place, write_bytes_lem,
}
use server_client_peer_netwo.Buffer.Many.{Readable, read_into_lem}

-- The loop ends with fuel for `needed ≤ new * 2 ^ fuel`, at a capacity that is enough and no more
-- than twice what is needed.
grow_ends :
    (fuel new needed : ℕ)
    → 0 < new
    → needed ≤ 2 ^ 62
    → needed ≤ new * 2 ^ fuel
    → (cap : ℕ) × (grow (suc fuel) new needed ≡ some cap)
      × (needed ≤ cap)
      × (new ≤ cap)
      × ((cap ≤ new) ⊎ (cap ≤ 2 * needed))
unfolding grow
grow_ends zero new needed pos small enough =
    (new, ground arith, omega arith, omega arith, inl (omega arith))
grow_ends (suc fuel) new needed pos small enough = elim (Bool-cases (ltb new needed)) [
  | inl more ↦
      let (cap, e, a, b, c) =
        grow_ends fuel (new * 2) needed (omega arith) small
          (omega (arith, ap (λ t. new * t) (pow-suc 2 fuel))) in
      (cap, ground (arith, e), a, omega arith, ground arith)
  | inr done ↦ (new, rw done, ground arith, omega arith, inl (omega arith))
]

module _ (cap : ℕ) (pos : 0 < cap) (small : cap ≤ max_alloc) where
  blank-IsValid : IsValid (fresh (λ i. 0) cap false)
  blank-IsValid = ground arith

  contents-blank : contents (fresh (λ i. 0) cap false) ≡ []
  unfolding contents size tabulate
  contents-blank = refl

  -- a new array that takes a list of bytes
  pub filled_lem :
      (xs : List ℕ)
      → length xs ≤ cap
      → (advance_write (fresh (copy_in (λ i. 0) 0 xs) cap false) (length xs)
          ≡ ok (advanced (fresh (copy_in (λ i. 0) 0 xs) cap false) (length xs)))
        × IsValid (advanced (fresh (copy_in (λ i. 0) 0 xs) cap false) (length xs))
        × (contents (advanced (fresh (copy_in (λ i. 0) 0 xs) cap false) (length xs)) ≡ xs)
  filled_lem xs h = (
    advance_write_lem {b = fresh mem cap false} (length xs) v room',
    advanced-IsValid (length xs) v room',
    contents-advanced xs mem blank-IsValid room
          (straight-Stored xs blank-IsValid room (ground (arith, until_end_lem blank-IsValid)))
        ∙ ap (λ ys. ys ++ xs) contents-blank,
  )
    where
      mem : ℕ → ℕ
      mem = copy_in (λ i. 0) 0 xs

      v : IsValid (fresh mem cap false)
      v = mem-IsValid (fresh (λ i. 0) cap false) mem blank-IsValid

      room : length xs ≤ space_remaining (fresh (λ i. 0) cap false)
      room = ground (arith, space_remaining_lem blank-IsValid, size-used blank-IsValid)

      room' : length xs ≤ space_remaining (fresh mem cap false)
      room' = rw (space-mem (fresh (λ i. 0) cap false) mem) room

-- The buffer after `resize` to `cap`.
abbrev pub regrown : Buffer → ℕ → Buffer
regrown b cap = advanced (fresh (copy_in (λ i. 0) 0 (contents b)) cap false) (length (contents b))

-- `resize` on a valid and readable buffer finds a capacity for the bytes held and `to_fit` more, below
-- 2 ^ 62 in all, and moves the bytes there unchanged; the result is valid.
pub resize_lem :
    {b : Buffer} (to_fit : ℕ)
    → IsValid b
    → Readable b (size b)
    → size b + to_fit < 2 ^ 62
    → (cap : ℕ) × (resize b to_fit ≡ ok (regrown b cap))
      × (size b + to_fit ≤ cap)
      × IsValid (regrown b cap)
      × (contents (regrown b cap) ≡ contents b)
unfolding resize
resize_lem {b} to_fit v r small =
    let (cap, e, enough, more, bound) =
      grow_ends 64 b.capacity (size b + to_fit) v.positive (omega arith) (omega arith) in
    let cap_small : cap ≤ max_alloc = omega arith in
    let pos : 0 < cap = omega arith in
    let fits : length (contents b) ≤ cap = omega (arith, length-contents b) in
    let (adv, valid, same) = filled_lem cap pos cap_small (contents b) fits in
    (
      cap,
      ground (
        arith,
        e,
        read_into_lem (size b) v (omega arith) r,
        take-all (size b) (contents b),
        length-contents b,
        write_bytes_lem (λ i. 0) cap 0 (contents b),
        adv,
      ),
      enough,
      valid,
      same,
    )

make_room-resizes : (b : Buffer) (n : ℕ) → space_remaining b < n → make_room b n true ≡ resize b n
unfolding make_room
make_room-resizes b n h = ground arith

put_iter-resized :
    (b : Buffer) (cap : ℕ) (xs : List ℕ)
    → space_remaining b < length xs
    → resize b (length xs) ≡ ok (regrown b cap)
    → length xs ≤ space_remaining (regrown b cap)
    → put_iter b xs true ≡ put_iter (regrown b cap) xs true
unfolding put_iter
put_iter-resized b cap xs over e room =
    ground
      (arith, make_room-in_place (regrown b cap) (length xs) true, make_room-resizes b (length xs))

-- `put_iter` that may resize appends the bytes to a valid buffer, which stays valid, if the buffer
-- has the room already or is readable, below 2 ^ 62 bytes in all.
pub put_iter-appends :
    {b : Buffer} (xs : List ℕ)
    → IsValid b
    → (length xs ≤ space_remaining b) ⊎ Readable b (size b)
    → size b + length xs < 2 ^ 62
    → (b' : Buffer) × (put_iter b xs true ≡ ok b') × IsValid b' × (contents b' ≡ contents b ++ xs)
put_iter-appends {b} xs v c small = elim (Bool-cases (ltb (space_remaining b) (length xs))) [
  | inl over ↦
      let r : Readable b (size b) = ground (arith, over) in
      let (cap, e, enough, valid, same) = resize_lem (length xs) v r small in
      let room : length xs ≤ space_remaining (regrown b cap) = omega (
        arith,
        space_remaining_lem valid,
        length-contents (regrown b cap),
        length-contents b,
        ap length same,
      ) in
      let (b', put, w) = put_iter-in_place xs true valid room in
      (
        b',
        put_iter-resized b cap xs (ground (arith, over)) e room ∙ put,
        w.valid,
        w.held ∙ ap (λ ys. ys ++ xs) same,
      )
  | inr fits ↦
      let (b', put, w) = put_iter-in_place xs true v (ground arith) in (b', put, w.valid, w.held)
]

-- Without leave to resize, more bytes than the room left is the overflow exception.
pub put_iter-overflow :
    (b : Buffer) (xs : List ℕ) → space_remaining b < length xs → put_iter b xs false ≡ err overflow
unfolding put_iter make_room
put_iter-overflow b xs over = ground arith
