-- ===== src/Buffer/Tests.antt =====
-- Buffers of util/buffer.cc on concrete bytes: tests, and the theorems at inputs that meet their
-- hypotheses.
use server_client_peer_netwo.Base.{
  ℕ, ◌≤◌, ◌≡◌, refl, inl, Bool, true, false, List, [], ◌∷◌, ◌++◌, arith, get_or, tabulate,
}
use server_client_peer_netwo.Result.{ok, ◌>>=◌}
use server_client_peer_netwo.Buffer.{
  Buffer, size, get_many, put_iter, space_remaining, space_remaining_until_end, read_into,
  read_bytes, advance_read,
}
use server_client_peer_netwo.Buffer.Valid.{IsValid, contents}
use server_client_peer_netwo.Buffer.Resize.{put_iter-appends}
use server_client_peer_netwo.Buffer.Kept.{Kept}
use server_client_peer_netwo.Buffer.Shift.{reserve, reserve-makes_room}

abbrev ring : List ℕ → ℕ → ℕ → Bool → Buffer
ring bytes r w f = record {
  mem = λ i. get_or bytes i 0;
  capacity = 4;
  read = r;
  write = w;
  full = f;
}

-- 1, 2, then round the end 3
abbrev bent : Buffer
bent = ring (3 ∷ 0 ∷ 1 ∷ 2 ∷ []) 2 1 false

-- 1, 2, 3 from the start
abbrev flat : Buffer
flat = ring (1 ∷ 2 ∷ 3 ∷ 0 ∷ []) 0 3 false

abbrev full_bent : Buffer
full_bent = ring (3 ∷ 4 ∷ 1 ∷ 2 ∷ []) 2 2 true

-- 1, 2 at the far end
abbrev far_end : Buffer
far_end = ring (0 ∷ 0 ∷ 1 ∷ 2 ∷ []) 3 0 false

abbrev nothing : Buffer
nothing = ring [] 1 1 false

abbrev line : Buffer
line = ring (65 ∷ 13 ∷ 10 ∷ 66 ∷ []) 0 0 true

abbrev double_return : Buffer
double_return = ring (13 ∷ 13 ∷ 10 ∷ 66 ∷ []) 0 0 true

bent-IsValid : IsValid bent
bent-IsValid = ground arith

flat-IsValid : IsValid flat
flat-IsValid = ground arith

full_bent-IsValid : IsValid full_bent
full_bent-IsValid = ground arith

contents-bent : contents bent ≡ 1 ∷ 2 ∷ 3 ∷ []
unfolding contents size tabulate
contents-bent = refl

-- Three bytes of four come back wrong: one is free behind them, so the last two are read again from
-- the start.
get_many-flat : (get_many flat 3 >>= λ r. ok (r.0)) ≡ ok (1 ∷ 1 ∷ 2 ∷ [])
unfolding get_many size read_into read_bytes advance_read space_remaining_until_end tabulate
get_many-flat = refl

put_iter-appends_example :
    (b : Buffer) × (put_iter bent (7 ∷ []) true ≡ ok b)
    × IsValid b
    × (contents b ≡ contents bent ++ (7 ∷ []))
unfolding size space_remaining
put_iter-appends_example = put_iter-appends (7 ∷ []) bent-IsValid (inl (omega arith)) (omega arith)

contents-line : contents line ≡ 65 ∷ 13 ∷ 10 ∷ 66 ∷ []
unfolding contents size tabulate
contents-line = refl

contents-double_return : contents double_return ≡ 13 ∷ 13 ∷ 10 ∷ 66 ∷ []
unfolding contents size tabulate
contents-double_return = refl

reserve-makes_room_example :
    (b : Buffer) × (reserve bent 1 ≡ ok b)
    × IsValid b
    × (contents b ≡ contents bent)
    × (1 ≤ space_remaining_until_end b)
    × (1 ≤ space_remaining b)
unfolding size space_remaining
reserve-makes_room_example =
    reserve-makes_room 1 bent-IsValid refl (omega arith) (inl (omega arith)) (omega arith)

contents-nothing : contents nothing ≡ []
unfolding contents size tabulate
contents-nothing = refl
