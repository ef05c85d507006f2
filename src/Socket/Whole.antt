-- ===== src/Socket/Whole.antt =====
-- `Socket::Send` of socket.cc where each `write` takes the whole view.
use server_client_peer_netwo.Base.{
  ℕ, ◌+◌, ◌-◌, ◌≤◌, ◌<◌, ◌≡◌, refl, ◌∙◌, inl, inr, true, List, [], ◌∷◌, leb, length, take-all,
  append-nil, length-tabulate, Bool-cases, arith, map, drop-all,
}
use server_client_peer_netwo.Result.{ok}
use server_client_peer_netwo.Buffer.{Buffer, size, copy_out}
use server_client_peer_netwo.Buffer.Valid.{IsValid, contents, size-used, length-contents}
use server_client_peer_netwo.Buffer.Read.{released, consume_lem}
use server_client_peer_netwo.Buffer.Views.{Viewable, view, view_data_lem, one_piece, two_pieces}
use server_client_peer_netwo.Socket.{Socket, Written, wrote, is_open, send_view, send_views, send}

-- The answers of a kernel that takes each view whole.
abbrev pub whole : Buffer → List Written
whole b = map (λ v. wrote v.1) (view b)

send_view-all :
    (xs : List ℕ) (ws : List Written)
    → 0 < length xs
    → ((send_view xs 0 (wrote (length xs) ∷ ws)).wire ≡ xs)
      × ((send_view xs 0 (wrote (length xs) ∷ ws)).counted ≡ ok (length xs))
      × ((send_view xs 0 (wrote (length xs) ∷ ws)).answers ≡ ws)
unfolding send_view
send_view-all xs [] h = ground (arith, take-all (length xs) xs, append-nil xs)
send_view-all xs (w ∷ ws) h = ground (arith, take-all (length xs) xs, append-nil xs)

send_view-empty :
    (ws : List Written) → ((send_view [] 0 ws).wire ≡ []) × ((send_view [] 0 ws).counted ≡ ok 0)
unfolding send_view
send_view-empty [] = (refl, refl)
send_view-empty (w ∷ ws) = (refl, refl)

-- A view that may be empty, with no view behind it.
send_view-last :
    (xs : List ℕ)
    → ((send_view xs 0 (wrote (length xs) ∷ [])).wire ≡ xs)
      × ((send_view xs 0 (wrote (length xs) ∷ [])).counted ≡ ok (length xs))
send_view-last [] = send_view-empty (wrote 0 ∷ [])
send_view-last (x ∷ xs) = let (e, f, _) = send_view-all (x ∷ xs) [] (omega arith) in (e, f)

module _ {b : Buffer} (v : IsValid b) (w : Viewable b) (some_held : 0 < size b) where
  one_view :
      b.read ≤ b.write
      → ((send_views b (view b) 0 (whole b)).wire ≡ contents b)
        × ((send_views b (view b) 0 (whole b)).counted ≡ ok (size b))
  unfolding send_views view
  one_view flat =
      let (fits, all) = one_piece v w flat in
      ground (
        arith,
        view_data_lem b.read (size b) v fits,
        all,
        length-contents b,
        send_view-all (contents b) [],
        append-nil (contents b),
      )

  two_views :
      b.write < b.read
      → ((send_views b (view b) 0 (whole b)).wire ≡ contents b)
        × ((send_views b (view b) 0 (whole b)).counted ≡ ok (size b))
  unfolding send_views view
  two_views bent =
      let front : List ℕ = copy_out b.mem b.read (b.capacity - b.read) in
      let back : List ℕ = copy_out b.mem 0 b.write in
      ground (
        arith,
        v.read_in,
        view_data_lem b.read (b.capacity - b.read) v (omega (arith, v.read_in)),
        view_data_lem 0 b.write v (omega (arith, v.write_in)),
        length-tabulate (b.capacity - b.read) (λ i. b.mem (b.read + i)),
        length-tabulate b.write (λ i. b.mem (0 + i)),
        size-used v,
        send_view-all front (wrote b.write ∷ []),
        send_view-last back,
        append-nil back,
        two_pieces v bent,
      )

  all_views :
      ((send_views b (view b) 0 (whole b)).wire ≡ contents b)
      × ((send_views b (view b) 0 (whole b)).counted ≡ ok (size b))
  all_views = elim (Bool-cases (leb b.read b.write)) [
    | inl flat ↦ one_view (ground arith)
    | inr bent ↦ two_views (ground arith)
  ]

-- An open socket with a valid output buffer that holds something, and is not full or begins at 0, sends all of it in order when each
-- view is taken whole, and is left with an empty buffer of the same capacity.
pub send-whole :
    (s : Socket)
    → IsValid s.output
    → Viewable s.output
    → 0 < size s.output
    → is_open s ≡ true
    → (s' : Socket) × (send (whole s.output) s ≡ (s', (contents s.output, ok (size s.output))))
      × (s' ≡ record s { output = released s.output (size s.output) })
      × IsValid s'.output
      × (contents s'.output ≡ [])
unfolding send
send-whole s v w pos o =
    let (e, f) = all_views v w pos in
    elim (consume_lem (size s.output) v) [
      | inr (over, _) ↦ absurd (omega arith)
      | inl (_, c, valid, left) ↦ (
        record s { output = released s.output (size s.output) },
        ground (arith, o, e, f, c),
        refl,
        valid,
        left
            ∙ drop-all (size s.output) (contents s.output)
                (omega (arith, length-contents s.output)),
      )
    ]
