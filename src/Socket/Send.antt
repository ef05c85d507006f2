-- ===== src/Socket/Send.antt =====
-- What `Socket::Send` of socket.cc puts on the wire and leaves in the output buffer.
use server_client_peer_netwo.Base.{
  ℕ, zero, suc, ◌+◌, ◌≤◌, ◌<◌, ◌≡◌, refl, ap, ◌∙◌, inl, inr, true, some, List, [], ◌∷◌, ◌++◌, ltb,
  if◌then◌else◌, length, length-take, take, append-nil, take-append-drop, arith, Bool-cases,
}
use server_client_peer_netwo.Result.{ok, err}
use server_client_peer_netwo.Buffer.{Buffer, size, consume, overflow}
use server_client_peer_netwo.Buffer.Valid.{IsValid, contents, length-contents}
use server_client_peer_netwo.Buffer.Read.{released, consume_lem}
use server_client_peer_netwo.Buffer.Views.{Viewable, view, view_data, one_piece, view_data_lem}
use server_client_peer_netwo.Socket.{
  Socket, exception, Written, wrote, would_block, is_open, send_view, send_views, send,
}

-- Of one view, a call takes `k` bytes, and the next would block.
send_view-once :
    (xs : List ℕ) (k : ℕ) (ws : List Written)
    → k ≤ length xs
    → ((send_view xs 0 (wrote k ∷ (would_block ∷ ws))).wire ≡ take k xs)
      × ((send_view xs 0 (wrote k ∷ (would_block ∷ ws))).counted ≡ ok k)
unfolding send_view
send_view-once [] zero ws h = (refl, refl)
send_view-once [] (suc k) ws h = absurd (omega arith)
send_view-once (x ∷ xs) k ws h = ground (arith, append-nil (take k (x ∷ xs)))

consumes : {b : Buffer} (n : ℕ) → IsValid b → n ≤ size b → consume b n ≡ ok (released b n)
consumes {b} n v h = elim (consume_lem n v) [
  | inl (_, e, _, _) ↦ e
  | inr (over, _) ↦ absurd (omega arith)
]

-- A socket whose output lies in one view.
module _ (s : Socket) (v : IsValid s.output) (open_s : is_open s ≡ true) (w : Viewable s.output)
    (flat : s.output.read ≤ s.output.write) where
  view-flat : view s.output ≡ (s.output.read, size s.output) ∷ []
  unfolding view
  view-flat = ground arith

  data-flat : view_data s.output s.output.read (size s.output) ≡ ok (some (contents s.output))
  data-flat =
      let (fits, whole) = one_piece v w flat in
      view_data_lem s.output.read (size s.output) v fits ∙ ap (λ xs. ok (some xs)) whole

  views-flat :
      (ws : List Written) (n : ℕ)
      → (send_view (contents s.output) 0 ws).counted ≡ ok n
      → ((send_views s.output (view s.output) 0 ws).wire
          ≡ (send_view (contents s.output) 0 ws).wire)
        × ((send_views s.output (view s.output) 0 ws).counted ≡ ok n)
  unfolding send_views
  views-flat ws n c =
      ground (arith, view-flat, data-flat, c, append-nil (send_view (contents s.output) 0 ws).wire)

  pub send-flat :
      (ws : List Written) (n : ℕ)
      → (send_view (contents s.output) 0 ws).counted ≡ ok n
      → n ≤ size s.output
      → send ws s ≡ (
        record s { output = released s.output n },
        ((send_view (contents s.output) 0 ws).wire, ok n),
      )
  unfolding send
  send-flat ws n c h =
      let (e, f) = views-flat ws n c in ground (arith, open_s, e, f, consumes n v h)

  pub send-overflow :
      (ws : List Written) (n : ℕ)
      → (send_view (contents s.output) 0 ws).counted ≡ ok n
      → size s.output < n
      → send ws s ≡ (s, ((send_view (contents s.output) 0 ws).wire, err (exception overflow)))
  unfolding send consume
  send-overflow ws n c h = let (e, f) = views-flat ws n c in ground (arith, open_s, e, f)

  -- The kernel takes `k` bytes and then would block.
  taken-once :
      (k : ℕ) (ws : List Written)
      → k ≤ size s.output
      → send (wrote k ∷ (would_block ∷ ws)) s
        ≡ (record s { output = released s.output k }, (take k (contents s.output), ok k))
  taken-once k ws h =
      let (e, f) =
        send_view-once (contents s.output) k ws (omega (arith, length-contents s.output)) in
      send-flat (wrote k ∷ (would_block ∷ ws)) k f h
      ∙ ap (λ x. (record s { output = released s.output k }, (x, ok k))) e

-- An open socket, with a valid output buffer in one view that is not full or begins at 0, sends what the kernel takes in one call: the bytes on the wire, and
-- those left in the buffer behind them, are the bytes that were there. If the kernel takes all, none are left.
pub send_lem :
    (s : Socket) (k : ℕ) (ws : List Written)
    → IsValid s.output
    → is_open s ≡ true
    → Viewable s.output
    → s.output.read ≤ s.output.write
    → k ≤ size s.output
    → (s' : Socket) × (wire : List ℕ) × (send (wrote k ∷ (would_block ∷ ws)) s ≡ (s', (wire, ok k)))
      × IsValid s'.output
      × (length wire ≡ k)
      × (wire ++ contents s'.output ≡ contents s.output)
send_lem s k ws v o w flat h = elim (consume_lem k v) [
  | inr (over, _) ↦ absurd (omega arith)
  | inl (_, e, valid, left) ↦ (
    record s { output = released s.output k },
    take k (contents s.output),
    taken-once s v o w flat k ws h,
    valid,
    omega (arith, length-take k (contents s.output), length-contents s.output),
    ap (λ x. take k (contents s.output) ++ x) left ∙ take-append-drop k (contents s.output),
  )
]

send_view-twice :
    (xs : List ℕ) (k j : ℕ) (ws : List Written)
    → k < length xs
    → ((send_view xs 0 (wrote k ∷ (wrote j ∷ (would_block ∷ ws)))).wire ≡ take k xs ++ take j xs)
      × ((send_view xs 0 (wrote k ∷ (wrote j ∷ (would_block ∷ ws)))).counted ≡ ok (k + j))
unfolding send_view
send_view-twice xs k j ws h = ground (arith, append-nil (take j xs))

-- When the kernel takes a part of such a view and then takes more, the second call begins at the start of the view
-- again: the first bytes are on the wire twice. If the calls take more than the view has in all, the buffer throws; else
-- as many bytes are taken out of the buffer as were written.
pub send-repeats :
    (s : Socket) (k j : ℕ) (ws : List Written)
    → IsValid s.output
    → is_open s ≡ true
    → Viewable s.output
    → s.output.read ≤ s.output.write
    → 0 < k
    → k < size s.output
    → send (wrote k ∷ (wrote j ∷ (would_block ∷ ws))) s ≡ (
        if ltb (size s.output) (k + j)
        then (
          s,
          (take k (contents s.output) ++ take j (contents s.output), err (exception overflow)),
        )
        else (
          record s { output = released s.output (k + j) },
          (take k (contents s.output) ++ take j (contents s.output), ok (k + j)),
        ))
send-repeats s k j ws v o w flat pos h =
    let (e, f) =
      send_view-twice (contents s.output) k j ws (omega (arith, length-contents s.output)) in
    elim (Bool-cases (ltb (size s.output) (k + j))) [
      | inl over ↦ ground (
        arith,
        over,
        e,
        send-overflow s v o w flat (wrote k ∷ (wrote j ∷ (would_block ∷ ws))) (k + j) f,
      )
      | inr fits ↦ ground (
        arith,
        fits,
        e,
        send-flat s v o w flat (wrote k ∷ (wrote j ∷ (would_block ∷ ws))) (k + j) f,
      )
    ]
