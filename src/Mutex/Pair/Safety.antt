-- ===== src/Mutex/Pair/Safety.antt =====
-- The two nodes are never in the critical section for the same file.
use server_client_peer_netwo.Base.{
  ℕ, ◌+◌, ◌%◌, ◌^◌, ◌<◌, ◌≡◌, ◌≢◌, refl, sym, ap, subst, ◌∙◌, some, List, [], ◌∷◌, ◌++◌, arith,
  append-nil,
}
use server_client_peer_netwo.Result.{ok}
use server_client_peer_netwo.Mutex.{
  in_critical_section, Request, Node, Effect, Received, request, reply, failed, error_message,
  unknown, step, receive, on_receive_message, report_in,
}
use server_client_peer_netwo.Mutex.Pair.{
  Pair, Step, left_moves, right_moves, Reach, start, later, sends, Move, runs, receives, releases,
}
use server_client_peer_netwo.Mutex.Pair.Inv.{requests_in, replies_in, Phase, idle, Inv, Safe}
use server_client_peer_netwo.Mutex.Pair.Carry.{conclude, stays}
use server_client_peer_netwo.Mutex.Pair.Moves.{as-inside, runs-Safe, reply-Safe}
use server_client_peer_netwo.Mutex.Pair.Requests.{request-Safe}
use server_client_peer_netwo.Mutex.Pair.Releases.{releases-Safe}

swapped : {a b : Node} {out into : List Received} → Safe a b out into → Safe b a into out
swapped (p, q, r, s, inv) = (
  q,
  p,
  s,
  r,
  record {
    apart_ids = λ e. inv.apart_ids (sym e);
    net_a = inv.net_b;
    net_b = inv.net_a;
    asks_a = inv.asks_b;
    asks_b = inv.asks_a;
    exclusive = λ f h. ground (arith, inv.exclusive f);
  },
)

module _ {p q : Phase} {r s : Request} {a b : Node} {out into : List Received}
    (inv : Inv p q r s a b out into) (calm_a : a.timestamp + 1 < 2 ^ 64)
    (calm_b : b.timestamp + 1 < 2 ^ 64) where
  -- A message that is neither a request nor a reply
  other-Safe :
      (msg : Received) (es : List Effect) (into' : List Received) (a' : Node) (es' : List Effect)
      → step a (receive b.id msg) ≡ ok (a, es)
      → sends es ≡ []
      → requests_in into ≡ requests_in into'
      → replies_in into ≡ replies_in into'
      → step a (receive b.id msg) ≡ ok (a', es')
      → Safe a' b (out ++ sends es') into'
  other-Safe msg es into' a' es' e silent rq rp e' = conclude a es a' b es' out into' e e' (
      stays inv (out ++ sends es) into'
        (ap (λ m. requests_in (out ++ m)) silent ∙ ap requests_in (append-nil out))
        (ap (λ m. replies_in (out ++ m)) silent ∙ ap replies_in (append-nil out)) (sym rq) (sym rp))

  receives-Safe :
      (msg : Received) (into' : List Received) (a' : Node) (es : List Effect)
      → into ≡ msg ∷ into'
      → step a (receive b.id msg) ≡ ok (a', es)
      → Safe a' b (out ++ sends es) into'
  unfolding step on_receive_message
  receives-Safe (request c) into' a' es i e = request-Safe inv calm_a calm_b c into' a' es i e
  receives-Safe (reply c) into' a' es i e = reply-Safe inv calm_a calm_b c into' a' es i e
  receives-Safe failed into' a' es i e =
      other-Safe failed (report_in b.id ∷ []) into' a' es refl refl (ap requests_in i)
        (ap replies_in i) e
  receives-Safe error_message into' a' es i e =
      other-Safe error_message (report_in b.id ∷ []) into' a' es refl refl (ap requests_in i)
        (ap replies_in i) e
  receives-Safe unknown into' a' es i e =
      other-Safe unknown [] into' a' es refl refl (ap requests_in i) (ap replies_in i) e

  Move-Safe :
      (a' : Node) (out' into' : List Received)
      → Move b.id a out into a' out' into'
      → Safe a' b out' into'
  Move-Safe a' out' into' (runs file op es e o i) =
      subst (λ x. Safe a' b x into') (sym o)
        (subst (λ x. Safe a' b (out ++ sends es) x) (sym i)
          (runs-Safe inv calm_a calm_b file op a' es e))
  Move-Safe a' out' into' (receives msg es i e o) =
      subst (λ x. Safe a' b x into') (sym o) (receives-Safe msg into' a' es i e)
  Move-Safe a' out' into' (releases es w e o i) =
      subst (λ x. Safe a' b x into') (sym o)
        (subst (λ x. Safe a' b (out ++ sends es) x) (sym i)
          (releases-Safe inv calm_a calm_b a' es w e))

abbrev pub IsSafe : ℕ → ℕ → Pair → Type 0
IsSafe i j s = Safe s.left s.right s.to_right s.to_left × (s.left.id ≡ i) × (s.right.id ≡ j)

-- The peer's entry keeps its id.
same_id :
    {a b a' : Node} {out into out' into' : List Received}
    → Safe a b out into
    → Safe a' b out' into'
    → a'.id ≡ a.id
same_id (p, q, r, s, inv) (p', q', r', s', inv') = ground (arith, inv.net_b, inv'.net_b)

below : (i : ℕ) → i < 256 → i % 256 ≡ i
below i h = omega (arith, h)

Step-IsSafe :
    (i j : ℕ) (s t : Pair) → i < 256 → j < 256 → Step i j s t → IsSafe i j s → IsSafe i j t
Step-IsSafe i j s t small small' (left_moves calm move) ((p, q, r, r', inv), l, m) =
    let known : Move s.right.id s.left s.to_right s.to_left t.left t.to_right t.to_left =
      subst (λ x. Move x s.left s.to_right s.to_left t.left t.to_right t.to_left)
        (below j small' ∙ sym m) move in
    let after = Move-Safe inv calm.0 calm.1 t.left t.to_right t.to_left known in
    (after, same_id (p, q, r, r', inv) after ∙ l, m)
Step-IsSafe i j s t small small' (right_moves calm move) (h, l, m) =
    let (p, q, r, r', inv) = swapped h in
    let known : Move s.left.id s.right s.to_left s.to_right t.right t.to_left t.to_right =
      subst (λ x. Move x s.right s.to_left s.to_right t.right t.to_left t.to_right)
        (below i small ∙ sym l) move in
    let after = Move-Safe inv calm.1 calm.0 t.right t.to_left t.to_right known in
    (swapped after, l, same_id (p, q, r, r', inv) after ∙ m)

pub Reach-IsSafe : (i j : ℕ) (s : Pair) → i ≢ j → i < 256 → j < 256 → Reach i j s → IsSafe i j s
Reach-IsSafe i j s apart small small' start =
    let any : Request = record { file_name = []; operation = 0; timestamp = 0 } in
    (
      (
        idle,
        idle,
        any,
        any,
        record {
          apart_ids = apart;
          net_a = ap (λ x. x ∷ []) (below j small');
          net_b = ap (λ x. x ∷ []) (below i small);
          asks_a = (refl, (refl, refl, refl));
          asks_b = (refl, (refl, refl, refl));
          exclusive = λ f h. refl;
        },
      ),
      refl,
      refl,
    )
Reach-IsSafe i j t apart small small' (later {s} reach move) =
    Step-IsSafe i j s t small small' move (Reach-IsSafe i j s apart small small' reach)

-- Two nodes with different ids below 256 start without permissions, and from there run, receive the messages
-- of two channels that keep the order, and release, in any order, with clocks that are not at their last
-- value. If both are in the critical section then, it is for different files.
pub mutual_exclusion :
    (i j : ℕ) (s : Pair) (mine theirs : Request)
    → i ≢ j
    → i < 256
    → j < 256
    → Reach i j s
    → s.left.state ≡ in_critical_section
    → s.right.state ≡ in_critical_section
    → s.left.my_request ≡ some mine
    → s.right.my_request ≡ some theirs
    → mine.file_name ≢ theirs.file_name
mutual_exclusion i j s mine theirs apart small small' reach l r ml mr same =
    let ((p, q, x, y, inv), own, peer) = Reach-IsSafe i j s apart small small' reach in
    let hl = as-inside p x s.left s.right s.to_right s.to_left l inv.asks_a in
    let hr = as-inside q y s.right s.left s.to_left s.to_right r inv.asks_b in
    let ex : x.file_name ≡ mine.file_name = ground (arith, hl.1, ml) in
    let ey : y.file_name ≡ theirs.file_name = ground (arith, hr.1, mr) in
    ground (
      arith,
      inv.exclusive x.file_name hl.2,
      hr.2,
      ap (s.right.permitted s.left.id) (ex ∙ same ∙ sym ey),
    )
