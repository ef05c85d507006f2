-- ===== src/Mutex/Pair.antt =====
-- Two nodes of distributed_mutual_exclusion_service.cc, joined by two channels that keep the order.
pub mod Inv
pub mod Carry
pub mod Answers
pub mod Handled
pub mod Moves
pub mod Requests
pub mod Releases
pub mod Safety
pub mod Progress
mod Tests
mod WideIds
use server_client_peer_netwo.Base.{
  ℕ, ◌+◌, ◌%◌, ◌^◌, ◌<◌, ◌≡◌, ◌≢◌, false, none, List, [], ◌∷◌, ◌++◌,
}
use server_client_peer_netwo.Result.{ok}
use server_client_peer_netwo.Mutex.{
  State, in_critical_section, Node, Effect, send_request, send_reply, Received, request, reply,
  step, receive, run_with, release,
}
use server_client_peer_netwo.Mutex.Runs.{connected}

-- What a handler puts in the channel to the peer.
abbrev pub sends : List Effect → List Received
sends [] = []
sends (send_request p c ∷ es) = request c ∷ sends es
sends (send_reply p c ∷ es) = reply c ∷ sends es
sends (_ ∷ es) = sends es

pub record Pair : Type 0 where
  pub left : Node
  pub right : Node
  pub to_right : List Received
  pub to_left : List Received

-- What node `a` does, with the channel out of it and the channel into it. The operation is called
-- with its release in the critical section only, so it releases there.
pub data Move (peer : ℕ) (a : Node) (out into : List Received) (a' : Node)
    (out' into' : List Received) : Type 0 where
  runs :
      (file : List ℕ) (operation : ℕ) (es : List Effect)
      → step a (run_with file operation) ≡ ok (a', es)
      → out' ≡ out ++ sends es
      → into' ≡ into
      → Move peer a out into a' out' into'
  receives :
      (msg : Received) (es : List Effect)
      → into ≡ msg ∷ into'
      → step a (receive peer msg) ≡ ok (a', es)
      → out' ≡ out ++ sends es
      → Move peer a out into a' out' into'
  releases :
      (es : List Effect)
      → a.state ≡ in_critical_section
      → step a release ≡ ok (a', es)
      → out' ≡ out ++ sends es
      → into' ≡ into
      → Move peer a out into a' out' into'

-- The clocks are not at their last value.
abbrev pub Calm : Pair → Type 0
Calm s = (s.left.timestamp + 1 < 2 ^ 64) × (s.right.timestamp + 1 < 2 ^ 64)

-- The peer of the node `j` knows it by `static_cast<node_id_t>(options.id)`, which has 8 bits.
pub data Step (i j : ℕ) (s : Pair) : Pair → Type 0 where
  left_moves :
      {a : Node} {out into : List Received}
      → Calm s
      → Move (j % 256) s.left s.to_right s.to_left a out into
      → Step i j s (record s { left = a; to_right = out; to_left = into })
  right_moves :
      {b : Node} {out into : List Received}
      → Calm s
      → Move (i % 256) s.right s.to_left s.to_right b out into
      → Step i j s (record s { right = b; to_left = out; to_right = into })

abbrev pub initial : ℕ → ℕ → Pair
initial i j = record {
  left = connected i (j % 256 ∷ []);
  right = connected j (i % 256 ∷ []);
  to_right = [];
  to_left = [];
}

pub data Reach (i j : ℕ) : Pair → Type 0 where
  start : Reach i j (initial i j)
  later : {s t : Pair} → Reach i j s → Step i j s t → Reach i j t
