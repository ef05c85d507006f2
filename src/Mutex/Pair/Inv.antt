-- ===== src/Mutex/Pair/Inv.antt =====
-- How far each node's request is, and where the permissions are.
use server_client_peer_netwo.Base.{
  ℕ, ◌<◌, ◌≤◌, ◌≡◌, ◌≢◌, ◌⊎◌, refl, true, false, some, List, [], ◌∷◌, ◌++◌, ap,
}
use server_client_peer_netwo.Messages.{Clocked}
use server_client_peer_netwo.Mutex.{
  waiting, requesting, in_critical_section, Request, Node, Delayed, Received, request, reply,
  failed, error_message, unknown, goes_first, clocked,
}

abbrev pub requests_in : List Received → List Clocked
requests_in [] = []
requests_in (request c ∷ ms) = c ∷ requests_in ms
requests_in (_ ∷ ms) = requests_in ms

abbrev pub replies_in : List Received → List Clocked
replies_in [] = []
replies_in (reply c ∷ ms) = c ∷ replies_in ms
replies_in (_ ∷ ms) = replies_in ms

pub requests_in-append :
    (xs ys : List Received) → requests_in (xs ++ ys) ≡ requests_in xs ++ requests_in ys
requests_in-append [] ys = refl
requests_in-append (request c ∷ ms) ys = ap (λ cs. c ∷ cs) (requests_in-append ms ys)
requests_in-append (reply c ∷ ms) ys = requests_in-append ms ys
requests_in-append (failed ∷ ms) ys = requests_in-append ms ys
requests_in-append (error_message ∷ ms) ys = requests_in-append ms ys
requests_in-append (unknown ∷ ms) ys = requests_in-append ms ys

pub replies_in-append :
    (xs ys : List Received) → replies_in (xs ++ ys) ≡ replies_in xs ++ replies_in ys
replies_in-append [] ys = refl
replies_in-append (reply c ∷ ms) ys = ap (λ cs. c ∷ cs) (replies_in-append ms ys)
replies_in-append (request c ∷ ms) ys = replies_in-append ms ys
replies_in-append (failed ∷ ms) ys = replies_in-append ms ys
replies_in-append (error_message ∷ ms) ys = replies_in-append ms ys
replies_in-append (unknown ∷ ms) ys = replies_in-append ms ys

-- Where a node's request is: there is none, in the channel to the peer, delayed by the peer, the
-- reply is in the channel, or the node is in the critical section.
pub data Phase : Type 0 where
  idle asked held answered inside : Phase

-- The places where the request of `a` and its answer can be.
abbrev pub Places :
    List Received → List Received → Node → List Clocked → List Delayed → List Clocked → Type 0
Places out into b cs ds rs = (requests_in out ≡ cs) × (b.delayed ≡ ds) × (replies_in into ≡ rs)

abbrev pub wire : Request → Clocked
wire r = clocked r.timestamp r.file_name

-- A node `a` with the request `r` that is not permitted yet.
abbrev pub Asking : Request → Node → Node → Type 0
Asking r a b =
    (a.state ≡ requesting)
    × (a.my_request ≡ some r)
    × (a.permitted b.id r.file_name ≡ false)
    × (r.timestamp ≤ a.timestamp)

-- The peer has answered `r`: it passed the request's clock, holds no permission for the file, and
-- if it asks for the same file, `r` goes first.
abbrev pub Answered : Request → Node → Node → Type 0
Answered r a b =
    (r.timestamp < b.timestamp)
    × (b.permitted a.id r.file_name ≡ false)
    × ((q : Request)
        → b.my_request ≡ some q
        → b.state ≡ requesting
        → q.file_name ≡ r.file_name
        → goes_first q b.id (wire r) a.id ≡ true)

-- Why the peer delays `r`: it is in the critical section, or it asks and `r` does not go first.
abbrev pub Holding : Request → Node → Node → Type 0
Holding r a b =
    (b.state ≡ in_critical_section)
    ⊎ ((q : Request) × (b.my_request ≡ some q)
        × (b.state ≡ requesting)
        × (goes_first q b.id (wire r) a.id ≡ false))

abbrev pub Asks : Phase → Request → Node → Node → List Received → List Received → Type 0
Asks idle r a b out into = (a.state ≡ waiting) × Places out into b [] [] []
Asks inside r a b out into =
    (a.state ≡ in_critical_section)
    × (a.my_request ≡ some r)
    × (a.permitted b.id r.file_name ≡ true)
    × Places out into b [] [] []
Asks asked r a b out into = Asking r a b × Places out into b (wire r ∷ []) [] []
Asks held r a b out into =
    Asking r a b
    × Places out into b [] (record { peer = a.id; request = wire r } ∷ []) []
    × Holding r a b
Asks answered r a b out into =
    Asking r a b
    × Answered r a b
    × ((c : Clocked) × Places out into b [] [] (c ∷ []) × (c.file_name ≡ r.file_name))

pub record Inv (p q : Phase) (r s : Request) (a b : Node) (out into : List Received) : Type 0 where
  pub apart_ids : a.id ≢ b.id
  pub net_a : a.network ≡ b.id ∷ []
  pub net_b : b.network ≡ a.id ∷ []
  pub asks_a : Asks p r a b out into
  pub asks_b : Asks q s b a into out
  pub exclusive : (f : List ℕ) → a.permitted b.id f ≡ true → b.permitted a.id f ≡ false

abbrev pub Safe : Node → Node → List Received → List Received → Type 0
Safe a b out into = (p q : Phase) × (r s : Request) × Inv p q r s a b out into
