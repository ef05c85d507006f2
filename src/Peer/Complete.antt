-- ===== src/Peer/Complete.antt =====
-- When peer_network_manager.cc takes the network for connected.
use server_client_peer_netwo.Base.{
  ℕ, suc, some, none, Option, ◌≡◌, refl, ap, ◌⊎◌, inl, inr, Bool, true, false, ◌&&◌, ◌||◌, List, [],
  ◌∷◌, arith, length, ◌==◌, map, Bool-cases,
}
use server_client_peer_netwo.Result.{ok, err, ◌>>=◌}
use server_client_peer_netwo.Peer.{
  Location, PeerConnection, Reference, same_location, present, erase_all, all_connected,
  construct_network, Manager, initializing, connected, check_if_connected, is_connected_impl,
  update_state, transition, succeed_connected, network_to, on_server_connection, await_connected,
  change_entry, null_pointer,
}

-- Whether some entry is at the location.
abbrev pub is_at : List PeerConnection → Location → Bool
is_at [] l = false
is_at (c ∷ cs) l = same_location c.location l || is_at cs l

abbrev pub all_at : List PeerConnection → List Location → Bool
all_at cs [] = true
all_at cs (l ∷ ls) = is_at cs l && all_at cs ls

abbrev pub both_ways : List PeerConnection → Bool
both_ways [] = true
both_ways (c ∷ cs) = (present c.in_socket && present c.out_socket) && both_ways cs

all_at-none : (ls : List Location) → all_connected ls [] ≡ all_at [] ls
unfolding all_connected
all_at-none [] = refl
all_at-none (l ∷ ls) = refl

all_at-erase_all :
    (c : PeerConnection) (cs : List PeerConnection) (ls : List Location)
    → all_at cs (erase_all c.location ls) ≡ all_at (c ∷ cs) ls
unfolding erase_all
all_at-erase_all c cs [] = refl
all_at-erase_all c cs (l ∷ ls) = ground (arith, all_at-erase_all c cs ls)

-- The loop over the entries finds the network connected just if each entry has its two sockets and
-- each location to be connected is some entry's.
pub all_connected_lem :
    (left : List Location) (cs : List PeerConnection)
    → all_connected left cs ≡ (both_ways cs && all_at cs left)
unfolding all_connected
all_connected_lem left [] = all_at-none left
all_connected_lem left (c ∷ cs) =
    ground (arith, all_connected_lem (erase_all c.location left) cs, all_at-erase_all c cs left)

present-cases : (o : Option ℕ) → ((k : ℕ) × (o ≡ some k)) ⊎ (present o ≡ false)
present-cases none = inr refl
present-cases (some k) = inl (k, refl)

-- Entries with both sockets make a network of as many references, without a null pointer.
pub construct_network_lem :
    (cs : List PeerConnection)
    → both_ways cs ≡ true
    → (refs : List Reference) × (construct_network cs ≡ ok refs) × (length refs ≡ length cs)
unfolding construct_network
construct_network_lem [] h = ([], refl, refl)
construct_network_lem (c ∷ cs) h = elim (present-cases c.in_socket) [
  | inl (i, ei) ↦ elim (present-cases c.out_socket) [
    | inl (o, eo) ↦
        let (refs, e, n) = construct_network_lem cs (ground (arith, h)) in
        ((c.id, (i, o)) ∷ refs, ground (arith, e, ei, eo), ap suc n)
    | inr n ↦ absurd (ground (arith, h, n))
  ]
  | inr n ↦ absurd (ground (arith, h, n))
]

-- What `CheckIfConnected` does before the network was first connected. If each entry has both its
-- sockets and each peer's location is some entry's, the manager is connected, every connected
-- callback is scheduled and none is owed, and the network for them is made without a null pointer,
-- of as many references as entries; else nothing changes.
pub check_if_connected_lem :
    (m : Manager)
    → m.state ≡ initializing
    → ((both_ways m.managed && all_at m.managed m.peer_locations ≡ true)
        × (check_if_connected m
            ≡ ok (
              record m { state = connected; connected_callbacks = [] },
              map network_to m.connected_callbacks,
            ))
        × ((refs : List Reference) × (construct_network m.managed ≡ ok refs)
            × (length refs ≡ length m.managed)))
      ⊎ ((both_ways m.managed && all_at m.managed m.peer_locations ≡ false)
          × (check_if_connected m ≡ ok (m, [])))
unfolding check_if_connected is_connected_impl update_state transition succeed_connected
check_if_connected_lem m s =
    elim (Bool-cases (both_ways m.managed && all_at m.managed m.peer_locations)) [
      | inl ready ↦ inl (
        ready,
        ground (arith, s, ready, all_connected_lem m.peer_locations m.managed),
        construct_network_lem m.managed (ground (arith, ready)),
      )
      | inr missing ↦
          inr (missing, ground (arith, s, missing, all_connected_lem m.peer_locations m.managed))
    ]

-- Whether some entry has the id.
abbrev pub has_id : List PeerConnection → ℕ → Bool
has_id [] k = false
has_id (c ∷ cs) k = (c.id == k) || has_id cs k

half_open :
    (k s : ℕ) (cs : List PeerConnection)
    → has_id cs k ≡ false
    → construct_network (change_entry k (λ c. record c { in_socket = some s }) cs)
      ≡ err null_pointer
unfolding construct_network change_entry
half_open k s [] h = refl
half_open k s (c ∷ cs) h = ground (arith, h, half_open k s cs)

-- A connected manager that is connected to by a node with an id that no entry has, stays connected,
-- and the next call of `AwaitConnected` follows a null pointer.
pub stranger-breaks_network :
    (m : Manager) (id socket callback : ℕ)
    → m.state ≡ connected
    → has_id m.managed id ≡ false
    → (on_server_connection m (ok (id, socket)) >>= λ r. await_connected r.0 callback)
      ≡ err null_pointer
unfolding on_server_connection check_if_connected is_connected_impl update_state await_connected
stranger-breaks_network m id socket callback s h =
    ground (arith, s, half_open id socket m.managed h)
