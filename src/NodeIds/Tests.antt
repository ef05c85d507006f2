-- ===== src/NodeIds/Tests.antt =====
-- Node ids of node_id_service.cc with one location.
use server_client_peer_netwo.Base.{ℕ, ◌≡◌, refl, true, some, List, [], ◌∷◌, arith}
use server_client_peer_netwo.Result.{ok}
use server_client_peer_netwo.Peer.{Location, same_location}
use server_client_peer_netwo.NodeIds.{
  NodeIds, no_nodes, inserted, add, remove_id, remove_location, get_id_by_location,
  get_location_by_id, Change, adds, removes_location, removes_id, apply, apply_all,
}
use server_client_peer_netwo.NodeIds.Runs.{
  IsLinked, removing, no_nodes-IsLinked, inserted-IsLinked, remove-dangles, add-second_id,
}

abbrev here : Location
here = (127, 3000)

abbrev there : Location
there = (127, 3001)

abbrev changes : List Change
changes = adds here 1 ∷ adds here 2 ∷ removes_id 3 ∷ removes_location there ∷ []

abbrev one_node : NodeIds
one_node = inserted no_nodes here 1

abbrev two_nodes : NodeIds
two_nodes = inserted one_node here 2

remove-dangles_example :
    IsLinked two_nodes
    × ((i : ℕ) → remove_id two_nodes i ≡ removing two_nodes (two_nodes.by_id i))
    × ((l : Location) → remove_location two_nodes l ≡ removing two_nodes (two_nodes.by_location l))
unfolding apply_all apply add remove_id remove_location
remove-dangles_example = remove-dangles changes two_nodes refl

add-second_id_example :
    (t : NodeIds) × (add one_node here 2 ≡ ok (t, true))
    × (get_id_by_location t here ≡ ok (some 1))
    × (get_location_by_id t 2 ≡ ok (some here))
    × ((m : Location) × (get_location_by_id t 1 ≡ ok (some m)) × (same_location m here ≡ true))
add-second_id_example =
    add-second_id one_node here 1 2 0 (omega arith)
      (inserted-IsLinked no_nodes no_nodes-IsLinked here 1 refl) refl refl refl
