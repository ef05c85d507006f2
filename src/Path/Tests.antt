-- ===== src/Path/Tests.antt =====
-- Paths of path.cc.
use server_client_peer_netwo.Base.{◌≡◌, refl, ◌||◌, [], ◌∷◌, ◌++◌, codes, name_eq, arith}
use server_client_peer_netwo.Path.{
  assign, root_path, relative_path, compare, compare_entries, has_root_directory, less, path_eq,
}
use server_client_peer_netwo.Path.Assign.{IsAssigned, assign_lem}
use server_client_peer_netwo.Path.Compare.{AreBytes, swap_unless, runs_on, compare-both_ways}

assign_lem_example :
    IsAssigned (assign (codes "/a//b"))
    × (assign (assign (codes "/a//b")) ≡ assign (codes "/a//b"))
    × (root_path (assign (codes "/a//b")) ++ relative_path (assign (codes "/a//b"))
        ≡ assign (codes "/a//b"))
assign_lem_example = assign_lem (codes "/a//b")

short-bytes : AreBytes (codes "a")
short-bytes = (omega arith, tt)

long-bytes : AreBytes (codes "a/")
long-bytes = (omega arith, (omega arith, tt))

compare-both_ways_example :
    (path_eq (codes "a") (codes "a/") ≡ name_eq (codes "a") (codes "a/"))
    × (compare (codes "a/") (codes "a")
        ≡ swap_unless
            (runs_on (codes "a") (codes "a/") || runs_on (codes "a/") (codes "a"))
            (compare (codes "a") (codes "a/")))
compare-both_ways_example = compare-both_ways 97 97 [] (47 ∷ []) short-bytes long-bytes

-- Each is less than the other.
both_less : (compare (codes "a") (codes "a/") ≡ less) × (compare (codes "a/") (codes "a") ≡ less)
unfolding compare compare_entries has_root_directory
both_less = (refl, refl)
