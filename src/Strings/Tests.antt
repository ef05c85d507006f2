-- ===== src/Strings/Tests.antt =====
-- Strings of strings.cc.
use server_client_peer_netwo.Base.{ℕ, ◌≡◌, ◌≢◌, refl, true, List, [], ◌∷◌, codes, name_eq}
use server_client_peer_netwo.Result.{ok}
use server_client_peer_netwo.Strings.{split, join, ends_with}
use server_client_peer_netwo.Strings.RoundTrip.{Tokens, split_lem}

ends_with-wrong : ends_with (codes "abc") (codes "xy") ≡ true
unfolding ends_with name_eq
ends_with-wrong = refl

split_lem_example :
    (ts : List (List ℕ)) × (split (codes "a,,b") 44 ≡ ok ts)
    × (ts ≢ [])
    × Tokens 44 ts
    × (join ts (44 ∷ []) ≡ codes "a,,b")
split_lem_example = split_lem (codes "a,,b") 44
