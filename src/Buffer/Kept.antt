-- ===== src/Buffer/Kept.antt =====
-- `get_until` of util/buffer.cc with a delimiter in general: no byte is lost.
use server_client_peer_netwo.Base.{ℕ, ◌<◌, ◌≡◌, ◌⊎◌, List, [], ◌++◌, length, take}
use server_client_peer_netwo.Result.{Result, ok}
use server_client_peer_netwo.Buffer.{Buffer, Fault}

-- What is read of `bytes`, and what is left
abbrev pub Kept : List ℕ → List ℕ → List ℕ → List ℕ → Type 0
Kept delim bytes out rest =
    (bytes ≡ out ++ (delim ++ rest))
    ⊎ ((rest ≡ []) × ((k : ℕ) × (k < length delim) × (bytes ≡ out ++ take k delim)))

abbrev Scanned : List ℕ → List ℕ → Result (List ℕ × List ℕ) Fault → Type 0
Scanned delim bytes r =
    (out : List ℕ) × (rest : List ℕ) × (r ≡ ok (out, rest)) × Kept delim bytes out rest
