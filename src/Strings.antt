-- ===== src/Strings.antt =====
-- src/util/strings.h and strings.cc: splitting and joining. A string is the list of its bytes.
--
-- `find` from a position is a search in what follows it, and gives the bytes before the delimiter and
-- those behind it. The loop runs on the length of the string and one more round.
pub mod RoundTrip
pub mod Trim
mod Tests
use server_client_peer_netwo.Base.{
  ℕ, zero, suc, Bool, true, false, ◌&&◌, Option, none, some, List, [], ◌∷◌, ◌++◌, ltb, ◌==◌,
  if◌then◌else◌, length, take, name_eq,
}
use server_client_peer_netwo.Result.{Result, ok, err, ◌>>=◌}
use mathlib.Core.List.{reverse}

pub data Fault : Type 0 where
  no_progress : Fault

-- `src.find(delim, prev)`, with both `substr`
unfoldable pub find : ℕ → List ℕ → Option (List ℕ × List ℕ)
find delim [] = none
find delim (c ∷ cs) =
    let later = find delim cs in
    if c == delim then some ([], cs) else elim later [ none ↦ none | some p ↦ some (c ∷ p.0, p.1) ]

-- The loop of `split` by a character
unfoldable pub split_from : ℕ → List ℕ → ℕ → Result (List (List ℕ)) Fault
split_from zero src delim = err no_progress
split_from (suc fuel) src delim = elim (find delim src) [
  | none ↦ ok (src ∷ [])
  | some p ↦ do tokens ← split_from fuel p.1 delim; ok (p.0 ∷ tokens)
]

unfoldable pub split : List ℕ → ℕ → Result (List (List ℕ)) Fault
split src delim = split_from (suc (length src)) src delim

unfoldable pub join : List (List ℕ) → List ℕ → List ℕ
join [] delim = []
join (n ∷ []) delim = n
join (n ∷ (m ∷ ns)) delim = n ++ delim ++ join (m ∷ ns) delim

-- `ends_with`, which compares the ending with itself.
unfoldable pub ends_with : List ℕ → List ℕ → Bool
ends_with str ending =
    if ltb (length str) (length ending) then false else name_eq (reverse ending) (reverse ending)
