-- ===== src/NodeIds.antt =====
-- src/net/peer/service/node_id_service.h and node_id_service.cc: which node is at which location.
--
-- An iterator of `entries_list_` is a number that is given once. An iterator of what was erased must not be
-- used, which is the fault here; this goes for the iterators of the maps, too.
pub mod Runs
mod Tests
use server_client_peer_netwo.Base.{
  ℕ, ◌+◌, Bool, true, false, ◌&&◌, ◌||◌, Option, none, some, List, [], ◌∷◌, ◌==◌, if◌then◌else◌,
}
use server_client_peer_netwo.Peer.{Location, same_location}
use server_client_peer_netwo.Result.{Result, ok, err, ◌>>=◌}

-- `Location::operator==`, where `kAnyPort`, 0, is equal to each port
abbrev pub location_eq : Location → Location → Bool
location_eq a b = (a.0 == b.0) && ((a.1 == 0) || (b.1 == 0) || (a.1 == b.1))

pub record Entry : Type 0 where
  pub id : ℕ
  pub location : Location

pub record NodeIds : Type 0 where
  pub next : ℕ
  pub entries : ℕ → Option Entry
  pub by_id : ℕ → Option ℕ
  pub by_location : Location → Option ℕ

abbrev pub no_nodes : NodeIds
no_nodes = record { next = 0; entries = λ k. none; by_id = λ i. none; by_location = λ l. none }

pub data Fault : Type 0 where
  dangling : Fault

-- `it->second`
abbrev pub entry_at : NodeIds → ℕ → Result Entry Fault
entry_at s k = elim (s.entries k) [ none ↦ err dangling | some e ↦ ok e ]

unfoldable pub get_location_by_id : NodeIds → ℕ → Result (Option Location) Fault
get_location_by_id s i = elim (s.by_id i) [
  | none ↦ ok none
  | some k ↦ do e ← entry_at s k; ok (some e.location)
]

unfoldable pub get_id_by_location : NodeIds → Location → Result (Option ℕ) Fault
get_id_by_location s l = elim (s.by_location l) [
  | none ↦ ok none
  | some k ↦ do e ← entry_at s k; ok (some e.id)
]

-- `emplace` keeps an entry that is there.
abbrev pub emplaced : Option ℕ → ℕ → Option ℕ
emplaced none k = some k
emplaced (some old) k = some old

abbrev pub inserted : NodeIds → Location → ℕ → NodeIds
inserted s l i = record {
  next = s.next + 1;
  entries = λ k. if k == s.next then some (record { id = i; location = l }) else s.entries k;
  by_id = λ j. if j == i then emplaced (s.by_id j) s.next else s.by_id j;
  by_location =
      λ m. if same_location m l then emplaced (s.by_location m) s.next else s.by_location m;
}

-- `Add`: the node ids, and whether there is no error.
unfoldable pub add : NodeIds → Location → ℕ → Result (NodeIds × Bool) Fault
add s l i = elim (s.by_id i) [
  | some k ↦ do e ← entry_at s k; ok (s, location_eq e.location l)
  | none ↦ ok (inserted s l i, true)
]

abbrev pub erased : NodeIds → ℕ → Entry → NodeIds
erased s k e = record s {
  entries = λ j. if j == k then none else s.entries j;
  by_id = λ i. if i == e.id then none else s.by_id i;
  by_location = λ l. if same_location l e.location then none else s.by_location l;
}

-- `Remove(const Location& location)`. After the first `erase` the code uses `it`, the iterator of the map at
-- `l`, again: it dangles if the node at `l` was the one erased.
unfoldable pub remove_location : NodeIds → Location → Result NodeIds Fault
remove_location s l = elim (s.by_location l) [
  | none ↦ ok s
  | some k ↦ do
    e ← entry_at s k
    if same_location l e.location then err dangling else ok (erased s k e)
]

-- `Remove(proto::node_id_t id)`. Here the second `erase` is of the map that `it` is an iterator of.
unfoldable pub remove_id : NodeIds → ℕ → Result NodeIds Fault
remove_id s i = elim (s.by_id i) [
  | none ↦ ok s
  | some k ↦ do e ← entry_at s k; if i == e.id then err dangling else ok (erased s k e)
]

pub data Change : Type 0 where
  adds : Location → ℕ → Change
  removes_location : Location → Change
  removes_id : ℕ → Change

unfoldable pub apply : NodeIds → Change → Result NodeIds Fault
apply s (adds l i) = do (s', done) ← add s l i; ok s'
apply s (removes_location l) = remove_location s l
apply s (removes_id i) = remove_id s i

unfoldable pub apply_all : NodeIds → List Change → Result NodeIds Fault
apply_all s [] = ok s
apply_all s (c ∷ cs) = do s' ← apply s c; apply_all s' cs
