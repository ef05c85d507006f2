-- ===== src/Path.antt =====
-- src/util/path.h and path.cc: paths, without their iterators.
--
-- A path is the list of its bytes. `prefix_length_` and the length of a root name are 0 in every path that is
-- made, and are left out. A `char` is signed.
pub mod Assign
pub mod Compare
mod Tests
use server_client_peer_netwo.Base.{
  ℕ, ◌+◌, ◌%◌, Bool, true, false, not, ◌&&◌, List, [], ◌∷◌, ◌++◌, ltb, ◌==◌, if◌then◌else◌, length,
  take, drop, min,
}

abbrev pub separator : ℕ
separator = 47

abbrev pub is_separator : ℕ → Bool
is_separator c = c == 47

-- `std::unique` on separators, behind one or not
unfoldable pub unique : Bool → List ℕ → List ℕ
unique behind [] = []
unique behind (c ∷ cs) =
    let rest = unique (is_separator c) cs in if behind && is_separator c then rest else c ∷ rest

-- Two separators, and something else: a network name
unfoldable pub is_network : List ℕ → Bool
is_network (a ∷ (b ∷ (c ∷ cs))) = is_separator a && is_separator b && not (is_separator c)
is_network _ = false

unfoldable pub process_assigned_path : List ℕ → List ℕ
process_assigned_path text =
    if is_network text then take 2 text ++ unique false (drop 2 text) else unique false text

-- `assign(const std::string& str)`
unfoldable pub assign : List ℕ → List ℕ
assign str = process_assigned_path str

unfoldable pub has_root_directory : List ℕ → Bool
has_root_directory [] = false
has_root_directory (c ∷ cs) = is_separator c

unfoldable pub root_directory : List ℕ → List ℕ
root_directory p = if has_root_directory p then assign (separator ∷ []) else []

unfoldable pub root_path_length : List ℕ → ℕ
root_path_length p = if has_root_directory p then 1 else 0

unfoldable pub root_path : List ℕ → List ℕ
root_path p = assign ([] ++ root_directory p)

unfoldable pub relative_path : List ℕ → List ℕ
relative_path p = assign (drop (min (root_path_length p) (length p)) p)

unfoldable pub has_relative_path : List ℕ → Bool
has_relative_path p = ltb (root_path_length p) (length p)

unfoldable pub is_absolute : List ℕ → Bool
is_absolute p = has_root_directory p

-- The results -1, 0 and 1 of `compare`
pub data Order : Type 0 where
  less same greater : Order

-- `<` of two values of `char`
abbrev pub char_lt : ℕ → ℕ → Bool
char_lt c d = ltb ((c + 128) % 256) ((d + 128) % 256)

-- The loop over the entries, and what follows it. Where the second path ends first, the code compares its iterator with
-- the end of the first path, which it does not reach, and so goes on to read its terminating 0.
unfoldable pub compare_entries : List ℕ → List ℕ → Order
compare_entries [] [] = same
compare_entries [] (d ∷ ds) = less
compare_entries (c ∷ cs) [] = if is_separator c then less else if char_lt c 0 then less else greater
compare_entries (c ∷ cs) (d ∷ ds) =
    let rest = compare_entries cs ds in
    if c == d
    then rest
    else if is_separator c
    then less
    else if is_separator d
    then greater
    else if char_lt c d
    then less
    else greater

unfoldable pub compare : List ℕ → List ℕ → Order
compare p q = elim (has_root_directory p) [
  | true ↦ elim (has_root_directory q) [
    | true ↦ compare_entries (drop 1 p) (drop 1 q)
    | false ↦ greater
  ]
  | false ↦ elim (has_root_directory q) [ true ↦ less | false ↦ compare_entries p q ]
]

abbrev pub is_same : Order → Bool
is_same same = true
is_same _ = false

-- `operator==(const path& rhs)`
unfoldable pub path_eq : List ℕ → List ℕ → Bool
path_eq p q = is_same (compare p q)

unfoldable pub remove_trailing_separator : List ℕ → List ℕ
remove_trailing_separator [] = []
remove_trailing_separator (c ∷ []) = if is_separator c then [] else c ∷ []
remove_trailing_separator (c ∷ (d ∷ cs)) = c ∷ remove_trailing_separator (d ∷ cs)
