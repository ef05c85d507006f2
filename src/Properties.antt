-- ===== src/Properties.antt =====
-- src/program/properties.h and properties.cc: the file of key-value pairs.
--
-- The map is a list of pairs, one for a key. What `getline` gives for an open file is a list of lines.
pub mod RoundTrip
mod Tests
use server_client_peer_netwo.Base.{
  ℕ, Bool, true, false, Option, none, some, List, [], ◌∷◌, ◌++◌, ◌==◌, if◌then◌else◌, name_eq,
}
use server_client_peer_netwo.Strings.{find}

abbrev pub Pairs : Type 0
Pairs = List (List ℕ × List ℕ)

-- The errors by their texts, with the name of the file or the line
pub data PropertiesError : Type 0 where
  could_not_open : List ℕ → PropertiesError
  malformed no_value : List ℕ → PropertiesError

-- The `find` of the map
unfoldable pub value_at : Pairs → List ℕ → Option (List ℕ)
value_at [] key = none
value_at (p ∷ ps) key = let rest = value_at ps key in if name_eq p.0 key then some p.1 else rest

-- A string made of `key.data()`, which ends at the first byte 0
unfoldable pub c_string : List ℕ → List ℕ
c_string [] = []
c_string (c ∷ cs) = let rest = c_string cs in if c == 0 then [] else c ∷ rest

unfoldable pub get : Pairs → List ℕ → Option (List ℕ)
get ps key = value_at ps (c_string key)

-- `emplace` changes nothing where the key is there.
unfoldable pub emplace : Pairs → List ℕ → List ℕ → Pairs
emplace ps key value = elim (value_at ps key) [ none ↦ ps ++ ((key, value) ∷ []) | some v ↦ ps ]

-- A line that is empty or a comment
unfoldable pub is_skipped : List ℕ → Bool
is_skipped [] = true
is_skipped (c ∷ cs) = c == 35

-- `line.find('=')` gives what is before and behind it.
unfoldable pub parse_line : Pairs → List ℕ → Pairs × Option PropertiesError
parse_line ps line = if is_skipped line then (ps, none) else elim (find 61 line) [
  | none ↦ (ps, some (no_value line))
  | some p ↦ elim p.0 [
    | [] ↦ (ps, some (malformed line))
    | c ∷ cs ↦ (emplace ps (c ∷ cs) p.1, none)
  ]
]

unfoldable pub parse_lines : Pairs → List (List ℕ) → Pairs × Option PropertiesError
parse_lines ps [] = (ps, none)
parse_lines ps (l ∷ ls) = elim (parse_line ps l).1 [
  | some e ↦ ((parse_line ps l).0, some e)
  | none ↦ parse_lines (parse_line ps l).0 ls
]

unfoldable pub parse_file : Pairs → List ℕ → Option (List (List ℕ)) → Pairs × Option PropertiesError
parse_file ps file_path none = (ps, some (could_not_open file_path))
parse_file ps file_path (some lines) = parse_lines ps lines
