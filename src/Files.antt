-- ===== src/Files.antt =====
-- src/net/server/service/file_service.h and file_service.cc: what the server does with its files.
--
-- A file is the list of its bytes. An input stream is what is behind its position, the nearest byte
-- first, and what is ahead of it; the byte that `peek` sees is there, since the position is never at
-- the end of the file when it is called. A name is checked by util::fs::path, and whether a file can be
-- opened is the system's: both are parameters.
pub mod LastLine
mod Tests
use server_client_peer_netwo.Base.{
  ℕ, Bool, true, false, not, ◌&&◌, ◌||◌, Option, none, some, List, [], ◌∷◌, ◌++◌, ◌==◌,
  if◌then◌else◌, name_eq,
}
use server_client_peer_netwo.Result.{Result, ok, err, ◌>>=◌}
use mathlib.Core.List.{reverse}

-- '\n'
abbrev pub newline : ℕ
newline = 10

pub record Stream : Type 0 where
  pub behind : List ℕ
  pub ahead : List ℕ
  pub has_failed : Bool

abbrev pub open_stream : List ℕ → Stream
open_stream content = record { behind = []; ahead = content; has_failed = false }

-- `seekg(-1, std::ios_base::cur)`
unfoldable pub seek_back : Stream → Stream
seek_back s = if s.has_failed then s else elim s.behind [
  | [] ↦ record s { has_failed = true }
  | c ∷ behind ↦ record s { behind = behind; ahead = c ∷ s.ahead }
]

-- `seekg(-1, std::ios_base::end)`
unfoldable pub seek_last : Stream → Stream
seek_last s =
    if s.has_failed
    then s
    else seek_back (record s { behind = reverse s.ahead ++ s.behind; ahead = [] })

-- `peek`, where none is the end of the file
unfoldable pub peek : Stream → Option ℕ
peek s = if s.has_failed then none else elim s.ahead [ [] ↦ none | c ∷ ahead ↦ some c ]

-- `get`, for the stream
unfoldable pub get_byte : Stream → Stream
get_byte s = if s.has_failed then s else elim s.ahead [
  | [] ↦ record s { has_failed = true }
  | c ∷ ahead ↦ record s { behind = c ∷ s.behind; ahead = ahead }
]

-- The bytes before the next newline
abbrev pub to_newline : List ℕ → List ℕ
to_newline [] = []
to_newline (c ∷ cs) = let rest = to_newline cs in if c == newline then [] else c ∷ rest

-- `std::getline` into an empty string
unfoldable pub getline : Stream → List ℕ
getline s = if s.has_failed then [] else to_newline s.ahead

-- The loop of `ReadLastLine`, which goes back until it is on a newline, by what is behind: the stream,
-- and whether `ch` is a newline then.
unfoldable pub rewind : List ℕ → List ℕ → Stream × Bool
rewind [] ahead = (seek_back (record { behind = []; ahead = ahead; has_failed = false }), false)
rewind (c ∷ behind) ahead =
    let rest = rewind behind (c ∷ ahead) in
    if c == newline
    then (record { behind = behind; ahead = c ∷ ahead; has_failed = false }, true)
    else rest

abbrev pub is_newline : Option ℕ → Bool
is_newline none = false
is_newline (some c) = c == newline

-- `ReadLastLine` from where the loop starts.
unfoldable pub read_line_at : Stream → List ℕ
read_line_at s =
    let found = rewind s.behind s.ahead in getline (if found.1 then get_byte found.0 else found.0)

-- `ReadLastLine` of an open file
unfoldable pub read_last_line : List ℕ → List ℕ
read_last_line content =
    let s = seek_last (open_stream content) in
    if s.has_failed
    then []
    else if is_newline (peek s)
    then (let before = seek_back s in if before.has_failed then [] else read_line_at before)
    else read_line_at s

-- `AppendLine` to an open file
abbrev pub append_line : List ℕ → List ℕ → List ℕ
append_line content line = content ++ line ++ (newline ∷ [])

-- The files by their names, with what can be read of them, if they can be opened.
abbrev pub Directory : Type 0
Directory = List ℕ → Option (List ℕ)

-- The errors by their causes. `from_system` is one of the socket or of the directory.
pub data FileError : Type 0 where
  invalid_access : FileError
  not_opened : List ℕ → FileError
  from_system : ℕ → FileError

-- What the parameters of the service say of a name: that it is directly in the root, and that the
-- system opens it to append.
pub record Access : Type 0 where
  pub is_direct : List ℕ → Bool
  pub is_writable : List ℕ → Bool

-- `name[0] == '.'`
abbrev pub is_hidden : List ℕ → Bool
is_hidden [] = false
is_hidden (c ∷ cs) = c == 46

-- `ReadLastLine`
unfoldable pub read_file : Access → Directory → List ℕ → Result (List ℕ) FileError
read_file access files name =
    if not (access.is_direct name) || is_hidden name
    then err invalid_access
    else elim (files name) [
      | none ↦ err (not_opened name)
      | some content ↦ ok (read_last_line content)
    ]

abbrev pub content_of : Option (List ℕ) → List ℕ
content_of none = []
content_of (some content) = content

-- `AppendLine`, which creates a file that is not there.
unfoldable pub append_file : Access → Directory → List ℕ → List ℕ → Result Directory FileError
append_file access files name line =
    if not (access.is_direct name)
    then err invalid_access
    else if access.is_writable name
    then ok
        (λ n. if name_eq name n then some (append_line (content_of (files name)) line) else files n)
    else err (not_opened name)

-- `GetFiles`, of the regular files that the system lists.
unfoldable pub visible_files : Result (List (List ℕ)) FileError → Result (List (List ℕ)) FileError
visible_files (err e) = err e
visible_files (ok names) = ok (visible names)
  where
    visible : List (List ℕ) → List (List ℕ)
    visible [] = []
    visible (n ∷ ns) = let rest = visible ns in if is_hidden n then rest else n ∷ rest
