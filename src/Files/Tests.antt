-- ===== src/Files/Tests.antt =====
-- Files of file_service.cc with few lines.
use server_client_peer_netwo.Base.{◌≡◌, refl, [], ◌∷◌, ◌++◌, codes, arith}
use server_client_peer_netwo.Files.{
  newline, read_last_line, append_line, seek_last, seek_back, peek, read_line_at, rewind, getline,
  get_byte,
}
use server_client_peer_netwo.Files.LastLine.{read_last_line-append_line}

-- An empty last line is passed over.
empty_last_line :
    read_last_line (codes "a" ++ (newline ∷ codes "b") ++ (newline ∷ (newline ∷ []))) ≡ codes "b"
unfolding read_last_line seek_last seek_back peek read_line_at rewind getline get_byte
empty_last_line = refl

read_last_line-append_line_example :
    (read_last_line (append_line (codes "ab" ++ (newline ∷ [])) (codes "c")) ≡ codes "c")
    × (read_last_line (append_line [] (codes "c")) ≡ [])
read_last_line-append_line_example =
    read_last_line-append_line (codes "ab") (codes "c") (λ e. cc) (omega arith, tt)
