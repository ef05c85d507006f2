-- ===== src/Files/LastLine.antt =====
-- Which line ReadLastLine of file_service.cc finds.
use server_client_peer_netwo.Base.{
  ℕ, ◌≡◌, ◌≢◌, Free, refl, sym, ap, subst, ◌∙◌, true, false, List, [], ◌∷◌, ◌++◌, append-nil,
  append_assoc, arith, ◌⊎◌, inl, inr,
}
use mathlib.Core.List.{
  reverse, reverse_aux, reverse_aux-eq, reverse-append, reverse-reverse, reverse-cons,
}
use server_client_peer_netwo.Files.{
  newline, seek_back, seek_last, peek, get_byte, to_newline, getline, rewind, read_line_at,
  read_last_line, append_line,
}

to_newline-Free :
    (line after : List ℕ) → Free newline line → to_newline (line ++ (newline ∷ after)) ≡ line
to_newline-Free [] after h = refl
to_newline-Free (x ∷ xs) after h = ground (arith, to_newline-Free xs after h.1)

to_newline-end : (line : List ℕ) → Free newline line → to_newline line ≡ line
to_newline-end [] h = refl
to_newline-end (x ∷ xs) h = ground (arith, to_newline-end xs h.1)

-- The loop stops on the first newline behind.
rewind-newline :
    (mid behind ahead : List ℕ)
    → Free newline mid
    → rewind (mid ++ (newline ∷ behind)) ahead ≡ (
      record { behind = behind; ahead = newline ∷ reverse_aux mid ahead; has_failed = false },
      true,
    )
unfolding rewind
rewind-newline [] behind ahead h = refl
rewind-newline (x ∷ xs) behind ahead h = ground (arith, rewind-newline xs behind (x ∷ ahead) h.1)

-- Without a newline behind, the stream fails.
rewind-start :
    (mid ahead : List ℕ)
    → Free newline mid
    → rewind mid ahead
      ≡ (record { behind = []; ahead = reverse_aux mid ahead; has_failed = true }, false)
unfolding rewind seek_back
rewind-start [] ahead h = refl
rewind-start (x ∷ xs) ahead h = ground (arith, rewind-start xs (x ∷ ahead) h.1)

reverse-line :
    (before line : List ℕ)
    → reverse (before ++ (newline ∷ line)) ≡ reverse line ++ (newline ∷ reverse before)
reverse-line before line =
    reverse-append before (newline ∷ line)
    ∙ ap (λ x. x ++ reverse before) (reverse-cons newline line)
    ∙ append_assoc (reverse line) (newline ∷ []) (reverse before)

reverse-end : (line : List ℕ) → reverse (line ++ (newline ∷ [])) ≡ newline ∷ reverse line
reverse-end line = reverse-append line (newline ∷ [])

-- Where the loop starts, by the last bytes.
read-last :
    (content behind : List ℕ) (c : ℕ)
    → reverse content ≡ c ∷ behind
    → c ≢ newline
    → read_last_line content
      ≡ read_line_at (record { behind = behind; ahead = c ∷ []; has_failed = false })
unfolding read_last_line seek_last seek_back peek
read-last content behind c e h = ground (arith, e, append-nil (reverse content))

read-ended :
    (content behind : List ℕ) (c : ℕ)
    → reverse content ≡ newline ∷ (c ∷ behind)
    → read_last_line content
      ≡ read_line_at (record { behind = behind; ahead = c ∷ (newline ∷ []); has_failed = false })
unfolding read_last_line seek_last seek_back peek
read-ended content behind c e = ground (arith, e, append-nil (reverse content))

read-bare :
    (content : List ℕ)
    → (reverse content ≡ []) ⊎ (reverse content ≡ newline ∷ [])
    → read_last_line content ≡ []
unfolding read_last_line seek_last seek_back peek
read-bare content (inl e) = ground (arith, e, append-nil (reverse content))
read-bare content (inr e) = ground (arith, e, append-nil (reverse content))

read-after_newline :
    (mid rest ahead : List ℕ)
    → Free newline mid
    → read_line_at (record { behind = mid ++ (newline ∷ rest); ahead = ahead; has_failed = false })
      ≡ to_newline (reverse_aux mid ahead)
unfolding read_line_at getline get_byte
read-after_newline mid rest ahead h = ground (arith, rewind-newline mid rest ahead h)

read-from_start :
    (mid ahead : List ℕ)
    → Free newline mid
    → read_line_at (record { behind = mid; ahead = ahead; has_failed = false }) ≡ []
unfolding read_line_at getline
read-from_start mid ahead h = ground (arith, rewind-start mid ahead h)

Free-append : (xs ys : List ℕ) → Free newline xs → Free newline ys → Free newline (xs ++ ys)
Free-append [] ys f g = g
Free-append (x ∷ xs) ys f g = (f.0, Free-append xs ys f.1 g)

Free-reverse : (xs : List ℕ) → Free newline xs → Free newline (reverse xs)
Free-reverse [] f = f
Free-reverse (x ∷ xs) f =
    subst (Free newline) (sym (reverse-cons x xs))
      (Free-append (reverse xs) (x ∷ []) (Free-reverse xs f.1) (f.0, tt))

-- A line by its last byte
abbrev Reversed : List ℕ → Type 0
Reversed line = (c : ℕ) × (cs : List ℕ) × (reverse line ≡ c ∷ cs)

ends : (line : List ℕ) → line ≢ [] → Reversed line
ends line h = by_reverse (reverse line) refl
  where
    by_reverse : (r : List ℕ) → reverse line ≡ r → Reversed line
    by_reverse [] e = elim (h (sym (reverse-reverse line) ∙ ap reverse e)) [ ]
    by_reverse (c ∷ cs) e = (c, cs, e)

whole :
    (line cs after : List ℕ) (c : ℕ)
    → reverse line ≡ c ∷ cs
    → reverse_aux cs (c ∷ after) ≡ line ++ after
whole line cs after c e =
    ap (λ r. reverse_aux r after) (sym e)
    ∙ reverse_aux-eq (reverse line) after
    ∙ ap (λ r. r ++ after) (reverse-reverse line)

module _ (before line : List ℕ) (nonempty : line ≢ []) (free : Free newline line) where
  unended : read_last_line (before ++ (newline ∷ line)) ≡ line
  unended =
      let (c, cs, e) = ends line nonempty in
      let f : Free newline (c ∷ cs) = subst (Free newline) e (Free-reverse line free) in
      read-last (before ++ (newline ∷ line)) (cs ++ (newline ∷ reverse before)) c
        (reverse-line before line ∙ ap (λ r. r ++ (newline ∷ reverse before)) e) f.0
      ∙ read-after_newline cs (reverse before) (c ∷ []) f.1
      ∙ ap to_newline (whole line cs [] c e ∙ append-nil line)
      ∙ to_newline-end line free

  ended : read_last_line (before ++ (newline ∷ line) ++ (newline ∷ [])) ≡ line
  ended =
      let (c, cs, e) = ends line nonempty in
      let f : Free newline (c ∷ cs) = subst (Free newline) e (Free-reverse line free) in
      read-ended ((before ++ (newline ∷ line)) ++ (newline ∷ [])) (cs ++ (newline ∷ reverse before))
        c
        (reverse-end (before ++ (newline ∷ line))
          ∙ ap (λ r. newline ∷ r)
              (reverse-line before line ∙ ap (λ r. r ++ (newline ∷ reverse before)) e))
      ∙ read-after_newline cs (reverse before) (c ∷ (newline ∷ [])) f.1
      ∙ ap to_newline (whole line cs (newline ∷ []) c e)
      ∙ to_newline-Free line [] free

-- A line that is not the first of its file and not empty, with or without a newline after it, is
-- read as the last line of the file.
pub read_last_line_lem :
    (before line : List ℕ)
    → line ≢ []
    → Free newline line
    → (read_last_line (before ++ (newline ∷ line)) ≡ line)
      × (read_last_line (before ++ (newline ∷ line) ++ (newline ∷ [])) ≡ line)
read_last_line_lem before line h f = (unended before line h f, ended before line h f)

single : (line : List ℕ) → Free newline line → read_last_line line ≡ []
single [] free = read-bare [] (inl refl)
single (x ∷ xs) free =
    let (c, cs, e) = ends (x ∷ xs) (λ e. cc) in
    let f : Free newline (c ∷ cs) = subst (Free newline) e (Free-reverse (x ∷ xs) free) in
    read-last (x ∷ xs) cs c e f.0 ∙ read-from_start cs (c ∷ []) f.1

single-ended : (line : List ℕ) → Free newline line → read_last_line (line ++ (newline ∷ [])) ≡ []
single-ended [] free = read-bare (newline ∷ []) (inr refl)
single-ended (x ∷ xs) free =
    let (c, cs, e) = ends (x ∷ xs) (λ e. cc) in
    let f : Free newline (c ∷ cs) = subst (Free newline) e (Free-reverse (x ∷ xs) free) in
    read-ended ((x ∷ xs) ++ (newline ∷ [])) cs c (reverse-end (x ∷ xs) ∙ ap (λ r. newline ∷ r) e)
    ∙ read-from_start cs (c ∷ (newline ∷ [])) f.1

-- Of a file with one line, with or without a newline after it, nothing is read.
pub read_last_line-single :
    (line : List ℕ)
    → Free newline line
    → (read_last_line line ≡ []) × (read_last_line (line ++ (newline ∷ [])) ≡ [])
read_last_line-single line free = (single line free, single-ended line free)

-- A line that is not empty and has no newline is read after it was appended to a file that ends in a
-- newline. After it was appended to an empty file, nothing is read.
pub read_last_line-append_line :
    (before line : List ℕ)
    → line ≢ []
    → Free newline line
    → (read_last_line (append_line (before ++ (newline ∷ [])) line) ≡ line)
      × (read_last_line (append_line [] line) ≡ [])
read_last_line-append_line before line h f = (
  ap (λ x. read_last_line (x ++ (newline ∷ []))) (append_assoc before (newline ∷ []) line)
      ∙ ended before line h f,
  single-ended line f,
)
