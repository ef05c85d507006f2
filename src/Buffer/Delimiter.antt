-- ===== src/Buffer/Delimiter.antt =====
-- What `get_until` does with a delimiter of util/buffer.cc: where it stops, and where it runs past.
use server_client_peer_netwo.Base.{
  ℕ, suc, ◌+◌, ◌≡◌, ◌≢◌, refl, sym, subst, ap, ◌∙◌, List, [], ◌∷◌, ◌++◌, arith, length, append-nil,
  append_assoc, get_or-append, length-append, Free,
}
use server_client_peer_netwo.Result.{Result, ok, err}
use server_client_peer_netwo.Buffer.{Buffer, Fault}
use server_client_peer_netwo.Buffer.Valid.{IsValid, contents}
use server_client_peer_netwo.Buffer.Until.{get_until, char_at, scan, Agrees, get_until-scan}

char_at-append :
    (delim pre : List ℕ) (y : ℕ) (ys : List ℕ)
    → delim ≡ pre ++ (y ∷ ys)
    → (char_at delim (length pre) ≡ ok y) × (length delim ≡ length pre + suc (length ys))
unfolding char_at
char_at-append delim pre y ys e =
    ground (arith, ap length e, length-append pre (y ∷ ys), get_or-append pre y ys 0, e)

-- What is left of the delimiter matches to its end.
scan-rest :
    (delim pre : List ℕ) (y : ℕ) (ys out rest : List ℕ)
    → delim ≡ pre ++ (y ∷ ys)
    → scan delim (length pre) out ((y ∷ ys) ++ rest) ≡ ok (out, rest)
unfolding scan
scan-rest delim pre y [] out rest e = ground (arith, char_at-append delim pre y [] e)
scan-rest delim pre y (z ∷ zs) out rest e = ground (
  arith,
  char_at-append delim pre y (z ∷ zs) e,
  length-append pre (y ∷ []),
  scan-rest delim (pre ++ (y ∷ [])) z zs out rest (e ∙ sym (append_assoc pre (y ∷ []) (z ∷ zs))),
)

-- Bytes that do not begin the delimiter are passed on.
scan-Free :
    (d : ℕ) (ds xs out rest : List ℕ)
    → Free d xs
    → scan (d ∷ ds) 0 out (xs ++ rest) ≡ scan (d ∷ ds) 0 (out ++ xs) rest
unfolding scan char_at
scan-Free d ds [] out rest f = ap (λ o. scan (d ∷ ds) 0 o rest) (sym (append-nil out))
scan-Free d ds (x ∷ xs) out rest f =
    ground (arith, scan-Free d ds xs (out ++ (x ∷ [])) rest f.1, append_assoc out (x ∷ []) xs)

pub scan-stops :
    (d : ℕ) (ds xs rest : List ℕ)
    → Free d xs
    → scan (d ∷ ds) 0 [] (xs ++ ((d ∷ ds) ++ rest)) ≡ ok (xs, rest)
scan-stops d ds xs rest f =
    scan-Free d ds xs [] ((d ∷ ds) ++ rest) f ∙ scan-rest (d ∷ ds) [] d ds xs rest refl

-- A buffer that holds `rest`, the write cursor and the capacity as they were.
pub record Left (start : Buffer) (rest : List ℕ) (b : Buffer) : Type 0 where
  pub valid : IsValid b
  pub held : contents b ≡ rest
  pub same_write : b.write ≡ start.write
  pub same_capacity : b.capacity ≡ start.capacity

Agrees-ok :
    (start : Buffer) (r : Result (List ℕ × Buffer) Fault) (out rest : List ℕ)
    → Agrees start r (ok (out, rest))
    → (b : Buffer) × (r ≡ ok (out, b)) × Left start rest b
Agrees-ok start (ok (o, b)) out rest h = (
  b,
  ap (λ x. ok (x, b)) h.0,
  record { valid = h.1; held = h.2; same_write = h.3; same_capacity = h.4 },
)
Agrees-ok start (err e) out rest h = absurd h

-- `get_until` on bytes that hold the delimiter after bytes other than its first: it returns those,
-- takes the delimiter out, and leaves what follows.
pub get_until-stops :
    {b : Buffer} (d : ℕ) (ds xs rest : List ℕ)
    → IsValid b
    → Free d xs
    → contents b ≡ xs ++ ((d ∷ ds) ++ rest)
    → (b' : Buffer) × (get_until b (d ∷ ds) ≡ ok (xs, b')) × Left b rest b'
get_until-stops {b} d ds xs rest v f e = Agrees-ok b (get_until b (d ∷ ds)) xs rest (
    subst (Agrees b (get_until b (d ∷ ds))) (ap (scan (d ∷ ds) 0 []) e ∙ scan-stops d ds xs rest f)
      (get_until-scan (d ∷ ds) v))

-- Without the delimiter's first byte all bytes are returned, and the buffer is left empty.
pub get_until-runs_out :
    {b : Buffer} (d : ℕ) (ds : List ℕ)
    → IsValid b
    → Free d (contents b)
    → (b' : Buffer) × (get_until b (d ∷ ds) ≡ ok (contents b, b')) × Left b [] b'
unfolding scan
get_until-runs_out {b} d ds v f = Agrees-ok b (get_until b (d ∷ ds)) (contents b) [] (
    subst (Agrees b (get_until b (d ∷ ds)))
      (ap (scan (d ∷ ds) 0 []) (sym (append-nil (contents b)))
        ∙ scan-Free d ds (contents b) [] [] f)
      (get_until-scan (d ∷ ds) v))

scan-repeat :
    (d e : ℕ) (out rest : List ℕ)
    → d ≢ e
    → scan (d ∷ e ∷ []) 0 out (d ∷ d ∷ e ∷ rest)
      ≡ scan (d ∷ e ∷ []) 0 (out ++ (d ∷ d ∷ e ∷ [])) rest
unfolding scan char_at
scan-repeat d e out rest ne =
    ground (arith, append_assoc out (d ∷ []) (d ∷ []), append_assoc out (d ∷ d ∷ []) (e ∷ []))

-- A two-byte delimiter that follows its own first byte is not found: on the bytes `xs`, `d`, `d`,
-- `e`, `ys` with no `d` in `xs` or `ys`, `get_until` with the delimiter `d`, `e` returns all of them.
pub get_until-misses :
    {b : Buffer} (d e : ℕ) (xs ys : List ℕ)
    → IsValid b
    → d ≢ e
    → Free d xs
    → Free d ys
    → contents b ≡ xs ++ (d ∷ d ∷ e ∷ ys)
    → (b' : Buffer) × (get_until b (d ∷ e ∷ []) ≡ ok ((xs ++ (d ∷ d ∷ e ∷ [])) ++ ys, b'))
      × Left b [] b'
unfolding scan
get_until-misses {b} d e xs ys v ne f g h =
    Agrees-ok b (get_until b (d ∷ e ∷ [])) ((xs ++ (d ∷ d ∷ e ∷ [])) ++ ys) [] (
      subst (Agrees b (get_until b (d ∷ e ∷ [])))
        (ap (scan (d ∷ e ∷ []) 0 []) h
          ∙ scan-Free d (e ∷ []) xs [] (d ∷ d ∷ e ∷ ys) f
          ∙ scan-repeat d e xs ys ne
          ∙ ap (scan (d ∷ e ∷ []) 0 (xs ++ (d ∷ d ∷ e ∷ []))) (sym (append-nil ys))
          ∙ scan-Free d (e ∷ []) ys (xs ++ (d ∷ d ∷ e ∷ [])) [] g)
        (get_until-scan (d ∷ e ∷ []) v))
