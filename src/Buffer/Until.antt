-- ===== src/Buffer/Until.antt =====
-- `get_until` of util/buffer.cc: reading up to a delimiter.
--
-- `delim` is the delimiter's characters, all ASCII in the repository, so that comparing a byte with
-- a `char` is comparing two numbers.
use mathlib.Core.Path.{subst₂}
use server_client_peer_netwo.Base.{
  ℕ, zero, suc, ◌+◌, ◌<◌, ◌≡◌, refl, sym, ap, inl, inr, true, false, List, [], ◌∷◌, ◌++◌, ltb, ◌==◌,
  if◌then◌else◌, Bool-cases, arith, length, get_or, take,
}
use server_client_peer_netwo.Result.{Result, ok, err, ◌>>=◌, Result-cases}
use server_client_peer_netwo.Buffer.{Buffer, Fault, size, empty, get, bad_access, no_progress}
use server_client_peer_netwo.Buffer.Valid.{IsValid, contents, length-contents, empty-iff_size}
use server_client_peer_netwo.Buffer.Read.{released, get_lem}

-- `delim[pos]`: the terminating 0 at the end, and nothing past it.
unfoldable pub char_at : List ℕ → ℕ → Result ℕ Fault
char_at delim pos =
    if ltb pos (length delim)
    then ok (get_or delim pos 0)
    else if pos == length delim
    then ok 0
    else err bad_access

-- What a byte that does not match adds to the output: first the part of the delimiter that was
-- matched before it.
abbrev pub flush : List ℕ → ℕ → List ℕ → ℕ → List ℕ
flush delim pos out next = (if ltb 0 pos then out ++ take pos delim else out) ++ (next ∷ [])

-- The loop, on fuel.
unfoldable pub until_loop : ℕ → Buffer → List ℕ → ℕ → List ℕ → Result (List ℕ × Buffer) Fault
until_loop zero b delim pos out = err no_progress
until_loop (suc fuel) b delim pos out = elim (empty b) [
  | true ↦ ok (out, b)
  | false ↦ do
    (next, b') ← get b
    c ← char_at delim pos
    elim (next == c) [
      | true ↦ elim (pos + 1 == length delim) [
        | true ↦ ok (out, b')
        | false ↦ until_loop fuel b' delim (pos + 1) out
      ]
      | false ↦ until_loop fuel b' delim 0 (flush delim pos out next)
    ]
]

unfoldable pub get_until : Buffer → List ℕ → Result (List ℕ × Buffer) Fault
get_until b delim = until_loop (size b + 1) b delim 0 []

-- The same scan over a list: what is read, and what is left.
unfoldable pub scan : List ℕ → ℕ → List ℕ → List ℕ → Result (List ℕ × List ℕ) Fault
scan delim pos out [] = ok (out, [])
scan delim pos out (x ∷ xs) = do
  c ← char_at delim pos
  elim (x == c) [
    | true ↦ elim (pos + 1 == length delim) [
      | true ↦ ok (out, xs)
      | false ↦ scan delim (pos + 1) out xs
    ]
    | false ↦ scan delim 0 (flush delim pos out x) xs
  ]

-- The buffer's read and the list's agree: the same bytes read, and the same left. The write cursor
-- and the capacity are those of `start`.
abbrev pub Agrees :
    Buffer → Result (List ℕ × Buffer) Fault → Result (List ℕ × List ℕ) Fault → Type 0
Agrees start (ok (out, b)) (ok (out', rest)) =
    (out ≡ out')
    × IsValid b
    × (contents b ≡ rest)
    × (b.write ≡ start.write)
    × (b.capacity ≡ start.capacity)
Agrees start (err e) (err e') = e ≡ e'
Agrees start _ _ = ⊥

Agrees-subst :
    (start : Buffer) {r r' : Result (List ℕ × Buffer) Fault} {s s' : Result (List ℕ × List ℕ) Fault}
    → r ≡ r'
    → s ≡ s'
    → Agrees start r' s'
    → Agrees start r s
Agrees-subst start p q h = subst₂ (Agrees start) (sym p) (sym q) h

step-scan :
    (fuel : ℕ) (b : Buffer) (delim : List ℕ) (pos : ℕ) (out : List ℕ) (x : ℕ) (xs : List ℕ)
    → IsValid b
    → contents b ≡ x ∷ xs
    → ((pos : ℕ) (out : List ℕ)
        → Agrees b (until_loop fuel (released b 1) delim pos out) (scan delim pos out xs))
    → Agrees b (until_loop (suc fuel) b delim pos out) (scan delim pos out (x ∷ xs))
unfolding until_loop scan
step-scan fuel b delim pos out x xs v e ih =
    let (got, v', left) = get_lem x xs v e in
    let held : empty b ≡ false = ground (arith, empty-iff_size v, length-contents b, ap length e) in
    elim (Result-cases (char_at delim pos)) [
      | inr (f, bad) ↦ Agrees-subst b {r' = err f} {s' = err f} (ground arith) (ground arith) refl
      | inl (c, good) ↦ elim (Bool-cases (x == c)) [
        | inr other ↦ Agrees-subst b (ground arith) (ground arith) (ih 0 (flush delim pos out x))
        | inl same ↦ elim (Bool-cases (pos + 1 == length delim)) [
          | inl last ↦
              Agrees-subst b {r' = ok (out, released b 1)} {s' = ok (out, xs)} (ground arith)
                (ground arith) (refl, v', left, refl, refl)
          | inr more ↦ Agrees-subst b (ground arith) (ground arith) (ih (pos + 1) out)
        ]
      ]
    ]

until_loop-scan :
    (fuel : ℕ) (b : Buffer) (delim : List ℕ) (pos : ℕ) (out xs : List ℕ)
    → IsValid b
    → contents b ≡ xs
    → length xs < fuel
    → Agrees b (until_loop fuel b delim pos out) (scan delim pos out xs)
unfolding until_loop scan
until_loop-scan zero b delim pos out xs v e h = absurd (omega arith)
until_loop-scan (suc fuel) b delim pos out [] v e h =
    let none_left : empty b ≡ true =
      ground (arith, empty-iff_size v, length-contents b, ap length e) in
    rw (none_left, Agrees) (refl, v, e, refl, refl)
until_loop-scan (suc fuel) b delim pos out (x ∷ xs) v e h =
    step-scan fuel b delim pos out x xs v e (λ pos' out'.
      until_loop-scan fuel (released b 1) delim pos' out' xs (get_lem x xs v e).1
        (get_lem x xs v e).2 (omega arith))

-- `get_until` ends, faults only where the scan of the bytes held does, and else returns what the
-- scan returns and leaves what it leaves.
pub get_until-scan :
    {b : Buffer} (delim : List ℕ)
    → IsValid b
    → Agrees b (get_until b delim) (scan delim 0 [] (contents b))
unfolding get_until
get_until-scan {b} delim v =
    until_loop-scan (size b + 1) b delim 0 [] (contents b) v refl (omega (arith, length-contents b))
