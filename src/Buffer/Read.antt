-- ===== src/Buffer/Read.antt =====
-- Reading from a buffer: `advance_read`, `consume` and `get` drop bytes from the front.
use server_client_peer_netwo.Base.{
  ℕ, suc, ◌+◌, ◌-◌, ◌≤◌, ◌<◌, ◌≡◌, sym, ap, ◌∙◌, ◌⊎◌, inl, inr, false, List, [], ◌∷◌, ltb, ◌==◌,
  if◌then◌else◌, tabulate, length, tabulate-pos, Bool-cases, drop, drop-tabulate, tabulate-congr,
  arith,
}
use server_client_peer_netwo.Result.{ok, err}
use server_client_peer_netwo.Buffer.{Buffer, size, get, consume, advance_read, overflow, empty_read}
use server_client_peer_netwo.Buffer.Valid.{
  IsValid, offset, contents, size-used, size-le, length-contents, circle_lem, empty-iff_size,
}

-- The buffer after `advance_read`.
abbrev pub released : Buffer → ℕ → Buffer
released b by = record b {
  read = offset b.capacity b.read by;
  full = if by == 0 then b.full else false;
}

pub advance_read_lem :
    {b : Buffer} (by : ℕ) → IsValid b → by ≤ size b → advance_read b by ≡ ok (released b by)
unfolding advance_read
advance_read_lem {b} by v h = ground (arith, size-le v, circle_lem b.read by v, size-used v)

pub released-IsValid : {b : Buffer} (by : ℕ) → IsValid b → by ≤ size b → IsValid (released b by)
released-IsValid {b} by v h = ground (arith, size-used v)

pub size-released :
    {b : Buffer} (by : ℕ) → IsValid b → by ≤ size b → size (released b by) ≡ size b - by
size-released {b} by v h = ground (arith, size-used v, size-used (released-IsValid by v h))

pub contents-released :
    {b : Buffer} (by : ℕ)
    → IsValid b
    → by ≤ size b
    → contents (released b by) ≡ drop by (contents b)
unfolding contents
contents-released {b} by v h =
    ap (λ n. tabulate n after) (size-released by v h)
    ∙ tabulate-congr (size b - by) after (λ i. before (by + i)) (λ i p. ap b.mem (same i p))
    ∙ sym (drop-tabulate by (size b) before h)
  where
    after : ℕ → ℕ
    after i = b.mem (offset b.capacity (released b by).read i)

    before : ℕ → ℕ
    before i = b.mem (offset b.capacity b.read i)

    same :
        (i : ℕ)
        → i < size b - by
        → offset b.capacity (released b by).read i ≡ offset b.capacity b.read (by + i)
    same i p = ground (arith, size-used v)

-- `consume` of at most the bytes held drops exactly them; of more it throws.
pub consume_lem :
    {b : Buffer} (n : ℕ)
    → IsValid b
    → ((n ≤ size b)
        × (consume b n ≡ ok (released b n))
        × IsValid (released b n)
        × (contents (released b n) ≡ drop n (contents b)))
      ⊎ ((size b < n) × (consume b n ≡ err overflow))
unfolding consume
consume_lem {b} n v = elim (Bool-cases (ltb (size b) n)) [
  | inl over ↦ inr (ground arith, rw over)
  | inr fits ↦
      let h : n ≤ size b = ground arith in
      inl (h, rw fits (advance_read_lem n v h), released-IsValid n v h, contents-released n v h)
]

contents-pos :
    {b : Buffer} → IsValid b → 0 < size b → (rest : List ℕ) × (contents b ≡ b.mem b.read ∷ rest)
unfolding contents
contents-pos {b} v h = (rest, tabulate-pos (size b) byte h ∙ ap (λ k. b.mem k ∷ rest) start)
  where
    byte : ℕ → ℕ
    byte i = b.mem (offset b.capacity b.read i)

    rest : List ℕ
    rest = tabulate (size b - 1) (λ i. byte (suc i))

    start : offset b.capacity b.read 0 ≡ b.read
    start = ground arith

size-contents : (b : Buffer) (x : ℕ) (xs : List ℕ) → contents b ≡ x ∷ xs → 0 < size b
size-contents b x xs e = omega (arith, length-contents b, ap length e)

-- `get` on a valid buffer takes the oldest byte and leaves the others; nothing else can happen but
-- the exception on an empty buffer.
pub get_lem :
    {b : Buffer} (x : ℕ) (xs : List ℕ)
    → IsValid b
    → contents b ≡ x ∷ xs
    → (get b ≡ ok (x, released b 1)) × IsValid (released b 1) × (contents (released b 1) ≡ xs)
unfolding get
get_lem {b} x xs v e =
    let pos = size-contents b x xs e in
    let (rest, hd) = contents-pos v pos in
    (
      ground (arith, empty-iff_size v, advance_read_lem 1 v, hd, e),
      released-IsValid 1 v pos,
      contents-released 1 v pos ∙ ap (drop 1) e,
    )

pub get-empty : {b : Buffer} → IsValid b → contents b ≡ [] → get b ≡ err empty_read
unfolding get
get-empty {b} v e = ground (arith, empty-iff_size v, length-contents b, ap length e)
