-- ===== src/Bytes/RoundTrip.antt =====
-- What `insert` of util/bytes.h writes, and when `extract` reads it back.
use Prim.Native.Nat.{bit_or}
use native.Mathlib.Nat.{pow-suc, pow-le-pow_right, mul-le-mul_right}
use native.Mathlib.Numerals.{towards_suc}
use server_client_peer_netwo.Base.{
  ℕ, zero, suc, ◌+◌, ◌*◌, ◌/◌, ◌%◌, ◌^◌, ◌≤◌, ◌<◌, ◌≡◌, refl, sym, ap, ◌∙◌, inl, inr, List, [], ◌∷◌,
  ◌++◌, ◌≢◌, Bool-cases, ◌==◌, append-nil, append_assoc, true, ltb, arith, length, length-append,
}
use server_client_peer_netwo.Base.Bits.{bit_or_disjoint}
use server_client_peer_netwo.Result.{ok}
use server_client_peer_netwo.Buffer.{Buffer, put_byte, put, get, space_remaining, put_iter}
use server_client_peer_netwo.Buffer.Valid.{IsValid, contents, length-contents, space_remaining_lem}
use server_client_peer_netwo.Buffer.Read.{released, get_lem}
use server_client_peer_netwo.Buffer.Write.{put_iter-in_place}
use server_client_peer_netwo.Bytes.{
  insert, shift_int, int_to_unsigned, extract_loop, extract, width,
}

-- The `n` lowest bytes of a number, the least significant first.
unfoldable pub le_bytes : ℕ → ℕ → List ℕ
le_bytes zero v = []
le_bytes (suc n) v = (v % 256) ∷ le_bytes n (v / 256)

pub length-le_bytes : (n v : ℕ) → length (le_bytes n v) ≡ n
unfolding le_bytes
length-le_bytes zero v = refl
length-le_bytes (suc n) v = ap suc (length-le_bytes n (v / 256))

put_byte-iter : (b : Buffer) (x : ℕ) → put_byte b x true ≡ put_iter b (x ∷ []) true
unfolding put_byte put
put_byte-iter b x = refl

-- `insert` with room for its bytes appends the `n` lowest bytes of the number; the other fields move
-- as for one write of them.
pub insert_lem :
    (n v : ℕ) {b : Buffer}
    → IsValid b
    → n ≤ space_remaining b
    → (b' : Buffer) × (insert n b v ≡ ok b')
      × IsValid b'
      × (contents b' ≡ contents b ++ le_bytes n v)
      × (b'.capacity ≡ b.capacity)
      × (b'.read ≡ b.read)
unfolding insert le_bytes
insert_lem zero v {b} val room = (b, refl, val, sym (append-nil (contents b)), refl, refl)
insert_lem (suc n) v {b} val room =
    let (mid, e, w) = put_iter-in_place ((v % 256) ∷ []) true val (omega arith) in
    let left : n ≤ space_remaining mid = omega (
      arith,
      space_remaining_lem val,
      space_remaining_lem w.valid,
      length-contents b,
      length-contents mid,
      ap length w.held,
      length-append (contents b) ((v % 256) ∷ []),
      w.same_capacity,
    ) in
    let (last, e', val', held, cap, rd) = insert_lem n (v / 256) {b = mid} w.valid left in
    (
      last,
      ground (arith, put_byte-iter b (v % 256), e, e'),
      val',
      held
          ∙ ap (λ xs. xs ++ le_bytes n (v / 256)) w.held
          ∙ append_assoc (contents b) ((v % 256) ∷ []) (le_bytes n (v / 256)),
      cap ∙ w.same_capacity,
      rd ∙ w.same_read,
    )

pow_next : (i : ℕ) → 2 ^ ((i + 1) * 8) ≡ 2 ^ (i * 8) * 256
pow_next i =
    ap (λ k. 2 ^ k) {x = (i + 1) * 8} {y = i * 8 + 8} (omega arith)
    ∙ simp towards_suc (omega (arith, pow-suc))

-- A valid buffer that holds `rest`, and has its write cursor and array where `b` has them.
pub record Extracted (b : Buffer) (rest : List ℕ) (b' : Buffer) : Type 0 where
  pub valid : IsValid b'
  pub held : contents b' ≡ rest
  pub same_write : b'.write ≡ b.write
  pub same_capacity : b'.capacity ≡ b.capacity

extract_step :
    (overshift : ℕ → ℕ → ℕ) (w n i result byte : ℕ) (b : Buffer) {b' : Buffer}
    → get b ≡ ok (byte, b')
    → extract_loop overshift w (suc n) i result b
      ≡ extract_loop overshift w n
          (i + 1)
          (bit_or result (int_to_unsigned w (shift_int overshift byte (i * 8))))
          b'
unfolding extract_loop
extract_step overshift w n i result byte b e = rw e

module _ (overshift : ℕ → ℕ → ℕ) (w bound : ℕ)
    (fits : (byte i : ℕ)
      → byte < 256
      → byte * 2 ^ (i * 8) < bound
      → int_to_unsigned w (shift_int overshift byte (i * 8)) ≡ byte * 2 ^ (i * 8)) where
  pub extract_loop-le_bytes :
      (n i result v : ℕ) (rest : List ℕ) {b : Buffer}
      → IsValid b
      → contents b ≡ le_bytes n v ++ rest
      → v < 256 ^ n
      → result < 2 ^ (i * 8)
      → result + v * 2 ^ (i * 8) < bound
      → (b' : Buffer) × (extract_loop overshift w n i result b ≡ ok (result + v * 2 ^ (i * 8), b'))
        × Extracted b rest b'
  unfolding extract_loop le_bytes
  extract_loop-le_bytes zero i result v rest {b} val e small low top =
      let nothing : v ≡ 0 = omega arith in
      let total : result ≡ result + v * 2 ^ (i * 8) =
        omega (arith, ap (λ t. t * 2 ^ (i * 8)) nothing) in
      (
        b,
        ap (λ r. ok (r, b)) total,
        record { valid = val; held = e; same_write = refl; same_capacity = refl },
      )
  extract_loop-le_bytes (suc n) i result v rest {b} val e small low top =
      let (got, val', left) = get_lem (v % 256) (le_bytes n (v / 256) ++ rest) val e in
      let split : v * p ≡ (v / 256 * 256 + v % 256) * p =
        ap (λ t. t * p) {x = v} {y = v / 256 * 256 + v % 256} (omega arith) in
      let bit : (v % 256) * p ≤ 255 * p = mul-le-mul_right p (omega arith) in
      let joins : bit_or result (int_to_unsigned w (shift_int overshift (v % 256) (i * 8)))
          ≡ result + (v % 256) * p =
        ap (bit_or result) (fits (v % 256) i (omega arith) (omega (arith, split)))
        ∙ bit_or_disjoint (i * 8) result (v % 256) low in
      let shifted : v / 256 * 2 ^ ((i + 1) * 8) ≡ v / 256 * p * 256 =
        omega (arith, ap (λ t. v / 256 * t) (pow_next i)) in
      let (last, e', ext) =
        extract_loop-le_bytes n (i + 1) (result + (v % 256) * p) (v / 256) rest val' left
          (omega (arith, pow-suc 256 n)) (omega (arith, pow_next i, bit))
          (omega (arith, shifted, split)) in
      (
        last,
        extract_step overshift w n i result (v % 256) b got
            ∙ ap (λ r. extract_loop overshift w n (i + 1) r (released b 1)) joins
            ∙ e'
            ∙ ap (λ r. ok (r, last)) {x = result + (v % 256) * p + v / 256 * 2 ^ ((i + 1) * 8)}
                {y = result + v * p} (omega (arith, shifted, split)),
        record {
          valid = ext.valid;
          held = ext.held;
          same_write = ext.same_write;
          same_capacity = ext.same_capacity;
        },
      )
    where
      p : ℕ
      p = 2 ^ (i * 8)

-- A byte that is not 0 and lands below 2 ^ 32 was shifted by less than 32.
count-lt : (byte i : ℕ) → byte ≢ 0 → byte * 2 ^ (i * 8) < 2 ^ 32 → i * 8 < 32
count-lt byte i ne h = elim (Bool-cases (ltb (i * 8) 32)) [
  | inl small ↦ ground arith
  | inr large ↦
      let wide : 2 ^ 32 ≤ 2 ^ (i * 8) =
        pow-le-pow_right {n = 2} (omega arith) {i = 32} {j = i * 8} (ground arith) in
      let once : 1 * 2 ^ (i * 8) ≤ byte * 2 ^ (i * 8) =
        mul-le-mul_right (2 ^ (i * 8)) (omega arith) in
      absurd (omega arith)
]

module _ (overshift : ℕ → ℕ → ℕ) (zero_shift : (k : ℕ) → overshift 0 k ≡ 0) (byte i : ℕ) where
  shift_int-fits :
      byte * 2 ^ (i * 8) < 2 ^ 32 → shift_int overshift byte (i * 8) ≡ byte * 2 ^ (i * 8)
  unfolding shift_int
  shift_int-fits h = elim (Bool-cases (byte == 0)) [
    | inl none_set ↦
        let e : byte ≡ 0 = ground arith in
        ground (arith, zero_shift (i * 8), ap (λ t. t * 2 ^ (i * 8)) e)
    | inr some_set ↦ ground (arith, count-lt byte i)
  ]

  byte_fits :
      byte * 2 ^ (i * 8) < 256
      → int_to_unsigned 8 (shift_int overshift byte (i * 8)) ≡ byte * 2 ^ (i * 8)
  unfolding int_to_unsigned
  byte_fits h = ground (arith, shift_int-fits)

  word_fits :
      byte * 2 ^ (i * 8) < 2 ^ 32
      → int_to_unsigned 32 (shift_int overshift byte (i * 8)) ≡ byte * 2 ^ (i * 8)
  unfolding int_to_unsigned
  word_fits h = ground (arith, shift_int-fits)

  long_fits :
      byte * 2 ^ (i * 8) < 2 ^ 31
      → int_to_unsigned 64 (shift_int overshift byte (i * 8)) ≡ byte * 2 ^ (i * 8)
  unfolding int_to_unsigned
  long_fits h = ground (arith, shift_int-fits)

module _ (overshift : ℕ → ℕ → ℕ) (zero_shift : (k : ℕ) → overshift 0 k ≡ 0) (v : ℕ) (rest : List ℕ)
    {b : Buffer} (val : IsValid b) where
  -- `extract<1>` after `insert<1>`
  pub extract-one :
      contents b ≡ le_bytes 1 v ++ rest
      → v < 256
      → (b' : Buffer) × (extract overshift 1 b ≡ ok (v, b')) × Extracted b rest b'
  unfolding extract width
  extract-one e h =
      let (b', got, ext) =
        extract_loop-le_bytes overshift 8 256
          (λ byte i _ k. byte_fits overshift zero_shift byte i k) 1 0 0 v rest val e h (omega arith)
          (omega arith) in
      (b', got ∙ ap (λ r. ok (r, b')) {x = 0 + v * 2 ^ (0 * 8)} {y = v} (omega arith), ext)

  -- `extract<4>` after `insert<4>`
  pub extract-four :
      contents b ≡ le_bytes 4 v ++ rest
      → v < 2 ^ 32
      → (b' : Buffer) × (extract overshift 4 b ≡ ok (v, b')) × Extracted b rest b'
  unfolding extract width
  extract-four e h =
      let (b', got, ext) =
        extract_loop-le_bytes overshift 32 (2 ^ 32)
          (λ byte i _ k. word_fits overshift zero_shift byte i k) 4 0 0 v rest val e h (omega arith)
          (omega arith) in
      (b', got ∙ ap (λ r. ok (r, b')) {x = 0 + v * 2 ^ (0 * 8)} {y = v} (omega arith), ext)

  -- `extract<8>` reads a number below 2 ^ 31 back from the bytes that `insert<8>` writes for it, and
  -- leaves what follows, on a machine where 0 stays 0 under every shift.
  pub extract-eight :
      contents b ≡ le_bytes 8 v ++ rest
      → v < 2 ^ 31
      → (b' : Buffer) × (extract overshift 8 b ≡ ok (v, b')) × Extracted b rest b'
  unfolding extract width
  extract-eight e h =
      let (b', got, ext) =
        extract_loop-le_bytes overshift 64 (2 ^ 31)
          (λ byte i _ k. long_fits overshift zero_shift byte i k) 8 0 0 v rest val e (omega arith)
          (omega arith) (omega arith) in
      (b', got ∙ ap (λ r. ok (r, b')) {x = 0 + v * 2 ^ (0 * 8)} {y = v} (omega arith), ext)
