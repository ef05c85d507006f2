-- ===== src/Bytes.antt =====
-- src/util/bytes.h: integers as bytes of a buffer, the least significant first.
--
-- In `extract` each byte is promoted to `int`, 32 bits wide, and shifted there before it is joined
-- to the result: `overshift` is what the machine makes of a shift by 32 or more, which the language
-- leaves undefined, and a negative `int` is extended by ones to the width of the result.
pub mod RoundTrip
use Prim.Native.Nat.{bit_or}
use server_client_peer_netwo.Base.{
  ℕ, zero, suc, ◌+◌, ◌-◌, ◌*◌, ◌/◌, ◌%◌, ◌^◌, List, [], ◌∷◌, true, ltb, leb, if◌then◌else◌,
}
use server_client_peer_netwo.Result.{Result, ok, err, ◌>>=◌}
use server_client_peer_netwo.Buffer.{Buffer, Fault, put_byte, get}

-- `insert<N>(buffer& dest, B byte_string)`, on the number of rounds left.
unfoldable pub insert : ℕ → Buffer → ℕ → Result Buffer Fault
insert zero dest byte_string = ok dest
insert (suc n) dest byte_string = do
  dest' ← put_byte dest (byte_string % 256) true
  insert n dest' (byte_string / 256)

-- The width of `minimum_byte_string_t<N>`.
unfoldable pub width : ℕ → ℕ
width n = if leb n 1 then 8 else if leb n 2 then 16 else if leb n 4 then 32 else 64

-- An `int` by its bit pattern, converted to an unsigned type of `w` bits.
unfoldable pub int_to_unsigned : ℕ → ℕ → ℕ
int_to_unsigned w pattern =
    if ltb pattern (2 ^ 31) then pattern % 2 ^ w else (pattern + (2 ^ 64 - 2 ^ 32)) % 2 ^ w

module _ (overshift : ℕ → ℕ → ℕ) where
  -- `src.get() << k` as a 32-bit `int`, by its bit pattern.
  unfoldable pub shift_int : ℕ → ℕ → ℕ
  shift_int byte k = if ltb k 32 then (byte * 2 ^ k) % 2 ^ 32 else overshift byte k % 2 ^ 32

  -- The loop of `extract<N>`: `n` rounds left, at round `i`, into a result of `w` bits.
  unfoldable pub extract_loop : ℕ → ℕ → ℕ → ℕ → Buffer → Result (ℕ × Buffer) Fault
  extract_loop w zero i result src = ok (result, src)
  extract_loop w (suc n) i result src = do
    (byte, src') ← get src
    extract_loop w n (i + 1) (bit_or result (int_to_unsigned w (shift_int byte (i * 8)))) src'

  unfoldable pub extract : ℕ → Buffer → Result (ℕ × Buffer) Fault
  extract n src = extract_loop (width n) n 0 0 src
