-- ===== src/Messages/Texts.antt =====
-- The messages of messages.cc whose body is one string, which is put in an array of its own length.
use server_client_peer_netwo.Base.{
  ℕ, ◌≤◌, ◌<◌, ◌≡◌, refl, ap, ◌∙◌, inl, inr, true, false, List, [], ◌∷◌, arith, length, tabulate,
  tabulate-congr, tabulate-get_or, get_or, ==_refl,
}
use server_client_peer_netwo.Result.{ok, ◌>>=◌}
use server_client_peer_netwo.Buffer.{
  Buffer, default_size, max_alloc, fresh, copy_in, write_bytes, of_data, of_string, to_string, size,
}
use server_client_peer_netwo.Buffer.Valid.{IsValid, contents, offset, size-used}
use server_client_peer_netwo.Buffer.Read.{released}
use server_client_peer_netwo.Buffer.Many.{Readable, to_string_lem}
use server_client_peer_netwo.Messages.{Opcode, opcode_byte, string_message, to_text, assert_opcode}

abbrev blank : Buffer
blank = fresh (λ i. 0) default_size false

abbrev filled : List ℕ → Buffer
filled text = fresh (copy_in (λ i. 0) 0 text) (length text) true

blank-IsValid : IsValid blank
blank-IsValid = record {
  positive = omega arith;
  small = omega arith;
  read_in = omega arith;
  write_in = omega arith;
  full_at = λ e. refl;
}

contents-blank : contents blank ≡ []
unfolding contents tabulate
contents-blank =
    ap (λ n. tabulate n (λ i. blank.mem (offset default_size 0 i))) (size-used blank-IsValid)

filled-IsValid : (text : List ℕ) → 0 < length text → length text ≤ max_alloc → IsValid (filled text)
filled-IsValid text p h = record {
  positive = p;
  small = h;
  read_in = p;
  write_in = p;
  full_at = λ e. refl;
}

contents-filled :
    (text : List ℕ) → 0 < length text → length text ≤ max_alloc → contents (filled text) ≡ text
unfolding contents
contents-filled text p h =
    let v = filled-IsValid text p h in
    let count : size (filled text) ≡ length text = size-used v in
    ap (λ n. tabulate n (λ i. copy_in (λ j. 0) 0 text (offset (length text) 0 i))) count
    ∙ tabulate-congr (length text) _ (λ i. get_or text i 0) (λ i q. ground arith)
    ∙ tabulate-get_or text 0

of_string-filled :
    (x : ℕ) (xs : List ℕ) → length (x ∷ xs) ≤ max_alloc → of_string (x ∷ xs) ≡ ok (filled (x ∷ xs))
unfolding of_string of_data write_bytes
of_string-filled x xs h = ground (arith, h)

to_string-filled :
    (text : List ℕ)
    → 0 < length text
    → length text ≤ max_alloc
    → (b : Buffer) × (to_string (filled text) ≡ ok (text, b))
to_string-filled text p h =
    let (e, _, _) = to_string_lem (filled-IsValid text p h) (inl refl) in
    let b = filled text in
    (released b (size b), e ∙ ap (λ xs. ok (xs, released b (size b))) (contents-filled text p h))

text-back :
    (op : Opcode) (text : List ℕ) (b : Buffer)
    → of_string text ≡ ok b
    → (b' : Buffer) × (to_string b ≡ ok (text, b'))
    → (string_message op text >>= λ msg. ok (to_text op msg)) ≡ ok (ok text)
unfolding string_message to_text assert_opcode
text-back op text b e (b', e') = ground (arith, e, e', ==_refl (opcode_byte op))

-- Ok, Error and the other messages with one string: the string comes back from the body, whatever it
-- holds, up to the longest array.
pub to_text-string_message :
    (op : Opcode) (text : List ℕ)
    → length text ≤ max_alloc
    → (string_message op text >>= λ msg. ok (to_text op msg)) ≡ ok (ok text)
unfolding of_string of_data
to_text-string_message op [] h =
    let readable : Readable blank (size blank) =
      inr (inl (omega arith, omega (arith, size-used blank-IsValid))) in
    let (e, _, _) = to_string_lem blank-IsValid readable in
    text-back op [] blank refl (
      released blank (size blank),
      e ∙ ap (λ xs. ok (xs, released blank (size blank))) contents-blank,
    )
to_text-string_message op (x ∷ xs) h =
    text-back op (x ∷ xs) (filled (x ∷ xs)) (of_string-filled x xs h)
      (to_string-filled (x ∷ xs) (omega arith) h)
