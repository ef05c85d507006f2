-- ===== src/Properties/RoundTrip.antt =====
-- What properties.cc reads of a file that was written from pairs.
use server_client_peer_netwo.Base.{
  ℕ, ◌≡◌, Free, refl, sym, ap, ◌∙◌, false, Option, none, some, List, [], ◌∷◌, ◌++◌, name_eq,
  name_eq→eq, map, arith, Bool-cases, Option-cases, inl, inr,
}
use server_client_peer_netwo.Strings.Trim.{find-at}
use server_client_peer_netwo.Properties.{
  Pairs, value_at, c_string, get, emplace, is_skipped, parse_line, parse_lines, parse_file,
}

-- The line of a pair
abbrev pub line_of : List ℕ × List ℕ → List ℕ
line_of p = p.0 ++ (61 ∷ p.1)

-- A key that is not empty, has no `=`, and does not begin a comment. Neither it nor the value ends the line.
pub record IsPair (p : List ℕ × List ℕ) : Type 0 where
  pub no_equals : Free 61 p.0
  pub not_skipped : is_skipped p.0 ≡ false
  pub one_line : Free 10 p.0 × Free 10 p.1

pub data ArePairs : Pairs → Type 0 where
  no_pairs : ArePairs []
  pairs_cons : {p : List ℕ × List ℕ} {ps : Pairs} → IsPair p → ArePairs ps → ArePairs (p ∷ ps)

-- The value that a first map has, or else a second one
abbrev or_else : Option (List ℕ) → Option (List ℕ) → Option (List ℕ)
or_else none b = b
or_else (some v) b = some v

value_at-append :
    (ps qs : Pairs) (key : List ℕ)
    → value_at (ps ++ qs) key ≡ or_else (value_at ps key) (value_at qs key)
unfolding value_at
value_at-append [] qs key = refl
value_at-append (p ∷ ps) qs key = ground (arith, value_at-append ps qs key)

other_key : (k v key : List ℕ) → name_eq k key ≡ false → value_at ((k, v) ∷ []) key ≡ none
unfolding value_at
other_key k v key e = rw e refl

or_else-none : (a : Option (List ℕ)) → or_else a none ≡ a
or_else-none none = refl
or_else-none (some v) = refl

or_else_assoc : (a b c : Option (List ℕ)) → or_else (or_else a b) c ≡ or_else a (or_else b c)
or_else_assoc none b c = refl
or_else_assoc (some v) b c = refl

value_at-cons :
    (p : List ℕ × List ℕ) (ps : Pairs) (key : List ℕ)
    → value_at (p ∷ ps) key ≡ or_else (value_at (p ∷ []) key) (value_at ps key)
unfolding value_at
value_at-cons p ps key = ground arith

value_at-emplace :
    (ps : Pairs) (k v key : List ℕ)
    → value_at (emplace ps k v) key ≡ or_else (value_at ps key) (value_at ((k, v) ∷ []) key)
unfolding emplace
value_at-emplace ps k v key = elim (Option-cases (value_at ps k)) [
  | inl missing ↦ ground (arith, missing, value_at-append ps ((k, v) ∷ []) key)
  | inr (w, there) ↦ elim (Bool-cases (name_eq k key)) [
    | inl e ↦
        let same : value_at ps key ≡ some w = ap (value_at ps) (sym (name_eq→eq k key e)) ∙ there in
        ground (arith, there, same)
    | inr e ↦ ground (arith, there, other_key k v key e, or_else-none (value_at ps key))
  ]
]

parse_line-pair :
    (ps : Pairs) (p : List ℕ × List ℕ)
    → IsPair p
    → parse_line ps (line_of p) ≡ (emplace ps p.0 p.1, none)
unfolding parse_line is_skipped
parse_line-pair ps ([], v) k = ground (arith, k.not_skipped)
parse_line-pair ps (c ∷ cs, v) k = ground (arith, k.not_skipped, find-at 61 (c ∷ cs) v k.no_equals)

parse_lines-pairs :
    (ps qs : Pairs) (key : List ℕ)
    → ArePairs qs
    → (rs : Pairs) × (parse_lines ps (map line_of qs) ≡ (rs, none))
      × (value_at rs key ≡ or_else (value_at ps key) (value_at qs key))
unfolding parse_lines value_at
parse_lines-pairs ps [] key no_pairs = (ps, refl, sym (or_else-none (value_at ps key)))
parse_lines-pairs ps (q ∷ qs) key (pairs_cons k ks) =
    let (rs, e, same) = parse_lines-pairs (emplace ps q.0 q.1) qs key ks in
    let one = parse_line-pair ps q k in
    (
      rs,
      ground (arith, one, e),
      same
          ∙ ap (λ x. or_else x (value_at qs key)) (value_at-emplace ps q.0 q.1 key)
          ∙ or_else_assoc (value_at ps key) (value_at (q ∷ []) key) (value_at qs key)
          ∙ ap (or_else (value_at ps key)) (sym (value_at-cons q qs key)),
    )

c_string-Free : (key : List ℕ) → Free 0 key → c_string key ≡ key
unfolding c_string
c_string-Free [] h = refl
c_string-Free (c ∷ cs) h = ground (arith, c_string-Free cs h.1, h.0)

-- The file is written from pairs, one `key=value` to a line, where the keys are not empty, have no `=` and do not begin with `#`,
-- and neither keys nor values have a newline. It is read without an error into no pairs, and `Get` of a key without a byte 0 gives
-- the value of the first pair with it then, or none.
pub parse_file-pairs :
    (file_path : List ℕ) (ps : Pairs) (key : List ℕ)
    → ArePairs ps
    → Free 0 key
    → (rs : Pairs) × (parse_file [] file_path (some (map line_of ps)) ≡ (rs, none))
      × (get rs key ≡ value_at ps key)
unfolding parse_file value_at get
parse_file-pairs file_path ps key h whole =
    let (rs, read, same) = parse_lines-pairs [] ps key h in
    (rs, read, ap (value_at rs) (c_string-Free key whole) ∙ same)
