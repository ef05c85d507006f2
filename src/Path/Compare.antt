-- ===== src/Path/Compare.antt =====
-- The order of paths in path.cc.
use server_client_peer_netwo.Base.{
  ℕ, ◌<◌, ◌≡◌, refl, Bool, true, false, not, ◌&&◌, ◌||◌, List, [], ◌∷◌, ◌==◌, ltb, name_eq, arith,
  Bool-cases, inl, inr,
}
use server_client_peer_netwo.Path.{
  is_separator, has_root_directory, Order, less, same, greater, compare_entries, compare, is_same,
  path_eq,
}

abbrev pub swap : Order → Order
swap less = greater
swap same = same
swap greater = less

-- Bytes
abbrev pub AreBytes : List ℕ → Type 0
AreBytes [] = Unit
AreBytes (c ∷ cs) = (c < 256) × AreBytes cs

entries-same : (p q : List ℕ) → is_same (compare_entries p q) ≡ name_eq p q
unfolding compare_entries name_eq
entries-same [] [] = refl
entries-same [] (d ∷ ds) = refl
entries-same (c ∷ cs) [] = ground arith
entries-same (c ∷ cs) (d ∷ ds) = ground (arith, entries-same cs ds)

-- `operator==` tells whether two paths have the same bytes.
pub path_eq-name_eq : (p q : List ℕ) → path_eq p q ≡ name_eq p q
unfolding path_eq compare has_root_directory name_eq compare_entries
path_eq-name_eq [] [] = refl
path_eq-name_eq [] (d ∷ ds) = ground arith
path_eq-name_eq (c ∷ cs) [] = ground arith
path_eq-name_eq (c ∷ cs) (d ∷ ds) = ground (arith, entries-same cs ds)

-- Whether the second path goes on where the first ends, with a separator or with a byte that is negative as a `char`.
unfoldable pub runs_on : List ℕ → List ℕ → Bool
runs_on [] [] = false
runs_on [] (d ∷ ds) = is_separator d || not (ltb d 128)
runs_on (c ∷ cs) [] = false
runs_on (c ∷ cs) (d ∷ ds) = let rest = runs_on cs ds in (c == d) && rest

abbrev pub swap_unless : Bool → Order → Order
swap_unless true o = less
swap_unless false o = swap o

entries-swap :
    (p q : List ℕ)
    → AreBytes p
    → AreBytes q
    → compare_entries q p ≡ swap_unless (runs_on p q || runs_on q p) (compare_entries p q)
unfolding compare_entries runs_on
entries-swap [] [] a b = refl
entries-swap [] (d ∷ ds) a b = ground (arith, b.0)
entries-swap (c ∷ cs) [] a b = ground (arith, a.0)
entries-swap (c ∷ cs) (d ∷ ds) a b = ground (arith, entries-swap cs ds a.1 b.1, a.0, b.0)

compare-swap :
    (c d : ℕ) (cs ds : List ℕ)
    → AreBytes (c ∷ cs)
    → AreBytes (d ∷ ds)
    → compare (d ∷ ds) (c ∷ cs)
      ≡ swap_unless
          (runs_on (c ∷ cs) (d ∷ ds) || runs_on (d ∷ ds) (c ∷ cs))
          (compare (c ∷ cs) (d ∷ ds))
unfolding compare has_root_directory runs_on
compare-swap c d cs ds a b = elim (Bool-cases (is_separator c)) [
  | inl s ↦ elim (Bool-cases (is_separator d)) [
    | inl t ↦ ground (arith, s, t, entries-swap cs ds a.1 b.1)
    | inr t ↦ ground (arith, s, t)
  ]
  | inr s ↦ elim (Bool-cases (is_separator d)) [
    | inl t ↦ ground (arith, s, t)
    | inr t ↦ ground (arith, s, t, entries-swap (c ∷ cs) (d ∷ ds) a b)
  ]
]

-- Of two paths of bytes that are not empty, `operator==` tells whether they have the same bytes; and exchanged they compare the
-- opposite way, unless one goes on where the other ends, with a separator or with a byte that is negative as a `char`: then each is
-- less than the other.
pub compare-both_ways :
    (c d : ℕ) (cs ds : List ℕ)
    → AreBytes (c ∷ cs)
    → AreBytes (d ∷ ds)
    → (path_eq (c ∷ cs) (d ∷ ds) ≡ name_eq (c ∷ cs) (d ∷ ds))
      × (compare (d ∷ ds) (c ∷ cs)
          ≡ swap_unless
              (runs_on (c ∷ cs) (d ∷ ds) || runs_on (d ∷ ds) (c ∷ cs))
              (compare (c ∷ cs) (d ∷ ds)))
compare-both_ways c d cs ds a b = (path_eq-name_eq (c ∷ cs) (d ∷ ds), compare-swap c d cs ds a b)
