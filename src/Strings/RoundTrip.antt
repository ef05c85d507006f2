-- ===== src/Strings/RoundTrip.antt =====
-- What `split` of strings.cc returns.
use server_client_peer_netwo.Base.{
  ℕ, zero, suc, ◌<◌, ◌≡◌, ◌≢◌, Free, refl, sym, ap, ◌∙◌, ◌⊎◌, inl, inr, none, some, List, [], ◌∷◌,
  ◌++◌, ◌==◌, length, length-append, append_assoc, arith, Bool-cases,
}
use server_client_peer_netwo.Result.{ok}
use server_client_peer_netwo.Strings.{find, split_from, split, join}

-- A string without the delimiter, or the bytes before the first one and those behind it
find-cases :
    (delim : ℕ) (src : List ℕ)
    → ((find delim src ≡ none) × Free delim src)
      ⊎ ((a : List ℕ) × (b : List ℕ) × (find delim src ≡ some (a, b))
          × Free delim a
          × (src ≡ a ++ (delim ∷ b)))
unfolding find
find-cases delim [] = inl (refl, tt)
find-cases delim (c ∷ cs) = elim (Bool-cases (c == delim)) [
  | inl e ↦
      let same : c ≡ delim = ground (arith, e) in
      inr ([], cs, ground (arith, e), tt, ap (λ x. x ∷ cs) same)
  | inr e ↦
      let apart : c ≢ delim = ground (arith, e) in
      elim (find-cases delim cs) [
        | inl (n, f) ↦ inl (ground (arith, e, n), (apart, f))
        | inr (a, b, s, f, q) ↦ inr (c ∷ a, b, ground (arith, e, s), (apart, f), ap (λ x. c ∷ x) q)
      ]
]

-- Each token is without the delimiter.
abbrev pub Tokens : ℕ → List (List ℕ) → Type 0
Tokens delim [] = Unit
Tokens delim (t ∷ ts) = Free delim t × Tokens delim ts

join-cons :
    (a b : List ℕ) (ts : List (List ℕ)) (delim : ℕ)
    → ts ≢ []
    → join ts (delim ∷ []) ≡ b
    → join (a ∷ ts) (delim ∷ []) ≡ a ++ (delim ∷ b)
unfolding join
join-cons a b [] delim h e = elim (h refl) [ ]
join-cons a b (t ∷ ts) delim h e =
    append_assoc a (delim ∷ []) (join (t ∷ ts) (delim ∷ [])) ∙ ap (λ x. a ++ (delim ∷ x)) e

split_from-Tokens :
    (fuel : ℕ) (src : List ℕ) (delim : ℕ)
    → length src < fuel
    → (ts : List (List ℕ)) × (split_from fuel src delim ≡ ok ts)
      × (ts ≢ [])
      × Tokens delim ts
      × (join ts (delim ∷ []) ≡ src)
unfolding split_from join
split_from-Tokens zero src delim h = ground (arith, h)
split_from-Tokens (suc fuel) src delim h = elim (find-cases delim src) [
  | inl (n, f) ↦ (src ∷ [], ground (arith, n), (λ e. cc), (f, tt), refl)
  | inr (a, b, s, f, q) ↦
      let shorter : length b < fuel = omega (arith, h, ap length q, length-append a (delim ∷ b)) in
      let (ts, e, some_ts, free, back) = split_from-Tokens fuel b delim shorter in
      (
        a ∷ ts,
        ground (arith, s, e),
        (λ x. cc),
        (f, free),
        join-cons a b ts delim some_ts back ∙ sym q,
      )
]

-- `split` returns tokens without the delimiter, at least one, that `join` puts together to the string again.
pub split_lem :
    (src : List ℕ) (delim : ℕ)
    → (ts : List (List ℕ)) × (split src delim ≡ ok ts)
      × (ts ≢ [])
      × Tokens delim ts
      × (join ts (delim ∷ []) ≡ src)
unfolding split
split_lem src delim = split_from-Tokens (suc (length src)) src delim (omega arith)
