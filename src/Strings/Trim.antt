-- ===== src/Strings/Trim.antt =====
-- `split_trim` of src/util/strings.cc. What is looked for from a position is looked for in the string
-- from there on; a position past the end leaves no string.
use server_client_peer_netwo.Base.{
  ℕ, zero, suc, ◌<◌, ◌≡◌, ◌≢◌, Free, refl, sym, ap, ◌∙◌, Bool, true, false, ◌||◌, none, some, List,
  [], ◌∷◌, ◌++◌, ◌==◌, if◌then◌else◌, length, length-append, append_assoc, arith, drop,
}
use server_client_peer_netwo.Result.{Result, ok, err, ◌>>=◌}
use server_client_peer_netwo.Strings.{Fault, no_progress, find, join}

abbrev pub is_in : List ℕ → ℕ → Bool
is_in [] c = false
is_in (w ∷ ws) c = (w == c) || is_in ws c

-- The string from `find_first_not_of` on
unfoldable pub from_first : List ℕ → List ℕ → List ℕ
from_first ws [] = []
from_first ws (c ∷ cs) = let rest = from_first ws cs in if is_in ws c then rest else c ∷ cs

-- The string up to `find_last_not_of`
unfoldable pub up_to_last : List ℕ → List ℕ → List ℕ
up_to_last ws [] = []
up_to_last ws (c ∷ cs) =
    let rest = up_to_last ws cs in
    elim rest [ [] ↦ if is_in ws c then [] else c ∷ [] | d ∷ ds ↦ c ∷ (d ∷ ds) ]

-- The loop, and the last token
unfoldable pub split_trim_from : ℕ → List ℕ → ℕ → List ℕ → Result (List (List ℕ)) Fault
split_trim_from zero src delim ws = err no_progress
split_trim_from (suc fuel) src delim ws = elim (find delim src) [
  | none ↦ ok (elim (from_first ws src) [ [] ↦ [] | c ∷ cs ↦ up_to_last ws (c ∷ cs) ∷ [] ])
  | some p ↦ elim (from_first ws p.0) [
    | [] ↦ split_trim_from fuel (drop 1 (from_first ws src)) delim ws
    | c ∷ cs ↦ do tokens ← split_trim_from fuel p.1 delim ws; ok (up_to_last ws (c ∷ cs) ∷ tokens)
  ]
]

unfoldable pub split_trim : List ℕ → ℕ → List ℕ → Result (List (List ℕ)) Fault
split_trim src delim ws = split_trim_from (suc (length src)) src delim ws

-- A text that is not empty, and neither begins nor ends with whitespace.
pub record IsTrimmed (ws text : List ℕ) : Type 0 where
  pub not_empty : text ≢ []
  pub begins : from_first ws text ≡ text
  pub ends : up_to_last ws text ≡ text

-- Names without the delimiter
pub data AreNames (delim : ℕ) (ws : List ℕ) : List (List ℕ) → Type 0 where
  no_names : AreNames delim ws []
  names_cons :
      {n : List ℕ} {ns : List (List ℕ)}
      → IsTrimmed ws n
      → Free delim n
      → AreNames delim ws ns
      → AreNames delim ws (n ∷ ns)

abbrev pub Blank : List ℕ → List ℕ → Type 0
Blank ws [] = Unit
Blank ws (c ∷ cs) = (is_in ws c ≡ true) × Blank ws cs

find-Free : (delim : ℕ) (a : List ℕ) → Free delim a → find delim a ≡ none
unfolding find
find-Free delim [] f = refl
find-Free delim (c ∷ cs) f = ground (arith, f.0, find-Free delim cs f.1)

pub find-at :
    (delim : ℕ) (a b : List ℕ) → Free delim a → find delim (a ++ (delim ∷ b)) ≡ some (a, b)
unfolding find
find-at delim [] b f = ground arith
find-at delim (c ∷ cs) b f = ground (arith, f.0, find-at delim cs b f.1)

from_first-Blank :
    (ws lead n : List ℕ) → Blank ws lead → from_first ws (lead ++ n) ≡ from_first ws n
unfolding from_first
from_first-Blank ws [] n h = refl
from_first-Blank ws (c ∷ cs) n h = rw h.0 (from_first-Blank ws cs n h.1)

Free-append : (delim : ℕ) (a b : List ℕ) → Free delim a → Free delim b → Free delim (a ++ b)
Free-append delim [] b f g = g
Free-append delim (c ∷ cs) b f g = (f.0, Free-append delim cs b f.1 g)

module _ (delim : ℕ) (ws pad : List ℕ) (blank : Blank ws pad) (free : Free delim pad) where
  last_token :
      (fuel : ℕ) (lead n : List ℕ)
      → Blank ws lead
      → Free delim lead
      → IsTrimmed ws n
      → Free delim n
      → split_trim_from (suc fuel) (lead ++ n) delim ws ≡ ok (n ∷ [])
  unfolding split_trim_from
  last_token fuel lead [] b f t g = elim (t.not_empty refl) [ ]
  last_token fuel lead (c ∷ cs) b f t g = ground (
    arith,
    find-Free delim (lead ++ (c ∷ cs)) (Free-append delim lead (c ∷ cs) f g),
    from_first-Blank ws lead (c ∷ cs) b,
    t.begins,
    t.ends,
  )

  next_token :
      (fuel : ℕ) (lead n b : List ℕ)
      → Blank ws lead
      → Free delim lead
      → IsTrimmed ws n
      → Free delim n
      → split_trim_from (suc fuel) ((lead ++ n) ++ (delim ∷ b)) delim ws
        ≡ (do tokens ← split_trim_from fuel b delim ws; ok (n ∷ tokens))
  unfolding split_trim_from
  next_token fuel lead [] b bl f t g = elim (t.not_empty refl) [ ]
  next_token fuel lead (c ∷ cs) b bl f t g = ground (
    arith,
    find-at delim (lead ++ (c ∷ cs)) b (Free-append delim lead (c ∷ cs) f g),
    from_first-Blank ws lead (c ∷ cs) bl,
    t.begins,
    t.ends,
  )

  abbrev joint : List ℕ
  joint = delim ∷ pad

  regroup :
      (lead n rest : List ℕ)
      → lead ++ ((n ++ joint) ++ rest) ≡ (lead ++ n) ++ (delim ∷ (pad ++ rest))
  regroup lead n rest =
      ap (λ x. lead ++ x) (append_assoc n joint rest)
      ∙ sym (append_assoc lead n (delim ∷ (pad ++ rest)))

  all_tokens :
      (fuel : ℕ) (lead n : List ℕ) (ns : List (List ℕ))
      → Blank ws lead
      → Free delim lead
      → AreNames delim ws (n ∷ ns)
      → length (lead ++ join (n ∷ ns) joint) < fuel
      → split_trim_from fuel (lead ++ join (n ∷ ns) joint) delim ws ≡ ok (n ∷ ns)
  unfolding join
  all_tokens zero lead n ns b f names h = absurd (omega arith)
  all_tokens (suc fuel) lead n [] b f (names_cons t g more) h = last_token fuel lead n b f t g
  all_tokens (suc fuel) lead n (m ∷ ns) b f (names_cons t g more) h =
      let rest = join (m ∷ ns) joint in
      let same = regroup lead n rest in
      let shorter : length (pad ++ rest) < fuel =
        omega (arith, ap length same, length-append (lead ++ n) (delim ∷ (pad ++ rest))) in
      ap (λ x. split_trim_from (suc fuel) x delim ws) same
      ∙ next_token fuel lead n (pad ++ rest) b f t g
      ∙ ap (λ r. r >>= λ tokens. ok (n ∷ tokens)) (all_tokens fuel pad m ns blank free more shorter)

  -- Names that are not empty, have no delimiter, and neither begin nor end with whitespace are what
  -- `split_trim` gives for what `join` makes of them with the delimiter and whitespace behind it.
  pub split_trim-join :
      (names : List (List ℕ))
      → AreNames delim ws names
      → split_trim (join names joint) delim ws ≡ ok names
  unfolding split_trim join split_trim_from find from_first
  split_trim-join [] h = refl
  split_trim-join (n ∷ ns) h =
      all_tokens (suc (length (join (n ∷ ns) joint))) [] n ns tt tt h (omega arith)
