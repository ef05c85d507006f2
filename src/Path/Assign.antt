-- ===== src/Path/Assign.antt =====
-- What path.cc keeps of a text, and how a path is its root and the rest.
use server_client_peer_netwo.Base.{
  ℕ, ◌≡◌, ◌≤◌, refl, subst, sym, ap, Bool, true, false, ◌&&◌, List, [], ◌∷◌, ◌++◌, if◌then◌else◌,
  length, drop, min, arith, Bool-cases, inl, inr,
}
use server_client_peer_netwo.Path.{
  is_separator, separator, unique, is_network, process_assigned_path, assign, has_root_directory,
  root_directory, root_path_length, root_path, relative_path,
}

-- No separator stands behind a separator.
abbrev pub Single : Bool → List ℕ → Type 0
Single behind [] = Unit
Single behind (c ∷ cs) = ((behind && is_separator c) ≡ false) × Single (is_separator c) cs

unique-Single : (behind : Bool) (text : List ℕ) → Single behind (unique behind text)
unfolding unique
unique-Single behind [] = tt
unique-Single false (c ∷ cs) = (refl, unique-Single (is_separator c) cs)
unique-Single true (c ∷ cs) = elim (Bool-cases (is_separator c)) [
  | inl e ↦ rw e (unique-Single true cs)
  | inr e ↦
      let kept : unique true (c ∷ cs) ≡ c ∷ unique (is_separator c) cs = ground (arith, e) in
      subst (λ x. Single true x) (sym kept) (e, unique-Single (is_separator c) cs)
]

unique-fixed : (behind : Bool) (text : List ℕ) → Single behind text → unique behind text ≡ text
unfolding unique
unique-fixed behind [] h = refl
unique-fixed behind (c ∷ cs) h = ground (arith, h.0, unique-fixed (is_separator c) cs h.1)

not_network : (text : List ℕ) → Single false text → is_network text ≡ false
unfolding is_network
not_network [] h = refl
not_network (a ∷ []) h = refl
not_network (a ∷ (b ∷ [])) h = refl
not_network (a ∷ (b ∷ (c ∷ cs))) h = ground (arith, h.1.0)

-- What `assign` leaves of a text: the two separators of a network name stay, and else none stands behind another.
pub data IsAssigned : List ℕ → Type 0 where
  plain : {p : List ℕ} → Single false p → IsAssigned p
  network :
      {c : ℕ} {cs : List ℕ}
      → is_separator c ≡ false
      → Single false (c ∷ cs)
      → IsAssigned (separator ∷ (separator ∷ (c ∷ cs)))

is_separator-eq : (c : ℕ) → is_separator c ≡ true → c ≡ separator
is_separator-eq c h = ground (arith, h)

assign-network :
    (a b c : ℕ) (cs : List ℕ)
    → is_network (a ∷ (b ∷ (c ∷ cs))) ≡ true
    → IsAssigned (assign (a ∷ (b ∷ (c ∷ cs))))
unfolding assign process_assigned_path is_network unique
assign-network a b c cs h =
    let plain_third : is_separator c ≡ false = ground (arith, h) in
    let kept : assign (a ∷ (b ∷ (c ∷ cs)))
        ≡ separator ∷ (separator ∷ (c ∷ unique (is_separator c) cs)) =
      ground (arith, h) in
    subst IsAssigned (sym kept) (network plain_third (unique-Single false (c ∷ cs)))

assign-plain : (text : List ℕ) → is_network text ≡ false → IsAssigned (assign text)
unfolding assign process_assigned_path
assign-plain text e = rw e (plain (unique-Single false text))

pub assign-IsAssigned : (text : List ℕ) → IsAssigned (assign text)
unfolding is_network
assign-IsAssigned [] = assign-plain [] refl
assign-IsAssigned (a ∷ []) = assign-plain (a ∷ []) refl
assign-IsAssigned (a ∷ (b ∷ [])) = assign-plain (a ∷ (b ∷ [])) refl
assign-IsAssigned (a ∷ (b ∷ (c ∷ cs))) = elim (Bool-cases (is_network (a ∷ (b ∷ (c ∷ cs))))) [
  | inr e ↦ assign-plain (a ∷ (b ∷ (c ∷ cs))) e
  | inl e ↦ assign-network a b c cs e
]

pub assigned-fixed : {p : List ℕ} → IsAssigned p → assign p ≡ p
unfolding assign process_assigned_path is_network
assigned-fixed {p} (plain h) = ground (arith, not_network p h, unique-fixed false p h)
assigned-fixed (network {c} {cs} e h) = ground (arith, e, unique-fixed false (c ∷ cs) h)

rest-root :
    (c k : ℕ) (cs : List ℕ)
    → (if is_separator c then 1 else 0) ≡ k
    → k ≤ 1
    → relative_path (c ∷ cs) ≡ assign (drop k (c ∷ cs))
unfolding relative_path root_path_length has_root_directory
rest-root c k cs e h =
    ap (λ j. assign (drop j (c ∷ cs))) {x = min (if is_separator c then 1 else 0) (length (c ∷ cs))}
      {y = k} (omega (arith, e))

with_root :
    (c : ℕ) (cs : List ℕ)
    → is_separator c ≡ true
    → (root_path (c ∷ cs) ≡ separator ∷ []) × (relative_path (c ∷ cs) ≡ assign cs)
unfolding root_path root_directory has_root_directory assign process_assigned_path is_network unique
with_root c cs e = (rw e refl, rest-root c 1 cs (ground (arith, e)) (omega arith))

without_root :
    (c : ℕ) (cs : List ℕ)
    → is_separator c ≡ false
    → (root_path (c ∷ cs) ≡ []) × (relative_path (c ∷ cs) ≡ assign (c ∷ cs))
unfolding root_path root_directory has_root_directory assign process_assigned_path is_network unique
without_root c cs e = (rw e refl, rest-root c 0 cs (ground (arith, e)) (omega arith))

looser : (behind : Bool) (text : List ℕ) → Single behind text → Single false text
looser behind [] h = tt
looser behind (c ∷ cs) h = (refl, h.1)

root_and_rest : (p : List ℕ) → IsAssigned p → root_path p ++ relative_path p ≡ p
unfolding root_path relative_path root_directory root_path_length has_root_directory assign
    process_assigned_path is_network unique
root_and_rest p (plain {p = []} h) = refl
root_and_rest p (plain {p = c ∷ cs} h) = elim (Bool-cases (is_separator c)) [
  | inl e ↦ ground (
    arith,
    with_root c cs e,
    is_separator-eq c e,
    assigned-fixed {p = cs} (plain (looser (is_separator c) cs h.1)),
  )
  | inr e ↦ ground (arith, without_root c cs e, assigned-fixed {p = c ∷ cs} (plain h))
]
root_and_rest p (network {c} {cs} e h) =
    let (root, rest) = with_root separator (separator ∷ (c ∷ cs)) refl in
    ground (arith, root, rest, assigned-fixed {p = separator ∷ (c ∷ cs)} (plain (refl, (e, h.1))))

-- A text that is assigned to a path gives a path without a separator behind a separator, but that a network name keeps its first two; assigned
-- again it does not change; and it is its root path with its relative path behind it.
pub assign_lem :
    (text : List ℕ)
    → IsAssigned (assign text)
      × (assign (assign text) ≡ assign text)
      × (root_path (assign text) ++ relative_path (assign text) ≡ assign text)
assign_lem text =
    let a = assign-IsAssigned text in (a, assigned-fixed a, root_and_rest (assign text) a)
