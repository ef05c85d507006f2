-- ===== src/Client/Flags.antt =====
-- How the flags of the servers of project2_client.cc are counted.
use server_client_peer_netwo.Base.{
  ℕ, zero, suc, ◌≡◌, ◌≢◌, ◌<◌, ◌≤◌, Free, refl, ap, ◌∙◌, Bool, true, false, not, List, [], ◌∷◌,
  ◌==◌, if◌then◌else◌, length, map, arith,
}
use server_client_peer_netwo.Client.{Remote}
use server_client_peer_netwo.Client.Callbacks.{update, all_of}

-- Indices of `n` servers, none of them twice
abbrev pub IsOrder : ℕ → List ℕ → Type 0
IsOrder n [] = Unit
IsOrder n (i ∷ is) = (i < n) × Free i is × IsOrder n is

-- A flag, and what sets it.
module _ (flag : Remote → Bool) (set : Remote → Remote)
    (sets : (r : Remote) → flag (set r) ≡ true) where
  -- The servers without the flag
  unfoldable pub pending : List Remote → ℕ
  pending [] = 0
  pending (r ∷ rs) = if flag r then pending rs else suc (pending rs)

  -- The server of an index is there, without the flag.
  unfoldable pub is_pending : ℕ → List Remote → Bool
  is_pending i [] = false
  is_pending zero (r ∷ rs) = not (flag r)
  is_pending (suc i) (r ∷ rs) = is_pending i rs

  -- Each index is that of a server without the flag when its turn comes.
  abbrev pub AllPending : List ℕ → List Remote → Type 0
  AllPending [] rs = Unit
  AllPending (i ∷ is) rs = (is_pending i rs ≡ true) × AllPending is (update set i rs)

  pub pending-update :
      (i : ℕ) (rs : List Remote)
      → is_pending i rs ≡ true
      → suc (pending (update set i rs)) ≡ pending rs
  unfolding pending is_pending update
  pending-update i [] h = ground (arith, h)
  pending-update zero (r ∷ rs) h = ground (arith, h, sets r)
  pending-update (suc i) (r ∷ rs) h = ground (arith, pending-update i rs h)

  pub all_of-pending : (rs : List Remote) → all_of flag rs ≡ (pending rs == 0)
  unfolding all_of pending
  all_of-pending [] = refl
  all_of-pending (r ∷ rs) = ground (arith, all_of-pending rs)

  pub length-update :
      (f : Remote → Remote) (i : ℕ) (rs : List Remote) → length (update f i rs) ≡ length rs
  unfolding update
  length-update f i [] = refl
  length-update f zero (r ∷ rs) = refl
  length-update f (suc i) (r ∷ rs) = ap suc (length-update f i rs)

  pub pending-map :
      (f : Remote → Remote) (clears : (r : Remote) → flag (f r) ≡ false) (rs : List Remote)
      → pending (map f rs) ≡ length rs
  unfolding pending
  pending-map f clears [] = refl
  pending-map f clears (r ∷ rs) = ground (arith, clears r, pending-map f clears rs)

  pending-le : (rs : List Remote) → pending rs ≤ length rs
  unfolding pending
  pending-le [] = omega arith
  pending-le (r ∷ rs) = ground (arith, pending-le rs)

  clear_flag :
      (i : ℕ) (rs : List Remote) → pending rs ≡ length rs → i < length rs → is_pending i rs ≡ true
  unfolding pending is_pending
  clear_flag i [] e h = absurd (omega arith)
  clear_flag zero (r ∷ rs) e h = ground (arith, pending-le rs)
  clear_flag (suc i) (r ∷ rs) e h = ground (arith, pending-le rs, clear_flag i rs)

  other_flag :
      (i j : ℕ) (rs : List Remote) → j ≢ i → is_pending j (update set i rs) ≡ is_pending j rs
  unfolding is_pending update
  other_flag i j [] h = refl
  other_flag zero zero (r ∷ rs) h = elim (h refl) [ ]
  other_flag zero (suc j) (r ∷ rs) h = refl
  other_flag (suc i) zero (r ∷ rs) h = refl
  other_flag (suc i) (suc j) (r ∷ rs) h = other_flag i j rs (λ e. h (ap suc e))

  abbrev EachPending : List ℕ → List Remote → Type 0
  EachPending [] rs = Unit
  EachPending (i ∷ is) rs = (is_pending i rs ≡ true) × EachPending is rs

  others :
      (i : ℕ) (is : List ℕ) (rs : List Remote)
      → Free i is
      → EachPending is rs
      → EachPending is (update set i rs)
  others i [] rs f e = tt
  others i (j ∷ js) rs f e = (other_flag i j rs f.0 ∙ e.0, others i js rs f.1 e.1)

  in_turn :
      (n : ℕ) (is : List ℕ) (rs : List Remote) → IsOrder n is → EachPending is rs → AllPending is rs
  in_turn n [] rs o e = tt
  in_turn n (i ∷ is) rs o e = (e.0, in_turn n is (update set i rs) o.2 (others i is rs o.1 e.1))

  each :
      (is : List ℕ) (rs : List Remote)
      → pending rs ≡ length rs
      → IsOrder (length rs) is
      → EachPending is rs
  each [] rs e o = tt
  each (i ∷ is) rs e o = (clear_flag i rs e o.0, each is rs e o.2)

  -- In any order, when no flag is set yet.
  pub order-AllPending :
      (is : List ℕ) (rs : List Remote)
      → pending rs ≡ length rs
      → IsOrder (length rs) is
      → AllPending is rs
  order-AllPending is rs e o = in_turn (length rs) is rs o (each is rs e o)
