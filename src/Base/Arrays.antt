-- ===== src/Base/Arrays.antt =====
-- Arrays as functions from indices, and the lists that stand in them.
use Prim.Native.Nat.{ℕ, zero, suc, ◌+◌, ◌-◌, ◌≤◌, ◌<◌}
use mathlib.Core.Path.{◌≡◌, refl, ap, ap₂}
use mathlib.Core.List.{List, [], ◌∷◌, ◌++◌}
use native.Mathlib.Nat.{zero-add, suc-add, sub-zero, suc-sub-suc}
use native.Mathlib.Omega.{arith}
use server_client_peer_netwo.Base.Lists.{length, get_or, take, drop}

module _ {ℓ} {A : Type ℓ} where
  -- the values of `f` at 0, 1, …, n - 1
  unfoldable pub tabulate : ℕ → (ℕ → A) → List A
  tabulate zero f = []
  tabulate (suc n) f = f 0 ∷ tabulate n (λ i. f (suc i))

  pub length-tabulate : (n : ℕ) (f : ℕ → A) → length (tabulate n f) ≡ n
  unfolding tabulate
  length-tabulate zero f = refl
  length-tabulate (suc n) f = ap suc (length-tabulate n (λ i. f (suc i)))

  pub tabulate-congr :
      (n : ℕ) (f g : ℕ → A) → ((i : ℕ) → i < n → f i ≡ g i) → tabulate n f ≡ tabulate n g
  unfolding tabulate
  tabulate-congr zero f g h = refl
  tabulate-congr (suc n) f g h =
      ap₂ ◌∷◌ (h 0 (omega arith))
        (tabulate-congr n (λ i. f (suc i)) (λ i. g (suc i)) (λ i p. h (suc i) (omega arith)))

  pub tabulate-append :
      (n m : ℕ) (f : ℕ → A) → tabulate (n + m) f ≡ tabulate n f ++ tabulate m (λ i. f (n + i))
  unfolding tabulate
  tabulate-append zero m f = simp zero-add
  tabulate-append (suc n) m f = simp suc-add (ap (◌∷◌ (f 0)) (tabulate-append n m (λ i. f (suc i))))

  -- a list is the table of its elements
  pub tabulate-get_or : (xs : List A) (d : A) → tabulate (length xs) (λ i. get_or xs i d) ≡ xs
  unfolding tabulate
  tabulate-get_or [] d = refl
  tabulate-get_or (x ∷ xs) d = ap (◌∷◌ x) (tabulate-get_or xs d)

  pub take-tabulate : (k n : ℕ) (f : ℕ → A) → k ≤ n → take k (tabulate n f) ≡ tabulate k f
  unfolding tabulate
  take-tabulate zero n f h = refl
  take-tabulate (suc k) zero f h = absurd (omega arith)
  take-tabulate (suc k) (suc n) f h =
      ap (◌∷◌ (f 0)) (take-tabulate k n (λ i. f (suc i)) (omega arith))

  pub drop-tabulate :
      (k n : ℕ) (f : ℕ → A) → k ≤ n → drop k (tabulate n f) ≡ tabulate (n - k) (λ i. f (k + i))
  unfolding tabulate
  drop-tabulate zero n f h = simp (zero-add, sub-zero)
  drop-tabulate (suc k) zero f h = absurd (omega arith)
  drop-tabulate (suc k) (suc n) f h =
      simp (suc-add, suc-sub-suc) (drop-tabulate k n (λ i. f (suc i)) (omega arith))

  -- `tabulate` matches on `suc`; this reads its head where the count is only known positive.
  pub tabulate-pos :
      (n : ℕ) (f : ℕ → A) → 0 < n → tabulate n f ≡ f 0 ∷ tabulate (n - 1) (λ i. f (suc i))
  unfolding tabulate
  tabulate-pos zero f h = absurd (omega arith)
  tabulate-pos (suc n) f h = ap (λ k. f 0 ∷ tabulate k (λ i. f (suc i))) (omega arith)

  pub get_or-tabulate :
      (n : ℕ) (f : ℕ → A) (i : ℕ) (d : A) → i < n → get_or (tabulate n f) i d ≡ f i
  unfolding tabulate
  get_or-tabulate zero f i d h = absurd (omega arith)
  get_or-tabulate (suc n) f zero d h = refl
  get_or-tabulate (suc n) f (suc i) d h = get_or-tabulate n (λ i. f (suc i)) i d (omega arith)
