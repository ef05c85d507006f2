-- ===== src/StateMachine/Ends.antt =====
-- The loop of util/state_machine.h ends where a rank of the states falls along it.
use server_client_peer_netwo.Base.{
  ℕ, zero, suc, ◌<◌, ◌≡◌, refl, sym, subst, ◌≢◌, ◌⊎◌, inl, inr, true, false, not, Option, none,
  some, List, ◌++◌, map, arith, if◌then◌else◌, Bool-cases,
}
use server_client_peer_netwo.Result.{Result, ok, err, ◌>>=◌}
use server_client_peer_netwo.StateMachine.{
  Fault, no_progress, Status, Handled, Behavior, Machine, Effect, act, Outcome, stop,
  goto_next_state, call_back, after_async, after_sync, handled, iterate, run, throwing,
}

module _ {S T E A X : Type 0} (b : Behavior S T E A X) where
  -- The state after `s`
  abbrev pub next : S → Option S → S
  next s none = b.next_state s
  next s (some t) = t

  -- Whether the loop goes on by itself after a handler's return.
  abbrev pub GoesOn : S → Handled S T E A → Type 0
  GoesOn s h =
      (b.should_stop s ≡ false)
      × (((b.is_async s ≡ true) × (h.reported ≡ some (ok tt)))
          ⊎ ((b.is_async s ≡ false) × ((h.reported ≡ none) ⊎ (h.reported ≡ some (ok tt)))))

  abbrev pub Falls : (S → ℕ) → Type 0
  Falls rank =
      (s : S) (t : T) (h : Handled S T E A)
      → b.handle s t ≡ ok h
      → GoesOn s h
      → rank (next s h.forced) < rank s

  joined-ne-stuck :
      (acts : List A) (o : Outcome b)
      → o ≢ err no_progress
      → ◌>>=◌ {B = Machine S T E × List (Effect E A)} o (λ q. ok (q.0, map act acts ++ q.1))
        ≢ err no_progress
  joined-ne-stuck acts (ok q) h e = cc
  joined-ne-stuck acts (err f) h e = h e

  module _ (again : Machine S T E → Outcome b) (m : Machine S T E) where
    after_async-ne-stuck :
        (r : Option (Status E))
        → (r ≡ some (ok tt)
            → b.should_stop m.current_state ≡ false
            → again (goto_next_state b m) ≢ err no_progress)
        → after_async b again m r ≢ err no_progress
    unfolding after_async call_back
    after_async-ne-stuck none k = ground arith
    after_async-ne-stuck (some (err e)) k = ground arith
    after_async-ne-stuck (some (ok u)) k = ground (arith, k refl)

    after_sync-ne-stuck :
        (r : Option (Status E))
        → ((r ≡ none) ⊎ (r ≡ some (ok tt))
            → b.should_stop m.current_state ≡ false
            → again (goto_next_state b m) ≢ err no_progress)
        → after_sync b again m r ≢ err no_progress
    unfolding after_sync
    after_sync-ne-stuck none k = ground (arith, k (inl refl))
    after_sync-ne-stuck (some (err e)) k = ground arith
    after_sync-ne-stuck (some (ok u)) k = ground (arith, k (inr refl))

  goto_next_state-handled :
      (m : Machine S T E) (h : Handled S T E A)
      → (goto_next_state b (handled b m h)).current_state ≡ next m.current_state h.forced
  unfolding goto_next_state
  goto_next_state-handled m h = by_forced m h.forced h.instance_
    where
      by_forced :
          (m : Machine S T E) (f : Option S) (t : T)
          → (goto_next_state b (record m { forced_next_state = f; instance_ = t })).current_state
            ≡ next m.current_state f
      by_forced m none t = refl
      by_forced m (some s) t = refl

  abbrev pub after :
      (Machine S T E → Outcome b) → Machine S T E → Result (Handled S T E A) (Fault X) → Outcome b
  after again m r = r >>= λ h.
      (if b.is_async m.current_state
        then after_async b again (handled b m h) h.reported
        else after_sync b again (handled b m h) h.reported)
      >>= λ q. ok (q.0, map act h.actions ++ q.1)

  module _ (rank : S → ℕ) (falls : Falls rank) where
    after-ne-stuck :
        (again : Machine S T E → Outcome b) (m : Machine S T E) (r : Result (Handled S T E A) X)
        → b.handle m.current_state m.instance_ ≡ r
        → ((m' : Machine S T E)
            → rank m'.current_state < rank m.current_state
            → again m' ≢ err no_progress)
        → after again m (throwing r) ≢ err no_progress
    after-ne-stuck again m (err x) e k = cc
    after-ne-stuck again m (ok h) e k =
        joined-ne-stuck h.actions
          (if b.is_async m.current_state
            then after_async b again (handled b m h) h.reported
            else after_sync b again (handled b m h) h.reported)
          (elim (Bool-cases (b.is_async m.current_state)) [
            | inl async ↦ rw async (
                after_async-ne-stuck again (handled b m h) h.reported
                  (λ r s. on (s, inl (async, r))))
            | inr sync ↦ rw sync (
                after_sync-ne-stuck again (handled b m h) h.reported (λ r s. on (s, inr (sync, r))))
          ])
      where
        on : GoesOn m.current_state h → again (goto_next_state b (handled b m h)) ≢ err no_progress
        on g = k (goto_next_state b (handled b m h)) (
            subst (λ s. rank s < rank m.current_state) (sym (goto_next_state-handled m h))
              (falls m.current_state m.instance_ h e g))

    -- `run` ends on more fuel than the rank of the state, if the rank falls from each state that
    -- the loop leaves by itself to the next.
    pub run-ends :
        (fuel : ℕ) (m : Machine S T E)
        → rank m.current_state < fuel
        → run b fuel m ≢ err no_progress
    unfolding run iterate
    run-ends zero m h = absurd (omega arith)
    run-ends (suc fuel) m lt =
        elim m.running
          as (λ t.
            (if not t
              then ok (stop b m)
              else after (λ m'. run b fuel m') m (throwing (b.handle m.current_state m.instance_)))
            ≢ err no_progress) [
              | true ↦
                  after-ne-stuck (λ m'. run b fuel m') m (b.handle m.current_state m.instance_) refl
                    (λ m' h. run-ends fuel m' (omega arith))
              | false ↦ λ e. cc
            ]
