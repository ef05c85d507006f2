-- ===== src/StateMachine.antt =====
-- src/util/state_machine.h: the state machine that the services are.
--
-- What the macros define for a machine's states is a `Behavior`. A handler returns what it changes,
-- does and, if it calls its callback before it returns, reports; a later call of the callback is
-- `complete`. The threads that `await_stop` blocks are outside.
pub mod Ends
pub mod Once
use server_client_peer_netwo.Base.{
  ℕ, zero, suc, Bool, true, false, not, ◌||◌, Option, none, some, List, [], ◌∷◌, ◌++◌,
  if◌then◌else◌, map,
}
use server_client_peer_netwo.Result.{Result, ok, err, ◌>>=◌}

-- An exception of a handler, or a loop that did not end.
pub data Fault (X : Type 0) : Type 0 where
  thrown : X → Fault X
  no_progress : Fault X

abbrev pub throwing {ℓ} : {A : Type ℓ} {X : Type 0} → Result A X → Result A (Fault X)
throwing (ok a) = ok a
throwing (err x) = err (thrown x)

-- `result<void, error>`
abbrev pub Status : Type 0 → Type 0
Status E = Result (Unit {0}) E

pub record Handled (S T E A : Type 0) : Type 0 where
  pub instance_ : T
  pub actions : List A
  pub forced : Option S
  pub reported : Option (Status E)

pub record Behavior (S T E A X : Type 0) : Type 0 where
  pub is_async : S → Bool
  pub should_stop : S → Bool
  pub next_state : S → S
  pub handle : S → T → Result (Handled S T E A) X

pub record Machine (S T E : Type 0) : Type 0 where
  pub running : Bool
  pub has_callback : Bool
  pub result_of_last_run : Status E
  pub forced_next_state : Option S
  pub instance_ : T
  pub current_state : S

pub data Effect (E A : Type 0) : Type 0 where
  act : A → Effect E A
  -- the run callback is called
  report : Status E → Effect E A
  unblock : Effect E A

module _ {S T E A X : Type 0} (b : Behavior S T E A X) where
  abbrev pub Outcome : Type 0
  Outcome = Result (Machine S T E × List (Effect E A)) (Fault X)

  unfoldable pub stop : Machine S T E → Machine S T E × List (Effect E A)
  stop m =
      if m.running
      then (
        record m { running = false },
        (if m.has_callback then report m.result_of_last_run ∷ (unblock ∷ []) else unblock ∷ []),
      )
      else (m, [])

  unfoldable pub stop_with_result : Machine S T E → Status E → Machine S T E × List (Effect E A)
  stop_with_result m r = stop (record m { result_of_last_run = r })

  unfoldable pub goto_next_state : Machine S T E → Machine S T E
  goto_next_state m = record m {
    current_state = elim m.forced_next_state [ none ↦ b.next_state m.current_state | some s ↦ s ];
  }

  -- The callback of an asynchronous state, where `run` goes on with the machine.
  unfoldable pub call_back : (Machine S T E → Outcome) → Machine S T E → Status E → Outcome
  call_back run m (err e) = ok (stop_with_result m (err e))
  call_back run m (ok u) =
      if b.should_stop m.current_state then ok (stop m) else run (goto_next_state m)

  -- What comes after the handler: the callback, if it was called, of an asynchronous state; the
  -- reported result, or success, of a synchronous one.
  unfoldable pub after_async :
      (Machine S T E → Outcome) → Machine S T E → Option (Status E) → Outcome
  after_async run m none = ok (m, [])
  after_async run m (some r) = call_back run m r

  unfoldable pub after_sync :
      (Machine S T E → Outcome) → Machine S T E → Option (Status E) → Outcome
  after_sync run m (some (err e)) = ok (stop_with_result m (err e))
  after_sync run m _ =
      if b.should_stop m.current_state
      then ok (stop_with_result m (ok tt))
      else run (goto_next_state m)

  abbrev pub handled : Machine S T E → Handled S T E A → Machine S T E
  handled m h = record m { forced_next_state = h.forced; instance_ = h.instance_ }

  -- One iteration of `run`.
  unfoldable pub iterate : (Machine S T E → Outcome) → Machine S T E → Outcome
  iterate run m = if not m.running then ok (stop m) else (do
    h ← throwing (b.handle m.current_state m.instance_)
    (m', es) ←
        (if b.is_async m.current_state
          then after_async run (handled m h) h.reported
          else after_sync run (handled m h) h.reported)
    ok (m', map act h.actions ++ es))

  unfoldable pub run : ℕ → Machine S T E → Outcome
  run zero m = err no_progress
  run (suc fuel) m = iterate (λ m'. run fuel m') m

  unfoldable pub start : ℕ → Machine S T E → Bool → Outcome
  start fuel m has_callback =
      run fuel
        (record m { running = true; result_of_last_run = ok tt; has_callback = has_callback })

  -- A later call of the callback of the asynchronous state, with what its caller has set before.
  unfoldable pub complete : ℕ → Machine S T E → T → Option S → Status E → Outcome
  complete fuel m t forced r =
      call_back (λ m'. run fuel m') (record m { instance_ = t; forced_next_state = forced }) r
