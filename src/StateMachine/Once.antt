-- ===== src/StateMachine/Once.antt =====
-- A machine of util/state_machine.h reports once for each start.
use server_client_peer_netwo.Base.{
  ℕ, zero, suc, ◌+◌, ◌≡◌, refl, ap, ◌∙◌, Bool, true, false, not, Option, none, some, List, [], ◌∷◌,
  ◌++◌, map, arith, if◌then◌else◌,
}
use server_client_peer_netwo.Result.{Result, ok, err, ◌>>=◌}
use server_client_peer_netwo.StateMachine.{
  Fault, Status, Handled, Behavior, Machine, Effect, act, report, unblock, Outcome, stop,
  stop_with_result, goto_next_state, call_back, after_async, after_sync, handled, iterate, run,
  start, complete, throwing,
}

module _ {E A : Type 0} where
  abbrev pub reports : List (Effect E A) → ℕ
  reports [] = 0
  reports (report r ∷ es) = suc (reports es)
  reports (act a ∷ es) = reports es
  reports (unblock ∷ es) = reports es

  reports-append : (es fs : List (Effect E A)) → reports (es ++ fs) ≡ reports es + reports fs
  reports-append [] fs = omega arith
  reports-append (report r ∷ es) fs = omega (arith, reports-append es fs)
  reports-append (act a ∷ es) fs = reports-append es fs
  reports-append (unblock ∷ es) fs = reports-append es fs

reports-acts : {A : Type 0} (E : Type 0) (acts : List A) → reports {E = E} (map act acts) ≡ 0
reports-acts E [] = refl
reports-acts E (a ∷ acts) = reports-acts E acts

abbrev pub live : {S T E : Type 0} → Machine S T E → ℕ
live m = if m.running then 1 else 0

module _ {S T E A X : Type 0} (b : Behavior S T E A X) where
  -- What is returned has reported or is still running, if `m` was running, and else neither.
  abbrev pub Once : Machine S T E → Outcome b → Type 0
  Once m (ok (m', es)) =
      (m'.has_callback ≡ m.has_callback) × ((m.has_callback ≡ true) → reports es + live m' ≡ live m)
  Once m (err e) = Unit

  stop-Once : (m : Machine S T E) → Once m (ok (stop b m))
  unfolding stop
  stop-Once m = ground arith

  stop_with_result-Once : (m : Machine S T E) (r : Status E) → Once m (ok (stop_with_result b m r))
  unfolding stop_with_result
  stop_with_result-Once m r = stop-Once (record m { result_of_last_run = r })

  waiting-Once : (m : Machine S T E) → Once m (ok (m, []))
  waiting-Once m = (refl, λ h. omega arith)

  module _ (again : Machine S T E → Outcome b) (ih : (m : Machine S T E) → Once m (again m)) where
    next-Once : (m : Machine S T E) → Once m (again (goto_next_state b m))
    unfolding goto_next_state
    next-Once m = ih (goto_next_state b m)

    call_back-Once : (m : Machine S T E) (r : Status E) → Once m (call_back b again m r)
    unfolding call_back
    call_back-Once m (err e) = stop_with_result-Once m (err e)
    call_back-Once m (ok u) =
        elim (b.should_stop m.current_state)
          as (λ t. Once m (if t then ok (stop b m) else again (goto_next_state b m))) [
            | true ↦ stop-Once m
            | false ↦ next-Once m
          ]

    after_async-Once :
        (m : Machine S T E) (r : Option (Status E)) → Once m (after_async b again m r)
    unfolding after_async
    after_async-Once m none = waiting-Once m
    after_async-Once m (some r) = call_back-Once m r

    stop_or_next-Once :
        (m : Machine S T E) (t : Bool)
        → Once m (if t then ok (stop_with_result b m (ok tt)) else again (goto_next_state b m))
    stop_or_next-Once m true = stop_with_result-Once m (ok tt)
    stop_or_next-Once m false = next-Once m

    after_sync-Once : (m : Machine S T E) (r : Option (Status E)) → Once m (after_sync b again m r)
    unfolding after_sync
    after_sync-Once m none = stop_or_next-Once m (b.should_stop m.current_state)
    after_sync-Once m (some (ok u)) = stop_or_next-Once m (b.should_stop m.current_state)
    after_sync-Once m (some (err e)) = stop_with_result-Once m (err e)

    acted-Once :
        (m : Machine S T E) (acts : List A) (o : Outcome b)
        → Once m o
        → Once m (o >>= λ q. ok (q.0, map act acts ++ q.1))
    acted-Once m acts (ok (m', es)) h =
        (h.0, λ c. omega (arith, reports-append (map act acts) es, reports-acts E acts, h.1 c))
    acted-Once m acts (err e) h = tt

    either-Once :
        (m : Machine S T E) (h : Handled S T E A) (t : Bool)
        → Once m (
            if t
            then after_async b again (handled b m h) h.reported
            else after_sync b again (handled b m h) h.reported)
    either-Once m h true = after_async-Once (handled b m h) h.reported
    either-Once m h false = after_sync-Once (handled b m h) h.reported

    handled-Once :
        (m : Machine S T E) (r : Result (Handled S T E A) (Fault X))
        → Once m (
            r >>= λ h.
            (if b.is_async m.current_state
              then after_async b again (handled b m h) h.reported
              else after_sync b again (handled b m h) h.reported)
            >>= λ q. ok (q.0, map act h.actions ++ q.1))
    handled-Once m (err e) = tt
    handled-Once m (ok h) =
        acted-Once m h.actions
          (if b.is_async m.current_state
            then after_async b again (handled b m h) h.reported
            else after_sync b again (handled b m h) h.reported)
          (either-Once m h (b.is_async m.current_state))

    iterate-Once : (m : Machine S T E) → Once m (iterate b again m)
    unfolding iterate
    iterate-Once m =
        elim m.running
          as (λ t. Once m (
            if not t
            then ok (stop b m)
            else (throwing (b.handle m.current_state m.instance_) >>= λ h.
                (if b.is_async m.current_state
                  then after_async b again (handled b m h) h.reported
                  else after_sync b again (handled b m h) h.reported)
                >>= λ q. ok (q.0, map act h.actions ++ q.1)))) [
                  | true ↦ handled-Once m (throwing (b.handle m.current_state m.instance_))
                  | false ↦ stop-Once m
                ]

  run-Once : (fuel : ℕ) (m : Machine S T E) → Once m (run b fuel m)
  unfolding run
  run-Once zero m = tt
  run-Once (suc fuel) m = iterate-Once (λ m'. run b fuel m') (λ m'. run-Once fuel m') m

  -- What happens to a machine after its start: the callback of its state is called, or it is stopped.
  pub data Event : Type 0 where
    completes : T → Option S → Status E → Event
    stops : Event

  unfoldable pub follow : ℕ → Machine S T E → List Event → Outcome b
  follow fuel m [] = ok (m, [])
  follow fuel m (completes t forced r ∷ events) = do
    (m', es) ← complete b fuel m t forced r
    (m'', more) ← follow fuel m' events
    ok (m'', es ++ more)
  follow fuel m (stops ∷ events) = do
    (m'', more) ← follow fuel (stop b m).0 events
    ok (m'', (stop b m).1 ++ more)

  complete-Once :
      (fuel : ℕ) (m : Machine S T E) (t : T) (forced : Option S) (r : Status E)
      → Once m (complete b fuel m t forced r)
  unfolding complete
  complete-Once fuel m t forced r =
      call_back-Once (λ m'. run b fuel m') (run-Once fuel)
        (record m { instance_ = t; forced_next_state = forced }) r

  then-Once :
      (m : Machine S T E) (o : Outcome b) (f : Machine S T E → Outcome b)
      → Once m o
      → ((m' : Machine S T E) → Once m' (f m'))
      → Once m (o >>= λ q. f q.0 >>= λ p. ok (p.0, q.1 ++ p.1))
  then-Once m (err e) f h k = tt
  then-Once m (ok (m', es)) f h k = joined m m' es (f m') h (k m')
    where
      joined :
          (m m' : Machine S T E) (es : List (Effect E A)) (o : Outcome b)
          → Once m (ok (m', es))
          → Once m' o
          → Once m (o >>= λ p. ok (p.0, es ++ p.1))
      joined m m' es (err e) h k = tt
      joined m m' es (ok (m'', fs)) h k =
          (k.0 ∙ h.0, λ c. omega (arith, reports-append es fs, h.1 c, k.1 (h.0 ∙ c)))

  follow-Once : (fuel : ℕ) (events : List Event) (m : Machine S T E) → Once m (follow fuel m events)
  unfolding follow
  follow-Once fuel [] m = waiting-Once m
  follow-Once fuel (completes t forced r ∷ events) m =
      then-Once m (complete b fuel m t forced r) (λ m'. follow fuel m' events)
        (complete-Once fuel m t forced r) (follow-Once fuel events)
  follow-Once fuel (stops ∷ events) m =
      then-Once m (ok (stop b m)) (λ m'. follow fuel m' events) (stop-Once m)
        (follow-Once fuel events)

  -- What the effects and the machine are after a start with a callback.
  abbrev pub ReportedOnce : Outcome b → Type 0
  ReportedOnce (ok (m, es)) = reports es + live m ≡ 1
  ReportedOnce (err e) = Unit

  Once-ReportedOnce :
      (m : Machine S T E) (o : Outcome b)
      → m.running ≡ true
      → m.has_callback ≡ true
      → Once m o
      → ReportedOnce o
  Once-ReportedOnce m (err e) r c h = tt
  Once-ReportedOnce m (ok (m', es)) r c h = h.1 c ∙ ap (λ t. if t then 1 else 0) r

  -- A machine that is started with a callback, whatever happens then: if no handler throws, the
  -- callback has been called once if the machine does not run any more, and not yet if it runs.
  pub start-ReportedOnce :
      (fuel : ℕ) (m : Machine S T E) (events : List Event)
      → ReportedOnce
          (start b fuel m true >>= λ q. follow fuel q.0 events >>= λ p. ok (p.0, q.1 ++ p.1))
  unfolding start
  start-ReportedOnce fuel m events =
      let m' : Machine S T E = record m {
        running = true;
        result_of_last_run = ok tt;
        has_callback = true;
      } in
      Once-ReportedOnce m'
        (run b fuel m' >>= λ q. follow fuel q.0 events >>= λ p. ok (p.0, q.1 ++ p.1)) refl refl
        (then-Once m' (run b fuel m') (λ m''. follow fuel m'' events) (run-Once fuel m')
          (follow-Once fuel events))
