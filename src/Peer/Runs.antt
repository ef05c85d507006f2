-- ===== src/Peer/Runs.antt =====
-- Every history of the manager of peer_network_manager.cc.
use server_client_peer_netwo.Base.{
  ℕ, ◌+◌, ◌≡◌, refl, List, [], ◌∷◌, ◌++◌, arith, some, sym, subst, Bool, true, false, if◌then◌else◌,
}
use server_client_peer_netwo.Result.{ok, err, ◌>>=◌}
use server_client_peer_netwo.Peer.{
  closed, Manager, Effect, Outcome, Event, await, report, client, server, stop, step, update_state,
  signal_stop, signal_stop_with_error, check_if_connected, report_error, await_connected,
  on_client_connection, on_server_connection, is_connected_impl, change_entry, all_connected,
  connect_failed, accept_failed, unblock,
}
use server_client_peer_netwo.Peer.Callbacks.{
  count, connected_calls, recovered_calls, calls-append, Balance, registers, step-Balance,
  more-Balance,
}

-- A history: the events in order, with all that is scheduled and run.
unfoldable pub run : Manager → List Event → Outcome
run m [] = ok (m, [])
run m (e ∷ es) = do (m', now) ← step m e; (m'', later) ← run m' es; ok (m'', now ++ later)

-- How often a history registers the number as a connected and as a recovered callback.
abbrev pub registered : ℕ → List Event → ℕ × ℕ
registered c [] = (0, 0)
registered c (e ∷ es) =
    ((registers c e).0 + (registered c es).0, (registers c e).1 + (registered c es).1)

later-Balance :
    (c n r : ℕ) (now : List Effect) (o : Outcome)
    → Balance c n r o
    → Balance c
        (connected_calls c now + n)
        (recovered_calls c now + r)
        (o >>= λ q. ok (q.0, now ++ q.1))
later-Balance c n r now (ok (m, es)) h = ground (arith, calls-append c now es)
later-Balance c n r now (err e) h = h

then-Balance :
    (c n r n' r' : ℕ) (o : Outcome) (es : List Event)
    → Balance c n r o
    → ((m : Manager)
        → Balance c
            (count c m.connected_callbacks + n')
            (count c m.recovered_callbacks + r')
            (run m es))
    → Balance c (n + n') (r + r') (o >>= λ x. run x.0 es >>= λ q. ok (q.0, x.1 ++ q.1))
then-Balance c n r n' r' (ok (m, now)) es h k =
    more-Balance c (connected_calls c now + (count c m.connected_callbacks + n'))
      (recovered_calls c now + (count c m.recovered_callbacks + r')) (n + n') (r + r')
      (run m es >>= λ q. ok (q.0, now ++ q.1)) (omega (arith, h.0)) (omega (arith, h.1))
      (later-Balance c (count c m.connected_callbacks + n') (count c m.recovered_callbacks + r') now
        (run m es) (k m))
then-Balance c n r n' r' (err e) es h k = h

-- After any history of a manager: the calls that were made to a connected and to a recovered
-- callback, with success or an error, and those still owed are together as many as were owed at the
-- start and registered since; or a null pointer was followed.
pub run-Balance :
    (c : ℕ) (es : List Event) (m : Manager)
    → Balance c
        (count c m.connected_callbacks + (registered c es).0)
        (count c m.recovered_callbacks + (registered c es).1)
        (run m es)
unfolding run
run-Balance c [] m = (omega arith, omega arith)
run-Balance c (e ∷ es) m =
    more-Balance c ((count c m.connected_callbacks + (registers c e).0) + (registered c es).0)
      ((count c m.recovered_callbacks + (registers c e).1) + (registered c es).1)
      (count c m.connected_callbacks + ((registers c e).0 + (registered c es).0))
      (count c m.recovered_callbacks + ((registers c e).1 + (registered c es).1))
      (step m e >>= λ x. run x.0 es >>= λ q. ok (q.0, x.1 ++ q.1)) (omega arith) (omega arith)
      (then-Balance c (count c m.connected_callbacks + (registers c e).0)
        (count c m.recovered_callbacks + (registers c e).1) (registered c es).0 (registered c es).1
        (step m e) es (step-Balance c m e) (λ m'. run-Balance c es m'))

-- Nothing is called: only an unblocking.
abbrev pub Silent : List Effect → Type 0
Silent es = (c : ℕ) → (connected_calls c es ≡ 0) × (recovered_calls c es ≡ 0)

abbrev pub StaysClosed : Outcome → Type 0
StaysClosed o =
    (m : Manager) × (es : List Effect) × (o ≡ ok (m, es)) × (m.state ≡ closed) × Silent es

either_way :
    (b : Bool) (m : Manager) → m.state ≡ closed → StaysClosed (if b then ok (m, []) else ok (m, []))
either_way true m h = (m, [], refl, h, λ c. (refl, refl))
either_way false m h = (m, [], refl, h, λ c. (refl, refl))

shut-StaysClosed : (m : Manager) (e : Event) → StaysClosed (step (record m { state = closed }) e)
unfolding step await_connected report_error on_client_connection on_server_connection signal_stop
    signal_stop_with_error check_if_connected is_connected_impl update_state
shut-StaysClosed m (await k) = (
  record m { state = closed; connected_callbacks = m.connected_callbacks ++ (k ∷ []) },
  [],
  refl,
  refl,
  λ c. (refl, refl),
)
shut-StaysClosed m (report k) = (
  record m { state = closed; recovered_callbacks = m.recovered_callbacks ++ (k ∷ []) },
  [],
  refl,
  refl,
  λ c. (refl, refl),
)
shut-StaysClosed m (client (err e)) = (
  record m { state = closed; stopping_error = some (connect_failed e) },
  [],
  refl,
  refl,
  λ c. (refl, refl),
)
shut-StaysClosed m (client (ok (id, (l, s)))) =
    let cs = change_entry id (λ e. record e { location = l; out_socket = some s }) m.managed in
    either_way (all_connected m.peer_locations cs) (record m { state = closed; managed = cs }) refl
shut-StaysClosed m (server (err e)) = (
  record m { state = closed; stopping_error = some (accept_failed e) },
  [],
  refl,
  refl,
  λ c. (refl, refl),
)
shut-StaysClosed m (server (ok (id, s))) =
    let cs = change_entry id (λ e. record e { in_socket = some s }) m.managed in
    either_way (all_connected m.peer_locations cs) (record m { state = closed; managed = cs }) refl
shut-StaysClosed m stop =
    (record m { state = closed; running = false }, unblock ∷ [], refl, refl, λ c. (refl, refl))

closed-step : (m : Manager) (e : Event) → m.state ≡ closed → StaysClosed (step m e)
closed-step m e h =
    subst (λ s. StaysClosed (step (record m { state = s }) e)) (sym h) (shut-StaysClosed m e)

-- A closed manager stays closed whatever happens, and calls nobody: a callback that is registered
-- then waits for ever.
pub closed-answers_nobody :
    (es : List Event) (m : Manager) → m.state ≡ closed → StaysClosed (run m es)
unfolding run
closed-answers_nobody [] m h = (m, [], refl, h, λ c. (refl, refl))
closed-answers_nobody (e ∷ es) m h =
    let (m', now, a, s, q) = closed-step m e h in
    let (m'', later, b, t, u) = closed-answers_nobody es m' s in
    (
      m'',
      now ++ later,
      ground (arith, a, b),
      t,
      λ c. ground (arith, calls-append c now later, q c, u c),
    )
