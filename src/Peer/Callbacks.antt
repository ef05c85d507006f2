-- ===== src/Peer/Callbacks.antt =====
-- The callbacks of peer_network_manager.cc: each is called once for its registration.
use server_client_peer_netwo.Base.{
  ℕ, ◌+◌, ◌≡◌, refl, Bool, true, false, ◌∙◌, some, List, [], ◌∷◌, ◌++◌, map, arith, if◌then◌else◌,
  ◌==◌,
}
use server_client_peer_netwo.Result.{Result, ok, err, ◌>>=◌}
use server_client_peer_netwo.Peer.{
  State, initializing, connected, recovering, broken, closed, Manager, Effect, Outcome, network_to,
  network_now, recovered_to, error_to_connected, error_to_recovered, unblock, close, Problem, Event,
  await, report, client, server, stop, update, update_state, transition, succeed_connected,
  succeed_recovered, send_error, value_or, disconnected, stopped, null_pointer, construct_network,
  PeerConnection, Fault, is_connected_impl, Reference, state_eq, change_entry, signal_stop,
  connect_failed, accept_failed, signal_stop_with_error, check_if_connected, report_error,
  await_connected, on_client_connection, on_server_connection, step,
}

abbrev pub count : ℕ → List ℕ → ℕ
count c [] = 0
count c (x ∷ xs) = (if x == c then 1 else 0) + count c xs

-- How often the callback is called, with success or an error, among the connected callbacks.
abbrev pub connected_calls : ℕ → List Effect → ℕ
connected_calls c [] = 0
connected_calls c (network_to x ∷ es) = (if x == c then 1 else 0) + connected_calls c es
connected_calls c (network_now x _ ∷ es) = (if x == c then 1 else 0) + connected_calls c es
connected_calls c (error_to_connected _ x ∷ es) = (if x == c then 1 else 0) + connected_calls c es
connected_calls c (_ ∷ es) = connected_calls c es

abbrev pub recovered_calls : ℕ → List Effect → ℕ
recovered_calls c [] = 0
recovered_calls c (recovered_to x ∷ es) = (if x == c then 1 else 0) + recovered_calls c es
recovered_calls c (error_to_recovered _ x ∷ es) = (if x == c then 1 else 0) + recovered_calls c es
recovered_calls c (_ ∷ es) = recovered_calls c es

-- `n` calls to the connected callback and `r` to the recovered one are made now or are still owed;
-- or a null pointer was followed.
abbrev pub Balance : ℕ → ℕ → ℕ → Outcome → Type 0
Balance c n r (ok (m, es)) =
    (count c m.connected_callbacks + connected_calls c es ≡ n)
    × (count c m.recovered_callbacks + recovered_calls c es ≡ r)
Balance c n r (err e) = e ≡ null_pointer

count-append : (c : ℕ) (xs ys : List ℕ) → count c (xs ++ ys) ≡ count c xs + count c ys
count-append c [] ys = omega arith
count-append c (x ∷ xs) ys = ground (arith, count-append c xs ys)

pub calls-append :
    (c : ℕ) (es fs : List Effect)
    → (connected_calls c (es ++ fs) ≡ connected_calls c es + connected_calls c fs)
      × (recovered_calls c (es ++ fs) ≡ recovered_calls c es + recovered_calls c fs)
calls-append c [] fs = (omega arith, omega arith)
calls-append c (network_to x ∷ es) fs = ground (arith, calls-append c es fs)
calls-append c (network_now x _ ∷ es) fs = ground (arith, calls-append c es fs)
calls-append c (recovered_to x ∷ es) fs = ground (arith, calls-append c es fs)
calls-append c (error_to_connected _ x ∷ es) fs = ground (arith, calls-append c es fs)
calls-append c (error_to_recovered _ x ∷ es) fs = ground (arith, calls-append c es fs)
calls-append c (unblock ∷ es) fs = calls-append c es fs
calls-append c (close _ ∷ es) fs = calls-append c es fs

calls-network_to :
    (c : ℕ) (xs : List ℕ)
    → (connected_calls c (map network_to xs) ≡ count c xs)
      × (recovered_calls c (map network_to xs) ≡ 0)
calls-network_to c [] = (refl, refl)
calls-network_to c (x ∷ xs) = ground (arith, calls-network_to c xs)

calls-recovered_to :
    (c : ℕ) (xs : List ℕ)
    → (connected_calls c (map recovered_to xs) ≡ 0)
      × (recovered_calls c (map recovered_to xs) ≡ count c xs)
calls-recovered_to c [] = (refl, refl)
calls-recovered_to c (x ∷ xs) = ground (arith, calls-recovered_to c xs)

calls-error_to_connected :
    (c : ℕ) (p : Problem) (xs : List ℕ)
    → (connected_calls c (map (error_to_connected p) xs) ≡ count c xs)
      × (recovered_calls c (map (error_to_connected p) xs) ≡ 0)
calls-error_to_connected c p [] = (refl, refl)
calls-error_to_connected c p (x ∷ xs) = ground (arith, calls-error_to_connected c p xs)

calls-error_to_recovered :
    (c : ℕ) (p : Problem) (xs : List ℕ)
    → (connected_calls c (map (error_to_recovered p) xs) ≡ 0)
      × (recovered_calls c (map (error_to_recovered p) xs) ≡ count c xs)
calls-error_to_recovered c p [] = (refl, refl)
calls-error_to_recovered c p (x ∷ xs) = ground (arith, calls-error_to_recovered c p xs)

-- The calls of an error to all.
calls-send_error :
    (c : ℕ) (p : Problem) (xs ys : List ℕ)
    → (connected_calls c (map (error_to_connected p) xs ++ map (error_to_recovered p) ys)
        ≡ count c xs)
      × (recovered_calls c (map (error_to_connected p) xs ++ map (error_to_recovered p) ys)
          ≡ count c ys)
calls-send_error c p xs ys = ground (
  arith,
  calls-append c (map (error_to_connected p) xs) (map (error_to_recovered p) ys),
  calls-error_to_connected c p xs,
  calls-error_to_recovered c p ys,
)

-- A manager after `SendErrorToCallbacks` and what is done then without a call.
settled-Balance :
    (c : ℕ) (m : Manager) (s : State) (r : Bool) (p : Problem) (es : List Effect)
    → connected_calls c es ≡ 0
    → recovered_calls c es ≡ 0
    → Balance c (count c m.connected_callbacks) (count c m.recovered_callbacks) (
        ok (
          record m { state = s; running = r; connected_callbacks = []; recovered_callbacks = [] },
          (map (error_to_connected p) m.connected_callbacks
                ++ map (error_to_recovered p) m.recovered_callbacks)
              ++ es,
        ))
settled-Balance c m s r p es h k =
    let xs = m.connected_callbacks in
    let ys = m.recovered_callbacks in
    let (a, b) = calls-send_error c p xs ys in
    let (d, e) =
      calls-append c (map (error_to_connected p) xs ++ map (error_to_recovered p) ys) es in
    (omega (arith, a, d, h), omega (arith, b, e, k))

broken-Balance :
    (c : ℕ) (m : Manager) (p : Problem)
    → Balance c
        (count c m.connected_callbacks)
        (count c m.recovered_callbacks)
        (ok (send_error p m))
unfolding send_error
broken-Balance c m p =
    let (a, b) = calls-send_error c p m.connected_callbacks m.recovered_callbacks in
    (omega (arith, a), omega (arith, b))

abbrev pub Updated : ℕ → State → State → Manager → Type 0
Updated c new old m =
    Balance c (count c m.connected_callbacks) (count c m.recovered_callbacks)
      (update new (record m { state = old }))

nothing-Balance :
    (c : ℕ) (m : Manager)
    → Balance c (count c m.connected_callbacks) (count c m.recovered_callbacks) (ok (m, []))
nothing-Balance c m = (omega arith, omega arith)

-- An update of a manager in the state `old`.
close-Balance : (c : ℕ) (old : State) (m : Manager) → Updated c closed old m
unfolding update_state transition send_error
close-Balance c closed m = nothing-Balance c m
close-Balance c initializing m =
    settled-Balance c m closed false (value_or m.stopping_error stopped) (unblock ∷ []) refl refl
close-Balance c connected m =
    settled-Balance c m closed false (value_or m.stopping_error stopped) (unblock ∷ []) refl refl
close-Balance c recovering m =
    settled-Balance c m closed false (value_or m.stopping_error stopped) (unblock ∷ []) refl refl
close-Balance c broken m =
    settled-Balance c m closed false (value_or m.stopping_error stopped) (unblock ∷ []) refl refl

break-Balance : (c : ℕ) (old : State) (m : Manager) → Updated c broken old m
unfolding update_state transition
break-Balance c closed m = nothing-Balance c m
break-Balance c broken m = nothing-Balance c m
break-Balance c initializing m =
    broken-Balance c (record m { state = broken }) (value_or m.stopping_error disconnected)
break-Balance c connected m =
    broken-Balance c (record m { state = broken }) (value_or m.stopping_error disconnected)
break-Balance c recovering m =
    broken-Balance c (record m { state = broken }) (value_or m.stopping_error disconnected)

connect-Balance : (c : ℕ) (old : State) (m : Manager) → Updated c connected old m
unfolding update_state transition succeed_connected succeed_recovered
connect-Balance c initializing m = ground (arith, calls-network_to c m.connected_callbacks)
connect-Balance c recovering m = ground (
  arith,
  calls-append c (map recovered_to m.recovered_callbacks) (map network_to m.connected_callbacks),
  calls-recovered_to c m.recovered_callbacks,
  calls-network_to c m.connected_callbacks,
)
connect-Balance c closed m = nothing-Balance c m
connect-Balance c connected m = nothing-Balance c m
connect-Balance c broken m = nothing-Balance c m

-- What an event registers.
abbrev pub registers : ℕ → Event → ℕ × ℕ
registers c (await k) = (if k == c then 1 else 0, 0)
registers c (report k) = (0, if k == c then 1 else 0)
registers c _ = (0, 0)

unblock-Balance :
    (c n r : ℕ) (o : Outcome)
    → Balance c n r o
    → Balance c n r (o >>= λ x. ok (x.0, x.1 ++ (unblock ∷ [])))
unblock-Balance c n r (ok (m, es)) h = ground (arith, calls-append c es (unblock ∷ []))
unblock-Balance c n r (err e) h = h

signal_stop-Balance :
    (c : ℕ) (m : Manager)
    → Balance c (count c m.connected_callbacks) (count c m.recovered_callbacks) (signal_stop m)
unfolding signal_stop
signal_stop-Balance c m =
    unblock-Balance c (count c m.connected_callbacks) (count c m.recovered_callbacks)
      (update closed (record m { running = false }))
      (close-Balance c m.state (record m { running = false }))

construct_network-faults :
    (cs : List PeerConnection) (e : Fault) → construct_network cs ≡ err e → e ≡ null_pointer
unfolding construct_network
construct_network-faults [] e h = cc
construct_network-faults (c ∷ cs) e h = ground (arith, h, construct_network-faults cs e)

now-Balance :
    (c k : ℕ) (m : Manager) (r : Result (List Reference) Fault)
    → ((e : Fault) → r ≡ err e → e ≡ null_pointer)
    → Balance c
        (count c m.connected_callbacks + (registers c (await k)).0)
        (count c m.recovered_callbacks + 0)
        (r >>= λ refs. ok (m, network_now k refs ∷ []))
now-Balance c k m (ok refs) h = (omega arith, omega arith)
now-Balance c k m (err e) h = h e refl

await-Balance :
    (c : ℕ) (m : Manager) (k : ℕ)
    → Balance c
        (count c m.connected_callbacks + (registers c (await k)).0)
        (count c m.recovered_callbacks + 0)
        (await_connected m k)
unfolding await_connected
await-Balance c m k =
    elim (state_eq m.state connected)
      as (λ b.
        Balance c (count c m.connected_callbacks + (registers c (await k)).0)
          (count c m.recovered_callbacks + 0)
          (if b
            then (do refs ← construct_network m.managed; ok (m, network_now k refs ∷ []))
            else ok (record m { connected_callbacks = m.connected_callbacks ++ (k ∷ []) }, []))) [
              | true ↦
                  now-Balance c k m (construct_network m.managed)
                    (construct_network-faults m.managed)
              | false ↦ ground (arith, count-append c m.connected_callbacks (k ∷ []))
            ]

check_if_connected-Balance :
    (c : ℕ) (m : Manager)
    → Balance c
        (count c m.connected_callbacks)
        (count c m.recovered_callbacks)
        (check_if_connected m)
unfolding check_if_connected
check_if_connected-Balance c m =
    elim (is_connected_impl m)
      as (λ b.
        Balance c (count c m.connected_callbacks) (count c m.recovered_callbacks)
          (if b then update connected m else ok (m, []))) [
            | true ↦ connect-Balance c m.state m
            | false ↦ nothing-Balance c m
          ]

pub more-Balance :
    (c n r n' r' : ℕ) (o : Outcome) → n ≡ n' → r ≡ r' → Balance c n r o → Balance c n' r' o
more-Balance c n r n' r' (ok (m, es)) p q h = (h.0 ∙ p, h.1 ∙ q)
more-Balance c n r n' r' (err e) p q h = h

unmoved-Balance :
    (c : ℕ) (m : Manager)
    → Balance c
        (count c m.connected_callbacks + 0)
        (count c m.recovered_callbacks + 0)
        (check_if_connected m)
unmoved-Balance c m =
    more-Balance c (count c m.connected_callbacks) (count c m.recovered_callbacks)
      (count c m.connected_callbacks + 0) (count c m.recovered_callbacks + 0) (check_if_connected m)
      (omega arith) (omega arith) (check_if_connected-Balance c m)

-- Whatever happens to a manager, it returns or follows a null pointer; and the calls made, to any
-- connected or recovered callback, are with those still owed as many as were owed and are registered.
pub step-Balance :
    (c : ℕ) (m : Manager) (e : Event)
    → Balance c
        (count c m.connected_callbacks + (registers c e).0)
        (count c m.recovered_callbacks + (registers c e).1)
        (step m e)
unfolding step report_error on_client_connection on_server_connection signal_stop_with_error
step-Balance c m (await k) = await-Balance c m k
step-Balance c m (report k) =
    more-Balance c (count c (m.connected_callbacks)) (count c (m.recovered_callbacks ++ (k ∷ [])))
      (count c m.connected_callbacks + 0)
      (count c m.recovered_callbacks + (registers c (report k)).1) (report_error m k) (omega arith)
      (omega (arith, count-append c m.recovered_callbacks (k ∷ [])))
      (break-Balance c m.state
        (record m { recovered_callbacks = m.recovered_callbacks ++ (k ∷ []) }))
step-Balance c m (client (err e)) =
    more-Balance c (count c m.connected_callbacks) (count c m.recovered_callbacks)
      (count c m.connected_callbacks + 0) (count c m.recovered_callbacks + 0)
      (signal_stop_with_error m (connect_failed e)) (omega arith) (omega arith)
      (close-Balance c m.state (record m { stopping_error = some (connect_failed e) }))
step-Balance c m (client (ok (id, (l, s)))) = unmoved-Balance c (record m {
  managed = change_entry id (λ e. record e { location = l; out_socket = some s }) m.managed;
})
step-Balance c m (server (err e)) =
    more-Balance c (count c m.connected_callbacks) (count c m.recovered_callbacks)
      (count c m.connected_callbacks + 0) (count c m.recovered_callbacks + 0)
      (signal_stop_with_error m (accept_failed e)) (omega arith) (omega arith)
      (close-Balance c m.state (record m { stopping_error = some (accept_failed e) }))
step-Balance c m (server (ok (id, s))) =
    unmoved-Balance c
      (record m { managed = change_entry id (λ e. record e { in_socket = some s }) m.managed })
step-Balance c m stop =
    more-Balance c (count c m.connected_callbacks) (count c m.recovered_callbacks)
      (count c m.connected_callbacks + 0) (count c m.recovered_callbacks + 0) (signal_stop m)
      (omega arith) (omega arith) (signal_stop-Balance c m)
