-- ===== src/Mutex/Runs.antt =====
-- Every history of a node of distributed_mutual_exclusion_service.cc, and its clock.
use server_client_peer_netwo.Base.{
  ℕ, ◌+◌, ◌^◌, ◌<◌, ◌≡◌, refl, sym, subst, ◌⊎◌, Bool, true, false, none, List, [], ◌∷◌, ◌++◌, arith,
}
use server_client_peer_netwo.Result.{ok, err, ◌>>=◌}
use server_client_peer_netwo.Messages.{Clocked}
use server_client_peer_netwo.Mutex.{
  waiting, Node, Effect, Outcome, Event, receive, sent, run_with, release, reply, request, answer,
  answer_requesting, on_receive_request, on_receive_message, on_send_message,
  release_mutual_exclusion, step, send_reply, check_for_mutual_exclusion,
}
use server_client_peer_netwo.Mutex.Invariant.{
  IsConsistent, Agrees, Keeps, Keeps-bind, receive-Keeps, run_with-Keeps,
}
use server_client_peer_netwo.Mutex.Release.{release-answers_all}

release-Keeps : (n : Node) → Keeps (release_mutual_exclusion n)
release-Keeps n =
    let (n', es, ran, del) = release-answers_all n in
    subst Keeps (sym ran)
      (subst (λ s. Agrees s n') (sym del.idle) (del.no_request, del.none_delayed))

-- Whatever happens to a consistent node, it is consistent after it, or the handler took the value of
-- an empty optional.
pub step-IsConsistent : (n : Node) (e : Event) → IsConsistent n → Keeps (step n e)
unfolding step on_send_message
step-IsConsistent n (receive peer msg) h = receive-Keeps n peer msg h
step-IsConsistent n (sent peer done) h = h
step-IsConsistent n (run_with file op) h = run_with-Keeps n file op h
step-IsConsistent n release h = release-Keeps n

-- A history: the events in order, with all that is sent and called.
unfoldable pub run : Node → List Event → Outcome
run n [] = ok (n, [])
run n (e ∷ es) = do (n', now) ← step n e; (n'', later) ← run n' es; ok (n'', now ++ later)

-- A node as the constructor and `OnNetworkConnected` leave it.
abbrev pub connected : ℕ → List ℕ → Node
connected id peers = record {
  id = id;
  network = peers;
  permitted = λ p f. false;
  timestamp = 0;
  state = waiting;
  my_request = none;
  delayed = [];
}

then-Keeps :
    (o : Outcome) (es : List Event)
    → Keeps o
    → ((n : Node) → IsConsistent n → Keeps (run n es))
    → Keeps (o >>= λ r. run r.0 es >>= λ q. ok (q.0, r.1 ++ q.1))
then-Keeps (ok (n, now)) es h k = Keeps-bind (run n es) (λ later. now ++ later) (k n h)
then-Keeps (err e) es h k = h

run-Keeps : (es : List Event) (n : Node) → IsConsistent n → Keeps (run n es)
unfolding run
run-Keeps [] n h = h
run-Keeps (e ∷ es) n h =
    then-Keeps (step n e) es (step-IsConsistent n e h) (λ n' h'. run-Keeps es n' h')

-- After any history of a connected node, unless the value of an empty optional was taken: in the
-- critical section it has every entry's permission for the file of its request; waiting, it has no
-- request and owes no reply. No other fault is possible.
pub run-IsConsistent :
    (id : ℕ) (peers : List ℕ) (es : List Event) → Keeps (run (connected id peers) es)
run-IsConsistent id peers es = run-Keeps es (connected id peers) (refl, refl)

-- The clock passes both the clock of a received Request or Reply and its own, below the last value
-- of `size_t`.
pub clock_advances :
    (n n' : Node) (es : List Effect) (peer : ℕ) (msg : Clocked)
    → n.timestamp + 1 < 2 ^ 64
    → msg.timestamp + 1 < 2 ^ 64
    → (step n (receive peer (request msg)) ≡ ok (n', es))
      ⊎ (step n (receive peer (reply msg)) ≡ ok (n', es))
    → (n.timestamp < n'.timestamp) × (msg.timestamp < n'.timestamp)
unfolding step on_receive_message on_receive_request answer answer_requesting
    check_for_mutual_exclusion
clock_advances n n' es peer msg small small' h = ground arith

-- Whether a handler answers with a Reply.
abbrev pub replies : Outcome → Bool
replies (ok (n, (send_reply p c ∷ []))) = true
replies _ = false
