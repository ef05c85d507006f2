-- ===== src/Mutex/Tests.antt =====
-- Nodes of distributed_mutual_exclusion_service.cc at concrete states.
use server_client_peer_netwo.Base.{ℕ, ◌≡◌, refl, some, List, [], ◌∷◌, ◌==◌, name_eq}
use server_client_peer_netwo.Result.{ok, ◌>>=◌}
use server_client_peer_netwo.Mutex.{
  requesting, in_critical_section, Request, Node, Effect, Event, receive, run_with, release, reply,
  request, send_request, send_reply, step, clocked, release_mutual_exclusion, on_receive_message,
  on_receive_request, answer, check_for_mutual_exclusion, all_permitted, run_with_mutual_exclusion,
  requests, deliver_delayed_requests,
}
use server_client_peer_netwo.Mutex.Invariant.{Keeps}
use server_client_peer_netwo.Mutex.Release.{Delivered, release-answers_all}
use server_client_peer_netwo.Mutex.Runs.{run, connected, run-IsConsistent}

-- "f"
abbrev f : List ℕ
f = 102 ∷ []

abbrev history : List Event
history =
    run_with f 7
    ∷ receive 1 (reply (clocked 1 f))
    ∷ receive 2 (reply (clocked 1 f))
    ∷ receive 2 (request (clocked 3 f))
    ∷ release
    ∷ []

run-IsConsistent_example : Keeps (run (connected 0 (1 ∷ 2 ∷ [])) history)
run-IsConsistent_example = run-IsConsistent 0 (1 ∷ 2 ∷ []) history

-- What is sent on the way: both peers are asked, the operation runs, and the delayed one is
-- answered on release.
run-history :
    (run (connected 0 (1 ∷ 2 ∷ [])) history >>= λ r. ok r.1)
    ≡ ok (
        send_request 1 (clocked 0 f)
        ∷ send_request 2 (clocked 0 f)
        ∷ Effect.run 7
        ∷ send_reply 2 (clocked 5 f)
        ∷ [])
unfolding run step run_with_mutual_exclusion requests check_for_mutual_exclusion all_permitted
    on_receive_message on_receive_request answer release_mutual_exclusion deliver_delayed_requests
    name_eq
run-history = refl

abbrev mine : Request
mine = record { file_name = f; operation = 7; timestamp = 4 }

abbrev theirs : Request
theirs = record { file_name = f; operation = 8; timestamp = 2 }

-- Asking for `f`, with permission from 1 and none from 2
abbrev asking : Node
asking = record (connected 0 (1 ∷ 2 ∷ [])) {
  permitted = λ p g. p == 1;
  timestamp = 4;
  state = requesting;
  my_request = some mine;
}

abbrev rival : Node
rival = record (connected 1 (0 ∷ 2 ∷ [])) {
  timestamp = 2;
  state = requesting;
  my_request = some theirs;
}

abbrev owing : Node
owing = record asking {
  state = in_critical_section;
  delayed = record { peer = 2; request = clocked 5 f } ∷ [];
}

release-answers_all_example :
    (n : Node) × (es : List Effect) × (release_mutual_exclusion owing ≡ ok (n, es))
    × Delivered owing owing.delayed n es
release-answers_all_example = release-answers_all owing
