-- ===== src/Mutex/Pair/Tests.antt =====
-- Two nodes of distributed_mutual_exclusion_service.cc that ask for two files.
use server_client_peer_netwo.Base.{ℕ, ◌≢◌, refl, List, [], ◌∷◌, arith, name_eq}
use server_client_peer_netwo.Result.{ok, err}
use server_client_peer_netwo.Mutex.{
  Request, Node, Outcome, Event, receive, run_with, release, reply, request, send_request,
  send_reply, step, clocked, release_mutual_exclusion, on_receive_message, on_receive_request,
  answer, check_for_mutual_exclusion, all_permitted, run_with_mutual_exclusion, requests,
  deliver_delayed_requests, run,
}
use server_client_peer_netwo.Mutex.Pair.{
  Pair, runs, receives, releases, left_moves, right_moves, initial, Reach, start, later,
}
use server_client_peer_netwo.Mutex.Pair.Safety.{mutual_exclusion}

-- "f" and "g"
abbrev f : List ℕ
f = 102 ∷ []

abbrev g : List ℕ
g = 103 ∷ []

abbrev after : Node → Outcome → Node
after n (ok (n', es)) = n'
after n (err e) = n

abbrev moved : Node → Event → Node
moved n e = after n (step n e)

-- The right node asks for "g" and is answered.
abbrev s1 : Pair
s1 = record (initial 0 1) {
  right = moved (initial 0 1).right (run_with g 8);
  to_left = request (clocked 0 g) ∷ [];
}

abbrev s2 : Pair
s2 = record s1 {
  left = moved s1.left (receive 1 (request (clocked 0 g)));
  to_left = [];
  to_right = reply (clocked 1 g) ∷ [];
}

abbrev s3 : Pair
s3 = record s2 { right = moved s2.right (receive 0 (reply (clocked 1 g))); to_right = [] }

abbrev s4 : Pair
s4 = record s3 { right = moved s3.right release }

-- The left node asks for "f" and is answered.
abbrev s5 : Pair
s5 = record s4 { left = moved s4.left (run_with f 7); to_right = request (clocked 1 f) ∷ [] }

abbrev s6 : Pair
s6 = record s5 {
  right = moved s5.right (receive 0 (request (clocked 1 f)));
  to_right = [];
  to_left = reply (clocked 3 f) ∷ [];
}

abbrev s7 : Pair
s7 = record s6 { left = moved s6.left (receive 1 (reply (clocked 3 f))); to_left = [] }

-- The right node still has the permission for "g".
abbrev s8 : Pair
s8 = record s7 { right = moved s7.right (run_with g 9) }

reach1 : Reach 0 1 s1
unfolding step run_with_mutual_exclusion requests check_for_mutual_exclusion all_permitted
reach1 = later start (
    right_moves (omega arith, omega arith)
      (runs g 8 (send_request 0 (clocked 0 g) ∷ []) refl refl refl))

reach2 : Reach 0 1 s2
unfolding step on_receive_message on_receive_request answer run_with_mutual_exclusion requests
    check_for_mutual_exclusion all_permitted
reach2 = later reach1 (
    left_moves (omega arith, omega arith)
      (receives (request (clocked 0 g)) (send_reply 1 (clocked 1 g) ∷ []) refl refl refl))

reach3 : Reach 0 1 s3
unfolding step on_receive_message on_receive_request answer run_with_mutual_exclusion requests
    check_for_mutual_exclusion all_permitted name_eq
reach3 = later reach2 (
    right_moves (omega arith, omega arith)
      (receives (reply (clocked 1 g)) (run 8 ∷ []) refl refl refl))

reach4 : Reach 0 1 s4
unfolding step on_receive_message on_receive_request answer run_with_mutual_exclusion requests
    check_for_mutual_exclusion all_permitted name_eq release_mutual_exclusion
    deliver_delayed_requests
reach4 = later reach3 (right_moves (omega arith, omega arith) (releases [] refl refl refl refl))

reach5 : Reach 0 1 s5
unfolding step on_receive_message on_receive_request answer run_with_mutual_exclusion requests
    check_for_mutual_exclusion all_permitted name_eq release_mutual_exclusion
    deliver_delayed_requests
reach5 = later reach4 (
    left_moves (omega arith, omega arith)
      (runs f 7 (send_request 1 (clocked 1 f) ∷ []) refl refl refl))

reach6 : Reach 0 1 s6
unfolding step on_receive_message on_receive_request answer run_with_mutual_exclusion requests
    check_for_mutual_exclusion all_permitted name_eq release_mutual_exclusion
    deliver_delayed_requests
reach6 = later reach5 (
    right_moves (omega arith, omega arith)
      (receives (request (clocked 1 f)) (send_reply 0 (clocked 3 f) ∷ []) refl refl refl))

reach7 : Reach 0 1 s7
unfolding step on_receive_message on_receive_request answer run_with_mutual_exclusion requests
    check_for_mutual_exclusion all_permitted name_eq release_mutual_exclusion
    deliver_delayed_requests
reach7 = later reach6 (
    left_moves (omega arith, omega arith)
      (receives (reply (clocked 3 f)) (run 7 ∷ []) refl refl refl))

reach8 : Reach 0 1 s8
unfolding step on_receive_message on_receive_request answer run_with_mutual_exclusion requests
    check_for_mutual_exclusion all_permitted name_eq release_mutual_exclusion
    deliver_delayed_requests
reach8 =
    later reach7 (right_moves (omega arith, omega arith) (runs g 9 (run 9 ∷ []) refl refl refl))

abbrev for_f : Request
for_f = record { file_name = f; operation = 7; timestamp = 1 }

abbrev for_g : Request
for_g = record { file_name = g; operation = 9; timestamp = 3 }

mutual_exclusion_example : f ≢ g
unfolding step on_receive_message on_receive_request answer run_with_mutual_exclusion requests
    check_for_mutual_exclusion all_permitted name_eq release_mutual_exclusion
    deliver_delayed_requests
mutual_exclusion_example =
    mutual_exclusion 0 1 s8 for_f for_g (omega arith) (omega arith) (omega arith) reach8 refl refl
      refl refl

-- The right node is in the critical section when the left node asks for "g", too.
abbrev s9 : Pair
s9 = record s3 { left = moved s3.left (run_with g 7); to_right = request (clocked 1 g) ∷ [] }

abbrev s10 : Pair
s10 = record s9 { right = moved s9.right (receive 0 (request (clocked 1 g))); to_right = [] }
