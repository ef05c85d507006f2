-- ===== src/Mutex/Pair/WideIds.antt =====
-- Two nodes of distributed_mutual_exclusion_service.cc whose ids, 1 and 256, do not both fit in 8 bits: the second is known
-- as 0 to its peer.
use server_client_peer_netwo.Base.{ℕ, ◌≡◌, refl, List, [], ◌∷◌, arith, name_eq}
use server_client_peer_netwo.Result.{ok, err}
use server_client_peer_netwo.Mutex.{
  in_critical_section, Node, Outcome, Event, receive, run_with, reply, request, send_request,
  send_reply, step, clocked, on_receive_message, on_receive_request, answer, answer_requesting,
  check_for_mutual_exclusion, all_permitted, run_with_mutual_exclusion, requests, run,
}
use server_client_peer_netwo.Mutex.Pair.{
  Pair, runs, receives, left_moves, right_moves, initial, Reach, start, later,
}

-- "f"
abbrev f : List ℕ
f = 102 ∷ []

abbrev after : Node → Outcome → Node
after n (ok (n', es)) = n'
after n (err e) = n

abbrev moved : Node → Event → Node
moved n e = after n (step n e)

-- Both ask for "f", with equal clocks.
abbrev s1 : Pair
s1 = record (initial 1 256) {
  left = moved (initial 1 256).left (run_with f 7);
  to_right = request (clocked 0 f) ∷ [];
}

abbrev s2 : Pair
s2 = record s1 { right = moved s1.right (run_with f 8); to_left = request (clocked 0 f) ∷ [] }

-- Both reply.
abbrev s3 : Pair
s3 = record s2 {
  left = moved s2.left (receive 0 (request (clocked 0 f)));
  to_left = [];
  to_right = request (clocked 0 f) ∷ reply (clocked 1 f) ∷ [];
}

abbrev s4 : Pair
s4 = record s3 {
  right = moved s3.right (receive 1 (request (clocked 0 f)));
  to_right = reply (clocked 1 f) ∷ [];
  to_left = reply (clocked 1 f) ∷ [];
}

abbrev s5 : Pair
s5 = record s4 { left = moved s4.left (receive 0 (reply (clocked 1 f))); to_left = [] }

abbrev s6 : Pair
s6 = record s5 { right = moved s5.right (receive 1 (reply (clocked 1 f))); to_right = [] }

reach1 : Reach 1 256 s1
unfolding step on_receive_message on_receive_request answer answer_requesting
    run_with_mutual_exclusion requests check_for_mutual_exclusion all_permitted name_eq
reach1 = later start (
    left_moves (omega arith, omega arith)
      (runs f 7 (send_request 0 (clocked 0 f) ∷ []) refl refl refl))

reach2 : Reach 1 256 s2
unfolding step on_receive_message on_receive_request answer answer_requesting
    run_with_mutual_exclusion requests check_for_mutual_exclusion all_permitted name_eq
reach2 = later reach1 (
    right_moves (omega arith, omega arith)
      (runs f 8 (send_request 1 (clocked 0 f) ∷ []) refl refl refl))

reach3 : Reach 1 256 s3
unfolding step on_receive_message on_receive_request answer answer_requesting
    run_with_mutual_exclusion requests check_for_mutual_exclusion all_permitted name_eq
reach3 = later reach2 (
    left_moves (omega arith, omega arith)
      (receives (request (clocked 0 f)) (send_reply 0 (clocked 1 f) ∷ []) refl refl refl))

reach4 : Reach 1 256 s4
unfolding step on_receive_message on_receive_request answer answer_requesting
    run_with_mutual_exclusion requests check_for_mutual_exclusion all_permitted name_eq
reach4 = later reach3 (
    right_moves (omega arith, omega arith)
      (receives (request (clocked 0 f)) (send_reply 1 (clocked 1 f) ∷ []) refl refl refl))

reach5 : Reach 1 256 s5
unfolding step on_receive_message on_receive_request answer answer_requesting
    run_with_mutual_exclusion requests check_for_mutual_exclusion all_permitted name_eq
reach5 = later reach4 (
    left_moves (omega arith, omega arith)
      (receives (reply (clocked 1 f)) (run 7 ∷ []) refl refl refl))

reach6 : Reach 1 256 s6
unfolding step on_receive_message on_receive_request answer answer_requesting
    run_with_mutual_exclusion requests check_for_mutual_exclusion all_permitted name_eq
reach6 = later reach5 (
    right_moves (omega arith, omega arith)
      (receives (reply (clocked 1 f)) (run 8 ∷ []) refl refl refl))

-- Both are in the critical section for "f".
both_inside :
    Reach 1 256 s6 × (s6.left.state ≡ in_critical_section) × (s6.right.state ≡ in_critical_section)
unfolding step on_receive_message on_receive_request answer answer_requesting
    run_with_mutual_exclusion requests check_for_mutual_exclusion all_permitted name_eq
both_inside = (reach6, refl, refl)
