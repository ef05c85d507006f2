-- ===== src/Mutex/Pair/Handled.antt =====
-- What the handlers of distributed_mutual_exclusion_service.cc return to a node with one peer.
use server_client_peer_netwo.Base.{
  ℕ, ◌≡◌, ap, true, false, not, ◌||◌, none, some, List, [], ◌∷◌, ◌++◌, arith, name_eq, name_eq_refl,
}
use server_client_peer_netwo.Result.{ok}
use server_client_peer_netwo.Messages.{Clocked}
use server_client_peer_netwo.Mutex.{
  waiting, requesting, in_critical_section, Request, Node, send_request, send_reply, request, reply,
  goes_first, clocked, step, receive, run_with, release, tick, grant, forget, has_value, is_waiting,
  on_receive_message, on_receive_request, answer, answer_requesting, check_for_mutual_exclusion,
  all_permitted, run_with_mutual_exclusion, requests, release_mutual_exclusion,
  deliver_delayed_requests, refuse, run,
}

-- What the handlers of a node with one peer return.
module _ (a : Node) (peer : ℕ) (net : a.network ≡ peer ∷ []) where
  pub run-refuses :
      (file : List ℕ) (op : ℕ)
      → (has_value a.my_request || not (is_waiting a.state)) ≡ true
      → step a (run_with file op) ≡ ok (a, refuse op ∷ [])
  unfolding step run_with_mutual_exclusion
  run-refuses file op h = ground (arith, h)

  pub run-enters :
      (file : List ℕ) (op : ℕ)
      → a.my_request ≡ none
      → a.state ≡ waiting
      → a.permitted peer file ≡ true
      → step a (run_with file op)
        ≡ ok (
          record a {
            my_request =
                some (record { file_name = file; operation = op; timestamp = a.timestamp });
            state = in_critical_section;
          },
          run op ∷ [],
        )
  unfolding step run_with_mutual_exclusion check_for_mutual_exclusion all_permitted requests
  run-enters file op m w h = ground (arith, net, m, w, h)

  pub run-starts :
      (file : List ℕ) (op : ℕ)
      → a.my_request ≡ none
      → a.state ≡ waiting
      → a.permitted peer file ≡ false
      → step a (run_with file op)
        ≡ ok (
          record a {
            my_request =
                some (record { file_name = file; operation = op; timestamp = a.timestamp });
            state = requesting;
          },
          send_request peer (clocked a.timestamp file) ∷ [],
        )
  unfolding step run_with_mutual_exclusion check_for_mutual_exclusion all_permitted requests
  run-starts file op m w h = ground (arith, net, m, w, h)

  pub reply-enters :
      (r : Request) (c : Clocked)
      → a.my_request ≡ some r
      → c.file_name ≡ r.file_name
      → step a (receive peer (reply c))
        ≡ ok (
          record a {
            timestamp = tick c.timestamp a.timestamp;
            permitted = grant a peer c.file_name;
            state = in_critical_section;
          },
          run r.operation ∷ [],
        )
  unfolding step on_receive_message check_for_mutual_exclusion all_permitted
  reply-enters r c m e =
      ground (arith, net, m, e, name_eq_refl c.file_name, ap (name_eq c.file_name) e)

abbrev pub ticked : Node → Clocked → Node
ticked a c = record a { timestamp = tick c.timestamp a.timestamp }

abbrev pub gives : Node → ℕ → Clocked → Node
gives a peer c = forget (ticked a c) peer c.file_name

abbrev pub answering : Node → Clocked → Clocked
answering a c = clocked (tick c.timestamp a.timestamp) c.file_name

module _ (a : Node) (peer : ℕ) (c : Clocked) where
  pub request-forgets :
      a.state ≡ waiting
      → step a (receive peer (request c))
        ≡ ok (gives a peer c, send_reply peer (answering a c) ∷ [])
  unfolding step on_receive_message on_receive_request answer
  request-forgets w = ground (arith, w)

  pub request-other :
      (r : Request)
      → a.state ≡ requesting
      → a.my_request ≡ some r
      → name_eq r.file_name c.file_name ≡ false
      → step a (receive peer (request c))
        ≡ ok (gives a peer c, send_reply peer (answering a c) ∷ [])
  unfolding step on_receive_message on_receive_request answer answer_requesting
  request-other r w m e = ground (arith, w, m, e)

  pub request-yields :
      (r : Request)
      → a.state ≡ requesting
      → a.my_request ≡ some r
      → name_eq r.file_name c.file_name ≡ true
      → goes_first r a.id c peer ≡ true
      → step a (receive peer (request c)) ≡ ok (ticked a c, send_reply peer (answering a c) ∷ [])
  unfolding step on_receive_message on_receive_request answer answer_requesting
  request-yields r w m e g = ground (arith, w, m, e, g)

  abbrev pub keeps : Node
  keeps = record a {
    timestamp = tick c.timestamp a.timestamp;
    delayed = a.delayed ++ (record { peer = peer; request = c } ∷ []);
  }

  pub request-waits :
      (r : Request)
      → a.state ≡ requesting
      → a.my_request ≡ some r
      → name_eq r.file_name c.file_name ≡ true
      → goes_first r a.id c peer ≡ false
      → step a (receive peer (request c)) ≡ ok (keeps, [])
  unfolding step on_receive_message on_receive_request answer answer_requesting
  request-waits r w m e g = ground (arith, w, m, e, g)

  pub request-held :
      a.state ≡ in_critical_section → step a (receive peer (request c)) ≡ ok (keeps, [])
  unfolding step on_receive_message on_receive_request answer
  request-held w = ground (arith, w)

pub release-quiet :
    (a : Node)
    → a.delayed ≡ []
    → step a release ≡ ok (record a { my_request = none; state = waiting }, [])
unfolding step release_mutual_exclusion deliver_delayed_requests
release-quiet a d = ground (arith, d)

pub release-serves :
    (a : Node) (peer : ℕ) (c : Clocked)
    → a.delayed ≡ record { peer = peer; request = c } ∷ []
    → step a release
      ≡ ok (
        record (gives a peer c) { my_request = none; state = waiting; delayed = [] },
        send_reply peer (answering a c) ∷ [],
      )
unfolding step release_mutual_exclusion deliver_delayed_requests on_receive_request answer
release-serves a peer c d = ground (arith, d)
