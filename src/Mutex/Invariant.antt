-- ===== src/Mutex/Invariant.antt =====
-- The state of a node of distributed_mutual_exclusion_service.cc, and that every event keeps it.
use server_client_peer_netwo.Base.{
  ℕ, ◌≡◌, refl, sym, subst, inl, inr, true, not, ◌||◌, none, some, List, [], ◌∷◌, ◌++◌, arith,
  name_eq, Bool-cases,
}
use server_client_peer_netwo.Result.{ok, err, ◌>>=◌}
use server_client_peer_netwo.Messages.{Clocked}
use server_client_peer_netwo.Mutex.{
  State, waiting, requesting, in_critical_section, Request, Node, Effect, Outcome, Received, reply,
  request, run, refuse, goes_first, delay, delayed_by, failed, error_message, unknown,
  all_permitted, check_for_mutual_exclusion, answer, answer_requesting, on_receive_request,
  on_receive_message, run_with_mutual_exclusion, grant, tick, has_value, requests, forget,
  send_reply, clocked, bad_optional_access, is_waiting,
}

-- Waiting, a node has no request and owes no reply. Requesting, it has a request. In the critical
-- section it has one, and every entry's permission for its file.
abbrev pub Agrees : State → Node → Type 0
Agrees waiting n = (n.my_request ≡ none) × (n.delayed ≡ [])
Agrees requesting n = (req : Request) × (n.my_request ≡ some req)
Agrees in_critical_section n =
    (req : Request) × (n.my_request ≡ some req)
    × (all_permitted n.permitted n.network req.file_name ≡ true)

abbrev pub IsConsistent : Node → Type 0
IsConsistent n = Agrees n.state n

-- A granted permission takes none away.
all_permitted-grant :
    (n : Node) (peer : ℕ) (file f : List ℕ) (ps : List ℕ)
    → all_permitted n.permitted ps f ≡ true
    → all_permitted (grant n peer file) ps f ≡ true
unfolding all_permitted
all_permitted-grant n peer file f [] h = refl
all_permitted-grant n peer file f (p ∷ ps) h = ground (arith, all_permitted-grant n peer file f ps)

-- What a handler returns is consistent; else it took the value of an empty optional.
abbrev pub Keeps : Outcome → Type 0
Keeps (ok (n, es)) = IsConsistent n
Keeps (err e) = e ≡ bad_optional_access

Keeps-subst : {o o' : Outcome} → o ≡ o' → Keeps o' → Keeps o
Keeps-subst e k = subst Keeps (sym e) k

of_state : (n : Node) (s : State) → n.state ≡ s → Agrees s n → IsConsistent n
of_state n s e h = subst (λ t. Agrees t n) (sym e) h

check-Keeps :
    (s : State) (n : Node) → n.state ≡ s → Agrees s n → Keeps (check_for_mutual_exclusion n)
unfolding check_for_mutual_exclusion
check-Keeps waiting n e h = Keeps-subst {o' = err bad_optional_access} (rw h.0) refl
check-Keeps requesting n e (req, some_req) =
    elim (Bool-cases (all_permitted n.permitted n.network req.file_name)) [
      | inl all ↦
          Keeps-subst {o' = ok (record n { state = in_critical_section }, run req.operation ∷ [])}
            (ground arith) (req, some_req, all)
      | inr missing ↦
          Keeps-subst {o' = ok (n, [])} (ground arith) (of_state n requesting e (req, some_req))
    ]
check-Keeps in_critical_section n e (req, some_req, all) =
    Keeps-subst {o' = ok (record n { state = in_critical_section }, run req.operation ∷ [])}
      (ground arith) (req, some_req, all)

-- The clock and a permission are set before the check.
granted-Agrees :
    (s : State) (n : Node) (peer t : ℕ) (file : List ℕ)
    → Agrees s n
    → Agrees s (record n { timestamp = t; permitted = grant n peer file })
granted-Agrees waiting n peer t file h = h
granted-Agrees requesting n peer t file h = h
granted-Agrees in_critical_section n peer t file (req, e, all) =
    (req, e, all_permitted-grant n peer file req.file_name n.network all)

answer-Keeps :
    (s : State) (n : Node) (peer : ℕ) (req : Clocked)
    → n.state ≡ s
    → Agrees s n
    → Keeps (answer s n peer req)
unfolding answer answer_requesting
answer-Keeps waiting n peer req e h = of_state (forget n peer req.file_name) waiting e h
answer-Keeps in_critical_section n peer req e h =
    of_state (delayed_by n peer req) in_critical_section e h
answer-Keeps requesting n peer req e (mine, some_mine) =
    let h : (r : Request) × (n.my_request ≡ some r) = (mine, some_mine) in
    elim (Bool-cases (name_eq mine.file_name req.file_name)) [
      | inr other ↦
          Keeps-subst
            {o' = ok (
              forget n peer req.file_name,
              send_reply peer (clocked n.timestamp req.file_name) ∷ [],
            )}
            (ground arith) (of_state (forget n peer req.file_name) requesting e h)
      | inl same ↦ elim (Bool-cases (goes_first mine n.id req peer)) [
        | inl theirs ↦
            Keeps-subst {o' = ok (n, send_reply peer (clocked n.timestamp req.file_name) ∷ [])}
              (ground arith) (of_state n requesting e h)
        | inr mine_first ↦
            Keeps-subst {o' = delay n peer req} (ground arith)
              (of_state (delayed_by n peer req) requesting e h)
      ]
    ]

timed-Agrees : (s : State) (n : Node) (t : ℕ) → Agrees s n → Agrees s (record n { timestamp = t })
timed-Agrees waiting n t h = h
timed-Agrees requesting n t h = h
timed-Agrees in_critical_section n t h = h

pub receive-Keeps :
    (n : Node) (peer : ℕ) (msg : Received) → IsConsistent n → Keeps (on_receive_message n peer msg)
unfolding on_receive_message on_receive_request
receive-Keeps n peer failed h = h
receive-Keeps n peer error_message h = h
receive-Keeps n peer unknown h = h
receive-Keeps n peer (request req) h =
    answer-Keeps n.state (record n { timestamp = tick req.timestamp n.timestamp }) peer req refl
      (timed-Agrees n.state n (tick req.timestamp n.timestamp) h)
receive-Keeps n peer (reply rep) h =
    check-Keeps n.state
      (record n {
        timestamp = tick rep.timestamp n.timestamp;
        permitted = grant n peer rep.file_name;
      })
      refl (granted-Agrees n.state n peer (tick rep.timestamp n.timestamp) rep.file_name h)

pub Keeps-bind :
    (o : Outcome) (f : List Effect → List Effect) → Keeps o → Keeps (o >>= λ r. ok (r.0, f r.1))
Keeps-bind (ok (n, es)) f h = h
Keeps-bind (err e) f h = h

pub run_with-Keeps :
    (n : Node) (file : List ℕ) (op : ℕ)
    → IsConsistent n
    → Keeps (run_with_mutual_exclusion n file op)
unfolding run_with_mutual_exclusion
run_with-Keeps n file op h =
    elim (Bool-cases (has_value n.my_request || not (is_waiting n.state))) [
      | inl busy ↦ Keeps-subst {o' = ok (n, refuse op ∷ [])} (rw busy) h
      | inr idle ↦
          Keeps-subst
            {o' = check_for_mutual_exclusion asking >>= λ r.
              ok (r.0, requests n.permitted req n.network ++ r.1)}
            (rw idle)
            (Keeps-bind (check_for_mutual_exclusion asking)
              (λ es. requests n.permitted req n.network ++ es)
              (check-Keeps requesting asking refl (req, refl)))
    ]
  where
    req : Request
    req = record { file_name = file; operation = op; timestamp = n.timestamp }

    asking : Node
    asking = record n { my_request = some req; state = requesting }
