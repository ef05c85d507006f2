-- ===== src/Client/Steps.antt =====
-- What the events of a write do to the client of project2_client.cc, one kind of event at a time.
use server_client_peer_netwo.Base.{
  ℕ, zero, suc, ◌<◌, ◌≡◌, refl, ap, ◌∙◌, true, false, if◌then◌else◌, none, some, List, [], ◌∷◌,
  ◌++◌, length, map, inl, inr, arith, append-nil, append_assoc,
}
use server_client_peer_netwo.Result.{ok, Result-cases}
use server_client_peer_netwo.StateMachine.{
  Effect, act, complete, call_back, run, iterate, after_async, after_sync, goto_next_state,
}
use server_client_peer_netwo.Messages.{Message, op_ok, write_message}
use server_client_peer_netwo.Client.{
  State, ClientError, send_read, send_write, receive_write_response, wait, Remote, Grant, Action,
  write_to, read_from, release, sleep, run_with_mutual_exclusion, Surroundings, handle, is_async,
  should_stop, next_state, reading_all, unsent, unperformed, indices, waiting, choose,
  change_server, change_file, nth_name, asking,
}
use server_client_peer_netwo.Client.Callbacks.{
  ClientMachine, Event, write_granted, write_sent, write_answered, released, on_event,
  on_write_granted, on_write_sent, on_write_response, write_all, appended, releasing, goes_on, step,
  steps, update, all_of, sent, is_sent, performed, is_performed,
}
use server_client_peer_netwo.Client.Flags.{
  pending, AllPending, pending-update, all_of-pending, length-update,
}

pub indices-update :
    (f : Remote → Remote) (i j : ℕ) (rs : List Remote) → indices j (update f i rs) ≡ indices j rs
unfolding update indices
indices-update f i j [] = refl
indices-update f zero j (r ∷ rs) = refl
indices-update f (suc i) j (r ∷ rs) = ap (λ is. j ∷ is) (indices-update f i (suc j) rs)

pub indices-map :
    (f : Remote → Remote) (j : ℕ) (rs : List Remote) → indices j (map f rs) ≡ indices j rs
unfolding indices
indices-map f j [] = refl
indices-map f j (r ∷ rs) = ap (λ is. j ∷ is) (indices-map f (suc j) rs)

pub length-map : (f : Remote → Remote) (rs : List Remote) → length (map f rs) ≡ length rs
length-map f [] = refl
length-map f (r ∷ rs) = ap suc (length-map f rs)

-- What the servers are after their flags have been set one by one.
unfoldable pub updates : (Remote → Remote) → List ℕ → List Remote → List Remote
updates f [] rs = rs
updates f (i ∷ is) rs = updates f is (update f i rs)

pub length-updates :
    (f : Remote → Remote) (is : List ℕ) (rs : List Remote) → length (updates f is rs) ≡ length rs
unfolding updates
length-updates f [] rs = refl
length-updates f (i ∷ is) rs =
    length-updates f is (update f i rs) ∙ length-update is_sent sent (λ r. refl) f i rs

pub indices-updates :
    (f : Remote → Remote) (is : List ℕ) (rs : List Remote)
    → indices 0 (updates f is rs) ≡ indices 0 rs
unfolding updates
indices-updates f [] rs = refl
indices-updates f (i ∷ is) rs = indices-updates f is (update f i rs) ∙ indices-update f i 0 rs

abbrev pub sents : List ℕ → List Event
sents is = map (λ i. write_sent i (ok tt)) is

abbrev pub answers : (ℕ → Message) → List ℕ → List Event
answers answer is = map (λ i. write_answered i (ok (answer i))) is

abbrev pub Effects : Type 0
Effects = List (Effect ClientError Action)

-- The machine when all Writes are sent
abbrev pub reads_answers : ClientMachine → List Remote → ClientMachine
reads_answers m rs = record m {
  current_state = receive_write_response;
  forced_next_state = none;
  instance_ = record m.instance_ { servers = map unperformed rs };
}

module _ (o : Surroundings) where
  pub step-sent-early :
      (m : ClientMachine) (i : ℕ)
      → all_of is_sent (update sent i m.instance_.servers) ≡ false
      → step o m (write_sent i (ok tt))
        ≡ ok (
          record m {
            instance_ = record m.instance_ { servers = update sent i m.instance_.servers };
          },
          [],
        )
  unfolding step on_event on_write_sent goes_on
  step-sent-early m i h = ground (arith, h)

  pub step-sent-last :
      (m : ClientMachine) (i : ℕ)
      → m.running ≡ true
      → m.current_state ≡ send_write
      → all_of is_sent (update sent i m.instance_.servers) ≡ true
      → step o m (write_sent i (ok tt))
        ≡ ok (
          reads_answers m (update sent i m.instance_.servers),
          map act (map read_from (indices 0 (update sent i m.instance_.servers))),
        )
  unfolding step on_event on_write_sent goes_on complete call_back run iterate after_async
      goto_next_state handle reading_all is_async should_stop next_state
  step-sent-last m i running at h =
      let reads : Effects =
        map act (map read_from (indices 0 (update sent i m.instance_.servers))) in
      ground (arith, h, running, at, append-nil reads)

  -- All Writes are sent, in any order: the machine goes on after the last one only.
  pub sents-all :
      (m : ClientMachine) (is : List ℕ) (n : ℕ)
      → m.running ≡ true
      → m.current_state ≡ send_write
      → AllPending is_sent sent (λ r. refl) is m.instance_.servers
      → pending is_sent sent (λ r. refl) m.instance_.servers ≡ length is
      → length is ≡ suc n
      → steps o m (sents is)
        ≡ ok (
          reads_answers m (updates sent is m.instance_.servers),
          map act (map read_from (indices 0 m.instance_.servers)),
        )
  unfolding steps updates
  sents-all m [] n running at each count more = absurd (omega arith)
  sents-all m (i ∷ []) n running at each count more =
      let rs = m.instance_.servers in
      let left = pending-update is_sent sent (λ r. refl) i rs each.0 in
      let reads : Effects = map act (map read_from (indices 0 rs)) in
      ground (
        arith,
        step-sent-last m i running at,
        all_of-pending is_sent sent (λ r. refl) (update sent i rs),
        left,
        count,
        indices-update sent i 0 rs,
        append-nil reads,
      )
  sents-all m (i ∷ (j ∷ js)) n running at each count more =
      let rs = m.instance_.servers in
      let m' : ClientMachine = record m {
        instance_ = record m.instance_ { servers = update sent i rs };
      } in
      let left = pending-update is_sent sent (λ r. refl) i rs each.0 in
      let rest = sents-all m' (j ∷ js) (length js) running at each.1 (omega (arith, left)) refl in
      ground (
        arith,
        step-sent-early m i,
        all_of-pending is_sent sent (λ r. refl) (update sent i rs),
        left,
        count,
        rest,
        indices-update sent i 0 rs,
      )

  abbrev pub with_servers : ClientMachine → List Remote → ClientMachine
  with_servers m rs = record m { instance_ = record m.instance_ { servers = rs } }

  answer-early :
      (m : ClientMachine) (i : ℕ) (msg : Message)
      → msg.opcode ≡ op_ok
      → all_of is_performed (update performed i m.instance_.servers) ≡ false
      → step o m (write_answered i (ok msg))
        ≡ ok (with_servers m (update performed i m.instance_.servers), [])
  unfolding step on_event on_write_response goes_on
  answer-early m i msg op h = ground (arith, h, op)

  answer-last :
      (m : ClientMachine) (i : ℕ) (msg : Message) (g : Grant)
      → msg.opcode ≡ op_ok
      → m.instance_.finished_critical_section_callback ≡ some g
      → all_of is_performed (update performed i m.instance_.servers) ≡ true
      → step o m (write_answered i (ok msg))
        ≡ ok (with_servers m (update performed i m.instance_.servers), act (release g) ∷ [])
  unfolding step on_event on_write_response goes_on releasing
  answer-last m i msg g op held h = ground (arith, h, op, held)

  -- All servers answer, in any order: the release comes once, with the last answer.
  pub answers-all :
      (m : ClientMachine) (answer : ℕ → Message) (is : List ℕ) (n : ℕ) (g : Grant)
      → ((i : ℕ) → (answer i).opcode ≡ op_ok)
      → m.instance_.finished_critical_section_callback ≡ some g
      → AllPending is_performed performed (λ r. refl) is m.instance_.servers
      → pending is_performed performed (λ r. refl) m.instance_.servers ≡ length is
      → length is ≡ suc n
      → steps o m (answers answer is)
        ≡ ok (with_servers m (updates performed is m.instance_.servers), act (release g) ∷ [])
  unfolding steps updates
  answers-all m answer [] n g op held each count more = absurd (omega arith)
  answers-all m answer (i ∷ []) n g op held each count more =
      let rs = m.instance_.servers in
      ground (
        arith,
        answer-last m i (answer i) g (op i) held,
        all_of-pending is_performed performed (λ r. refl) (update performed i rs),
        pending-update is_performed performed (λ r. refl) i rs each.0,
        count,
      )
  answers-all m answer (i ∷ (j ∷ js)) n g op held each count more =
      let rs = m.instance_.servers in
      let m' : ClientMachine = with_servers m (update performed i rs) in
      let left = pending-update is_performed performed (λ r. refl) i rs each.0 in
      let rest =
        answers-all m' answer (j ∷ js) (length js) g op held each.1 (omega (arith, left)) refl in
      ground (
        arith,
        answer-early m i (answer i) (op i),
        all_of-pending is_performed performed (λ r. refl) (update performed i rs),
        left,
        count,
        rest,
      )

  -- What the next `Wait` chooses.
  abbrev pub next_op : State
  next_op = if o.draws.should_write then send_write else send_read

  -- After the release, the client waits and asks for the next file.
  abbrev pub chosen : ClientMachine → List ℕ → ClientMachine
  chosen m name = record m {
    current_state = next_op;
    forced_next_state = none;
    instance_ = record m.instance_ {
      servers = map unsent m.instance_.servers;
      current_server = some o.draws.server;
      current_file_name = some name;
    };
  }

  pub asks_again :
      (m : ClientMachine) (name : List ℕ)
      → m.running ≡ true
      → next_state m.current_state ≡ wait
      → should_stop m.current_state ≡ false
      → o.draws.server < length m.instance_.servers
      → nth_name m.instance_.file_names o.draws.file ≡ some name
      → step o m (released (ok tt))
        ≡ ok (
          chosen m name,
          act (sleep o.draws.ms_to_sleep) ∷ (act (run_with_mutual_exclusion name) ∷ []),
        )
  unfolding step on_event goes_on complete call_back run iterate after_async after_sync
      goto_next_state handle waiting choose change_server change_file asking is_async should_stop
      next_state
  asks_again m name running next goes_on draw file =
      ground (arith, running, next, goes_on, draw, file)

  writes_all :
      (name text : List ℕ) (w : Message) (is : List ℕ)
      → write_message (record { file_name = name; line = text }) ≡ ok w
      → write_all name text is ≡ ok (map (λ i. write_to i w) is)
  unfolding write_all
  writes_all name text w [] e = refl
  writes_all name text w (i ∷ is) e = ground (arith, e, writes_all name text w is e)

  -- The machine with mutual exclusion
  abbrev pub holding : ClientMachine → Grant → ClientMachine
  holding m g = record m {
    instance_ = record m.instance_ { finished_critical_section_callback = some g };
  }

  pub grant-writes :
      (m : ClientMachine) (time : ℕ) (g : Grant) (name : List ℕ) (w : Message)
      → m.instance_.current_file_name ≡ some name
      → write_message (record { file_name = name; line = appended o time }) ≡ ok w
      → step o m (write_granted time (ok g))
        ≡ ok (holding m g, map act (map (λ i. write_to i w) (indices 0 m.instance_.servers)))
  unfolding step on_event on_write_granted goes_on
  grant-writes m time g name w at made =
      ground (arith, at, writes_all name (appended o time) w (indices 0 m.instance_.servers) made)

  pub steps-append :
      (m m' m'' : ClientMachine) (es fs : List Event) (first rest : Effects)
      → steps o m es ≡ ok (m', first)
      → steps o m' fs ≡ ok (m'', rest)
      → steps o m (es ++ fs) ≡ ok (m'', first ++ rest)
  unfolding steps
  steps-append m m' m'' [] fs first rest h k = ground (arith, h, k)
  steps-append m m' m'' (e ∷ es) fs first rest h k = elim (Result-cases (step o m e)) [
    | inr (x, bad) ↦ ground (arith, bad, h)
    | inl ((n, one), good) ↦ elim (Result-cases (steps o n es)) [
      | inr (x, bad) ↦ ground (arith, bad, good, h)
      | inl ((n', two), more) ↦
          ground (
            arith,
            good,
            more,
            h,
            k,
            steps-append n m' m'' es fs two rest,
            append_assoc one two rest,
          )
    ]
  ]
