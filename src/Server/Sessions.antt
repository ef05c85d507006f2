-- ===== src/Server/Sessions.antt =====
-- What a client of project2_service.cc gets.
use server_client_peer_netwo.Base.{
  ℕ, ◌≡◌, refl, ap, ◌∙◌, true, false, none, some, List, [], ◌∷◌, ◌++◌, arith,
}
use server_client_peer_netwo.Result.{Result, ok, ◌>>=◌}
use server_client_peer_netwo.StateMachine
use server_client_peer_netwo.StateMachine.{
  Status, Machine, Effect, act, report, unblock, complete, run, iterate, call_back, after_async,
  after_sync, stop, stop_with_result, goto_next_state,
}
use server_client_peer_netwo.Messages.{Message, Failure}
use server_client_peer_netwo.Files.{FileError}
use server_client_peer_netwo.Server
use server_client_peer_netwo.Server.{
  State, await_message, stopped, After, passes, stops, Action, read_message, write_message, Service,
  Surroundings, what, service, on_read, on_written, handle, handler_of, is_async, should_stop,
  next_state, read_for, write_for,
}

abbrev pub ServiceMachine : Type 0
ServiceMachine = Machine State Service FileError

abbrev pub Outcome : Type 0
Outcome = Result (ServiceMachine × List (Effect FileError Action)) (StateMachine.Fault Failure)

module _ (o : Surroundings) where
  -- A read ends, and the machine goes on.
  abbrev pub reads : ServiceMachine → Result Message ℕ → Outcome
  reads m r =
      let (t, next, status) = on_read m.instance_ r in complete (service o) 2 m t next status

  -- A write ends, and the machine goes on.
  abbrev pub writes : ServiceMachine → After → Status FileError → Outcome
  writes m after r =
      let (next, status) = on_written after r in complete (service o) 2 m m.instance_ next status

  -- A message arrives, and the answer to it is written.
  unfoldable pub serves : ServiceMachine → Message → After → Status FileError → Outcome
  serves m msg after r = do
    (m', asked) ← reads m (ok msg)
    (m'', answered) ← writes m' after r
    ok (m'', asked ++ answered)

  -- Waiting for a message
  abbrev pub IsReady : ServiceMachine → Type 0
  IsReady m = (m.running ≡ true) × (m.current_state ≡ await_message)

  run-begins :
      (m : ServiceMachine) (t : Service) (a : Action)
      → m.running ≡ true
      → is_async m.current_state ≡ true
      → handle o m.current_state m.instance_ ≡ ok (Server.begins t a)
      → run (service o) 2 m ≡ ok (record m { forced_next_state = none; instance_ = t }, act a ∷ [])
  unfolding run iterate after_async
  run-begins m t a r async h = ground (arith, r, async, h)

  -- The machine with a received message
  abbrev holding : ServiceMachine → Message → State → ServiceMachine
  holding m msg s = record m {
    forced_next_state = some s;
    instance_ = record (m.instance_) { last_received = msg };
    current_state = s;
  }

  reads-goes :
      (m : ServiceMachine) (msg : Message)
      → m.current_state ≡ await_message
      → reads m (ok msg) ≡ run (service o) 2 (holding m msg (handler_of msg.opcode))
  unfolding complete call_back goto_next_state should_stop on_read
  reads-goes m msg w = ground (arith, w)

  abbrev ready_again : ServiceMachine → ServiceMachine
  ready_again m = record m { forced_next_state = none; current_state = await_message }

  writes-passes :
      (m : ServiceMachine)
      → m.running ≡ true
      → should_stop m.current_state ≡ false
      → next_state m.current_state ≡ await_message
      → writes m passes (ok tt) ≡ ok (ready_again m, act read_message ∷ [])
  unfolding complete call_back goto_next_state on_written handle is_async
  writes-passes m r go next =
      ground (arith, go, next, run-begins (ready_again m) m.instance_ read_message r refl refl)

  -- The machine after its run
  abbrev pub done : ServiceMachine → ServiceMachine
  done m = record m {
    running = false;
    result_of_last_run = ok tt;
    forced_next_state = none;
    current_state = stopped;
  }

  writes-stops :
      (m : ServiceMachine) (r : Status FileError)
      → m.running ≡ true
      → m.has_callback ≡ true
      → should_stop m.current_state ≡ false
      → writes m stops r ≡ ok (done m, report (ok tt) ∷ (unblock ∷ []))
  unfolding complete call_back goto_next_state on_written handle is_async run iterate after_sync
      stop stop_with_result should_stop
  writes-stops m r run call go = ground (arith, run, call, go)

  module _ (m : ServiceMachine) (msg reply : Message) (s : State) (t : Service) (ready : IsReady m)
      (goes : handler_of msg.opcode ≡ s) (async : is_async s ≡ true)
      (go : should_stop s ≡ false) where
    -- A message whose handler begins to write a reply
    abbrev writing : ServiceMachine
    writing = record m { forced_next_state = none; instance_ = t; current_state = s }

    reads-writing :
        (after : After)
        → handle o s (record (m.instance_) { last_received = msg })
          ≡ ok (Server.begins t (write_message reply after))
        → reads m (ok msg) ≡ ok (writing, act (write_message reply after) ∷ [])
    reads-writing after h =
        reads-goes m msg ready.1
        ∙ ap (λ x. run (service o) 2 (holding m msg x)) goes
        ∙ run-begins (holding m msg s) t (write_message reply after) ready.0 async h

    pub serves-passes :
        next_state s ≡ await_message
        → handle o s (record (m.instance_) { last_received = msg })
          ≡ ok (Server.begins t (write_message reply passes))
        → serves m msg passes (ok tt)
          ≡ ok (
            record m { forced_next_state = none; instance_ = t; current_state = await_message },
            act (write_message reply passes) ∷ (act read_message ∷ []),
          )
    unfolding serves
    serves-passes next h =
        ground (arith, reads-writing passes h, writes-passes writing ready.0 go next)

    pub serves-stops :
        (r : Status FileError)
        → m.has_callback ≡ true
        → handle o s (record (m.instance_) { last_received = msg })
          ≡ ok (Server.begins t (write_message reply stops))
        → serves m msg stops r
          ≡ ok (done writing, act (write_message reply stops) ∷ (report (ok tt) ∷ (unblock ∷ [])))
    unfolding serves
    serves-stops r call h =
        ground (arith, reads-writing stops h, writes-stops writing r ready.0 call go)
