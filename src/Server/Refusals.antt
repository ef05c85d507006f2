-- ===== src/Server/Refusals.antt =====
-- How project2_service.cc refuses a client.
use server_client_peer_netwo.Base.{ℕ, ◌≡◌, true, false, none, List, [], ◌∷◌}
use server_client_peer_netwo.Result.{ok}
use server_client_peer_netwo.StateMachine.{Status, act, report, unblock}
use server_client_peer_netwo.Messages.{Message, op_error, to_text}
use server_client_peer_netwo.Files.{FileError}
use server_client_peer_netwo.Server
use server_client_peer_netwo.Server.{
  State, await_message, stopped, After, passes, stops, Action, read_message, Service, Surroundings,
  what, service, next_state,
}
use server_client_peer_netwo.Server.Sessions.{ServiceMachine, serves, IsReady, done}

module _ (o : Surroundings) (m : ServiceMachine) (peer : List ℕ) (ready : IsReady o m)
    (known : o.peer_name ≡ ok peer) (call : m.has_callback ≡ true) where
  -- The service with an error that it answers
  abbrev refused : Message → State → ServiceMachine
  refused msg s = done o (record m {
    forced_next_state = none;
    instance_ = record (m.instance_) { last_received = msg };
    current_state = s;
  })

  -- A message is answered by an Error with the text of `e`; then the machine stops, reports success,
  -- and does not run.
  abbrev pub Refuses : Message → FileError → Type 0
  Refuses msg e =
      (reply : Message) × (reply.opcode ≡ op_error)
      × (to_text op_error reply ≡ ok (what e))
      × ((r : Status FileError)
          → (m' : ServiceMachine) × (serves o m msg stops r
              ≡ ok (m', act (Server.write_message reply stops) ∷ (report (ok tt) ∷ (unblock ∷ []))))
            × (m'.running ≡ false))
