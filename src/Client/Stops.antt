-- ===== src/Client/Stops.antt =====
-- What project2_client.cc does when a server answers with an Error.
use server_client_peer_netwo.Base.{
  ℕ, ◌≡◌, refl, true, false, none, List, [], ◌∷◌, if◌then◌else◌, arith,
}
use server_client_peer_netwo.Result.{ok}
use server_client_peer_netwo.StateMachine.{
  report, unblock, complete, call_back, run, iterate, after_sync, goto_next_state, stop,
  stop_with_result,
}
use server_client_peer_netwo.Messages.{Message, op_error, to_text}
use server_client_peer_netwo.Client.{Surroundings, stopped, handle, is_async, should_stop}
use server_client_peer_netwo.Client.Callbacks.{
  ClientMachine, read_answered, write_answered, on_event, on_read_response, on_write_response,
  goes_on, step,
}

-- When a server answers a Read or a Write with an Error that has a text, the running client stops without an error, and does
-- nothing else: the mutual exclusion that it was granted is not released.
pub error-stops :
    (o : Surroundings) (m : ClientMachine) (i : ℕ) (msg : Message) (text : List ℕ)
    → m.running ≡ true
    → should_stop m.current_state ≡ false
    → msg.opcode ≡ op_error
    → to_text op_error msg ≡ ok text
    → (m' : ClientMachine) × (step o m (read_answered (ok msg))
        ≡ ok (m', (if m.has_callback then report (ok tt) ∷ (unblock ∷ []) else unblock ∷ [])))
      × (step o m (write_answered i (ok msg)) ≡ step o m (read_answered (ok msg)))
      × (m'.running ≡ false)
      × (m'.current_state ≡ stopped)
      × (m'.instance_ ≡ m.instance_)
unfolding step on_event on_read_response on_write_response goes_on complete call_back run iterate
    after_sync goto_next_state handle is_async should_stop stop stop_with_result
error-stops o m i msg text running goes_on op conv = (
  record m {
    running = false;
    result_of_last_run = ok tt;
    forced_next_state = none;
    current_state = stopped;
  },
  ground (arith, running, goes_on, op, conv),
  ground (arith, op, conv),
  refl,
  refl,
  refl,
)
