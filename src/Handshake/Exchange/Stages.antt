-- ===== src/Handshake/Exchange/Stages.antt =====
-- How the handshake of send_handshake_service.cc and receive_handshake_service.cc goes.
use server_client_peer_netwo.Base.{
  ℕ, ◌%◌, ◌≤◌, ◌<◌, ◌≡◌, refl, sym, ap, ◌⊎◌, inl, inr, ◌≢◌, true, false, Bool-cases, none, some,
  List, [], ◌∷◌, arith, length, name_eq, name_eq→eq, name_eq_refl,
}
use server_client_peer_netwo.Result.{ok, err, ◌>>=◌, Result-cases}
use server_client_peer_netwo.StateMachine.{
  Status, Effect, act, report, unblock, start, complete, run, iterate, call_back, after_async,
  after_sync, stop, stop_with_result, goto_next_state,
}
use server_client_peer_netwo.Messages.{
  Message, EstablishConnection, establish_connection_message, to_establish_connection,
  op_establish_connection, empty_message, op_ok,
}
use server_client_peer_netwo.Messages.RoundTrip.{
  to_establish_connection-establish_connection_message,
}
use server_client_peer_netwo.Buffer.{fresh, default_size, of_size}
use server_client_peer_netwo.Handshake.{Action, write, HandshakeError, wrong_password}
use server_client_peer_netwo.Handshake.Send
use server_client_peer_netwo.Handshake.Send.{Settings, Sender, fresh_sender, on_done, on_received}
use server_client_peer_netwo.Handshake.Receive
use server_client_peer_netwo.Handshake.Receive.{Receiver, fresh_receiver, on_handshake, on_ok}
use server_client_peer_netwo.Handshake.Exchange.{
  Connection, SenderMachine, ReceiverMachine, opening, offering, answering, closing, exchange,
}

-- A handshake message that can be written and read again.
record Carried (overshift : ℕ → ℕ → ℕ) (m : EstablishConnection) (msg : Message) : Type 0 where
  made : establish_connection_message m ≡ ok msg
  opcode : msg.opcode ≡ op_establish_connection
  taken : to_establish_connection overshift msg ≡ ok m

establish-opcode :
    (m : EstablishConnection) (msg : Message)
    → establish_connection_message m ≡ ok msg
    → msg.opcode ≡ op_establish_connection
unfolding establish_connection_message
establish-opcode m msg e = ground arith

carried :
    (overshift : ℕ → ℕ → ℕ) (m : EstablishConnection)
    → ((k : ℕ) → overshift 0 k ≡ 0)
    → m.id < 256
    → length m.message ≤ 511
    → (msg : Message) × Carried overshift m msg
carried overshift m z small short = elim (Result-cases (establish_connection_message m)) [
  | inl (msg, e) ↦ (
    msg,
    record {
      made = e;
      opcode = establish-opcode m msg e;
      taken = ground (
        arith,
        e,
        to_establish_connection-establish_connection_message overshift m z small short,
      );
    },
  )
  | inr (f, e) ↦ absurd (
      ground
        (arith, e, to_establish_connection-establish_connection_message overshift m z small short))
]

abbrev okay : Message
okay = record { opcode = op_ok; body = fresh (λ i. 0) default_size false }

ok_message : empty_message op_ok ≡ ok okay
unfolding empty_message of_size
ok_message = refl

abbrev pub sender_at : Send.State → ℕ → SenderMachine
sender_at s id = record {
  running = true;
  has_callback = true;
  result_of_last_run = ok tt;
  forced_next_state = none;
  instance_ = record { server_id = id };
  current_state = s;
}

abbrev pub receiver_at : Receive.State → List ℕ → ℕ → ReceiverMachine
receiver_at s password id = record {
  running = true;
  has_callback = true;
  result_of_last_run = ok tt;
  forced_next_state = none;
  instance_ = record { expected_password = password; client_id = id };
  current_state = s;
}

abbrev pub reported : Status HandshakeError → List (Effect HandshakeError Action)
reported r = report r ∷ unblock ∷ []

-- The connection from stage to stage.
module _ (client server : Settings) (q : List ℕ) where
  abbrev offered : Message → Connection
  offered msg = record {
    sender = sender_at Send.send_handshake Send.no_id;
    receiver = receiver_at Receive.await_handshake q Send.no_id;
    sent = act (write msg) ∷ [];
    answered = [];
  }

  abbrev accepted : Message → Connection
  accepted reply = record {
    sender = sender_at Send.receive_handshake Send.no_id;
    receiver = receiver_at Receive.send_response q (client.id % 256);
    sent = [];
    answered = act (write reply) ∷ [];
  }

  abbrev confirmed : Message → Connection
  confirmed okay = record {
    sender = sender_at Send.send_ok (server.id % 256);
    receiver = receiver_at Receive.receive_ok q (client.id % 256);
    sent = act (write okay) ∷ [];
    answered = [];
  }

  -- Both sides have stopped and reported success.
  abbrev pub established : Connection
  established = record {
    sender = record (sender_at Send.stopped (server.id % 256)) { running = false };
    receiver = record (receiver_at Receive.stopped q (client.id % 256)) { running = false };
    sent = reported (ok tt);
    answered = reported (ok tt);
  }

  -- The receiver has stopped and reported; the sender waits for an answer.
  abbrev pub rejected : Connection
  rejected = record {
    sender = sender_at Send.receive_handshake Send.no_id;
    receiver = record (receiver_at Receive.await_handshake q Send.no_id) {
      running = false;
      result_of_last_run = err wrong_password;
    };
    sent = [];
    answered = reported (err wrong_password);
  }

module _ (overshift : ℕ → ℕ → ℕ) (client server : Settings) (p q : List ℕ)
    (cp : client.password ≡ some p) (sp : server.password ≡ some q) where
  opening_lem :
      (msg : Message)
      → Carried overshift (record { id = client.id % 256; message = p }) msg
      → opening overshift client server
        ≡ ok (record {
          sender = sender_at Send.send_handshake Send.no_id;
          receiver = receiver_at Receive.await_handshake q Send.no_id;
          sent = act (write msg) ∷ [];
          answered = [];
        })
  unfolding opening start complete run iterate call_back after_async after_sync goto_next_state
      Send.handle Send.is_async Send.should_stop Send.next_state Receive.handle Receive.is_async
      Receive.should_stop Receive.next_state on_done
  opening_lem msg c = ground (arith, c.made, cp, sp)

  module _ {msg reply : Message}
      (m : Carried overshift (record { id = client.id % 256; message = p }) msg)
      (r : Carried overshift (record { id = server.id % 256; message = [] }) reply) where
    offering-accepts :
        name_eq q p ≡ true
        → offering overshift client server (offered client server q msg)
          ≡ ok (accepted client server q reply)
    unfolding offering on_handshake start complete run iterate call_back after_async after_sync stop
        stop_with_result goto_next_state Send.handle Send.is_async Send.should_stop Send.next_state
        Receive.handle Receive.is_async Receive.should_stop Receive.next_state on_done
    offering-accepts e = ground (arith, m.opcode, m.taken, r.made, e)

    offering-rejects :
        name_eq q p ≡ false
        → offering overshift client server (offered client server q msg)
          ≡ ok (rejected client server q)
    unfolding offering on_handshake start complete run iterate call_back after_async after_sync stop
        stop_with_result goto_next_state Send.handle Send.is_async Send.should_stop Send.next_state
        Receive.handle Receive.is_async Receive.should_stop Receive.next_state on_done
    offering-rejects e = ground (arith, m.opcode, m.taken, r.made, e)

    answering_lem :
        {okay : Message}
        → empty_message op_ok ≡ ok okay
        → answering overshift client server (accepted client server q reply)
          ≡ ok (confirmed client server q okay)
    unfolding answering on_received start complete run iterate call_back after_async after_sync stop
        stop_with_result goto_next_state Send.handle Send.is_async Send.should_stop Send.next_state
        Receive.handle Receive.is_async Receive.should_stop Receive.next_state on_done
    answering_lem k = ground (arith, r.opcode, r.taken, k)

  closing_lem :
      (okay : Message)
      → okay.opcode ≡ op_ok
      → closing overshift client server (confirmed client server q okay)
        ≡ ok (established client server q)
  unfolding closing on_ok start complete run iterate call_back after_async after_sync stop
      stop_with_result goto_next_state Send.handle Send.is_async Send.should_stop Send.next_state
      Receive.handle Receive.is_async Receive.should_stop Receive.next_state on_done
  closing_lem okay k = ground (arith, k)

  -- With the same password on both sides, of at most 511 bytes, the exchange ends with both sides
  -- stopped: each has reported success once, and knows the id of the other, modulo 256. With
  -- another password the receiver stops and has reported it, knows no id, and the sender still waits
  -- for an answer. This is on a machine where 0 stays 0 under every shift.
  pub exchange_lem :
      ((k : ℕ) → overshift 0 k ≡ 0)
      → length p ≤ 511
      → ((p ≡ q) × (exchange overshift client server ≡ ok (established client server q)))
        ⊎ ((p ≢ q)
            × ((opening overshift client server >>= λ c. offering overshift client server c)
                ≡ ok (rejected client server q)))
  unfolding exchange
  exchange_lem z short =
      let (msg, m) =
        carried overshift (record { id = client.id % 256; message = p }) z (omega arith) short in
      let (reply, r) =
        carried overshift (record { id = server.id % 256; message = [] }) z (omega arith)
          (omega arith) in
      elim (Bool-cases (name_eq q p)) [
        | inl same ↦ inl (
          sym (name_eq→eq q p same),
          ground (
            arith,
            opening_lem msg m,
            offering-accepts m r same,
            answering_lem m r ok_message,
            closing_lem okay refl,
          ),
        )
        | inr other ↦ inr (
          (λ e. ground (arith, other, name_eq_refl q, ap (name_eq q) e)),
          ground (arith, opening_lem msg m, offering-rejects m r other),
        )
      ]
