-- ===== src/Client/Tests.antt =====
-- A client of project2_client.cc with two servers.
use server_client_peer_netwo.Base.{
  ℕ, ◌≤◌, ◌≡◌, refl, subst, true, false, none, some, [], ◌∷◌, codes, arith, length,
}
use server_client_peer_netwo.Result.{ok}
use server_client_peer_netwo.StateMachine.{report, unblock}
use server_client_peer_netwo.Strings.{join}
use server_client_peer_netwo.Files.{visible_files, is_hidden}
use server_client_peer_netwo.Buffer.{max_alloc, fresh, of_string, of_data, write_bytes, copy_in}
use server_client_peer_netwo.Messages.{Message, op_ok, op_error, to_text, string_message}
use server_client_peer_netwo.Strings.Trim.{
  AreNames, no_names, names_cons, IsTrimmed, from_first, up_to_last,
}
use server_client_peer_netwo.Server
use server_client_peer_netwo.Server.{passes, enquire}
use server_client_peer_netwo.Server.Made.{made_text}
use server_client_peer_netwo.Client.{
  send_write, receive_read_response, should_stop, stopped, Client, Grant, Surroundings,
}
use server_client_peer_netwo.Client.Callbacks.{
  ClientMachine, step, says, on_enquiry_response, read_answered, write_answered,
}
use server_client_peer_netwo.Client.Names.{enquiry-names}
use server_client_peer_netwo.Client.Stops.{error-stops}

-- Texts of numbers are one digit here.
abbrev around : Surroundings
around = record {
  servers_property = some (codes "a:1,b:2");
  read_number = λ text. some 1;
  show = λ n. codes "7";
  id = 7;
  draws = record { ms_to_sleep = 500; should_write = false; server = 1; file = 1 };
}

abbrev two_servers : Client
two_servers = record {
  num_servers = 2;
  servers =
      record { operation_sent = false; performed_write = false }
      ∷ (record { operation_sent = false; performed_write = false } ∷ []);
  file_names = codes "f" ∷ (codes "g" ∷ []);
  current_server = some 0;
  current_file_name = some (codes "f");
  finished_critical_section_callback = none;
}

abbrev asking : ClientMachine
asking = record {
  running = true;
  has_callback = true;
  result_of_last_run = ok tt;
  forced_next_state = none;
  instance_ = two_servers;
  current_state = send_write;
}

abbrev all_ok : ℕ → Message
all_ok i = record { opcode = op_ok; body = fresh (λ i. 0) 1024 false }

abbrev given : Grant
given = record { name = 3 }

abbrev served : Server.Surroundings
served = record {
  access = record { is_direct = λ n. true; is_writable = λ n. true };
  peer_name = ok (codes "peer");
  listing = ok (codes ".h" ∷ (codes "f" ∷ (codes "g" ∷ [])));
}

abbrev session : Server.Service
session = record { last_received = all_ok 0; files = λ n. none }

one_name-IsTrimmed :
    (c : ℕ)
    → (from_first (32 ∷ (9 ∷ [])) (c ∷ []) ≡ c ∷ [])
    → (up_to_last (32 ∷ (9 ∷ [])) (c ∷ []) ≡ c ∷ [])
    → IsTrimmed (32 ∷ (9 ∷ [])) (c ∷ [])
one_name-IsTrimmed c a b = record { not_empty = λ e. cc; begins = a; ends = b }

two_names : AreNames 44 (32 ∷ (9 ∷ [])) (codes "f" ∷ (codes "g" ∷ []))
unfolding from_first up_to_last
two_names =
    names_cons (one_name-IsTrimmed 102 refl refl) (omega arith, tt)
      (names_cons (one_name-IsTrimmed 103 refl refl) (omega arith, tt) no_names)

listed : visible_files served.listing ≡ ok (codes "f" ∷ (codes "g" ∷ []))
unfolding visible_files is_hidden
listed = refl

joined_small : length (join (codes "f" ∷ (codes "g" ∷ [])) (codes ", ")) ≤ max_alloc
unfolding join
joined_small = omega arith

enquiry-names_example :
    (msg : Message) × (enquire served session
      ≡ ok (Server.begins session (Server.write_message msg passes)))
    × (on_enquiry_response two_servers (ok msg)
        ≡ ok (says (record two_servers { file_names = codes "f" ∷ (codes "g" ∷ []) }) (ok tt)))
enquiry-names_example =
    enquiry-names served session two_servers (codes "f" ∷ (codes "g" ∷ [])) listed two_names
      (λ e. cc) joined_small

-- An Error with the text "no"
abbrev refusal : Message
refusal = record { opcode = op_error; body = fresh (copy_in (λ i. 0) 0 (codes "no")) 2 true }

refusal-made : string_message op_error (codes "no") ≡ ok refusal
unfolding string_message of_string of_data write_bytes
refusal-made = refl

refusal-back : to_text op_error refusal ≡ ok (codes "no")
refusal-back =
    let (msg, e, conv, op) = made_text op_error (codes "no") (omega arith) in
    let same : msg ≡ refusal = ground (arith, e, refusal-made) in
    subst (λ x. to_text op_error x ≡ ok (codes "no")) same conv

abbrev reading : ClientMachine
reading = record asking { current_state = receive_read_response }

reading-runs : should_stop reading.current_state ≡ false
unfolding should_stop
reading-runs = refl

error-stops_example :
    (m' : ClientMachine) × (step around reading (read_answered (ok refusal))
      ≡ ok (m', report (ok tt) ∷ (unblock ∷ [])))
    × (step around reading (write_answered 1 (ok refusal))
        ≡ step around reading (read_answered (ok refusal)))
    × (m'.running ≡ false)
    × (m'.current_state ≡ stopped)
    × (m'.instance_ ≡ two_servers)
error-stops_example =
    error-stops around reading 1 refusal (codes "no") refl reading-runs refl refusal-back
