-- ===== src/Server/Tests.antt =====
-- Clients of project2_service.cc.
use server_client_peer_netwo.Base.{
  ◌≡◌, refl, true, false, none, some, [], ◌∷◌, ◌++◌, codes, arith, name_eq, if◌then◌else◌,
}
use server_client_peer_netwo.Result.{ok}
use server_client_peer_netwo.StateMachine.{act}
use server_client_peer_netwo.Buffer.{fresh, copy_in}
use server_client_peer_netwo.Messages.{Message, Write, op_ok, op_read, op_response, to_text}
use server_client_peer_netwo.Files.{newline}
use server_client_peer_netwo.Server
use server_client_peer_netwo.Server.{
  State, await_message, Action, read_message, passes, Service, Surroundings,
}
use server_client_peer_netwo.Server.Sessions.{ServiceMachine, IsReady}
use server_client_peer_netwo.Server.Answers.{write_then_read, write_then_read_lem}

abbrev settings : Surroundings
settings = record {
  access = record { is_direct = λ n. true; is_writable = λ n. true };
  peer_name = ok (codes "peer");
  listing = ok (codes "f" ∷ []);
}

abbrev waiting : ServiceMachine
waiting = record {
  running = true;
  has_callback = true;
  result_of_last_run = ok tt;
  forced_next_state = none;
  instance_ = record {
    last_received = record { opcode = op_ok; body = fresh (λ i. 0) 1024 false };
    files = λ n. if name_eq n (codes "f") then some (codes "a" ++ (newline ∷ [])) else none;
  };
  current_state = await_message;
}

abbrev greeting : Write
greeting = record { file_name = codes "f"; line = codes "hi" }

write_then_read_lem_example :
    (m' : ServiceMachine) × (a : Message) × (b : Message) × (write_then_read settings waiting
        greeting
      ≡ ok (
        m',
        act (Server.write_message a passes)
            ∷ (act read_message ∷ (act (Server.write_message b passes) ∷ (act read_message ∷ []))),
      ))
    × (a.opcode ≡ op_ok)
    × (b.opcode ≡ op_response)
    × (to_text op_response b ≡ ok (codes "hi"))
    × IsReady settings m'
unfolding name_eq
write_then_read_lem_example =
    write_then_read_lem settings waiting (codes "peer") greeting (codes "a") (refl, refl) refl refl
      refl refl refl (λ e. cc) (omega arith, (omega arith, tt)) (omega arith, tt) (omega arith)

-- A Read of ".f"
abbrev hidden : Message
hidden = record { opcode = op_read; body = fresh (copy_in (λ i. 0) 0 (codes ".f")) 2 true }
