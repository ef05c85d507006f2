-- ===== src/Client/Rounds.antt =====
-- A write of the client of project2_client.cc, from the grant of mutual exclusion to the next request.
use server_client_peer_netwo.Base.{◌<◌, ◌≡◌, refl, true, some, List, [], ◌∷◌, ◌++◌, length, map, ℕ}
use server_client_peer_netwo.Result.{ok}
use server_client_peer_netwo.StateMachine.{act}
use server_client_peer_netwo.Messages.{Message}
use server_client_peer_netwo.Client.{
  send_write, Grant, write_to, read_from, release, sleep, run_with_mutual_exclusion, Surroundings,
  indices,
}
use server_client_peer_netwo.Client.Callbacks.{
  ClientMachine, Event, write_granted, released, sent, is_sent, performed,
}
use server_client_peer_netwo.Client.Flags.{pending}
use server_client_peer_netwo.Client.Steps.{
  Effects, sents, answers, updates, reads_answers, with_servers, holding,
}

-- A client that has asked for mutual exclusion to write to a file
pub record Asks (m : ClientMachine) (name : List ℕ) : Type 0 where
  pub running : m.running ≡ true
  pub at_send : m.current_state ≡ send_write
  pub for_file : m.instance_.current_file_name ≡ some name
  pub connected : 0 < length m.instance_.servers
  pub none_sent : pending is_sent sent (λ r. refl) m.instance_.servers ≡ length m.instance_.servers

-- The calls of a write: the grant, the Writes sent, the answers, and the release that is done.
abbrev pub write_events : ℕ → Grant → List ℕ → (ℕ → Message) → List ℕ → List Event
write_events time g is answer js =
    write_granted time (ok g) ∷ (sents is ++ (answers answer js ++ (released (ok tt) ∷ [])))

-- What it does: a Write to each server, a wait for the answer of each, one release, and the next request.
abbrev pub write_effects : Surroundings → ClientMachine → Message → Grant → List ℕ → Effects
write_effects o m w g next =
    map act (map (λ i. write_to i w) (indices 0 m.instance_.servers))
    ++ (map act (map read_from (indices 0 m.instance_.servers))
        ++ (act (release g)
            ∷ (act (sleep o.draws.ms_to_sleep) ∷ (act (run_with_mutual_exclusion next) ∷ []))))

module _ (o : Surroundings) where
  -- The machine after each part of a write
  abbrev all_sent : ClientMachine → Grant → List ℕ → ClientMachine
  all_sent m g is = reads_answers (holding o m g) (updates sent is m.instance_.servers)

  abbrev all_answered : ClientMachine → Grant → List ℕ → List ℕ → ClientMachine
  all_answered m g is js =
      with_servers o (all_sent m g is) (updates performed js (all_sent m g is).instance_.servers)
