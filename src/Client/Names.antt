-- ===== src/Client/Names.antt =====
-- An Enquiry: the names that project2_service.cc answers are those that project2_client.cc takes.
use server_client_peer_netwo.Base.{
  ℕ, ◌≤◌, ◌≡◌, ◌≢◌, refl, List, [], ◌∷◌, ◌==◌, length, arith, codes, false,
}
use server_client_peer_netwo.Result.{ok}
use server_client_peer_netwo.Buffer.{max_alloc}
use server_client_peer_netwo.Messages.{Message, op_response}
use server_client_peer_netwo.Strings.{join}
use server_client_peer_netwo.Strings.Trim.{AreNames, split_trim-join}
use server_client_peer_netwo.Files.{visible_files}
use server_client_peer_netwo.Server
use server_client_peer_netwo.Server.{Service, passes, enquire}
use server_client_peer_netwo.Server.Made.{made_text}
use server_client_peer_netwo.Client.{Client}
use server_client_peer_netwo.Client.Callbacks.{says, on_enquiry_response}

some_names : (names : List (List ℕ)) → names ≢ [] → (length names == 0) ≡ false
some_names [] h = elim (h refl) [ ]
some_names (n ∷ ns) h = ground arith

-- When the server has files, whose names have no comma, are not empty and neither begin nor end with a space
-- or a tab, and the text of the names can be allocated, it answers an Enquiry with a message from which the client takes just these
-- names, and goes on.
pub enquiry-names :
    (o : Server.Surroundings) (t : Service) (c : Client) (names : List (List ℕ))
    → visible_files o.listing ≡ ok names
    → AreNames 44 (32 ∷ (9 ∷ [])) names
    → names ≢ []
    → length (join names (codes ", ")) ≤ max_alloc
    → (msg : Message) × (enquire o t ≡ ok (Server.begins t (Server.write_message msg passes)))
      × (on_enquiry_response c (ok msg) ≡ ok (says (record c { file_names = names }) (ok tt)))
unfolding enquire on_enquiry_response
enquiry-names o t c names listed clean some_listed small =
    let (msg, made, text, op) = made_text op_response (join names (codes ", ")) small in
    let split =
      split_trim-join 44 (32 ∷ (9 ∷ [])) (32 ∷ []) (refl, tt) ((λ e. ground (arith, e)), tt) names
        clean in
    (
      msg,
      ground (arith, listed, made),
      ground (arith, op, text, split, some_names names some_listed),
    )
