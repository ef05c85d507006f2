-- ===== src/Mutex/Pair/Releases.antt =====
-- The release of the critical section keeps the invariant of the pair.
use server_client_peer_netwo.Base.{
  ℕ, ◌+◌, ◌^◌, ◌<◌, ◌≡◌, refl, ap, ◌⊎◌, inl, inr, none, List, [], ◌∷◌, ◌++◌, arith, name_eq_refl,
  append-nil,
}
use server_client_peer_netwo.Result.{ok}
use server_client_peer_netwo.Messages.{Clocked}
use server_client_peer_netwo.Mutex.{
  waiting, in_critical_section, Request, Node, Effect, send_reply, Received, reply, step, release,
}
use server_client_peer_netwo.Mutex.Pair.{sends}
use server_client_peer_netwo.Mutex.Pair.Inv.{
  replies_in, requests_in-append, replies_in-append, Phase, idle, asked, held, answered, inside,
  wire, Asks, Inv, Safe,
}
use server_client_peer_netwo.Mutex.Pair.Carry.{Asks-peer, conclude}
use server_client_peer_netwo.Mutex.Pair.Handled.{gives, answering, release-quiet, release-serves}
use server_client_peer_netwo.Mutex.Pair.Moves.{as-inside}
use server_client_peer_netwo.Mutex.Pair.Requests.{revoked-first}

delayed-cases :
    (q : Phase) (s : Request) (b a : Node) (into out : List Received)
    → Asks q s b a into out
    → (a.delayed ≡ []) ⊎ Asks held s b a into out
delayed-cases idle s b a into out h = inl h.1.1
delayed-cases asked s b a into out h = inl h.1.1
delayed-cases held s b a into out h = inr h
delayed-cases answered s b a into out h = inl h.2.1.1
delayed-cases inside s b a into out h = inl h.3.1

abbrev left : Node → Node
left a = record a { my_request = none; state = waiting }

abbrev served : Node → ℕ → Clocked → Node
served a peer c = record (gives a peer c) { my_request = none; state = waiting; delayed = [] }

module _ {p q : Phase} {r s : Request} {a b : Node} {out into : List Received}
    (inv : Inv p q r s a b out into) (calm_a : a.timestamp + 1 < 2 ^ 64)
    (calm_b : b.timestamp + 1 < 2 ^ 64) where
  open inv use {apart_ids, net_a, net_b, asks_a, asks_b, exclusive}

  leaves : a.state ≡ in_critical_section → a.delayed ≡ [] → Safe (left a) b (out ++ []) into
  leaves w none_delayed =
      let h = as-inside p r a b out into w asks_a in
      (
        idle,
        q,
        r,
        s,
        record {
          apart_ids = apart_ids;
          net_a = net_a;
          net_b = net_b;
          asks_a = ground (arith, append-nil out, h);
          asks_b =
              Asks-peer q s b a (left a) into out into (out ++ []) refl refl refl
                (ap replies_in (append-nil out))
                (λ g k. (k.0, k.1, λ x mx sx fx. ground (arith, mx)))
                (λ d k. ground (arith, d, none_delayed)) asks_b;
          exclusive = exclusive;
        },
      )

  serves :
      a.state ≡ in_critical_section
      → Asks held s b a into out
      → Safe (served a b.id (wire s)) b (out ++ (reply (answering a (wire s)) ∷ [])) into
  serves w k =
      let h = as-inside p r a b out into w asks_a in
      (
        idle,
        answered,
        r,
        s,
        record {
          apart_ids = apart_ids;
          net_a = net_a;
          net_b = net_b;
          asks_a = ground (arith, requests_in-append out (reply (answering a (wire s)) ∷ []), h);
          asks_b = (
            k.0,
            (
              ground (arith, k.0),
              ground (arith, name_eq_refl s.file_name),
              λ x mx sx fx. ground (arith, mx),
            ),
            (
              answering a (wire s),
              ground (arith, replies_in-append out (reply (answering a (wire s)) ∷ []), k),
              refl,
            ),
          );
          exclusive = λ f g. exclusive f (revoked-first a b.id s.file_name f g);
        },
      )

  pub releases-Safe :
      (a' : Node) (es : List Effect)
      → a.state ≡ in_critical_section
      → step a release ≡ ok (a', es)
      → Safe a' b (out ++ sends es) into
  releases-Safe a' es w e = elim (delayed-cases q s b a into out asks_b) [
    | inl none_delayed ↦
        conclude (left a) [] a' b es out into (release-quiet a none_delayed) e
          (leaves w none_delayed)
    | inr k ↦
        conclude (served a b.id (wire s)) (send_reply b.id (answering a (wire s)) ∷ []) a' b es out
          into (release-serves a b.id (wire s) k.1.1) e (serves w k)
  ]
