-- ===== src/Mutex/Pair/Answers.antt =====
-- What a node does with the request or the reply of its peer keeps the invariant of the pair.
use server_client_peer_netwo.Base.{
  ℕ, ◌<◌, ◌≤◌, ◌≡◌, ◌≢◌, sym, ap, ◌∙◌, ◌⊎◌, inl, inr, true, false, some, List, [], ◌∷◌, ◌++◌, arith,
  append-nil,
}
use server_client_peer_netwo.Messages.{Clocked}
use server_client_peer_netwo.Mutex.{
  requesting, in_critical_section, Request, Node, Received, reply, goes_first,
}
use server_client_peer_netwo.Mutex.Pair.Inv.{
  requests_in, replies_in, requests_in-append, replies_in-append, Phase, asked, held, answered,
  inside, wire, Asking, Answered, Holding, Asks, Inv, Safe,
}
use server_client_peer_netwo.Mutex.Pair.Carry.{Asks-peer}

module _ {p q : Phase} {r s : Request} {a b : Node} {out into : List Received}
    (inv : Inv p q r s a b out into) where
  open inv use {apart_ids, net_a, net_b, asks_a, asks_b, exclusive}

  -- The request of the peer is taken from the channel and answered.
  pub replied :
      (a' : Node) (into' : List Received) (c : Clocked)
      → Asks asked s b a into out
      → requests_in into ≡ wire s ∷ requests_in into'
      → replies_in into ≡ replies_in into'
      → a'.id ≡ a.id
      → a'.network ≡ a.network
      → a'.delayed ≡ a.delayed
      → s.timestamp < a'.timestamp
      → c.file_name ≡ s.file_name
      → a'.permitted b.id s.file_name ≡ false
      → ((f : List ℕ) → a'.permitted b.id f ≡ true → a.permitted b.id f ≡ true)
      → ((x : Request)
          → a'.my_request ≡ some x
          → a'.state ≡ requesting
          → x.file_name ≡ s.file_name
          → goes_first x a'.id (wire s) b.id ≡ true)
      → Asks p r a' b (out ++ (reply c ∷ [])) into'
      → Safe a' b (out ++ (reply c ∷ [])) into'
  replied a' into' c h rq rp i nw d ts cf gone less first own = (
    p,
    answered,
    r,
    s,
    record {
      apart_ids = ground arith;
      net_a = ground arith;
      net_b = ground arith;
      asks_a = own;
      asks_b = (
        ground arith,
        (ts, ground arith, first),
        (
          c,
          ground
              (arith, requests_in-append out (reply c ∷ []), replies_in-append out (reply c ∷ [])),
          cf,
        ),
      );
      exclusive = λ f h. ground (arith, exclusive f (less f h));
    },
  )

  -- The request of the peer is taken from the channel and delayed.
  pub delayed :
      (a' : Node) (into' : List Received)
      → Asks asked s b a into out
      → requests_in into ≡ wire s ∷ requests_in into'
      → replies_in into ≡ replies_in into'
      → a'.id ≡ a.id
      → a'.network ≡ a.network
      → a'.delayed ≡ a.delayed ++ (record { peer = b.id; request = wire s } ∷ [])
      → ((f : List ℕ) → a'.permitted b.id f ≡ a.permitted b.id f)
      → Holding s b a'
      → Asks p r a' b (out ++ []) into'
      → Safe a' b (out ++ []) into'
  delayed a' into' h rq rp i nw d same hold own = (
    p,
    held,
    r,
    s,
    record {
      apart_ids = ground arith;
      net_a = ground arith;
      net_b = ground arith;
      asks_a = own;
      asks_b = (ground arith, ground (arith, append-nil out), hold);
      exclusive = λ f h. ground (arith, exclusive f, same f);
    },
  )

  -- The reply of the peer is taken from the channel, and the critical section is entered.
  pub granted :
      (a' : Node) (into' : List Received) (c : Clocked)
      → Asks answered r a b out into
      → replies_in into ≡ c ∷ replies_in into'
      → requests_in into ≡ requests_in into'
      → a'.id ≡ a.id
      → a'.network ≡ a.network
      → a'.delayed ≡ a.delayed
      → a'.my_request ≡ a.my_request
      → a'.state ≡ in_critical_section
      → a.timestamp ≤ a'.timestamp
      → a'.permitted b.id r.file_name ≡ true
      → ((f : List ℕ)
          → a'.permitted b.id f ≡ true
          → (f ≡ r.file_name) ⊎ (a.permitted b.id f ≡ true))
      → (s.file_name ≢ r.file_name → a'.permitted b.id s.file_name ≡ a.permitted b.id s.file_name)
      → Safe a' b (out ++ []) into'
  granted a' into' c (ask, (x, y, z), (d, places, same)) rp rq i nw dl mr st ts has more others = (
    inside,
    q,
    r,
    s,
    record {
      apart_ids = ground arith;
      net_a = ground arith;
      net_b = ground arith;
      asks_a = ground (arith, append-nil out);
      asks_b =
          Asks-peer q s b a a' into out into' (out ++ []) i dl (sym rq)
            (ap replies_in (append-nil out))
            (λ g h. (omega (arith, h.0), not_given g h, λ x mx sx fx. ground arith)) (λ g h. inl st)
            asks_b;
      exclusive = λ f h. elim (more f h) [
        | inl e ↦ ground (arith, ap (b.permitted a.id) e, ap (λ k. b.permitted k f) i)
        | inr old ↦ ground (arith, exclusive f old, ap (λ k. b.permitted k f) i)
      ];
    },
  )
    where
      both_first : Asking s b a → Answered s b a → s.file_name ≡ r.file_name → ⊥
      both_first g h e = ground (arith, z s g.1 g.0 e, h.2 r ask.1 ask.0 (sym e), apart_ids)

      not_given : Asking s b a → Answered s b a → a'.permitted b.id s.file_name ≡ false
      not_given g h = others (λ e. both_first g h e) ∙ h.1
