-- ===== src/Mutex/Pair/Carry.antt =====
-- What stays of the invariant of the pair when one node changes, and a new request.
use server_client_peer_netwo.Base.{
  ℕ, ◌≤◌, ◌≡◌, refl, sym, ap, subst, ◌∙◌, ◌⊎◌, inl, inr, true, false, some, List, [], ◌∷◌, ◌++◌,
  arith, append-nil,
}
use server_client_peer_netwo.Result.{ok}
use server_client_peer_netwo.Mutex.{
  waiting, requesting, in_critical_section, Request, Node, Effect, Outcome, Received, request,
  goes_first,
}
use server_client_peer_netwo.Mutex.Pair.{sends}
use server_client_peer_netwo.Mutex.Pair.Inv.{
  requests_in, replies_in, requests_in-append, replies_in-append, Phase, idle, asked, held,
  answered, inside, wire, Asking, Answered, Holding, Asks, Inv, Safe,
}

-- What the peer asks, when this node goes from `a` to `a'` and does not answer it.
pub Asks-peer :
    (q : Phase) (s : Request) (b a a' : Node) (into out into' out' : List Received)
    → a'.id ≡ a.id
    → a'.delayed ≡ a.delayed
    → requests_in into' ≡ requests_in into
    → replies_in out' ≡ replies_in out
    → (Asking s b a → Answered s b a → Answered s b a')
    → (a.delayed ≡ record { peer = b.id; request = wire s } ∷ [] → Holding s b a → Holding s b a')
    → Asks q s b a into out
    → Asks q s b a' into' out'
Asks-peer idle s b a a' into out into' out' i d rq rp k l h = ground arith
Asks-peer asked s b a a' into out into' out' i d rq rp k l h = ground arith
Asks-peer held s b a a' into out into' out' i d rq rp k l (ask, places, hold) =
    (ground arith, ground arith, l places.1 hold)
Asks-peer answered s b a a' into out into' out' i d rq rp k l (ask, ans, (c, places, same)) =
    (ground arith, k ask ans, (c, ground arith, same))
Asks-peer inside s b a a' into out into' out' i d rq rp k l h = ground arith

-- What this node asks, when it goes from `a` to `a'` with the same request and permission.
pub Asks-self :
    (p : Phase) (r : Request) (a a' b : Node) (out into out' into' : List Received)
    → a'.id ≡ a.id
    → a'.state ≡ a.state
    → a'.my_request ≡ a.my_request
    → a'.permitted b.id r.file_name ≡ a.permitted b.id r.file_name
    → a.timestamp ≤ a'.timestamp
    → requests_in out' ≡ requests_in out
    → replies_in into' ≡ replies_in into
    → Asks p r a b out into
    → Asks p r a' b out' into'
Asks-self idle r a a' b out into out' into' i st mr pm ts rq rp h = ground arith
Asks-self asked r a a' b out into out' into' i st mr pm ts rq rp h = ground arith
Asks-self held r a a' b out into out' into' i st mr pm ts rq rp (ask, places, hold) = (
  ground arith,
  ground arith,
  subst
      (λ x.
        (b.state ≡ in_critical_section)
        ⊎ ((q : Request) × (b.my_request ≡ some q)
            × (b.state ≡ requesting)
            × (goes_first q b.id (wire r) x ≡ false)))
      (sym i) hold,
)
Asks-self answered r a a' b out into out' into' i st mr pm ts rq rp
      (ask, (x, y, z), (c, places, same)) =
    (ground arith, (x, ground arith, λ q mq sq fq. rw i (z q mq sq fq)), (c, ground arith, same))
Asks-self inside r a a' b out into out' into' i st mr pm ts rq rp h = ground arith

not_holding : {P : Type 0} (s : Request) (b a : Node) → a.state ≡ waiting → Holding s b a → P
not_holding s b a w (inl e) = ground (arith, w, e)
not_holding s b a w (inr (q, m, e, g)) = ground (arith, w, e)

pub conclude :
    {o : Outcome} (x : Node) (fs : List Effect) (a' b : Node) (es : List Effect)
    (out into' : List Received)
    → o ≡ ok (x, fs)
    → o ≡ ok (a', es)
    → Safe x b (out ++ sends fs) into'
    → Safe a' b (out ++ sends es) into'
conclude x fs a' b es out into' e e' h =
    let n : x ≡ a' = ground (arith, e, e') in
    let l : fs ≡ es = ground (arith, e, e') in
    subst (λ n. Safe n b (out ++ sends es) into') n
      (subst (λ gs. Safe x b (out ++ sends gs) into') l h)

module _ {p q : Phase} {r s : Request} {a b : Node} {out into : List Received}
    (inv : Inv p q r s a b out into) where
  open inv use {apart_ids, net_a, net_b, asks_a, asks_b, exclusive}

  -- Nothing changes but the end of a channel without a request or a reply.
  pub stays :
      (out' into' : List Received)
      → requests_in out' ≡ requests_in out
      → replies_in out' ≡ replies_in out
      → requests_in into' ≡ requests_in into
      → replies_in into' ≡ replies_in into
      → Safe a b out' into'
  stays out' into' rq rp rq' rp' = (
    p,
    q,
    r,
    s,
    record {
      apart_ids = apart_ids;
      net_a = net_a;
      net_b = net_b;
      asks_a =
          Asks-self p r a a b out into out' into' refl refl refl refl (omega arith) rq rp' asks_a;
      asks_b =
          Asks-peer q s b a a into out into' out' refl refl rq' rp (λ g h. h) (λ d h. h) asks_b;
      exclusive = exclusive;
    },
  )

  -- `a` asks for a file while it waits.
  abbrev pub wanting : List ℕ → ℕ → Request
  wanting file op = record { file_name = file; operation = op; timestamp = a.timestamp }

  pub enters :
      (file : List ℕ) (op : ℕ)
      → a.permitted b.id file ≡ true
      → Asks idle r a b out into
      → Safe
          (record a { my_request = some (wanting file op); state = in_critical_section })
          b
          (out ++ [])
          into
  enters file op has idle_a = (
    inside,
    q,
    wanting file op,
    s,
    record {
      apart_ids = apart_ids;
      net_a = net_a;
      net_b = net_b;
      asks_a = ground (arith, append-nil out, idle_a);
      asks_b =
          Asks-peer q s b a
            (record a { my_request = some (wanting file op); state = in_critical_section }) into out
            into (out ++ []) refl refl refl (ap replies_in (append-nil out))
            (λ g h. (h.0, h.1, λ x mx sx fx. cc)) (λ d h. not_holding s b a idle_a.0 h) asks_b;
      exclusive = exclusive;
    },
  )

  pub starts :
      (file : List ℕ) (op : ℕ)
      → a.permitted b.id file ≡ false
      → Asks idle r a b out into
      → Safe
          (record a { my_request = some (wanting file op); state = requesting })
          b
          (out ++ (request (wire (wanting file op)) ∷ []))
          into
  starts file op missing idle_a = (
    asked,
    q,
    wanting file op,
    s,
    record {
      apart_ids = apart_ids;
      net_a = net_a;
      net_b = net_b;
      asks_a =
          ground (
            arith,
            missing,
            requests_in-append out (request (wire (wanting file op)) ∷ []),
            idle_a,
          );
      asks_b =
          Asks-peer q s b a (record a { my_request = some (wanting file op); state = requesting })
            into out into (out ++ (request (wire (wanting file op)) ∷ [])) refl refl refl
            (replies_in-append out (request (wire (wanting file op)) ∷ [])
              ∙ append-nil (replies_in out))
            (λ g h. (h.0, h.1, λ x mx sx fx. ground (arith, h.0, mx)))
            (λ d h. not_holding s b a idle_a.0 h) asks_b;
      exclusive = exclusive;
    },
  )
