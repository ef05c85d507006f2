-- ===== src/Mutex/Pair/Moves.antt =====
-- A move of one node keeps the invariant of the pair.
use server_client_peer_netwo.Base.{
  ℕ, ◌+◌, ◌^◌, ◌<◌, ◌≡◌, ◌≢◌, refl, sym, ap, ◌∙◌, ◌⊎◌, inl, inr, true, not, ◌||◌, none, some, List,
  [], ◌∷◌, ◌++◌, arith, Bool-cases, name_eq, name_eq→eq, name_eq_refl, append-nil,
}
use server_client_peer_netwo.Result.{ok}
use server_client_peer_netwo.Messages.{Clocked}
use server_client_peer_netwo.Mutex.{
  waiting, requesting, in_critical_section, Request, Node, Effect, send_request, Received, reply,
  step, receive, run_with, tick, grant, has_value, is_waiting, refuse, run,
}
use server_client_peer_netwo.Mutex.Pair.{sends}
use server_client_peer_netwo.Mutex.Pair.Inv.{
  requests_in, replies_in, Phase, idle, asked, held, answered, inside, wire, Asks, Inv, Safe,
}
use server_client_peer_netwo.Mutex.Pair.Carry.{conclude, stays, wanting, enters, starts}
use server_client_peer_netwo.Mutex.Pair.Answers.{granted}
use server_client_peer_netwo.Mutex.Pair.Handled.{run-refuses, run-enters, run-starts, reply-enters}

pub as-idle :
    (p : Phase) (r : Request) (a b : Node) (out into : List Received)
    → a.state ≡ waiting
    → Asks p r a b out into
    → Asks idle r a b out into
as-idle idle r a b out into w h = h
as-idle inside r a b out into w h = ground (arith, w, h)
as-idle asked r a b out into w h = ground (arith, w, h)
as-idle held r a b out into w h = ground (arith, w, h)
as-idle answered r a b out into w h = ground (arith, w, h.0)

pub as-inside :
    (p : Phase) (r : Request) (a b : Node) (out into : List Received)
    → a.state ≡ in_critical_section
    → Asks p r a b out into
    → Asks inside r a b out into
as-inside inside r a b out into w h = h
as-inside idle r a b out into w h = ground (arith, w, h)
as-inside asked r a b out into w h = ground (arith, w, h)
as-inside held r a b out into w h = ground (arith, w, h)
as-inside answered r a b out into w h = ground (arith, w, h.0)

pub as-answered :
    (p : Phase) (r : Request) (a b : Node) (out into : List Received) (c : Clocked)
    (rest : List Clocked)
    → replies_in into ≡ c ∷ rest
    → Asks p r a b out into
    → Asks answered r a b out into
as-answered answered r a b out into c rest e h = h
as-answered idle r a b out into c rest e h = ground (arith, e, h)
as-answered inside r a b out into c rest e h = ground (arith, e, h)
as-answered asked r a b out into c rest e h = ground (arith, e, h)
as-answered held r a b out into c rest e h = ground (arith, e, h)

pub as-asked :
    (q : Phase) (s : Request) (b a : Node) (into out : List Received) (c : Clocked)
    (rest : List Clocked)
    → requests_in into ≡ c ∷ rest
    → Asks q s b a into out
    → Asks asked s b a into out × (c ≡ wire s)
as-asked asked s b a into out c rest e h = (h, ground (arith, e, h))
as-asked idle s b a into out c rest e h = ground (arith, e, h)
as-asked inside s b a into out c rest e h = ground (arith, e, h)
as-asked held s b a into out c rest e h = ground (arith, e, h)
as-asked answered s b a into out c rest e h = ground (arith, e, h.2.1)

module _ (a : Node) (peer : ℕ) (r : Request) (c : Clocked) (same : c.file_name ≡ r.file_name) where
  given_before :
      (f : List ℕ)
      → grant a peer c.file_name peer f ≡ true
      → (f ≡ r.file_name) ⊎ (a.permitted peer f ≡ true)
  given_before f h = elim (Bool-cases (name_eq c.file_name f)) [
    | inl e ↦ inl (sym (name_eq→eq c.file_name f e) ∙ same)
    | inr e ↦ inr (ground (arith, e, h))
  ]

  given_other :
      (s : Request)
      → s.file_name ≢ r.file_name
      → grant a peer c.file_name peer s.file_name ≡ a.permitted peer s.file_name
  given_other s apart = elim (Bool-cases (name_eq c.file_name s.file_name)) [
    | inl e ↦ elim (apart (sym (name_eq→eq c.file_name s.file_name e) ∙ same)) [ ]
    | inr e ↦ ground (arith, e)
  ]

module _ {p q : Phase} {r s : Request} {a b : Node} {out into : List Received}
    (inv : Inv p q r s a b out into) (calm_a : a.timestamp + 1 < 2 ^ 64)
    (calm_b : b.timestamp + 1 < 2 ^ 64) where
  open inv use {net_a, asks_a, asks_b}

  pub runs-Safe :
      (file : List ℕ) (op : ℕ) (a' : Node) (es : List Effect)
      → step a (run_with file op) ≡ ok (a', es)
      → Safe a' b (out ++ sends es) into
  runs-Safe file op a' es e =
      elim (Bool-cases (has_value a.my_request || not (is_waiting a.state))) [
        | inl busy ↦
            conclude a (refuse op ∷ []) a' b es out into (run-refuses a b.id net_a file op busy) e (
              stays inv (out ++ []) into (ap requests_in (append-nil out))
                (ap replies_in (append-nil out)) refl refl)
        | inr free ↦
            let m : a.my_request ≡ none = ground (arith, free) in
            let w : a.state ≡ waiting = ground (arith, free) in
            let idle_a = as-idle p r a b out into w asks_a in
            elim (Bool-cases (a.permitted b.id file)) [
              | inl has ↦
                  conclude
                    (record a {
                      my_request = some (wanting inv file op);
                      state = in_critical_section;
                    })
                    (run op ∷ []) a' b es out into (run-enters a b.id net_a file op m w has) e
                    (enters inv file op has idle_a)
              | inr missing ↦
                  conclude
                    (record a { my_request = some (wanting inv file op); state = requesting })
                    (send_request b.id (wire (wanting inv file op)) ∷ []) a' b es out into
                    (run-starts a b.id net_a file op m w missing) e
                    (starts inv file op missing idle_a)
            ]
      ]

  pub reply-Safe :
      (c : Clocked) (into' : List Received) (a' : Node) (es : List Effect)
      → into ≡ reply c ∷ into'
      → step a (receive b.id (reply c)) ≡ ok (a', es)
      → Safe a' b (out ++ sends es) into'
  reply-Safe c into' a' es i e =
      let h = as-answered p r a b out into c (replies_in into') (ap replies_in i) asks_a in
      let same : c.file_name ≡ r.file_name = ground (arith, h.2.1, h.2.2, ap replies_in i) in
      conclude
        (record a {
          timestamp = tick c.timestamp a.timestamp;
          permitted = grant a b.id c.file_name;
          state = in_critical_section;
        })
        (run r.operation ∷ []) a' b es out into' (reply-enters a b.id net_a r c h.0.1 same) e
        (granted inv
          (record a {
            timestamp = tick c.timestamp a.timestamp;
            permitted = grant a b.id c.file_name;
            state = in_critical_section;
          })
          into' c h (ap replies_in i) (ap requests_in i) refl refl refl refl refl
          (omega (arith, calm_a))
          (ground (arith, name_eq_refl r.file_name, ap (λ f. name_eq f r.file_name) same))
          (given_before a b.id r c same) (given_other a b.id r c same s))
