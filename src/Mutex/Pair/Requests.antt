-- ===== src/Mutex/Pair/Requests.antt =====
-- A request of the peer keeps the invariant of the pair.
use server_client_peer_netwo.Base.{
  ℕ, ◌+◌, ◌^◌, ◌<◌, ◌≤◌, ◌≡◌, ◌≢◌, refl, sym, ap, subst, ◌∙◌, ◌⊎◌, inl, inr, true, false, Option,
  some, List, [], ◌∷◌, ◌++◌, arith, Bool-cases, name_eq, name_eq→eq, name_eq_refl, append-nil,
}
use server_client_peer_netwo.Result.{ok}
use server_client_peer_netwo.Messages.{Clocked}
use server_client_peer_netwo.Mutex.{
  State, waiting, requesting, in_critical_section, Request, Node, Effect, send_reply, Received,
  request, reply, goes_first, step, receive, tick, revoke,
}
use server_client_peer_netwo.Mutex.Pair.{sends}
use server_client_peer_netwo.Mutex.Pair.Inv.{
  requests_in, replies_in, requests_in-append, Phase, idle, asked, held, answered, inside, wire,
  Asking, Holding, Asks, Inv, Safe,
}
use server_client_peer_netwo.Mutex.Pair.Carry.{Asks-self, conclude}
use server_client_peer_netwo.Mutex.Pair.Answers.{replied, delayed}
use server_client_peer_netwo.Mutex.Pair.Handled.{
  ticked, gives, answering, request-forgets, request-other, request-yields, keeps, request-waits,
  request-held,
}
use server_client_peer_netwo.Mutex.Pair.Moves.{as-asked}

State-cases : (s : State) → (s ≡ waiting) ⊎ (s ≡ requesting) ⊎ (s ≡ in_critical_section)
State-cases waiting = inl refl
State-cases requesting = inr (inl refl)
State-cases in_critical_section = inr (inr refl)

as-Asking :
    (p : Phase) (r : Request) (a b : Node) (out into : List Received)
    → a.state ≡ requesting
    → Asks p r a b out into
    → Asking r a b
as-Asking idle r a b out into w h = ground (arith, w, h)
as-Asking inside r a b out into w h = ground (arith, w, h)
as-Asking asked r a b out into w h = h.0
as-Asking held r a b out into w h = h.0
as-Asking answered r a b out into w h = h.0

pub revoked-first :
    (a : Node) (peer : ℕ) (file f : List ℕ)
    → revoke a peer file peer f ≡ true
    → a.permitted peer f ≡ true
revoked-first a peer file f h = elim (Bool-cases (name_eq file f)) [
  | inl e ↦ ground (arith, e, h)
  | inr e ↦ ground (arith, e, h)
]

revoked-other :
    (a : Node) (peer : ℕ) (file f : List ℕ)
    → name_eq f file ≡ false
    → revoke a peer file peer f ≡ a.permitted peer f
revoked-other a peer file f h = elim (Bool-cases (name_eq file f)) [
  | inl e ↦ ground (arith, h, name_eq_refl f, ap (name_eq f) (name_eq→eq file f e))
  | inr e ↦ ground (arith, e, h)
]

same-request : {o : Option Request} (x y : Request) → o ≡ some x → o ≡ some y → x ≡ y
same-request x y p q = cc

-- As Asks-self, when the permission is kept for a request that waits for it.
own-kept :
    (p : Phase) (r : Request) (a a' b : Node) (out into out' into' : List Received)
    → a.state ≢ in_critical_section
    → a'.id ≡ a.id
    → a'.state ≡ a.state
    → a'.my_request ≡ a.my_request
    → (a.state ≡ requesting → a'.permitted b.id r.file_name ≡ a.permitted b.id r.file_name)
    → a.timestamp ≤ a'.timestamp
    → requests_in out' ≡ requests_in out
    → replies_in into' ≡ replies_in into
    → Asks p r a b out into
    → Asks p r a' b out' into'
own-kept idle r a a' b out into out' into' o i st mr pm ts rq rp h = ground arith
own-kept inside r a a' b out into out' into' o i st mr pm ts rq rp h = elim (o h.0) [ ]
own-kept asked r a a' b out into out' into' o i st mr pm ts rq rp h =
    Asks-self asked r a a' b out into out' into' i st mr (pm h.0.0) ts rq rp h
own-kept held r a a' b out into out' into' o i st mr pm ts rq rp h =
    Asks-self held r a a' b out into out' into' i st mr (pm h.0.0) ts rq rp h
own-kept answered r a a' b out into out' into' o i st mr pm ts rq rp h =
    Asks-self answered r a a' b out into out' into' i st mr (pm h.0.0) ts rq rp h

-- The request in the channel to `a` is taken.
module _ {p q : Phase} {r s : Request} {a b : Node} {out into : List Received}
    (inv : Inv p q r s a b out into) (calm_a : a.timestamp + 1 < 2 ^ 64)
    (calm_b : b.timestamp + 1 < 2 ^ 64) (c : Clocked) (into' : List Received)
    (i : into ≡ request c ∷ into') (h : Asks asked s b a into out) (same : c ≡ wire s) where
  open inv use {net_a, asks_a, asks_b}

  next-request : requests_in into ≡ wire s ∷ requests_in into'
  next-request = ap requests_in i ∙ ap (λ x. x ∷ requests_in into') same

  no-request : (x : Clocked) → requests_in (out ++ (reply x ∷ [])) ≡ requests_in out
  no-request x = requests_in-append out (reply x ∷ []) ∙ append-nil (requests_in out)

  later : s.timestamp < tick c.timestamp a.timestamp
  later = ground (arith, ap (λ x. x.timestamp) same, h.0, calm_a, calm_b)

  name_same : c.file_name ≡ s.file_name
  name_same = ap (λ x. x.file_name) same

  -- The reply is sent, and the permission is given.
  gives-Safe :
      a.state ≢ in_critical_section
      → (a.state ≡ requesting → name_eq r.file_name c.file_name ≡ false)
      → (a.state ≡ requesting → a.my_request ≡ some r)
      → Safe (gives a b.id c) b (out ++ (reply (answering a c) ∷ [])) into'
  gives-Safe outside other mine =
      replied inv (gives a b.id c) into' (answering a c) h next-request (ap replies_in i) refl refl
        refl later name_same
        (ground (arith, name_eq_refl c.file_name, ap (name_eq c.file_name) name_same))
        (λ f g. revoked-first a b.id c.file_name f g)
        (λ x mx sx fx. ground (
          arith,
          other sx,
          ap (λ y. y.file_name) (same-request r x (mine sx) mx),
          name_eq_refl c.file_name,
          ap (λ f. name_eq f c.file_name) (fx ∙ sym name_same),
        ))
        (own-kept p r a (gives a b.id c) b out into (out ++ (reply (answering a c) ∷ [])) into'
          outside refl refl refl
          (λ w. revoked-other (ticked a c) b.id c.file_name r.file_name (other w))
          (omega (arith, calm_a)) (no-request (answering a c)) (sym (ap replies_in i)) asks_a)

  -- The reply is sent for a request that goes first.
  yields-Safe :
      a.state ≡ requesting
      → a.my_request ≡ some r
      → r.file_name ≡ c.file_name
      → goes_first r a.id c b.id ≡ true
      → Safe (ticked a c) b (out ++ (reply (answering a c) ∷ [])) into'
  yields-Safe w mine e first =
      replied inv (ticked a c) into' (answering a c) h next-request (ap replies_in i) refl refl refl
        later name_same
        (ground (arith, as-Asking p r a b out into w asks_a, ap (a.permitted b.id) (e ∙ name_same)))
        (λ f g. g)
        (λ x mx sx fx.
          subst (λ y. goes_first y a.id (wire s) b.id ≡ true) (same-request r x mine mx)
            (subst (λ y. goes_first r a.id y b.id ≡ true) same first))
        (own-kept p r a (ticked a c) b out into (out ++ (reply (answering a c) ∷ [])) into'
          (ground (arith, w)) refl refl refl (λ x. refl) (omega (arith, calm_a))
          (no-request (answering a c)) (sym (ap replies_in i)) asks_a)

  keeps-Safe : Holding s b a → Safe (keeps a b.id c) b (out ++ []) into'
  keeps-Safe hold =
      delayed inv (keeps a b.id c) into' h next-request (ap replies_in i) refl refl
        (ap (λ x. a.delayed ++ (record { peer = b.id; request = x } ∷ [])) same) (λ f. refl) hold
        (Asks-self p r a (keeps a b.id c) b out into (out ++ []) into' refl refl refl refl
          (omega (arith, calm_a)) (ap requests_in (append-nil out)) (sym (ap replies_in i)) asks_a)

  asked-Safe :
      (a' : Node) (es : List Effect)
      → step a (receive b.id (request c)) ≡ ok (a', es)
      → Safe a' b (out ++ sends es) into'
  asked-Safe a' es e = elim (State-cases a.state) [
    | inl w ↦
        conclude (gives a b.id c) (send_reply b.id (answering a c) ∷ []) a' b es out into'
          (request-forgets a b.id c w) e
          (gives-Safe (ground (arith, w)) (λ x. ground (arith, w, x)) (λ x. ground (arith, w, x)))
    | inr (inr w) ↦
        conclude (keeps a b.id c) [] a' b es out into' (request-held a b.id c w) e
          (keeps-Safe (inl w))
    | inr (inl w) ↦
        let mine = (as-Asking p r a b out into w asks_a).1 in
        elim (Bool-cases (name_eq r.file_name c.file_name)) [
          | inr other ↦
              conclude (gives a b.id c) (send_reply b.id (answering a c) ∷ []) a' b es out into'
                (request-other a b.id c r w mine other) e
                (gives-Safe (ground (arith, w)) (λ x. other) (λ x. mine))
          | inl e_name ↦ elim (Bool-cases (goes_first r a.id c b.id)) [
            | inl first ↦
                conclude (ticked a c) (send_reply b.id (answering a c) ∷ []) a' b es out into'
                  (request-yields a b.id c r w mine e_name first) e
                  (yields-Safe w mine (name_eq→eq r.file_name c.file_name e_name) first)
            | inr last ↦
                conclude (keeps a b.id c) [] a' b es out into'
                  (request-waits a b.id c r w mine e_name last) e
                  (keeps-Safe
                    (inr (r, mine, w, subst (λ y. goes_first r a.id y b.id ≡ false) same last)))
          ]
        ]
  ]

module _ {p q : Phase} {r s : Request} {a b : Node} {out into : List Received}
    (inv : Inv p q r s a b out into) (calm_a : a.timestamp + 1 < 2 ^ 64)
    (calm_b : b.timestamp + 1 < 2 ^ 64) where
  open inv use {asks_b}

  pub request-Safe :
      (c : Clocked) (into' : List Received) (a' : Node) (es : List Effect)
      → into ≡ request c ∷ into'
      → step a (receive b.id (request c)) ≡ ok (a', es)
      → Safe a' b (out ++ sends es) into'
  request-Safe c into' a' es i e =
      let h = as-asked q s b a into out c (requests_in into') (ap requests_in i) asks_b in
      asked-Safe inv calm_a calm_b c into' i h.0 h.1 a' es e
