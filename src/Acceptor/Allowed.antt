-- ===== src/Acceptor/Allowed.antt =====
-- Whose connections peer_acceptor.cc takes.
use server_client_peer_netwo.Base.{
  ℕ, ◌≡◌, refl, subst, true, Option, none, some, List, [], ◌∷◌, ◌++◌, arith, Bool-cases, inl, inr,
}
use server_client_peer_netwo.Result.{Result, ok, err}
use server_client_peer_netwo.Peer.{Location}
use server_client_peer_netwo.Connector.{
  Pending, Effect, begin_handshake, call_back, cancel, schedule_stop, is_pending, finished,
  clean_up,
}
use server_client_peer_netwo.Acceptor.{
  Acceptor, is_allowed, await_connection_from, on_accept, Event, awaits, accepts, ends, cleans,
  step, steps,
}

-- The addresses that are awaited in a history, and before it
abbrev pub awaited : List Event → List ℕ → List ℕ
awaited [] as_before = as_before
awaited (awaits l ∷ es) as_before = awaited es (l.0 ∷ as_before)
awaited (accepts p ∷ es) as_before = awaited es as_before
awaited (ends l r ∷ es) as_before = awaited es as_before
awaited (cleans ∷ es) as_before = awaited es as_before

-- Each handshake is with a peer whose address is among those.
abbrev pub OnlyFrom : List ℕ → List Effect → Type 0
OnlyFrom from [] = Unit
OnlyFrom from (begin_handshake l ∷ es) = (is_allowed l.0 from ≡ true) × OnlyFrom from es
OnlyFrom from (call_back r ∷ es) = OnlyFrom from es
OnlyFrom from (cancel l ∷ es) = OnlyFrom from es
OnlyFrom from (schedule_stop l ∷ es) = OnlyFrom from es

OnlyFrom-append :
    (from : List ℕ) (a b : List Effect) → OnlyFrom from a → OnlyFrom from b → OnlyFrom from (a ++ b)
OnlyFrom-append from [] b h k = k
OnlyFrom-append from (begin_handshake l ∷ es) b h k = (h.0, OnlyFrom-append from es b h.1 k)
OnlyFrom-append from (call_back r ∷ es) b h k = OnlyFrom-append from es b h k
OnlyFrom-append from (cancel l ∷ es) b h k = OnlyFrom-append from es b h k
OnlyFrom-append from (schedule_stop l ∷ es) b h k = OnlyFrom-append from es b h k

clean_up-OnlyFrom : (from : List ℕ) (ps : Pending) → OnlyFrom from (clean_up ps).1
unfolding clean_up
clean_up-OnlyFrom from [] = tt
clean_up-OnlyFrom from (p ∷ ps) = clean_up-OnlyFrom from ps

finished-OnlyFrom :
    (from : List ℕ) (l : Location) (r : Result (Unit {0}) ℕ) (ps : Pending)
    → OnlyFrom from (finished l r ps).1
unfolding finished
finished-OnlyFrom from l (ok u) ps = tt
finished-OnlyFrom from l (err n) ps = tt

-- Addresses stay awaited.
still_awaited :
    (es : List Event) (a : ℕ) (from : List ℕ)
    → is_allowed a from ≡ true
    → is_allowed a (awaited es from) ≡ true
unfolding is_allowed
still_awaited [] a from h = h
still_awaited (awaits l ∷ es) a from h = still_awaited es a (l.0 ∷ from) (ground (arith, h))
still_awaited (accepts p ∷ es) a from h = still_awaited es a from h
still_awaited (ends l r ∷ es) a from h = still_awaited es a from h
still_awaited (cleans ∷ es) a from h = still_awaited es a from h

accept-OnlyFrom :
    (peer : Option Location) (s : Acceptor) (from : List ℕ)
    → ((a : ℕ) → is_allowed a s.allowed ≡ true → is_allowed a from ≡ true)
    → OnlyFrom from (on_accept peer s).1
unfolding on_accept
accept-OnlyFrom none s from h = tt
accept-OnlyFrom (some peer) s from h = elim (Bool-cases (is_allowed peer.0 s.allowed)) [
  | inr unlisted ↦ rw unlisted tt
  | inl listed ↦ elim (Bool-cases (is_pending peer s.pending_connections)) [
    | inl twice ↦ rw listed (rw twice tt)
    | inr once ↦ rw listed (rw once (h peer.0 listed, tt))
  ]
]

accept-allowed : (peer : Option Location) (s : Acceptor) → (on_accept peer s).0.allowed ≡ s.allowed
unfolding on_accept
accept-allowed none s = refl
accept-allowed (some peer) s = ground arith

-- After any history of an acceptor, each handshake that it has begun is with a peer whose address was allowed at the start or
-- awaited in the history.
pub steps-OnlyFrom :
    (es : List Event) (s : Acceptor) → OnlyFrom (awaited es s.allowed) (steps es s).1
unfolding steps step await_connection_from
steps-OnlyFrom [] s = tt
steps-OnlyFrom (awaits l ∷ es) s = steps-OnlyFrom es (await_connection_from l s)
steps-OnlyFrom (accepts p ∷ es) s =
    OnlyFrom-append (awaited es s.allowed) (on_accept p s).1 (steps es (on_accept p s).0).1
      (accept-OnlyFrom p s (awaited es s.allowed) (λ a h. still_awaited es a s.allowed h))
      (subst (λ from. OnlyFrom (awaited es from) (steps es (on_accept p s).0).1)
        (accept-allowed p s) (steps-OnlyFrom es (on_accept p s).0))
steps-OnlyFrom (ends l r ∷ es) s =
    OnlyFrom-append (awaited es s.allowed) (finished l r s.pending_connections).1
      (steps es (step (ends l r) s).0).1
      (finished-OnlyFrom (awaited es s.allowed) l r s.pending_connections)
      (steps-OnlyFrom es (step (ends l r) s).0)
steps-OnlyFrom (cleans ∷ es) s =
    OnlyFrom-append (awaited es s.allowed) (clean_up s.pending_connections).1
      (steps es (step cleans s).0).1
      (clean_up-OnlyFrom (awaited es s.allowed) s.pending_connections)
      (steps-OnlyFrom es (step cleans s).0)
