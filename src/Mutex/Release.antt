-- ===== src/Mutex/Release.antt =====
-- Leaving the critical section in distributed_mutual_exclusion_service.cc: the delayed requests are
-- answered.
use server_client_peer_netwo.Base.{
  ℕ, zero, suc, ◌<◌, ◌≡◌, refl, ap, ◌∙◌, false, none, List, [], ◌∷◌, ◌++◌, arith, length,
  name_eq_refl, ==_refl, map,
}
use server_client_peer_netwo.Result.{ok, ◌>>=◌}
use server_client_peer_netwo.Mutex.{
  waiting, Delayed, Node, Effect, answer, on_receive_request, deliver_delayed_requests,
  release_mutual_exclusion, tick, revoke, send_reply, clocked,
}

-- The addressee and the file of a reply.
abbrev pub addressed : List Effect → List (ℕ × List ℕ)
addressed [] = []
addressed (send_reply p c ∷ es) = (p, c.file_name) ∷ addressed es
addressed (_ ∷ es) = addressed es

abbrev pub owed : List Delayed → List (ℕ × List ℕ)
owed ds = map (λ d. (d.peer, d.request.file_name)) ds

-- No permission is held for a request in the list.
abbrev pub Revoked : Node → List Delayed → Type 0
Revoked n [] = Unit
Revoked n (d ∷ ds) = (n.permitted d.peer d.request.file_name ≡ false) × Revoked n ds

-- The node and the effects after the loop over `ds`.
pub record Delivered (n : Node) (ds : List Delayed) (n' : Node) (es : List Effect) : Type 0 where
  pub idle : n'.state ≡ waiting
  pub no_request : n'.my_request ≡ none
  pub none_delayed : n'.delayed ≡ []
  pub replies : addressed es ≡ owed ds
  pub nothing_else : length es ≡ length ds
  pub revoked : Revoked n' ds
  pub kept_off : (p : ℕ) (f : List ℕ) → n.permitted p f ≡ false → n'.permitted p f ≡ false

-- The node after it has answered the front of the queue and popped it.
abbrev answered : Node → Delayed → List Delayed → Node
answered n d ds = record n {
  timestamp = tick d.request.timestamp n.timestamp;
  permitted = revoke n d.peer d.request.file_name;
  delayed = ds;
}

deliver_step :
    (fuel : ℕ) (n : Node) (d : Delayed) (ds : List Delayed)
    → n.state ≡ waiting
    → n.delayed ≡ d ∷ ds
    → deliver_delayed_requests (suc fuel) n ≡ (
        deliver_delayed_requests fuel (answered n d ds) >>= λ r. ok (
          r.0,
          (send_reply d.peer (clocked (tick d.request.timestamp n.timestamp) d.request.file_name)
                ∷ [])
              ++ r.1,
        ))
unfolding deliver_delayed_requests on_receive_request answer
deliver_step fuel n d ds s e = ground arith

revoke_self : (n : Node) (p : ℕ) (f : List ℕ) → revoke n p f p f ≡ false
revoke_self n p f = rw (==_refl p, name_eq_refl f)

revoke_off :
    (n : Node) (p q : ℕ) (f g : List ℕ) → n.permitted q g ≡ false → revoke n p f q g ≡ false
revoke_off n p q f g h = ground arith

deliver-Delivered :
    (ds : List Delayed) (fuel : ℕ) (n : Node)
    → length ds < fuel
    → n.state ≡ waiting
    → n.my_request ≡ none
    → n.delayed ≡ ds
    → (n' : Node) × (es : List Effect) × (deliver_delayed_requests fuel n ≡ ok (n', es))
      × Delivered n ds n' es
unfolding deliver_delayed_requests
deliver-Delivered ds zero n h s m e = absurd (omega arith)
deliver-Delivered [] (suc fuel) n h s m e = (
  n,
  [],
  rw e,
  record {
    idle = s;
    no_request = m;
    none_delayed = e;
    replies = refl;
    nothing_else = refl;
    revoked = tt;
    kept_off = λ p f k. k;
  },
)
deliver-Delivered (d ∷ ds) (suc fuel) n h s m e =
    let (n', es, ran, del) = deliver-Delivered ds fuel (answered n d ds) (omega arith) s m refl in
    (
      n',
      send_reply d.peer (clocked (tick d.request.timestamp n.timestamp) d.request.file_name) ∷ es,
      deliver_step fuel n d ds s e ∙ rw ran refl,
      record {
        idle = del.idle;
        no_request = del.no_request;
        none_delayed = del.none_delayed;
        replies = ap (◌∷◌ (d.peer, d.request.file_name)) del.replies;
        nothing_else = ap suc del.nothing_else;
        revoked = (
          del.kept_off d.peer d.request.file_name (revoke_self n d.peer d.request.file_name),
          del.revoked,
        );
        kept_off = λ p f k. del.kept_off p f (revoke_off n d.peer p d.request.file_name f k);
      },
    )

-- Releasing always returns. The node is then waiting, without a request and owing nothing; it has
-- sent one reply for each delayed request, in the order of their arrival, to its peer and for its
-- file, and nothing else; it holds none of those permissions, nor any that it did not hold before.
pub release-answers_all :
    (n : Node)
    → (n' : Node) × (es : List Effect) × (release_mutual_exclusion n ≡ ok (n', es))
      × Delivered n n.delayed n' es
unfolding release_mutual_exclusion
release-answers_all n =
    let (n', es, ran, del) =
      deliver-Delivered n.delayed (suc (length n.delayed))
        (record n { my_request = none; state = waiting }) (omega arith) refl refl refl in
    (
      n',
      es,
      ran,
      record {
        idle = del.idle;
        no_request = del.no_request;
        none_delayed = del.none_delayed;
        replies = del.replies;
        nothing_else = del.nothing_else;
        revoked = del.revoked;
        kept_off = del.kept_off;
      },
    )
