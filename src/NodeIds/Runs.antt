-- ===== src/NodeIds/Runs.antt =====
-- Every history of node_id_service.cc.
use server_client_peer_netwo.Base.{
  ℕ, ◌+◌, ◌<◌, ◌≡◌, ◌≢◌, sym, ap, subst, ◌∙◌, inl, inr, Bool, true, Option, none, some, List, [],
  ◌∷◌, ◌==◌, arith, Bool-cases, Option-cases,
}
use server_client_peer_netwo.Result.{Result, ok, err, Result-cases}
use server_client_peer_netwo.Peer.{Location, same_location}
use server_client_peer_netwo.NodeIds.{
  location_eq, Entry, NodeIds, no_nodes, Fault, get_location_by_id, get_id_by_location, inserted,
  add, dangling, remove_location, remove_id, Change, adds, removes_location, removes_id, apply,
  apply_all,
}

-- Each map leads to an entry with its key.
pub record IsLinked (s : NodeIds) : Type 0 where
  pub ids : (i k : ℕ) → s.by_id i ≡ some k → (e : Entry) × (s.entries k ≡ some e) × (e.id ≡ i)
  pub locations :
      (l : Location) (k : ℕ)
      → s.by_location l ≡ some k
      → (e : Entry) × (s.entries k ≡ some e) × (same_location e.location l ≡ true)
  pub unused : (k : ℕ) (e : Entry) → s.entries k ≡ some e → k < s.next

module _ (s : NodeIds) (h : IsLinked s) where
  open h use {ids, locations, unused}

  module _ (l : Location) (i : ℕ) (free : s.by_id i ≡ none) where
    abbrev fresh_entry : Entry
    fresh_entry = record { id = i; location = l }

    inserted-ids :
        (j k : ℕ)
        → (inserted s l i).by_id j ≡ some k
        → (e : Entry) × ((inserted s l i).entries k ≡ some e) × (e.id ≡ j)
    inserted-ids j k g = elim (Bool-cases (j == i)) [
      | inl e ↦
          let same : j ≡ i = ground (arith, e) in
          (fresh_entry, ground (arith, g, e, ap s.by_id same, free), sym same)
      | inr e ↦
          let (x, at, key) = ids j k (ground (arith, g, e)) in
          (x, ground (arith, at, unused k x at), key)
    ]

    inserted-locations :
        (m : Location) (k : ℕ)
        → (inserted s l i).by_location m ≡ some k
        → (e : Entry) × ((inserted s l i).entries k ≡ some e) × (same_location e.location m ≡ true)
    inserted-locations m k g = elim (Option-cases (s.by_location m)) [
      | inr (old, o) ↦
          let old_k : s.by_location m ≡ some k = ground (arith, g, o) in
          let (x, at, key) = locations m k old_k in (x, ground (arith, at, unused k x at), key)
      | inl n ↦ elim (Bool-cases (same_location m l)) [
        | inl e ↦ (fresh_entry, ground (arith, g, e, n), ground (arith, e))
        | inr e ↦ ground (arith, g, e, n)
      ]
    ]

    inserted-unused : (k : ℕ) (e : Entry) → (inserted s l i).entries k ≡ some e → k < s.next + 1
    inserted-unused k e g = elim (Bool-cases (k == s.next)) [
      | inl q ↦ ground (arith, q)
      | inr q ↦ let b = unused k e (ground (arith, g, q)) in omega (arith, b)
    ]

    pub inserted-IsLinked : IsLinked (inserted s l i)
    inserted-IsLinked = record {
      ids = inserted-ids;
      locations = inserted-locations;
      unused = inserted-unused;
    }

add-held :
    (s : NodeIds) (l : Location) (i k : ℕ) (e : Entry)
    → s.by_id i ≡ some k
    → s.entries k ≡ some e
    → add s l i ≡ ok (s, location_eq e.location l)
unfolding add
add-held s l i k e h at = ground (arith, h, at)

add-free :
    (s : NodeIds) (l : Location) (i : ℕ) → s.by_id i ≡ none → add s l i ≡ ok (inserted s l i, true)
unfolding add
add-free s l i h = ground (arith, h)

add-IsLinked :
    (s t : NodeIds) (l : Location) (i : ℕ) (done : Bool)
    → IsLinked s
    → add s l i ≡ ok (t, done)
    → IsLinked t
add-IsLinked s t l i done h e = elim (Option-cases (s.by_id i)) [
  | inl free ↦
      let same : inserted s l i ≡ t = ground (arith, e, add-free s l i free) in
      subst IsLinked same (inserted-IsLinked s h l i free)
  | inr (k, o) ↦
      let (x, at, key) = h.ids i k o in
      let same : s ≡ t = ground (arith, e, add-held s l i k x o at) in subst IsLinked same h
]

-- What a `Remove` gives by what its map has
abbrev pub removing : NodeIds → Option ℕ → Result NodeIds Fault
removing s none = ok s
removing s (some k) = err dangling

remove_id-dangles : (s : NodeIds) (i : ℕ) → IsLinked s → remove_id s i ≡ removing s (s.by_id i)
unfolding remove_id
remove_id-dangles s i h = elim (Option-cases (s.by_id i)) [
  | inl free ↦ ground (arith, free)
  | inr (k, o) ↦ let (e, at, key) = h.ids i k o in ground (arith, o, at, key)
]

remove_location-dangles :
    (s : NodeIds) (l : Location) → IsLinked s → remove_location s l ≡ removing s (s.by_location l)
unfolding remove_location
remove_location-dangles s l h = elim (Option-cases (s.by_location l)) [
  | inl free ↦ ground (arith, free)
  | inr (k, o) ↦ let (e, at, key) = h.locations l k o in ground (arith, o, at, key)
]

removing-same : (s t : NodeIds) (o : Option ℕ) → removing s o ≡ ok t → s ≡ t
removing-same s t none e = ground (arith, e)
removing-same s t (some k) e = ground (arith, e)

apply-IsLinked : (s t : NodeIds) (c : Change) → IsLinked s → apply s c ≡ ok t → IsLinked t
unfolding apply
apply-IsLinked s t (removes_id i) h e =
    subst IsLinked (removing-same s t (s.by_id i) (sym (remove_id-dangles s i h) ∙ e)) h
apply-IsLinked s t (removes_location l) h e =
    subst IsLinked (removing-same s t (s.by_location l) (sym (remove_location-dangles s l h) ∙ e)) h
apply-IsLinked s t (adds l i) h e = elim (Result-cases (add s l i)) [
  | inl ((u, done), good) ↦
      let same : u ≡ t = ground (arith, e, good) in
      subst IsLinked same (add-IsLinked s u l i done h good)
  | inr (x, bad) ↦ ground (arith, e, bad)
]

run-IsLinked : (s t : NodeIds) (cs : List Change) → IsLinked s → apply_all s cs ≡ ok t → IsLinked t
unfolding apply_all
run-IsLinked s t [] h e = let same : s ≡ t = ground (arith, e) in subst IsLinked same h
run-IsLinked s t (c ∷ cs) h e = elim (Result-cases (apply s c)) [
  | inl (u, good) ↦ run-IsLinked u t cs (apply-IsLinked s u c h good) (ground (arith, e, good))
  | inr (x, bad) ↦ ground (arith, e, bad)
]

pub no_nodes-IsLinked : IsLinked no_nodes
no_nodes-IsLinked = record { ids = λ i k e. cc; locations = λ l k e. cc; unused = λ k e h. cc }

-- After any history from the start that no fault ended, each map leads from its key to an entry with that key; and each
-- `Remove` either finds nothing and changes nothing, or it uses an iterator that it has erased.
pub remove-dangles :
    (cs : List Change) (s : NodeIds)
    → apply_all no_nodes cs ≡ ok s
    → IsLinked s
      × ((i : ℕ) → remove_id s i ≡ removing s (s.by_id i))
      × ((l : Location) → remove_location s l ≡ removing s (s.by_location l))
remove-dangles cs s e =
    let h = run-IsLinked no_nodes s cs no_nodes-IsLinked e in
    (h, (λ i. remove_id-dangles s i h), (λ l. remove_location-dangles s l h))

-- A location that is known under an id is added under a second one without an error: both ids lead to it then, and it is
-- known under the first one only.
pub add-second_id :
    (s : NodeIds) (l : Location) (i j k : ℕ)
    → i ≢ j
    → IsLinked s
    → s.by_id i ≡ some k
    → s.by_location l ≡ some k
    → s.by_id j ≡ none
    → (t : NodeIds) × (add s l j ≡ ok (t, true))
      × (get_id_by_location t l ≡ ok (some i))
      × (get_location_by_id t j ≡ ok (some l))
      × ((m : Location) × (get_location_by_id t i ≡ ok (some m)) × (same_location m l ≡ true))
unfolding get_id_by_location get_location_by_id
add-second_id s l i j k apart h oi ol free =
    let (e, at, key) = h.ids i k oi in
    let (x, at', keyl) = h.locations l k ol in
    let below = h.unused k e at in
    let same : x ≡ e = ground (arith, at, at') in
    let here : same_location e.location l ≡ true =
      subst (λ y. same_location y.location l ≡ true) same keyl in
    let t = inserted s l j in
    (
      t,
      add-free s l j free,
      ground (arith, ol, at, key, below),
      ground (arith, free),
      (e.location, ground (arith, apart, oi, at, below), here),
    )
