-- ===== src/Node/States.antt =====
-- The state of a node, and the one that etcd has of it.
use nodehub.Base.{
  ℕ, ◌≡◌, ◌≢◌, refl, subst, ◌∙◌, String, Option, none, some, List, [], ◌∷◌, Bool, ◌==◌, nat_eq,
  string_eq, str_eq_iff, arith, All, Option-cases, Bool-cases, inl, inr,
}
use nodehub.Base.Map
use nodehub.Cluster.Entry.{NodeEntry, validate}
use nodehub.Cluster.Publish.{
  Publisher, PutAnswer, stored, refused, lost, Etcd, PutError, init_lease, write, leased, put,
}
use nodehub.Node.{Component, Node, complete, get_entry, settled, change_state}

-- What the component adds to the entry is not its identity or its state.
abbrev pub Tame : Component → Type 0
Tame c =
    (f : NodeEntry → NodeEntry)
    → c.complete_node_entry ≡ some f
    → (entry : NodeEntry) → ((f entry).id ≡ entry.id) × ((f entry).state ≡ entry.state)

complete-Tame :
    (components : List Component) (entry : NodeEntry)
    → All Tame components
    → ((complete components entry).id ≡ entry.id)
      × ((complete components entry).state ≡ entry.state)
unfolding complete
complete-Tame [] entry t = (refl, refl)
complete-Tame (c ∷ components) entry t = elim (Option-cases c.complete_node_entry) [
  | inl e ↦ rw (e, complete) (complete-Tame components entry t.1)
  | inr (f, e) ↦
      let (a, b) = t.0 f e entry in
      let (i, s) = complete-Tame components (f entry) t.1 in rw (e, complete) (i ∙ a, s ∙ b)
]

init_lease-published : (e : Etcd) (r : Publisher) → (init_lease e r).0.published ≡ r.published
unfolding init_lease
init_lease-published e r = ground arith

module _ (hostname : String → Option String) (is_unspecified : String → Bool)
    (encodes : NodeEntry → Bool) (key : ℕ → String) where
  -- A Put is applied, or nothing changes, unless its answer is lost.
  abbrev Applied : NodeEntry → Publisher → Publisher × Option PutError → Type 0
  Applied entry r (r', none) =
      (lease : ℕ) × (r'.published ≡ Map.store r.published (key entry.id) (entry, lease))
  Applied entry r (r', some e) = r'.published ≡ r.published

  write-Applied :
      (entry : NodeEntry) (e : Etcd) (r : Publisher)
      → e.put ≢ lost
      → Applied entry r (write (key entry.id) entry e r)
  unfolding write
  write-Applied entry e r l = by_answer e.put l
    where
      by_answer :
          (a : PutAnswer)
          → a ≢ lost
          → Applied entry r (write (key entry.id) entry (record e { put = a }) r)
      by_answer stored l = (r.lease_id, refl)
      by_answer refused l = refl
      by_answer lost l = absurd (l refl)

  leased-Applied :
      (entry : NodeEntry) (e : Etcd) (r : Publisher) (q : Publisher × Option PutError)
      → e.put ≢ lost
      → q.0.published ≡ r.published
      → Applied entry r (leased hostname is_unspecified encodes key entry e q)
  unfolding leased
  leased-Applied entry e r (r', some error) l p = p
  leased-Applied entry e r (r', none) l p =
      via (write (key entry.id) entry e r') (write-Applied entry e r' l)
    where
      via : (q : Publisher × Option PutError) → Applied entry r' q → Applied entry r q
      via (s, none) (lease, a) = (lease, rw p at a)
      via (s, some error) a = a ∙ p

  put-Applied :
      (entry : NodeEntry) (e : Etcd) (r : Publisher)
      → e.put ≢ lost
      → Applied entry r (put hostname is_unspecified encodes key entry e r)
  unfolding put
  put-Applied entry e r l = elim (Option-cases (validate hostname is_unspecified entry)) [
    | inr (error, v) ↦ rw (v, put) refl
    | inl v ↦ elim (Bool-cases (encodes entry)) [
      | inl b ↦
          rw (v, b, put) (leased-Applied entry e r (init_lease e r) l (init_lease-published e r))
      | inr b ↦ rw (v, b, put) refl
    ]
  ]

  -- Etcd has the node's entry, with the state that the node has.
  pub record Registered (n : Node) : Type 0 where
    pub entry : NodeEntry
    pub lease : ℕ
    pub found : Map.load n.registry.published (key n.entry.id) ≡ some (entry, lease)
    pub same : entry.state ≡ n.entry.state

  -- What a change of state comes to.
  abbrev pub Changed : String → Node → Node × Option PutError → Type 0
  Changed new_state n (n', none) = Registered n' × (n'.entry.state ≡ new_state)
  Changed new_state n (n', some e) = Registered n' × (n'.entry.state ≡ n.entry.state)

  settled-Changed :
      (new_state : String) (n : Node) (q : Publisher × Option PutError)
      → All Tame n.components
      → Registered n
      → (let changed = record n { entry = record n.entry { state = new_state } } in
          Applied (get_entry changed) n.registry q
          → Changed new_state n
              (settled hostname is_unspecified encodes key n.entry.state changed q))
  unfolding settled get_entry
  settled-Changed new_state n (r, none) t g (lease, a) =
      let changed = record n { entry = record n.entry { state = new_state } } in
      let (i, s) = complete-Tame n.components changed.entry t in
      let stands =
        Map.load-store_self n.registry.published (key (get_entry changed).id)
          (get_entry changed, lease) in
      (
        record {
          entry = get_entry changed;
          lease = lease;
          found = rw a (
              subst
                (λ x.
                  Map.load
                    (Map.store n.registry.published (key (get_entry changed).id)
                      (get_entry changed, lease))
                    (key x)
                  ≡ some (get_entry changed, lease))
                i stands);
          same = s;
        },
        refl,
      )
  settled-Changed new_state n (r, some e) t g a =
      (record { entry = g.entry; lease = g.lease; found = rw a g.found; same = g.same }, refl)

  -- Where etcd has a node's entry with the node's state, it has so after a change of state too,
  -- as long as no component changes the identity or the state of the entry and the answer to the
  -- Put is not lost; the node then has the new state if the change succeeded, and the old one if
  -- it failed.
  pub change_state-Changed :
      (new_state : String) (e : Etcd) (n : Node)
      → All Tame n.components
      → e.put ≢ lost
      → Registered n
      → Changed new_state n (change_state hostname is_unspecified encodes key new_state e n)
  unfolding change_state
  change_state-Changed new_state e n t l g = elim (Bool-cases (n.entry.state == new_state)) [
    | inl b ↦ rw (b, change_state) (g, (str_eq_iff n.entry.state new_state).0 b)
    | inr b ↦
        let changed = record n { entry = record n.entry { state = new_state } } in
        rw (b, change_state)
          (settled-Changed new_state n
            (put hostname is_unspecified encodes key (get_entry changed) e n.registry) t g
            (put-Applied (get_entry changed) e n.registry l))
  ]
