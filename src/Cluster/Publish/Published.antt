-- ===== src/Cluster/Publish/Published.antt =====
-- What a registry has published, and that closing it takes this back.
use nodehub.Base.{
  All-map, ℕ, ◌≡◌, ◌≢◌, refl, ap, ◌∙◌, String, Option, none, some, List, [], ◌∷◌, Bool, true, ◌==◌,
  nat_eq, string_eq, nat_beq_iff, arith, Option-cases, Bool-cases, inl, inr, All,
}
use nodehub.Base.Map
use nodehub.Base.Map.{Map}
use nodehub.Cluster.Entry.{NodeEntry, validate}
use nodehub.Cluster.Publish.{
  no_lease, Publisher, PutAnswer, stored, refused, lost, Etcd, PutError, init_lease, write, leased,
  put, revoke, close_registry, new_publisher,
}

module _ (hostname : String → Option String) (is_unspecified : String → Bool)
    (encodes : NodeEntry → Bool) (key : ℕ → String) where
  -- The published entries stand under their keys, are valid, and hang on the registry's lease.
  pub record Kept (r : Publisher) : Type 0 where
    pub entries :
        All
          (λ p.
            (p.0 ≡ key p.1.0.id)
            × (validate hostname is_unspecified p.1.0 ≡ none)
            × (p.1.1 ≡ r.lease_id)
            × (p.1.1 ≢ no_lease))
          r.published

  init_lease-Kept :
      (e : Etcd) (r : Publisher)
      → e.grant ≢ some no_lease
      → Kept r
      → Kept (init_lease e r).0
        × ((init_lease e r).1 ≡ none → (init_lease e r).0.lease_id ≢ no_lease)
  unfolding init_lease
  init_lease-Kept e r g k = elim (Bool-cases (r.lease_id == no_lease)) [
    | inr n ↦ rw (n, init_lease) (k, λ q z. ground (arith, n, z))
    | inl z ↦ elim (Option-cases e.grant) [
      | inl n ↦ rw (z, n, init_lease) (k, λ q. cc)
      | inr (id, n) ↦ elim (Bool-cases e.keep_alive) [
        | inl b ↦
            rw (z, n, b, init_lease)
              (
                record {
                  entries =
                      All-map r.published
                        (λ p h. absurd (h.3 (h.2 ∙ (nat_beq_iff r.lease_id no_lease).0 z)))
                        k.entries;
                },
                λ q w. g (n ∙ ap some w),
              )
        | inr b ↦ rw (z, n, b, init_lease) (k, λ q. cc)
      ]
    ]
  ]

  -- The entry is stored, or nothing is.
  write-Kept :
      (entry : NodeEntry) (e : Etcd) (r : Publisher)
      → validate hostname is_unspecified entry ≡ none
      → r.lease_id ≢ no_lease
      → Kept r
      → Kept (write (key entry.id) entry e r).0
  unfolding write
  write-Kept entry e r v l k = by_answer e.put
    where
      after :
          Kept (record r { published = Map.store r.published (key entry.id) (entry, r.lease_id) })
      after = record {
        entries =
            Map.All-store _ r.published (key entry.id) (entry, r.lease_id) (refl, v, refl, l)
              k.entries;
      }

      by_answer : (a : PutAnswer) → Kept (write (key entry.id) entry (record e { put = a }) r).0
      by_answer stored = after
      by_answer refused = k
      by_answer lost = after

  leased-Kept :
      (entry : NodeEntry) (e : Etcd) (q : Publisher × Option PutError)
      → validate hostname is_unspecified entry ≡ none
      → Kept q.0
      → (q.1 ≡ none → q.0.lease_id ≢ no_lease)
      → Kept (leased hostname is_unspecified encodes key entry e q).0
  unfolding leased
  leased-Kept entry e (r, some error) v k l = k
  leased-Kept entry e (r, none) v k l = write-Kept entry e r v (l refl) k

  pub put-Kept :
      (entry : NodeEntry) (e : Etcd) (r : Publisher)
      → e.grant ≢ some no_lease
      → Kept r
      → Kept (put hostname is_unspecified encodes key entry e r).0
  unfolding put
  put-Kept entry e r g k = elim (Option-cases (validate hostname is_unspecified entry)) [
    | inr (error, v) ↦ rw (v, put) k
    | inl v ↦ elim (Bool-cases (encodes entry)) [
      | inl b ↦
          let (a, l) = init_lease-Kept e r g k in
          rw (v, b, put) (leased-Kept entry e (init_lease e r) v a l)
      | inr b ↦ rw (v, b, put) k
    ]
  ]

  unfoldable pub put_all : List (NodeEntry × Etcd) → Publisher → Publisher
  put_all [] r = r
  put_all ((entry, e) ∷ puts) r = put_all puts (put hostname is_unspecified encodes key entry e r).0

  put_all-Kept :
      (puts : List (NodeEntry × Etcd)) (r : Publisher)
      → All (λ p. p.1.grant ≢ some no_lease) puts
      → Kept r
      → Kept (put_all puts r)
  unfolding put_all
  put_all-Kept [] r g k = k
  put_all-Kept ((entry, e) ∷ puts) r g k =
      put_all-Kept puts (put hostname is_unspecified encodes key entry e r).0 g.1
        (put-Kept entry e r g.0 k)

  new_publisher-Kept : Kept new_publisher
  unfolding new_publisher
  new_publisher-Kept = record { entries = tt }

  -- After any calls of Put on a new registry, whatever etcd answers them, as long as it grants no
  -- lease the number that stands for none: each entry in etcd stands under the key of its
  -- identity, is valid, and hangs on the registry's one lease.
  pub put_all-new_Kept :
      (puts : List (NodeEntry × Etcd))
      → All (λ p. p.1.grant ≢ some no_lease) puts
      → Kept (put_all puts new_publisher)
  put_all-new_Kept puts g = put_all-Kept puts new_publisher g new_publisher-Kept

  revoke-all :
      (lease : ℕ) (m : Map String (NodeEntry × ℕ))
      → All (λ p. p.1.1 ≡ lease) m
      → revoke lease m ≡ []
  unfolding revoke
  revoke-all lease [] h = refl
  revoke-all lease ((key, (entry, id)) ∷ m) h = ground (arith, h.0, revoke-all lease m h.1)

  -- There are no entries where there is no lease.
  unleased :
      (lease : ℕ) (m : Map String (NodeEntry × ℕ))
      → lease ≡ no_lease
      → All
          (λ p.
            (p.0 ≡ key p.1.0.id)
            × (validate hostname is_unspecified p.1.0 ≡ none)
            × (p.1.1 ≡ lease)
            × (p.1.1 ≢ no_lease))
          m
      → m ≡ []
  unleased lease [] z h = refl
  unleased lease (p ∷ m) z h = absurd (h.0.3 (h.0.2 ∙ z))

  -- Closing a registry that published, where etcd takes the revocation of its lease, takes back
  -- every entry that its calls of Put left in etcd.
  pub close_registry-clears :
      (puts : List (NodeEntry × Etcd))
      → All (λ p. p.1.grant ≢ some no_lease) puts
      → (close_registry true (put_all puts new_publisher)).published ≡ []
  unfolding close_registry
  close_registry-clears puts g =
      let r = put_all puts new_publisher in
      let k = put_all-new_Kept puts g in
      let all = revoke-all r.lease_id r.published (All-map r.published (λ p h. h.2) k.entries) in
      elim (Bool-cases (r.lease_id == no_lease)) [
        | inr n ↦ ground (arith, n, all)
        | inl z ↦ ground (
          arith,
          z,
          unleased r.lease_id r.published ((nat_beq_iff r.lease_id no_lease).0 z) k.entries,
        )
      ]
