-- ===== src/Cluster/Balancer/Policies.antt =====
-- The table of policies, and what each policy chooses.
use nodehub.Base.{
  ℕ, ◌≤◌, ◌≡◌, ◌≢◌, inl, inr, refl, sym, subst, ◌∙◌, String, Option, none, some, List, [], ◌∷◌,
  Bool, false, ◌==◌, string_eq, if◌then◌else◌, ok, Memᴰ, mem-perm, All-mem, arith, Bool-cases,
  Option-cases,
}
use mathlib.Core.List.Permᴰ
use mathlib.Core.List.{Permᴰ}
use nodehub.Base.Int.{ℤ}
use nodehub.Base.Maybe.{OnSome, >>=-OnSome, OnSome-some}
use nodehub.Base.Map
use nodehub.Base.Map.{Map}
use nodehub.Cluster.Entry.{NodeEntry}
use nodehub.Cluster.Balancer.Sort.{
  sort_slice, older, newer, sort_slice-perm, sort_slice-LedByHead, older-IsOrder, newer-IsOrder,
  LedByHead,
}
use nodehub.Cluster.Balancer.{
  Session, Balancer, BalancerFactory, oldest, newest, new_random_balancer, new_round_robin_balancer,
  new_ip_hash_balancer, new_id_hash_balancer, new_oldest_balancer, new_newest_balancer,
  balancer_random, balancer_round_robin, balancer_ip_hash, balancer_id_hash, balancer_oldest,
  balancer_newest, first_node, new_balancer, register_balancer, init_balancers,
}
use nodehub.Cluster.Balancer.Pick.{pick}
use nodehub.Cluster.Balancer.Members.{
  OneOf, pick-candidates, IsFactory, Keeps, AllFactories, Permᴰ-nil, new_balancer-IsFactory,
  random-IsFactory, round_robin-IsFactory, ip_hash-IsFactory, id_hash-IsFactory, oldest-IsFactory,
  newest-IsFactory,
}

module _ (to_lower : String → String) where
  -- A registration that does not panic is of a policy that was not registered, in lower case; the
  -- policy has the factory then, and no other policy changes.
  pub load-register_balancer :
      (registered r : Map String BalancerFactory) (policy : String) (factory : BalancerFactory)
      → register_balancer to_lower registered policy factory ≡ some r
      → (Map.load registered (to_lower policy) ≡ none)
        × ((p : String)
            → Map.load r p ≡ (if to_lower policy == p then some factory else Map.load registered p))
  unfolding register_balancer
  load-register_balancer registered r policy factory e =
      elim (Option-cases (Map.load registered (to_lower policy))) [
        | inl m ↦ (m, λ p. ground (arith, m, Map.load-store registered (to_lower policy) p factory))
        | inr (f, m) ↦ absurd (ground (arith, m))
      ]

  register_balancer-AllFactories :
      (registered : Map String BalancerFactory) (policy : String) (factory : BalancerFactory)
      → AllFactories registered
      → IsFactory factory
      → OnSome AllFactories (register_balancer to_lower registered policy factory)
  unfolding register_balancer
  register_balancer-AllFactories registered policy factory all f =
      elim (Option-cases (Map.load registered (to_lower policy))) [
        | inl m ↦
            rw (m, register_balancer)
              λ p g load. elim (Bool-cases (to_lower policy == p)) [
                | inl here ↦
                    let hit : some factory ≡ some g = rw here at (sym (at p) ∙ load) in
                    let same : factory ≡ g = cc in subst IsFactory same f
                | inr gone ↦ all p g (rw gone at (sym (at p) ∙ load))
              ]
        | inr (x, m) ↦ rw (m, register_balancer) tt
      ]
    where
      at :
          (p : String)
          → Map.load (Map.store registered (to_lower policy) factory) p
            ≡ (if to_lower policy == p then some factory else Map.load registered p)
      at p = Map.load-store registered (to_lower policy) p factory

  -- Every policy that the package registers keeps the promise of a factory.
  pub init_balancers-AllFactories : OnSome AllFactories (init_balancers to_lower)
  unfolding init_balancers Map.load
  init_balancers-AllFactories =
      let step = register_balancer-AllFactories in
      >>=-OnSome AllFactories AllFactories _ _
        (step [] balancer_random new_random_balancer (λ p f e. cc) random-IsFactory)
        λ r h.
          >>=-OnSome AllFactories AllFactories _ _
            (step r balancer_round_robin new_round_robin_balancer h round_robin-IsFactory)
            λ r h.
              >>=-OnSome AllFactories AllFactories _ _
                (step r balancer_ip_hash new_ip_hash_balancer h ip_hash-IsFactory)
                λ r h.
                  >>=-OnSome AllFactories AllFactories _ _
                    (step r balancer_id_hash new_id_hash_balancer h id_hash-IsFactory)
                    λ r h.
                      >>=-OnSome AllFactories AllFactories _ _
                        (step r balancer_oldest new_oldest_balancer h oldest-IsFactory)
                        λ r h. step r balancer_newest new_newest_balancer h newest-IsFactory

  module _ (sum64 : String → ℕ) (addr_bytes : String → Option (List ℕ)) where
    -- Whatever a balancer of NewBalancer picks under the policies of the package is one of the
    -- nodes that NewBalancer was given.
    pub new_balancer-pick :
        (r : Map String BalancerFactory) (code : ℤ) (nodes nodes' : List NodeEntry) (b : Balancer)
        (sess : Session) (draw id : ℕ)
        → init_balancers to_lower ≡ some r
        → new_balancer to_lower r code nodes ≡ some (b, nodes')
        → pick sum64 addr_bytes b sess draw ≡ ok id
        → OneOf id nodes
    new_balancer-pick r code nodes nodes' b sess draw id i e p =
        let all =
          OnSome-some AllFactories (init_balancers to_lower) r init_balancers-AllFactories i in
        let k = new_balancer-IsFactory to_lower r all code nodes in
        let k' : Keeps nodes (some (b, nodes')) = rw e at k in
        let (n, m, q) = pick-candidates sum64 addr_bytes b sess draw id p in (n, k'.0 n m, q)

first_leads :
    (balancer : NodeEntry → Balancer) (P : NodeEntry → NodeEntry → Type 0)
    (less : NodeEntry → NodeEntry → Bool) (nodes sorted : List NodeEntry)
    → ((n m : NodeEntry) → less m n ≡ false → P n m)
    → ((n : NodeEntry) → P n n)
    → nodes ≢ []
    → Permᴰ nodes sorted
    → LedByHead less sorted
    → (n : NodeEntry) × (ns : List NodeEntry) × Memᴰ n nodes
      × (first_node balancer sorted ≡ some (balancer n, ns))
      × ((m : NodeEntry) → Memᴰ m nodes → P n m)
first_leads balancer P less nodes [] le self ne p led = absurd (ne (Permᴰ-nil p refl))
first_leads balancer P less nodes (x ∷ xs) le self ne p led =
    (x, x ∷ xs, mem-perm (Permᴰ.symm p) (Memᴰ.head refl), refl, λ m h. at m (mem-perm p h))
  where
    at : (m : NodeEntry) → Memᴰ m (x ∷ xs) → P x m
    at m (Memᴰ.head e) = subst (P x) (sym e) (self x)
    at m (Memᴰ.tail t) = le x m (All-mem (λ y. less y x ≡ false) xs m led t)

-- Of at least one node, the policy `oldest` always takes one that no other was started before.
pub new_oldest_balancer-le :
    (code : ℤ) (nodes : List NodeEntry)
    → nodes ≢ []
    → (n : NodeEntry) × (ns : List NodeEntry) × Memᴰ n nodes
      × (new_oldest_balancer code nodes ≡ some (oldest n, ns))
      × ((m : NodeEntry) → Memᴰ m nodes → n.id ≤ m.id)
unfolding new_oldest_balancer
new_oldest_balancer-le code nodes ne =
    first_leads oldest (λ n m. n.id ≤ m.id) older nodes (sort_slice older nodes)
      (λ n m. ground arith) (λ n. omega arith) ne (sort_slice-perm older nodes)
      (sort_slice-LedByHead older older-IsOrder nodes)

-- Of at least one node, the policy `newest` always takes one that no other was started after.
pub new_newest_balancer-le :
    (code : ℤ) (nodes : List NodeEntry)
    → nodes ≢ []
    → (n : NodeEntry) × (ns : List NodeEntry) × Memᴰ n nodes
      × (new_newest_balancer code nodes ≡ some (newest n, ns))
      × ((m : NodeEntry) → Memᴰ m nodes → m.id ≤ n.id)
unfolding new_newest_balancer
new_newest_balancer-le code nodes ne =
    first_leads newest (λ n m. m.id ≤ n.id) newer nodes (sort_slice newer nodes)
      (λ n m. ground arith) (λ n. omega arith) ne (sort_slice-perm newer nodes)
      (sort_slice-LedByHead newer newer-IsOrder nodes)

-- Of at least one node, the policy `oldest` always takes one of them that no other was started
-- before, and `newest` one that no other was started after.
pub new_balancer-by_age :
    (code : ℤ) (nodes : List NodeEntry)
    → nodes ≢ []
    → ((n : NodeEntry) × (ns : List NodeEntry) × Memᴰ n nodes
        × (new_oldest_balancer code nodes ≡ some (oldest n, ns))
        × ((m : NodeEntry) → Memᴰ m nodes → n.id ≤ m.id))
      × ((n : NodeEntry) × (ns : List NodeEntry) × Memᴰ n nodes
          × (new_newest_balancer code nodes ≡ some (newest n, ns))
          × ((m : NodeEntry) → Memᴰ m nodes → m.id ≤ n.id))
new_balancer-by_age code nodes ne =
    (new_oldest_balancer-le code nodes ne, new_newest_balancer-le code nodes ne)
