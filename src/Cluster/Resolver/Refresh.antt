-- ===== src/Cluster/Resolver/Refresh.antt =====
-- What one refresh of a service changes: its own nodes and balancer, and nothing else.
use nodehub.Base.{
  String, ◌≡◌, ◌≢◌, refl, ◌∙◌, ap, inl, inr, Option, none, some, List, [], ◌∷◌, true, ◌==◌, nat_eq,
  string_eq, if◌then◌else◌, arith, mem-perm, Option-cases, Bool-cases,
}
use mathlib.Core.List.Permᴰ
use mathlib.Core.List.{Permᴰ}
use nodehub.Base.Int.{ℤ, int_eq}
use nodehub.Base.Map
use nodehub.Base.Map.{Map}
use nodehub.Base.Maybe.{Ensures, Ensures-map}
use nodehub.Cluster.Entry.{NodeEntry, GrpcServiceDesc}
use nodehub.Cluster.Balancer.{Balancer, BalancerFactory, new_balancer}
use nodehub.Cluster.Balancer.Members.{
  Within, candidates, Permᴰ-nil, Keeps, AllFactories, new_balancer-IsFactory,
}
use nodehub.Cluster.Resolver.{
  Resolver, available, update_service_nodes, ok_list, replace_balancer, update_balancer, refresh,
}

-- A balancer of the nodes, unless there are none.
abbrev pub Balanced : List NodeEntry → Option Balancer → Type 0
Balanced [] o = o ≡ none
Balanced (x ∷ xs) none = ⊥
Balanced (x ∷ xs) (some b) = Within (candidates b) (x ∷ xs)

-- The service is known and public.
abbrev pub IsPublic : Resolver → ℤ → Type 0
IsPublic r c = (desc : GrpcServiceDesc) × (Map.load r.services c ≡ some desc) × (desc.public ≡ true)

abbrev pub balancer_at : Resolver → ℤ → Option Balancer
balancer_at r c = Map.load r.service_balancer c

-- The nodes of the service are those that are available, and a public service has a balancer of
-- them.
pub record GoodAt (r : Resolver) (c : ℤ) : Type 0 where
  pub exact : Permᴰ (available c r.all_nodes) (ok_list r.ok_nodes c)
  pub balanced : IsPublic r c → Balanced (ok_list r.ok_nodes c) (balancer_at r c)

pub record SameAt (r r' : Resolver) (c : ℤ) : Type 0 where
  pub same_list : ok_list r'.ok_nodes c ≡ ok_list r.ok_nodes c
  pub same_balancer : balancer_at r' c ≡ balancer_at r c

-- What refreshing the service `code` makes of `r`.
pub record Refreshed (code : ℤ) (r r' : Resolver) : Type 0 where
  pub same_nodes : r'.all_nodes ≡ r.all_nodes
  pub same_services : r'.services ≡ r.services
  pub others : (c : ℤ) → code ≢ c → SameAt r r' c
  pub good : GoodAt r' code

ok_list-update_service_nodes :
    (code c : ℤ) (r : Resolver)
    → ok_list (update_service_nodes code r).ok_nodes c
      ≡ (if code == c then available code r.all_nodes else ok_list r.ok_nodes c)
unfolding update_service_nodes ok_list
ok_list-update_service_nodes code c r = go (available code r.all_nodes) refl
  where
    go :
        (ns : List NodeEntry)
        → available code r.all_nodes ≡ ns
        → ok_list (update_service_nodes code r).ok_nodes c
          ≡ (if code == c then available code r.all_nodes else ok_list r.ok_nodes c)
    go [] e = ground (arith, e, Map.load-delete r.ok_nodes code c)
    go (n ∷ ns) e = ground (arith, e, Map.load-store r.ok_nodes code c (n ∷ ns))

ok_list-store_self :
    (m : Map ℤ (List NodeEntry)) (code : ℤ) (ns : List NodeEntry)
    → ok_list (Map.store m code ns) code ≡ ns
unfolding ok_list
ok_list-store_self m code ns = ground (arith, Map.load-store_self m code ns)

ok_list-store_ne :
    (m : Map ℤ (List NodeEntry)) (code c : ℤ) (ns : List NodeEntry)
    → code ≢ c
    → ok_list (Map.store m code ns) c ≡ ok_list m c
unfolding ok_list
ok_list-store_ne m code c ns ne = ground (arith, Map.load-store_ne m code c ns ne)

-- What `update_service_nodes` leaves alone.
update_service_nodes-keeps :
    (code : ℤ) (r : Resolver)
    → let r' = update_service_nodes code r in
      (r'.all_nodes ≡ r.all_nodes)
      × (r'.services ≡ r.services)
      × (r'.service_balancer ≡ r.service_balancer)
unfolding update_service_nodes
update_service_nodes-keeps code r = ground arith

-- What giving the service `code` a new balancer makes of `r`.
record Replaced (code : ℤ) (r r' : Resolver) : Type 0 where
  same_nodes : r'.all_nodes ≡ r.all_nodes
  same_services : r'.services ≡ r.services
  others : (c : ℤ) → code ≢ c → SameAt r r' c
  perm : Permᴰ (ok_list r.ok_nodes code) (ok_list r'.ok_nodes code)
  balanced : Balanced (ok_list r'.ok_nodes code) (balancer_at r' code)

Balanced-perm :
    (b : Balancer) (x : NodeEntry) (xs sorted : List NodeEntry)
    → Permᴰ (x ∷ xs) sorted
    → Within (candidates b) (x ∷ xs)
    → Balanced sorted (some b)
Balanced-perm b x xs [] p w = cc (Permᴰ-nil p refl)
Balanced-perm b x xs (y ∷ ys) p w = λ n m. mem-perm p (w n m)

module _ (to_lower : String → String) (registered : Map String BalancerFactory)
    (all : AllFactories registered) where
  replace_balancer-Ensures :
      (code : ℤ) (ns : List NodeEntry) (r : Resolver)
      → ok_list r.ok_nodes code ≡ ns
      → Ensures (Replaced code r) (replace_balancer to_lower registered code ns r)
  unfolding replace_balancer
  replace_balancer-Ensures code [] r e = record {
    same_nodes = refl;
    same_services = refl;
    others = λ c ne. record {
      same_list = refl;
      same_balancer = Map.load-delete_ne r.service_balancer code c ne;
    };
    perm = Permᴰ.refl (ok_list r.ok_nodes code);
    balanced = rw e (Map.load-delete_self r.service_balancer code);
  }
  replace_balancer-Ensures code (x ∷ xs) r e =
      go (new_balancer to_lower registered code (x ∷ xs)) refl
        (new_balancer-IsFactory to_lower registered all code (x ∷ xs))
    where
      go :
          (o : Option (Balancer × List NodeEntry))
          → new_balancer to_lower registered code (x ∷ xs) ≡ o
          → Keeps (x ∷ xs) o
          → Ensures (Replaced code r) (replace_balancer to_lower registered code (x ∷ xs) r)
      go none q k = cc
      go (some (b, sorted)) q (w, p) =
          rw (q, replace_balancer)
            (record {
              same_nodes = refl;
              same_services = refl;
              others = λ c ne. record {
                same_list = ok_list-store_ne r.ok_nodes code c sorted ne;
                same_balancer = Map.load-store_ne r.service_balancer code c b ne;
              };
              perm = rw (e, ok_list-store_self r.ok_nodes code sorted) p;
              balanced =
                  rw
                    (
                      ok_list-store_self r.ok_nodes code sorted,
                      Map.load-store_self r.service_balancer code b,
                    )
                    (Balanced-perm b x xs sorted p w);
            })

  update_balancer-Ensures :
      (code : ℤ) (r : Resolver)
      → Permᴰ (available code r.all_nodes) (ok_list r.ok_nodes code)
      → Ensures (Refreshed code r) (update_balancer to_lower registered code r)
  unfolding update_balancer
  update_balancer-Ensures code r exact = elim (Option-cases (Map.load r.services code)) [
    | inl e ↦ rw (e, update_balancer) (unchanged (λ (d, h, _). cc))
    | inr (desc, e) ↦ elim (Bool-cases desc.public) [
      | inl t ↦
          rw (e, update_balancer)
            (rw t (
              Ensures-map (Replaced code r) (Refreshed code r)
                (replace_balancer to_lower registered code (ok_list r.ok_nodes code) r)
                (λ r' s. record {
                  same_nodes = s.same_nodes;
                  same_services = s.same_services;
                  others = s.others;
                  good = record {
                    exact = rw s.same_nodes (Permᴰ.trans exact s.perm);
                    balanced = λ _. s.balanced;
                  };
                })
                (replace_balancer-Ensures code (ok_list r.ok_nodes code) r refl)))
      | inr f ↦ rw (e, update_balancer) (rw f (unchanged (λ (d, h, k). ground (arith, e, f, h, k))))
    ]
  ]
    where
      unchanged : ¬ IsPublic r code → Refreshed code r r
      unchanged private = record {
        same_nodes = refl;
        same_services = refl;
        others = λ c ne. record { same_list = refl; same_balancer = refl };
        good = record { exact = exact; balanced = λ p. absurd (private p) };
      }

  -- A refresh of a service does not panic; the service is good then, and no other is touched.
  pub refresh-Ensures :
      (code : ℤ) (r : Resolver) → Ensures (Refreshed code r) (refresh to_lower registered code r)
  unfolding refresh
  refresh-Ensures code r =
      let r1 = update_service_nodes code r in
      let (n, s, b) = update_service_nodes-keeps code r in
      let list = λ (c : ℤ). ok_list-update_service_nodes code c r in
      let exact : Permᴰ (available code r1.all_nodes) (ok_list r1.ok_nodes code) =
        rw (n, list code, Map.beq_self code) (Permᴰ.refl (available code r.all_nodes)) in
      Ensures-map (Refreshed code r1) (Refreshed code r)
        (update_balancer to_lower registered code r1)
        (λ r' t. record {
          same_nodes = t.same_nodes ∙ n;
          same_services = t.same_services ∙ s;
          others = λ c ne. record {
            same_list = (t.others c ne).same_list ∙ (list c ∙ rw (Map.beq_ne code c ne));
            same_balancer = (t.others c ne).same_balancer ∙ ap (λ m. Map.load m c) b;
          };
          good = t.good;
        })
        (update_balancer-Ensures code r1 exact)
