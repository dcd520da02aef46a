-- ===== src/Cluster/Resolver/Invariant.antt =====
-- Update and Remove keep the nodes and the balancer of every service right.
use nodehub.Base.{
  String, ◌≡◌, ◌≢◌, refl, sym, subst, ◌∙◌, ap, ◌⊎◌, inl, inr, List, [], ◌∷◌, true, false, ◌==◌,
  nat_eq, string_eq, arith, Bool-cases,
}
use nodehub.Base.Int.{ℤ, int_eq, int_beq_iff, is_positive}
use nodehub.Base.Map
use nodehub.Base.Map.{Map, IsMap}
use nodehub.Base.Maybe.{Ensures, >>=-Ensures, Ensures-map}
use nodehub.Cluster.Entry.{GrpcServiceDesc}
use nodehub.Cluster.Balancer.{BalancerFactory}
use nodehub.Cluster.Balancer.Members.{AllFactories}
use nodehub.Cluster.Resolver.{Resolver, offers, refresh, update_services, remove_services}
use nodehub.Cluster.Resolver.Refresh.{GoodAt, SameAt, Refreshed, refresh-Ensures}

GoodAt-same :
    (r r' : Resolver) (c : ℤ)
    → r'.all_nodes ≡ r.all_nodes
    → Map.load r'.services c ≡ Map.load r.services c
    → SameAt r r' c
    → GoodAt r c
    → GoodAt r' c
GoodAt-same r r' c n s same g = record {
  exact = rw (n, same.same_list) g.exact;
  balanced = λ (d, e, p). rw (same.same_list, same.same_balancer) (g.balanced (d, sym s ∙ e, p));
}

-- What a loop over the services `ds` makes of `r`: their codes are good, and good codes stay so.
pub record Looped (ds : List GrpcServiceDesc) (r r' : Resolver) : Type 0 where
  pub same_nodes : r'.all_nodes ≡ r.all_nodes
  pub good : (c : ℤ) → is_positive c ≡ true → (offers c ds ≡ true) ⊎ GoodAt r c → GoodAt r' c

Looped-skip :
    (desc : GrpcServiceDesc) (ds : List GrpcServiceDesc) (r r' : Resolver)
    → is_positive desc.code ≡ false
    → Looped ds r r'
    → Looped (desc ∷ ds) r r'
unfolding offers
Looped-skip desc ds r r' np l = record {
  same_nodes = l.same_nodes;
  good = λ c p. elim [
    | inl o ↦ l.good c p (inl (ground (arith, int_beq_iff desc.code c, o)))
    | inr g ↦ l.good c p (inr g)
  ];
}

-- `r0` is `r` with the description stored or not, `r1` is it refreshed.
Looped-step :
    (desc : GrpcServiceDesc) (ds : List GrpcServiceDesc) (r r0 r1 r2 : Resolver)
    → r0.all_nodes ≡ r.all_nodes
    → ((c : ℤ) → desc.code ≢ c → GoodAt r c → GoodAt r0 c)
    → Refreshed desc.code r0 r1
    → Looped ds r1 r2
    → Looped (desc ∷ ds) r r2
unfolding offers
Looped-step desc ds r r0 r1 r2 n keep t l = record {
  same_nodes = l.same_nodes ∙ (t.same_nodes ∙ n);
  good = λ c p h. elim (Bool-cases (desc.code == c)) [
    | inl e ↦ l.good c p (inr (subst (GoodAt r1) ((int_beq_iff desc.code c).0 e) t.good))
    | inr e ↦
        let ne : desc.code ≢ c = ground (arith, int_beq_iff desc.code c, e) in
        l.good c p (elim h [
          | inl o ↦ inl (ground (arith, e, o))
          | inr g ↦ inr (
              GoodAt-same r0 r1 c t.same_nodes (ap (λ m. Map.load m c) t.same_services)
                (t.others c ne) (keep c ne g))
        ])
  ];
}

module _ (to_lower : String → String) (registered : Map String BalancerFactory)
    (all : AllFactories registered) where
  pub update_services-Ensures :
      (ds : List GrpcServiceDesc) (r : Resolver)
      → Ensures (Looped ds r) (update_services to_lower registered ds r)
  unfolding update_services offers
  update_services-Ensures [] r = record {
    same_nodes = refl;
    good = λ c p. elim [ inl o ↦ cc | inr g ↦ g ];
  }
  update_services-Ensures (desc ∷ ds) r = elim (Bool-cases (is_positive desc.code)) [
    | inl p ↦
        let r0 = record r { services = Map.store r.services desc.code desc } in
        rw p (
          >>=-Ensures (Refreshed desc.code r0) (Looped (desc ∷ ds) r)
            (refresh to_lower registered desc.code r0)
            (λ r1. update_services to_lower registered ds r1)
            (refresh-Ensures to_lower registered all desc.code r0)
            (λ r1 t.
              Ensures-map (Looped ds r1) (Looped (desc ∷ ds) r)
                (update_services to_lower registered ds r1)
                (λ r2 l.
                  Looped-step desc ds r r0 r1 r2 refl
                    (λ c ne g.
                      GoodAt-same r r0 c refl (Map.load-store_ne r.services desc.code c desc ne)
                        (record { same_list = refl; same_balancer = refl }) g)
                    t l)
                (update_services-Ensures ds r1)))
    | inr q ↦ rw q (
        Ensures-map (Looped ds r) (Looped (desc ∷ ds) r) (update_services to_lower registered ds r)
          (λ r'. Looped-skip desc ds r r' q) (update_services-Ensures ds r))
  ]

  pub remove_services-Ensures :
      (ds : List GrpcServiceDesc) (r : Resolver)
      → Ensures (Looped ds r) (remove_services to_lower registered ds r)
  unfolding remove_services offers
  remove_services-Ensures [] r = record {
    same_nodes = refl;
    good = λ c p. elim [ inl o ↦ cc | inr g ↦ g ];
  }
  remove_services-Ensures (desc ∷ ds) r = elim (Bool-cases (is_positive desc.code)) [
    | inl p ↦ rw p (
        >>=-Ensures (Refreshed desc.code r) (Looped (desc ∷ ds) r)
          (refresh to_lower registered desc.code r)
          (λ r1. remove_services to_lower registered ds r1)
          (refresh-Ensures to_lower registered all desc.code r)
          (λ r1 t.
            Ensures-map (Looped ds r1) (Looped (desc ∷ ds) r)
              (remove_services to_lower registered ds r1)
              (λ r2 l. Looped-step desc ds r r r1 r2 refl (λ c ne g. g) t l)
              (remove_services-Ensures ds r1)))
    | inr q ↦ rw q (
        Ensures-map (Looped ds r) (Looped (desc ∷ ds) r) (remove_services to_lower registered ds r)
          (λ r'. Looped-skip desc ds r r' q) (remove_services-Ensures ds r))
  ]
