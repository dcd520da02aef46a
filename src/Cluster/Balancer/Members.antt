-- ===== src/Cluster/Balancer/Members.antt =====
-- A balancer picks among the nodes that it was made from.
use nodehub.Base.{
  ℕ, zero, suc, ◌≡◌, inl, inr, refl, String, Option, none, some, List, [], ◌∷◌, map, nat_eq,
  string_eq, length, get_elem?, ok, >>=-ok, Memᴰ, mem-perm, arith, Bool-cases, Option-cases,
}
use mathlib.Core.List.Permᴰ
use mathlib.Core.List.{Permᴰ}
use nodehub.Base.Int.{ℤ, pos, negsuc, int64_sub, rem, to_int64}
use nodehub.Base.Map
use nodehub.Base.Map.{Map}
use nodehub.Cluster.Entry.{NodeEntry}
use nodehub.Cluster.Balancer.Sort.{sort_slice, older, newer, sort_slice-perm}
use nodehub.Cluster.Balancer.{
  Session, WeightedNode, weight_of, Balancer, BalancerFactory, no_balancer, error_balancer, random,
  round_robin, ip_hash, id_hash, oldest, newest, weighted_nodes, new_random_balancer,
  new_round_robin_balancer, new_ip_hash_balancer, new_id_hash_balancer, new_oldest_balancer,
  new_newest_balancer, first_node, choose_balancer, new_balancer, policy_of,
}
use nodehub.Cluster.Balancer.Pick.{intn, node_at, is_negative, round, addr_to_int64, pick}

abbrev pub entries : List WeightedNode → List NodeEntry
entries = map λ n. n.entry

-- The nodes that a balancer holds.
abbrev pub candidates : Balancer → List NodeEntry
candidates (no_balancer node) = node ∷ []
candidates (error_balancer e) = []
candidates (random nodes) = nodes
candidates (round_robin nodes sum) = entries nodes
candidates (ip_hash nodes) = nodes
candidates (id_hash nodes) = nodes
candidates (oldest node) = node ∷ []
candidates (newest node) = node ∷ []

-- The identity is that of a node of the list.
abbrev pub OneOf : ℕ → List NodeEntry → Type 0
OneOf id nodes = (n : NodeEntry) × Memᴰ n nodes × (n.id ≡ id)

get_elem?-OneOf :
    (nodes : List NodeEntry) (i : ℕ) (n : NodeEntry) → get_elem? nodes i ≡ some n → Memᴰ n nodes
get_elem?-OneOf [] i n e = cc
get_elem?-OneOf (x ∷ nodes) zero n e = Memᴰ.head (ground arith)
get_elem?-OneOf (x ∷ nodes) (suc i) n e = Memᴰ.tail (get_elem?-OneOf nodes i n e)

node_at-OneOf : (nodes : List NodeEntry) (i : ℤ) (id : ℕ) → node_at nodes i ≡ ok id → OneOf id nodes
unfolding node_at
node_at-OneOf nodes (pos i) id e = elim (Option-cases (get_elem? nodes i)) [
  | inl m ↦ absurd (ground (arith, m))
  | inr (n, m) ↦ (n, get_elem?-OneOf nodes i n m, ground (arith, m))
]
node_at-OneOf nodes (negsuc i) id e = cc

round-OneOf :
    (nodes : List WeightedNode) (r : ℤ) (id : ℕ) → round nodes r ≡ ok id → OneOf id (entries nodes)
unfolding round
round-OneOf [] r id e = cc
round-OneOf (x ∷ nodes) r id e = elim (Bool-cases (is_negative (int64_sub r x.weight))) [
  | inl m ↦ (x.entry, Memᴰ.head refl, ground (arith, m))
  | inr m ↦
      let (n, p, q) = round-OneOf nodes (int64_sub r x.weight) id (ground (arith, m)) in
      (n, Memᴰ.tail p, q)
]

module _ (sum64 : String → ℕ) (addr_bytes : String → Option (List ℕ)) where
  pub pick-candidates :
      (b : Balancer) (sess : Session) (draw id : ℕ)
      → pick sum64 addr_bytes b sess draw ≡ ok id
      → OneOf id (candidates b)
  unfolding pick
  pick-candidates (no_balancer node) sess draw id e = (node, Memᴰ.head refl, ground arith)
  pick-candidates (error_balancer x) sess draw id e = cc
  pick-candidates (random nodes) sess draw id e =
      let (i, h) =
        >>=-ok (intn (pos (length nodes)) draw) (λ (i : ℕ). node_at nodes (pos i)) id e in
      node_at-OneOf nodes (pos i) id h
  pick-candidates (round_robin nodes sum) sess draw id e =
      let (r, h) = >>=-ok (intn sum draw) (λ (r : ℕ). round nodes (pos r)) id e in
      round-OneOf nodes (pos r) id h
  pick-candidates (ip_hash nodes) sess draw id e =
      let (ip, h) =
        >>=-ok (addr_to_int64 sum64 addr_bytes sess.remote_addr)
          (λ (ip : ℤ). node_at nodes (rem ip (length nodes))) id e in
      node_at-OneOf nodes (rem ip (length nodes)) id h
  pick-candidates (id_hash nodes) sess draw id e =
      node_at-OneOf nodes (rem (to_int64 (sum64 sess.id)) (length nodes)) id e
  pick-candidates (oldest node) sess draw id e = (node, Memᴰ.head refl, ground arith)
  pick-candidates (newest node) sess draw id e = (node, Memᴰ.head refl, ground arith)

abbrev pub Within : List NodeEntry → List NodeEntry → Type 0
Within xs ys = (n : NodeEntry) → Memᴰ n xs → Memᴰ n ys

-- A balancer of the given nodes, and the slice rearranged at most; a panic on no nodes only.
abbrev pub Keeps : List NodeEntry → Option (Balancer × List NodeEntry) → Type 0
Keeps nodes none = nodes ≡ []
Keeps nodes (some (b, nodes')) = Within (candidates b) nodes × Permᴰ nodes nodes'

-- What a factory promises.
abbrev pub IsFactory : BalancerFactory → Type 0
IsFactory factory = (code : ℤ) (nodes : List NodeEntry) → Keeps nodes (factory code nodes)

pub Permᴰ-nil : {xs ys : List NodeEntry} → Permᴰ xs ys → ys ≡ [] → xs ≡ []
Permᴰ-nil Permᴰ.nil e = refl
Permᴰ-nil (Permᴰ.cons p q) e = cc
Permᴰ-nil (Permᴰ.swap p q) e = cc
Permᴰ-nil (Permᴰ.trans p q) e = Permᴰ-nil p (Permᴰ-nil q e)

one-Within : (x : NodeEntry) (xs ys : List NodeEntry) → Permᴰ ys (x ∷ xs) → Within (x ∷ []) ys
one-Within x xs ys p n (Memᴰ.head e) = mem-perm (Permᴰ.symm p) (Memᴰ.head e)
one-Within x xs ys p n (Memᴰ.tail m) = elim m [ ]

Within-cons : (x : NodeEntry) (xs ys : List NodeEntry) → Within xs ys → Within (x ∷ xs) (x ∷ ys)
Within-cons x xs ys h n (Memᴰ.head e) = Memᴰ.head e
Within-cons x xs ys h n (Memᴰ.tail m) = Memᴰ.tail (h n m)

entries-Within :
    (code : ℤ) (nodes : List NodeEntry) → Within (entries (weighted_nodes code nodes)) nodes
unfolding weighted_nodes
entries-Within code [] n m = m
entries-Within code (x ∷ nodes) n m = elim (Option-cases (weight_of code x.grpc.services)) [
  | inl e ↦ Memᴰ.tail (entries-Within code nodes n (rw (e, weighted_nodes) at m))
  | inr (w, e) ↦
      Within-cons x (entries (weighted_nodes code nodes)) nodes (entries-Within code nodes) n
        (rw (e, weighted_nodes) at m)
]

first_node-Keeps :
    (balancer : NodeEntry → Balancer) (nodes sorted : List NodeEntry)
    → ((n : NodeEntry) → candidates (balancer n) ≡ n ∷ [])
    → Permᴰ nodes sorted
    → Keeps nodes (first_node balancer sorted)
first_node-Keeps balancer nodes [] h p = Permᴰ-nil p refl
first_node-Keeps balancer nodes (x ∷ xs) h p = (rw (h x) (one-Within x xs nodes p), p)

pub random-IsFactory : IsFactory new_random_balancer
unfolding new_random_balancer
random-IsFactory code nodes = (λ n m. m, Permᴰ.refl nodes)

pub round_robin-IsFactory : IsFactory new_round_robin_balancer
unfolding new_round_robin_balancer
round_robin-IsFactory code nodes = (entries-Within code nodes, Permᴰ.refl nodes)

pub ip_hash-IsFactory : IsFactory new_ip_hash_balancer
unfolding new_ip_hash_balancer
ip_hash-IsFactory code nodes = (λ n m. m, Permᴰ.refl nodes)

pub id_hash-IsFactory : IsFactory new_id_hash_balancer
unfolding new_id_hash_balancer
id_hash-IsFactory code nodes = (λ n m. m, Permᴰ.refl nodes)

pub oldest-IsFactory : IsFactory new_oldest_balancer
unfolding new_oldest_balancer
oldest-IsFactory code nodes =
    first_node-Keeps oldest nodes (sort_slice older nodes) (λ n. refl) (sort_slice-perm older nodes)

pub newest-IsFactory : IsFactory new_newest_balancer
unfolding new_newest_balancer
newest-IsFactory code nodes =
    first_node-Keeps newest nodes (sort_slice newer nodes) (λ n. refl) (sort_slice-perm newer nodes)

-- Every factory in the table keeps its promise.
abbrev pub AllFactories : Map String BalancerFactory → Type 0
AllFactories registered =
    (policy : String) (factory : BalancerFactory)
    → Map.load registered policy ≡ some factory
    → IsFactory factory

trans-Keeps :
    (xs ys : List NodeEntry) (o : Option (Balancer × List NodeEntry))
    → Permᴰ xs ys
    → Keeps ys o
    → Keeps xs o
trans-Keeps xs ys none p k = Permᴰ-nil p k
trans-Keeps xs ys (some (b, zs)) p (w, q) =
    (λ n m. mem-perm (Permᴰ.symm p) (w n m), Permᴰ.trans p q)

module _ (to_lower : String → String) (registered : Map String BalancerFactory) where
  choose_balancer-Keeps :
      (code : ℤ) (nodes : List NodeEntry)
      → AllFactories registered
      → Keeps nodes (choose_balancer to_lower registered code nodes)
  unfolding choose_balancer
  choose_balancer-Keeps code [] h = refl
  choose_balancer-Keeps code (x ∷ xs) h =
      elim (Option-cases (Map.load registered (to_lower policy))) [
        | inl e ↦ rw (e, choose_balancer) (λ n m. elim m [ ], Permᴰ.refl (x ∷ xs))
        | inr (factory, e) ↦ rw (e, choose_balancer) (h (to_lower policy) factory e code (x ∷ xs))
      ]
    where
      policy : String
      policy = policy_of code x.grpc.services

  -- NewBalancer keeps the promise of a factory, if each registered factory does.
  pub new_balancer-IsFactory :
      AllFactories registered → IsFactory (new_balancer to_lower registered)
  unfolding new_balancer
  new_balancer-IsFactory h code [] = (λ n m. m, Permᴰ.nil)
  new_balancer-IsFactory h code (x ∷ []) = (λ n m. m, Permᴰ.refl (x ∷ []))
  new_balancer-IsFactory h code (x ∷ y ∷ nodes) =
      let sorted = sort_slice newer (x ∷ y ∷ nodes) in
      trans-Keeps (x ∷ y ∷ nodes) sorted _ (sort_slice-perm newer (x ∷ y ∷ nodes))
        (choose_balancer-Keeps code sorted h)
