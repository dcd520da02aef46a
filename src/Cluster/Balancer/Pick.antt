-- ===== src/Cluster/Balancer/Pick.antt =====
-- The methods `Pick` of balancer.go.
use nodehub.Base.{
  ℕ, zero, suc, ◌+◌, ◌*◌, ◌%◌, String, Option, none, some, List, [], ◌∷◌, Bool, true, false, nat_eq,
  if◌then◌else◌, length, get_elem?, Outcome, ok, err, panic, ◌>>=◌,
}
use nodehub.Base.Int.{ℤ, pos, negsuc, to_int64, rem, int64_sub, two64}
use nodehub.Cluster.Entry.{NodeEntry}
use nodehub.Cluster.Balancer.{
  Session, PickError, no_node_available, bad_addr, WeightedNode, Balancer, no_balancer,
  error_balancer, random, round_robin, ip_hash, id_hash, oldest, newest,
}

-- `rand.Intn(n)` panics unless `0 < n`; `draw` stands for the source of randomness, and each
-- number below `n` is the result for some draw.
unfoldable pub intn : ℤ → ℕ → Outcome PickError ℕ
intn (pos zero) draw = panic
intn (pos (suc n)) draw = ok (draw % suc n)
intn (negsuc n) draw = panic

-- `nodes[index].ID`, where an index out of range panics.
unfoldable pub node_at : List NodeEntry → ℤ → Outcome PickError ℕ
node_at nodes (pos i) = elim (get_elem? nodes i) [ some node ↦ ok node.id | none ↦ panic ]
node_at nodes (negsuc i) = panic

unfoldable pub is_negative : ℤ → Bool
is_negative (pos n) = false
is_negative (negsuc n) = true

-- The loop of `roundRobinBalancer.Pick`.
unfoldable pub round : List WeightedNode → ℤ → Outcome PickError ℕ
unfolding is_negative
round [] r = err no_node_available
round (node ∷ nodes) r =
    let left = int64_sub r node.weight in
    let rest = round nodes left in if is_negative left then ok node.entry.id else rest

-- `big.Int.SetBytes`
unfoldable pub set_bytes : ℕ → List ℕ → ℕ
set_bytes n [] = n
set_bytes n (b ∷ bytes) = set_bytes (n * 256 + b) bytes

-- Parameters: `xxhash.Sum64String`, and the bytes of the address that `netip.ParseAddrPort` reads.
module _ (sum64 : String → ℕ) (addr_bytes : String → Option (List ℕ)) where
  -- `big.Int.Int64` gives the low 64 bits of a larger number, as balancer_test.go has it for IPv6.
  unfoldable pub addr_to_int64 : String → Outcome PickError ℤ
  unfolding set_bytes to_int64
  addr_to_int64 remote_addr = elim (addr_bytes remote_addr) [
    | some bytes ↦ ok (to_int64 (set_bytes 0 bytes % two64))
    | none ↦ err bad_addr
  ]

  -- `draw` is used by the random balancers.
  unfoldable pub pick : Balancer → Session → ℕ → Outcome PickError ℕ
  pick (no_balancer node) sess draw = ok node.id
  pick (error_balancer e) sess draw = err e
  pick (random nodes) sess draw = do i ← intn (pos (length nodes)) draw; node_at nodes (pos i)
  pick (round_robin nodes sum) sess draw = do r ← intn sum draw; round nodes (pos r)
  pick (ip_hash nodes) sess draw = do
    ip ← addr_to_int64 sess.remote_addr
    node_at nodes (rem ip (length nodes))
  pick (id_hash nodes) sess draw = node_at nodes (rem (to_int64 (sum64 sess.id)) (length nodes))
  pick (oldest node) sess draw = ok node.id
  pick (newest node) sess draw = ok node.id
