-- ===== src/Cluster/Balancer/Hash.antt =====
-- The balancers that hash, and their index.
use nodehub.Base.{
  ℕ, ◌+◌, ◌-◌, ◌*◌, ◌%◌, ◌<◌, ◌≤◌, ◌≡◌, ◌≢◌, ◌↔◌, inl, inr, refl, String, Option, some, List, [],
  ◌∷◌, nat_eq, length, get_elem?, get_elem?-mem, ok, panic, Memᴰ, arith, Bool-cases, ltb,
}
use nodehub.Base.Int.{pos, negsuc, to_int64, rem, two63, two64}
use nodehub.Cluster.Entry.{NodeEntry}
use nodehub.Cluster.Balancer.{Session, ip_hash, id_hash}
use nodehub.Cluster.Balancer.Pick.{node_at, addr_to_int64, pick}

-- An index in range gives the node that stands there.
pub node_at-lt :
    (nodes : List NodeEntry) (i : ℕ)
    → i < length nodes
    → (n : NodeEntry) × Memᴰ n nodes
      × (get_elem? nodes i ≡ some n)
      × (node_at nodes (pos i) ≡ ok n.id)
unfolding node_at
node_at-lt nodes i h = let (n, e, m) = get_elem?-mem nodes i h in (n, m, e, rw (e, node_at))

node_at-negsuc : (nodes : List NodeEntry) (i : ℕ) → node_at nodes (negsuc i) ≡ panic
unfolding node_at
node_at-negsuc nodes i = refl

-- The index computed from 64 bits: it is negative, and its node is a panic, in the upper half of
-- the values, but for the multiples of the length.
index_panics_iff :
    (node : NodeEntry) (nodes : List NodeEntry) (hash : ℕ)
    → hash < two64
    → (node_at (node ∷ nodes) (rem (to_int64 hash) (length (node ∷ nodes))) ≡ panic)
      ↔ ((two63 ≤ hash) × ((two64 - hash) % length (node ∷ nodes) ≢ 0))
unfolding to_int64 rem
index_panics_iff node nodes hash h = elim (Bool-cases (ltb hash two63)) [
  | inl e ↦
      let (n, _, _, q) = node_at-lt (node ∷ nodes) (hash % length (node ∷ nodes)) (omega arith) in
      ground (arith, q)
  | inr e ↦
      let flip : two64 - hash - 1 + 1 ≡ two64 - hash = ground arith in
      let (n, _, _, q) = node_at-lt (node ∷ nodes) 0 (omega arith) in
      rw (e, flip)
        (ground
          (arith, q, node_at-negsuc (node ∷ nodes) ((two64 - hash) % length (node ∷ nodes) - 1)))
]

module _ (sum64 : String → ℕ) (addr_bytes : String → Option (List ℕ)) where
  -- The balancer by the session's identity, with one node or more, panics exactly when the 64-bit
  -- hash is at least 2^63, that is negative as an int, and its absolute value is no multiple of
  -- the number of nodes.
  pub id_hash_panics_iff :
      (node : NodeEntry) (nodes : List NodeEntry) (sess : Session) (draw : ℕ)
      → sum64 sess.id < two64
      → (pick sum64 addr_bytes (id_hash (node ∷ nodes)) sess draw ≡ panic)
        ↔ ((two63 ≤ sum64 sess.id) × ((two64 - sum64 sess.id) % length (node ∷ nodes) ≢ 0))
  unfolding pick
  id_hash_panics_iff node nodes sess draw h = index_panics_iff node nodes (sum64 sess.id) h

  addr_to_int64_v4 :
      (remote_addr : String) (a b c d : ℕ)
      → addr_bytes remote_addr ≡ some (a ∷ b ∷ c ∷ d ∷ [])
      → a < 256
      → b < 256
      → c < 256
      → d < 256
      → addr_to_int64 sum64 addr_bytes remote_addr ≡ ok (pos (((a * 256 + b) * 256 + c) * 256 + d))
  unfolding addr_to_int64
  addr_to_int64_v4 remote_addr a b c d e ha hb hc hd = rw (e, addr_to_int64) (ground arith)

  -- A client at an address of four bytes is sent to the node that stands at the address's number
  -- modulo the number of nodes.
  pub ip_hash_v4 :
      (node : NodeEntry) (nodes : List NodeEntry) (sess : Session) (draw a b c d : ℕ)
      → addr_bytes sess.remote_addr ≡ some (a ∷ b ∷ c ∷ d ∷ [])
      → a < 256
      → b < 256
      → c < 256
      → d < 256
      → (n : NodeEntry) × Memᴰ n (node ∷ nodes)
        × (get_elem? (node ∷ nodes) ((((a * 256 + b) * 256 + c) * 256 + d) % length (node ∷ nodes))
            ≡ some n)
        × (pick sum64 addr_bytes (ip_hash (node ∷ nodes)) sess draw ≡ ok n.id)
  unfolding pick rem
  ip_hash_v4 node nodes sess draw a b c d e ha hb hc hd =
      let v = ((a * 256 + b) * 256 + c) * 256 + d in
      let (n, m, g, q) = node_at-lt (node ∷ nodes) (v % length (node ∷ nodes)) (omega arith) in
      (n, m, g, rw (addr_to_int64_v4 sess.remote_addr a b c d e ha hb hc hd) q)
