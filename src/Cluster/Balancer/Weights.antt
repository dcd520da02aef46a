-- ===== src/Cluster/Balancer/Weights.antt =====
-- The weighted choice of roundRobinBalancer.
use nodehub.Base.{
  ℕ, zero, suc, ◌+◌, ◌-◌, ◌<◌, ◌≤◌, ◌≡◌, ap, String, Option, List, [], ◌∷◌, ◌++◌, ok, All, arith,
}
use native.Mathlib.Nat.{mod-eq_of_lt}
use nodehub.Base.Int.{ℤ, pos, negsuc, two63, int64_add-pos, int64_sub-pos}
use nodehub.Cluster.Balancer.{Session, WeightedNode, round_robin, sum_weights}
use nodehub.Cluster.Balancer.Pick.{intn, round, pick}

-- The value of a weight that is not negative.
abbrev pub natural : ℤ → ℕ
natural (pos n) = n
natural (negsuc n) = 0

abbrev pub total : List WeightedNode → ℕ
total [] = 0
total (n ∷ ns) = natural n.weight + total ns

abbrev pub Weighted : List WeightedNode → Type 0
Weighted = All (λ n. n.weight ≡ pos (natural n.weight))

sum_weights-total :
    (a : ℕ) (nodes : List WeightedNode)
    → Weighted nodes
    → a + total nodes < two63
    → sum_weights (pos a) nodes ≡ pos (a + total nodes)
unfolding sum_weights
sum_weights-total a [] w h = ground arith
sum_weights-total a (n ∷ ns) w h = ground (
  arith,
  w.0,
  int64_add-pos a (natural n.weight),
  sum_weights-total (a + natural n.weight) ns w.1,
)

total-append : (xs ys : List WeightedNode) → total (xs ++ ys) ≡ total xs + total ys
total-append [] ys = omega arith
total-append (x ∷ xs) ys = omega (arith, total-append xs ys)

intn-lt : (n draw : ℕ) → draw < n → intn (pos n) draw ≡ ok draw
unfolding intn
intn-lt zero draw h = absurd (omega arith)
intn-lt (suc n) draw h = ap ok (mod-eq_of_lt h)

round-interval :
    (xs ys : List WeightedNode) (n : WeightedNode) (r : ℕ)
    → Weighted (xs ++ n ∷ ys)
    → total (xs ++ n ∷ ys) < two63
    → total xs ≤ r
    → r < total xs + natural n.weight
    → round (xs ++ n ∷ ys) (pos r) ≡ ok n.entry.id
unfolding round
round-interval [] ys n r w t h k =
    ground (arith, w.0, total-append [] (n ∷ ys), int64_sub-pos r (natural n.weight))
round-interval (x ∷ xs) ys n r w t h k = ground (
  arith,
  w.0,
  total-append xs (n ∷ ys),
  int64_sub-pos r (natural x.weight),
  round-interval xs ys n (r - natural x.weight) w.1,
)

module _ (sum64 : String → ℕ) (addr_bytes : String → Option (List ℕ)) where
  -- Where the weights are not negative and their sum is below 2^63, a node is picked by each draw
  -- that is at least the sum of the weights before it and less than that sum plus its own weight.
  pub round_robin-interval :
      (xs ys : List WeightedNode) (n : WeightedNode) (sess : Session) (draw : ℕ)
      → Weighted (xs ++ n ∷ ys)
      → total (xs ++ n ∷ ys) < two63
      → total xs ≤ draw
      → draw < total xs + natural n.weight
      → let nodes = xs ++ n ∷ ys in
        pick sum64 addr_bytes (round_robin nodes (sum_weights (pos 0) nodes)) sess draw
        ≡ ok n.entry.id
  unfolding pick
  round_robin-interval xs ys n sess draw w t h k =
      rw (sum_weights-total 0 (xs ++ n ∷ ys) w (omega arith)) (
        rw (intn-lt (0 + total (xs ++ n ∷ ys)) draw (omega (arith, total-append xs (n ∷ ys))))
          (round-interval xs ys n draw w t h k))
