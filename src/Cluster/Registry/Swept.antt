-- ===== src/Cluster/Registry/Swept.antt =====
-- The pass of a synchronisation over the stale nodes of registry.go.
use nodehub.Base.{
  ℕ, ◌≡◌, ap, ◌⊎◌, inl, inr, String, none, some, [], ◌∷◌, true, false, nat_eq, string_eq, ◌==◌,
  Memᴰ, Bool-cases, Option-cases, arith,
}
use nodehub.Base.Map
use nodehub.Base.Map.{Map}
use nodehub.Cluster.Entry.{NodeEntry}
use nodehub.Cluster.Registry.{Registry, Snapshot, has_key}

pub load-mem :
    (m : Map ℕ NodeEntry) (id : ℕ) (n : NodeEntry) → Map.load m id ≡ some n → Memᴰ (id, n) m
unfolding Map.load
load-mem [] id n h = cc
load-mem ((j, x) ∷ m) id n h = elim (Bool-cases (j == id)) [
  | inl e ↦
      let v : x ≡ n = ground (arith, e, h) in let k : j ≡ id = ground (arith, e) in Memᴰ.head (cc)
  | inr e ↦ Memᴰ.tail (load-mem m id n (rw e at h))
]

-- What removing the stale ones of `nodes` makes of `r`.
pub record Swept (key_of : ℕ → String) (s : Snapshot) (nodes : Map ℕ NodeEntry) (r r' : Registry)
    : Type 0 where
  pub fewer :
      (id : ℕ) (n : NodeEntry)
      → Map.load r'.all_nodes id ≡ some n
      → Map.load r.all_nodes id ≡ some n
  pub gone :
      (id : ℕ) (n : NodeEntry)
      → Memᴰ (id, n) nodes
      → has_key (key_of id) s.kvs ≡ false
      → Map.load r'.all_nodes id ≡ none
  pub marked :
      (id : ℕ) (n : NodeEntry)
      → Memᴰ (id, n) nodes
      → has_key (key_of id) s.kvs ≡ false
      → Map.load r'.versions (key_of id) ≡ some s.revision
  pub marks_kept :
      (key : String)
      → Map.load r.versions key ≡ some s.revision
      → Map.load r'.versions key ≡ some s.revision

-- Removing `n`, which stands first.
pub record Removed (key_of : ℕ → String) (s : Snapshot) (n : NodeEntry) (r r' : Registry)
    : Type 0 where
  pub fewer :
      (id : ℕ) (m : NodeEntry)
      → Map.load r'.all_nodes id ≡ some m
      → Map.load r.all_nodes id ≡ some m
  pub gone : Map.load r'.all_nodes n.id ≡ none
  pub marked : Map.load r'.versions (key_of n.id) ≡ some s.revision
  pub marks_kept :
      (key : String)
      → Map.load r.versions key ≡ some s.revision
      → Map.load r'.versions key ≡ some s.revision

mem-cases :
    (id j : ℕ) (m n : NodeEntry) (nodes : Map ℕ NodeEntry)
    → Memᴰ (id, m) ((j, n) ∷ nodes)
    → (id ≡ j) ⊎ Memᴰ (id, m) nodes
mem-cases id j m n nodes (Memᴰ.head e) = inl (ap (λ p. p.0) e)
mem-cases id j m n nodes (Memᴰ.tail t) = inr t

still_gone :
    (m m' : Map ℕ NodeEntry) (id : ℕ)
    → ((n : NodeEntry) → Map.load m' id ≡ some n → Map.load m id ≡ some n)
    → Map.load m id ≡ none
    → Map.load m' id ≡ none
still_gone m m' id fewer e = elim (Option-cases (Map.load m' id)) [
  | inl h ↦ h
  | inr (n, h) ↦ cc (fewer n h)
]

pub Swept-keep :
    (key_of : ℕ → String) (s : Snapshot) (n : NodeEntry) (nodes : Map ℕ NodeEntry) (r r' : Registry)
    → has_key (key_of n.id) s.kvs ≡ true
    → Swept key_of s nodes r r'
    → Swept key_of s ((n.id, n) ∷ nodes) r r'
Swept-keep key_of s n nodes r r' h w = record {
  fewer = w.fewer;
  gone = λ id m t f. elim (mem-cases id n.id m n nodes t) [
    | inl k ↦ absurd (other id k f)
    | inr t' ↦ w.gone id m t' f
  ];
  marked = λ id m t f. elim (mem-cases id n.id m n nodes t) [
    | inl k ↦ absurd (other id k f)
    | inr t' ↦ w.marked id m t' f
  ];
  marks_kept = w.marks_kept;
}
  where
    other : (id : ℕ) → id ≡ n.id → has_key (key_of id) s.kvs ≡ false → ⊥
    other id k f = cc (rw k at f)

pub Swept-remove :
    (key_of : ℕ → String) (s : Snapshot) (n : NodeEntry) (nodes : Map ℕ NodeEntry)
    (r r1 r2 : Registry)
    → Removed key_of s n r r1
    → Swept key_of s nodes r1 r2
    → Swept key_of s ((n.id, n) ∷ nodes) r r2
Swept-remove key_of s n nodes r r1 r2 d w = record {
  fewer = λ id m h. d.fewer id m (w.fewer id m h);
  gone = λ id m t f. elim (mem-cases id n.id m n nodes t) [
    | inl k ↦ rw k (still_gone r1.all_nodes r2.all_nodes n.id (w.fewer n.id) d.gone)
    | inr t' ↦ w.gone id m t' f
  ];
  marked = λ id m t f. elim (mem-cases id n.id m n nodes t) [
    | inl k ↦ rw k (w.marks_kept (key_of n.id) d.marked)
    | inr t' ↦ w.marked id m t' f
  ];
  marks_kept = λ key h. w.marks_kept key (d.marks_kept key h);
}
