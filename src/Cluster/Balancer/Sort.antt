-- ===== src/Cluster/Balancer/Sort.antt =====
-- `sort.Slice` by the identities of the nodes.
use nodehub.Base.{
  ◌≡◌, refl, List, [], ◌∷◌, Bool, true, false, if◌then◌else◌, ltb, All, arith, Bool-cases, inl, inr,
}
use mathlib.Core.List.Permᴰ
use mathlib.Core.List.{Permᴰ}
use nodehub.Cluster.Entry.{NodeEntry}

-- `nodes[i].ID.Compare(nodes[j].ID) < 0`
abbrev pub older : NodeEntry → NodeEntry → Bool
older a b = ltb a.id b.id

abbrev pub newer : NodeEntry → NodeEntry → Bool
newer a b = ltb b.id a.id

module _ (less : NodeEntry → NodeEntry → Bool) where
  unfoldable pub insert : NodeEntry → List NodeEntry → List NodeEntry
  insert x [] = x ∷ []
  insert x (y ∷ ys) = if less y x then y ∷ insert x ys else x ∷ y ∷ ys

  unfoldable pub sort_slice : List NodeEntry → List NodeEntry
  sort_slice [] = []
  sort_slice (x ∷ xs) = insert x (sort_slice xs)

  insert-perm : (x : NodeEntry) (xs : List NodeEntry) → Permᴰ (x ∷ xs) (insert x xs)
  unfolding insert
  insert-perm x [] = Permᴰ.cons refl Permᴰ.nil
  insert-perm x (y ∷ ys) = elim (Bool-cases (less y x)) [
    | inl e ↦
        rw (e, insert) (Permᴰ.trans (Permᴰ.swap refl refl) (Permᴰ.cons refl (insert-perm x ys)))
    | inr e ↦ rw (e, insert) (Permᴰ.refl (x ∷ y ∷ ys))
  ]

  -- Sorting only rearranges the slice.
  pub sort_slice-perm : (xs : List NodeEntry) → Permᴰ xs (sort_slice xs)
  unfolding sort_slice
  sort_slice-perm [] = Permᴰ.nil
  sort_slice-perm (x ∷ xs) =
      Permᴰ.trans (Permᴰ.cons refl (sort_slice-perm xs)) (insert-perm x (sort_slice xs))

-- `x` stands before or with every node of the list.
abbrev pub Leads : (NodeEntry → NodeEntry → Bool) → NodeEntry → List NodeEntry → Type 0
Leads less x = All (λ y. less y x ≡ false)

abbrev pub LedByHead : (NodeEntry → NodeEntry → Bool) → List NodeEntry → Type 0
LedByHead less [] = Unit
LedByHead less (x ∷ xs) = Leads less x xs

All-insert {κ} :
    (P : NodeEntry → Type κ) (less : NodeEntry → NodeEntry → Bool) (x : NodeEntry)
    (xs : List NodeEntry)
    → P x
    → All P xs
    → All P (insert less x xs)
unfolding insert
All-insert P less x [] p h = (p, tt)
All-insert P less x (y ∷ ys) p h = elim (Bool-cases (less y x)) [
  | inl e ↦ rw (e, insert) (h.0, All-insert P less x ys p h.1)
  | inr e ↦ rw (e, insert) (p, h)
]

All-map {κ μ} :
    {P : NodeEntry → Type κ} {Q : NodeEntry → Type μ} (f : (n : NodeEntry) → P n → Q n)
    (xs : List NodeEntry)
    → All P xs
    → All Q xs
All-map f [] h = tt
All-map f (x ∷ xs) h = (f x h.0, All-map f xs h.1)

-- An order in which the sort works.
pub record IsOrder (less : NodeEntry → NodeEntry → Bool) : Type 0 where
  pub asym : (x y : NodeEntry) → less y x ≡ true → less x y ≡ false
  pub trans : (x y z : NodeEntry) → less y x ≡ false → less z y ≡ false → less z x ≡ false

pub older-IsOrder : IsOrder older
older-IsOrder = record { asym = λ x y. ground arith; trans = λ x y z. ground arith }

pub newer-IsOrder : IsOrder newer
newer-IsOrder = record { asym = λ x y. ground arith; trans = λ x y z. ground arith }

module _ (less : NodeEntry → NodeEntry → Bool) (order : IsOrder less) where
  insert-LedByHead :
      (x : NodeEntry) (xs : List NodeEntry) → LedByHead less xs → LedByHead less (insert less x xs)
  unfolding insert
  insert-LedByHead x [] h = tt
  insert-LedByHead x (y ∷ ys) h = elim (Bool-cases (less y x)) [
    | inl e ↦ rw (e, insert) (All-insert (λ z. less z y ≡ false) less x ys (order.asym x y e) h)
    | inr e ↦ rw (e, insert) (e, All-map (λ z. order.trans x y z e) ys h)
  ]

  pub sort_slice-LedByHead : (xs : List NodeEntry) → LedByHead less (sort_slice less xs)
  unfolding sort_slice
  sort_slice-LedByHead [] = tt
  sort_slice-LedByHead (x ∷ xs) = insert-LedByHead x (sort_slice less xs) (sort_slice-LedByHead xs)
