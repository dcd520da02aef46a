-- ===== src/Base/Map.antt =====
-- Go's maps, and gokit.MapOf (a typed sync.Map), as association lists. The order of the list is
-- the order in which `Range` visits the entries; a theorem over every list covers every order.
use mathlib.Core.Path.{◌≡◌, refl}
use mathlib.Core.Logic.{◌≢◌, inl, inr}
use mathlib.Core.Bool.{true, false}
use mathlib.Core.Option.{Option, none, some}
use mathlib.Core.List.{List, [], ◌∷◌}
use native.Mathlib.Omega.{arith}
use nodehub.Base.Tests.{Eq, ◌==◌, if◌then◌else◌, Bool-cases}
use nodehub.Base.Lists.{All}

abbrev pub Map {ℓ κ} : Type ℓ → Type κ → Type (ℓ ⊔ κ)
Map K V = List (K × V)

module _ {ℓ} {K : Type ℓ} ⦃e : Eq K⦄ where
  pub beq_self : (k : K) → (k == k) ≡ true
  beq_self k = (e.same_iff k k).1 refl

  pub beq_ne : (k j : K) → k ≢ j → (k == j) ≡ false
  beq_ne k j n = ground (arith, e.same_iff k j)

module _ {ℓ κ} {K : Type ℓ} {V : Type κ} ⦃e : Eq K⦄ where
  unfoldable pub load : Map K V → K → Option V
  load [] k = none
  load ((j, v) ∷ m) k = if j == k then some v else load m k

  unfoldable pub store : Map K V → K → V → Map K V
  store [] k v = (k, v) ∷ []
  store ((j, w) ∷ m) k v = if j == k then (k, v) ∷ m else (j, w) ∷ store m k v

  unfoldable pub delete : Map K V → K → Map K V
  delete [] k = []
  delete ((j, w) ∷ m) k = let rest = delete m k in if j == k then rest else (j, w) ∷ rest

  pub load-store :
      (m : Map K V) (k j : K) (v : V) → load (store m k v) j ≡ (if k == j then some v else load m j)
  unfolding load store
  load-store [] k j v = refl
  load-store ((i, w) ∷ m) k j v =
      ground (arith, e.same_iff i k, e.same_iff i j, e.same_iff k j, load-store m k j v)

  pub load-delete :
      (m : Map K V) (k j : K) → load (delete m k) j ≡ (if k == j then none else load m j)
  unfolding load delete
  load-delete [] k j = ground arith
  load-delete ((i, w) ∷ m) k j =
      ground (arith, e.same_iff i k, e.same_iff i j, e.same_iff k j, load-delete m k j)

  -- No key stands twice.
  abbrev pub IsMap : Map K V → Type κ
  IsMap [] = Unit
  IsMap ((k, v) ∷ m) = (load m k ≡ none) × IsMap m

  pub store-IsMap : (m : Map K V) (k : K) (v : V) → IsMap m → IsMap (store m k v)
  unfolding store load
  store-IsMap [] k v h = (refl, tt)
  store-IsMap ((j, w) ∷ m) k v h =
      ground (arith, e.same_iff j k, e.same_iff k j, load-store m k j v, store-IsMap m k v h.1)

  pub delete-IsMap : (m : Map K V) (k : K) → IsMap m → IsMap (delete m k)
  unfolding delete
  delete-IsMap [] k h = tt
  delete-IsMap ((j, w) ∷ m) k h =
      ground (arith, e.same_iff k j, load-delete m k j, delete-IsMap m k h.1)

  pub load-store_self : (m : Map K V) (k : K) (v : V) → load (store m k v) k ≡ some v
  load-store_self m k v = rw (load-store m k k v, beq_self k)

  pub load-store_ne : (m : Map K V) (k j : K) (v : V) → k ≢ j → load (store m k v) j ≡ load m j
  load-store_ne m k j v n = rw (load-store m k j v, beq_ne k j n)

  pub load-delete_self : (m : Map K V) (k : K) → load (delete m k) k ≡ none
  load-delete_self m k = rw (load-delete m k k, beq_self k)

  pub load-delete_ne : (m : Map K V) (k j : K) → k ≢ j → load (delete m k) j ≡ load m j
  load-delete_ne m k j n = rw (load-delete m k j, beq_ne k j n)

  -- What every entry satisfies, also those that a first one hides.
  pub All-store {μ} :
      (P : K × V → Type μ) (m : Map K V) (k : K) (v : V) → P (k, v) → All P m → All P (store m k v)
  unfolding store
  All-store P [] k v p h = (p, tt)
  All-store P ((j, w) ∷ m) k v p h = elim (Bool-cases (j == k)) [
    | inl e ↦ rw (e, store) (p, h.1)
    | inr e ↦ rw (e, store) (h.0, All-store P m k v p h.1)
  ]
