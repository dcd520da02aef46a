-- ===== src/Gateway/Quic/Steps.antt =====
-- What the steps of a QUIC session do to its tables.
use nodehub.Base.{
  ℕ, ◌≡◌, refl, inl, inr, none, some, List, [], ◌∷◌, ◌++◌, Memᴰ, nat_beq, nat_beq_iff, nat_eq,
  Bool-cases, arith, false, if◌then◌else◌, append_nil, subst,
}
use nodehub.Base.Map.{Map, load, store, delete}
use nodehub.Gateway.Quic.{Worker, remove_stream}

abbrev pub keys : Map ℕ Worker → List ℕ
keys [] = []
keys ((k, v) ∷ m) = k ∷ keys m

pub keys-delete : (m : Map ℕ Worker) (id : ℕ) → keys (delete m id) ≡ remove_stream id (keys m)
unfolding delete remove_stream
keys-delete [] id = refl
keys-delete ((k, v) ∷ m) id = ground (arith, keys-delete m id)

pub keys-store_old :
    (m : Map ℕ Worker) (id : ℕ) (v w : Worker) → load m id ≡ some v → keys (store m id w) ≡ keys m
unfolding load store
keys-store_old [] id v w h = ground arith
keys-store_old ((k, u) ∷ m) id v w h = ground (arith, nat_beq_iff k id, keys-store_old m id v w)

pub keys-store_new :
    (m : Map ℕ Worker) (id : ℕ) (w : Worker)
    → load m id ≡ none
    → keys (store m id w) ≡ keys m ++ id ∷ []
unfolding load store
keys-store_new [] id w h = refl
keys-store_new ((k, u) ∷ m) id w h = ground (arith, keys-store_new m id w)

pub mem-keys : (m : Map ℕ Worker) (id : ℕ) → Memᴰ id (keys m) → (v : Worker) × (load m id ≡ some v)
unfolding load
mem-keys [] id h = elim h [ ]
mem-keys ((k, v) ∷ m) id (Memᴰ.head e) = (v, ground (arith, e))
mem-keys ((k, v) ∷ m) id (Memᴰ.tail h) = elim (Bool-cases (nat_beq k id)) [
  | inl e ↦ (v, ground arith)
  | inr e ↦ let (u, f) = mem-keys m id h in (u, ground (arith, f))
]

-- The messages of one stream.
abbrev pub of_stream : ℕ → List (ℕ × List ℕ) → List (List ℕ)
of_stream id [] = []
of_stream id ((s, payload) ∷ log) =
    let rest = of_stream id log in if nat_beq s id then payload ∷ rest else rest

pub of_stream-append :
    (id : ℕ) (log later : List (ℕ × List ℕ))
    → of_stream id (log ++ later) ≡ of_stream id log ++ of_stream id later
of_stream-append id [] later = refl
of_stream-append id ((s, payload) ∷ log) later = ground (arith, of_stream-append id log later)

pub of_stream-own :
    (id : ℕ) (log : List (ℕ × List ℕ)) (payload : List ℕ)
    → of_stream id (log ++ (id, payload) ∷ []) ≡ of_stream id log ++ payload ∷ []
of_stream-own id log payload = ground (arith, of_stream-append id log ((id, payload) ∷ []))

pub of_stream-other :
    (id j : ℕ) (log : List (ℕ × List ℕ)) (payload : List ℕ)
    → nat_beq id j ≡ false
    → of_stream j (log ++ (id, payload) ∷ []) ≡ of_stream j log
of_stream-other id j log payload ne =
    ground (arith, of_stream-append j log ((id, payload) ∷ []), append_nil (of_stream j log))

-- A property of every stream, from the one that a step is about and from the others.
pub by_stream : (P : ℕ → Type 0) (id j : ℕ) → P id → (nat_beq id j ≡ false → P j) → P j
by_stream P id j h k = elim (Bool-cases (nat_beq id j)) [
  | inl e ↦ subst P ((nat_beq_iff id j).0 e) h
  | inr e ↦ k e
]
