-- ===== src/Gateway/Quic/Streams.antt =====
-- quicStreams: which stream Pick chooses.
use nodehub.Base.{
  ℕ, ◌+◌, ◌%◌, ◌<◌, ◌≡◌, ◌≢◌, ◌↔◌, refl, inl, inr, ◌⊎◌, List, [], ◌∷◌, length, get_elem?-mem, Memᴰ,
  nat_eq, arith,
}
use nodehub.Base.Int.{pos, negsuc, rem}
use nodehub.Gateway.Quic.{picked, unavailable, out_of_range, stream_at, pick}

-- A service code that is not negative picks a stream, if there is one.
pub pick-pos :
    (ss : List ℕ) (n : ℕ)
    → ((ss ≡ []) × (pick ss (pos n) ≡ unavailable))
      ⊎ ((s : ℕ) × (pick ss (pos n) ≡ picked s) × Memᴰ s ss)
unfolding pick stream_at rem
pick-pos [] n = inl (refl, refl)
pick-pos (s ∷ []) n = inr (s, refl, Memᴰ.head refl)
pick-pos (s ∷ t ∷ ss) n =
    let (u, e, m) = get_elem?-mem (s ∷ t ∷ ss) (n % length (s ∷ t ∷ ss)) (omega arith) in
    inr (u, ground (arith, e), m)

-- Pick panics for a negative service code, and only if two streams or more are open whose number
-- does not divide it.
pub pick_panics_iff :
    (ss : List ℕ) (n : ℕ)
    → (pick ss (negsuc n) ≡ out_of_range) ↔ ((1 < length ss) × ((n + 1) % length ss ≢ 0))
unfolding pick stream_at rem
pick_panics_iff [] n = ground arith
pick_panics_iff (s ∷ []) n = ground arith
pick_panics_iff (s ∷ t ∷ ss) n = ground arith
