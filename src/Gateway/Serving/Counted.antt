-- ===== src/Gateway/Serving/Counted.antt =====
-- The counter of a proxy is the number of the sessions that it serves.
use nodehub.Base.{
  ℕ, ◌+◌, ◌%◌, ◌^◌, ◌<◌, ◌≤◌, ◌≡◌, refl, ap, ◌∙◌, none, some, [], ◌∷◌, true, false, nat_eq, nat_beq,
  arith, Bool-cases, inl, inr,
}
use nodehub.Base.Int.{pos}
use nodehub.Base.Map.{Map, load, store}
use nodehub.Gateway.Serving.{
  Phase, connecting, admitted, serving, leaving, disconnecting, closed, Serving, new_serving, enter,
  take_session, count_in, count_out, stop, count_sessions, two32, Reach, started, taken,
  connect_failed, connected, counted_in, loop_ended, counted_out, disconnected, stops,
}

abbrev pub one_serving : Phase → ℕ
one_serving connecting = 0
one_serving admitted = 0
one_serving serving = 1
one_serving leaving = 1
one_serving disconnecting = 0
one_serving closed = 0

-- The sessions whose loop runs or has just ended.
abbrev pub count_serving : Map ℕ Phase → ℕ
count_serving [] = 0
count_serving ((sess, phase) ∷ phases) = one_serving phase + count_serving phases

-- The sessions whose loop runs.
abbrev pub count_loops : Map ℕ Phase → ℕ
count_loops [] = 0
count_loops ((sess, serving) ∷ phases) = 1 + count_loops phases
count_loops ((sess, _) ∷ phases) = count_loops phases

-- The sessions that have connected and have not begun to disconnect.
abbrev pub count_connected : Map ℕ Phase → ℕ
count_connected [] = 0
count_connected ((sess, admitted) ∷ phases) = 1 + count_connected phases
count_connected ((sess, serving) ∷ phases) = 1 + count_connected phases
count_connected ((sess, leaving) ∷ phases) = 1 + count_connected phases
count_connected ((sess, _) ∷ phases) = count_connected phases

loops-serving : (m : Map ℕ Phase) → count_loops m ≤ count_serving m
loops-serving [] = omega arith
loops-serving ((sess, phase) ∷ m) = ground (arith, loops-serving m)

serving-connected : (m : Map ℕ Phase) → count_serving m ≤ count_connected m
serving-connected [] = omega arith
serving-connected ((sess, phase) ∷ m) = ground (arith, serving-connected m)

count_serving-store_new :
    (m : Map ℕ Phase) (sess : ℕ) (p : Phase)
    → load m sess ≡ none
    → count_serving (store m sess p) ≡ count_serving m + one_serving p
unfolding load store
count_serving-store_new [] sess p h = omega arith
count_serving-store_new ((k, q) ∷ m) sess p h = ground (arith, count_serving-store_new m sess p)

count_serving-store :
    (m : Map ℕ Phase) (sess : ℕ) (old p : Phase)
    → load m sess ≡ some old
    → count_serving (store m sess p) + one_serving old ≡ count_serving m + one_serving p
unfolding load store
count_serving-store [] sess old p h = cc
count_serving-store ((k, q) ∷ m) sess old p h = elim (Bool-cases (nat_beq k sess)) [
  | inl e ↦ ground (arith, h)
  | inr e ↦ let ih = count_serving-store m sess old p (rw e at h) in rw e (omega (arith, ih))
]

run-Bits : {s : Serving} → Reach s → s.session_count ≡ count_serving s.phases % two32
unfolding new_serving enter take_session count_in count_out stop
run-Bits started = refl
run-Bits (taken {s} sess true h l) =
    let c = count_serving-store_new s.phases sess connecting l in
    run-Bits h ∙ ap (◌% two32) (omega (arith, c))
run-Bits (taken {s} sess false h l) =
    let c = count_serving-store_new s.phases sess closed l in
    run-Bits h ∙ ap (◌% two32) (omega (arith, c))
run-Bits (connect_failed {s} sess h l) =
    let c = count_serving-store s.phases sess connecting closed l in
    run-Bits h ∙ ap (◌% two32) (omega (arith, c))
run-Bits (connected {s} sess h l) =
    let c = count_serving-store s.phases sess connecting admitted l in
    run-Bits h ∙ ap (◌% two32) (omega (arith, c))
run-Bits (counted_in {s} sess h l) =
    let c = count_serving-store s.phases sess admitted serving l in omega (arith, c, run-Bits h)
run-Bits (loop_ended {s} sess h l) =
    let c = count_serving-store s.phases sess serving leaving l in
    run-Bits h ∙ ap (◌% two32) (omega (arith, c))
run-Bits (counted_out {s} sess h l) =
    let c = count_serving-store s.phases sess leaving disconnecting l in
    omega (arith, c, run-Bits h)
run-Bits (disconnected {s} sess h l) =
    let c = count_serving-store s.phases sess disconnecting closed l in
    run-Bits h ∙ ap (◌% two32) (omega (arith, c))
run-Bits (stops h) = run-Bits h

-- However the sessions of a proxy proceed, whether their tasks were refused, their connects failed
-- or the proxy was stopped, and even if it took sessions after that: as long as fewer than 2^31
-- sessions are in their loops or right behind them, the count of sessions is their number; so it is
-- at least the number of the running loops, and at most the number of the sessions that have
-- connected and have not begun to disconnect.
pub run-Counted :
    {s : Serving}
    → Reach s
    → count_serving s.phases < 2 ^ 31
    → (count_sessions s ≡ pos (count_serving s.phases))
      × (count_loops s.phases ≤ count_serving s.phases)
      × (count_serving s.phases ≤ count_connected s.phases)
unfolding count_sessions
run-Counted {s} h l =
    let b = run-Bits h in (ground (arith, b), loops-serving s.phases, serving-connected s.phases)
