-- ===== src/Gateway/Serving/Tests.antt =====
-- Three sessions that were taken after the proxy was stopped: one is served, one is refused, one
-- has left.
use nodehub.Base.{◌≡◌, ◌<◌, ◌≤◌, ◌^◌, refl, true, false, nat_eq, arith}
use nodehub.Base.Int.{pos}
use nodehub.Base.Map.{load, store}
use nodehub.Gateway.Serving.{
  Serving, new_serving, enter, take_session, stop, stops, admitted, leaving, counted_in,
  counted_out, count_in, count_out, count_sessions, Reach, started, taken, connected, loop_ended,
}
use nodehub.Gateway.Serving.Counted.{count_serving, count_loops, count_connected, run-Counted}

abbrev busy : Serving
busy = take_session 3 false (
    count_out 2 (
      enter 2 leaving (
        count_in 2 (
          enter 2 admitted (
            count_in 1
              (enter 1 admitted (take_session 2 true (take_session 1 true (stop new_serving)))))))))

busy-Reach : Reach busy
unfolding load store new_serving stop take_session enter count_in count_out
busy-Reach =
    taken 3 false
      (counted_out 2
        (loop_ended 2
          (counted_in 2
            (connected 2
              (counted_in 1
                (connected 1 (taken 2 true (taken 1 true (stops started) refl) refl) refl) refl)
              refl)
            refl)
          refl)
        refl)
      refl

serving-busy : count_serving busy.phases ≡ 1
unfolding load store new_serving stop take_session enter count_in count_out
serving-busy = refl

few-busy : count_serving busy.phases < 2 ^ 31
few-busy = rw serving-busy (omega arith)

run-Counted_example :
    (count_sessions busy ≡ pos (count_serving busy.phases))
    × (count_loops busy.phases ≤ count_serving busy.phases)
    × (count_serving busy.phases ≤ count_connected busy.phases)
run-Counted_example = run-Counted busy-Reach few-busy
