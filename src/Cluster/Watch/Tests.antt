-- ===== src/Cluster/Watch/Tests.antt =====
-- A watch that fails, recovers with a deletion, and fails again.
use nodehub.Base.{refl, List, [], ◌∷◌, none, some, arith}
use nodehub.Cluster.Tests.{to_lower, registered, registered-AllFactories}
use nodehub.Cluster.Tests.Watch.{key_of, unmarshal, watched, snapshot, deleted}
use nodehub.Cluster.Watch.{Retry, Watcher, running, WatchEvent, responds, fails, syncs}
use nodehub.Cluster.Watch.Alive.{Aborts, run-Aborts}

abbrev retry : Retry
retry = record { retry_max = 2; interval = 30 }

abbrev watcher : Watcher
watcher = record { registry = watched; retries = 0; state = running }

abbrev events : List WatchEvent
events =
    fails
    ∷ fails
    ∷ responds (some (some snapshot)) (deleted ∷ [])
    ∷ syncs none
    ∷ fails
    ∷ fails
    ∷ fails
    ∷ []

run-Aborts_example :
    Aborts to_lower registered registered-AllFactories unmarshal key_of retry watcher events
run-Aborts_example =
    run-Aborts to_lower registered registered-AllFactories unmarshal key_of retry watcher events
      refl (omega arith) (tt, (tt, ((λ e. cc, tt), (tt, (tt, (tt, (tt, tt)))))))
