-- ===== src/Cluster/Watch/Alive.antt =====
-- When the watch ends the process.
use nodehub.Base.{
  ◌≡◌, ◌≢◌, ◌≤◌, ◌<◌, ◌↔◌, refl, ap, ◌∙◌, ℕ, ◌+◌, String, Option, List, [], ◌∷◌, nat_eq, string_eq,
  if◌then◌else◌, leb, arith, All, Bool-cases, inl, inr,
}
use nodehub.Base.Maybe.{Ensures-some}
use nodehub.Base.Map.{Map}
use nodehub.Cluster.Entry.{NodeEntry}
use nodehub.Cluster.Balancer.{BalancerFactory}
use nodehub.Cluster.Balancer.Members.{AllFactories}
use nodehub.Cluster.Watch.{
  Retry, WatchState, running, client_done, aborted, Watcher, WatchEvent, responds, fails, cancels,
  syncs, try_resync, respond, changed, fail, step, run,
}
use nodehub.Cluster.Watch.Total.{AnyRegistry, WithPrevs, try_resync-total, respond-total}

-- The most failures in a row, where `n` have been before; only a response ends a row.
unfoldable pub longest : ℕ → List WatchEvent → ℕ
longest n [] = n
longest n (fails ∷ evs) = longest (n + 1) evs
longest n (responds creation events ∷ evs) = let m = longest 0 evs in if leb n m then m else n
longest n (cancels ∷ evs) = n
longest n (syncs answer ∷ evs) = longest n evs

longest-le : (n : ℕ) (evs : List WatchEvent) → n ≤ longest n evs
unfolding longest
longest-le n [] = omega arith
longest-le n (fails ∷ evs) = omega (arith, longest-le (n + 1) evs)
longest-le n (responds creation events ∷ evs) = ground arith
longest-le n (cancels ∷ evs) = omega arith
longest-le n (syncs answer ∷ evs) = longest-le n evs

module _ (to_lower : String → String) (registered : Map String BalancerFactory)
    (all : AllFactories registered) (unmarshal : String → Option NodeEntry) (key_of : ℕ → String)
    (retry : Retry) where
  abbrev runs : Watcher → List WatchEvent → Watcher
  runs w evs = run to_lower registered unmarshal key_of retry w evs

  run-running :
      (w : Watcher) (ev : WatchEvent) (evs : List WatchEvent)
      → w.state ≡ running
      → runs w (ev ∷ evs) ≡ runs (step to_lower registered unmarshal key_of retry w ev) evs
  unfolding run
  run-running w ev evs s = by_state w.state s
    where
      by_state :
          (st : WatchState)
          → st ≡ running
          → runs (record w { state = st }) (ev ∷ evs)
            ≡ runs
                (step to_lower registered unmarshal key_of retry (record w { state = st }) ev)
                evs
      by_state running e = refl
      by_state client_done e = cc
      by_state aborted e = cc

  run-ended :
      (w : Watcher) (evs : List WatchEvent) → w.state ≢ running → (runs w evs).state ≡ w.state
  unfolding run
  run-ended w [] n = refl
  run-ended w (ev ∷ evs) n = by_state w.state n
    where
      by_state :
          (st : WatchState) → st ≢ running → (runs (record w { state = st }) (ev ∷ evs)).state ≡ st
      by_state running n = absurd (n refl)
      by_state client_done n = refl
      by_state aborted n = refl

  -- The process ends exactly where the row of failures is too long.
  abbrev pub Aborts : Watcher → List WatchEvent → Type 0
  Aborts w evs =
      ((run to_lower registered unmarshal key_of retry w evs).state ≡ aborted)
      ↔ (retry.retry_max < longest w.retries evs)

  -- Where each registered policy makes balancers of the nodes it is given and does not panic on
  -- some: while the watch runs, with no more retries than the most that are allowed, and every deletion comes with its
  -- previous value, whatever else etcd answers: the process ends if and only if the watch fails
  -- more often in a row than that, a response being what ends a row.
  pub run-Aborts :
      (w : Watcher) (evs : List WatchEvent)
      → w.state ≡ running
      → w.retries ≤ retry.retry_max
      → All WithPrevs evs
      → Aborts w evs
  unfolding run step longest changed fail
  run-Aborts w [] s l p = (λ h. cc, λ h. absurd (omega arith))
  run-Aborts w (responds creation events ∷ evs) s l p =
      let (r, e, u) =
        Ensures-some AnyRegistry
          (respond to_lower registered unmarshal key_of retry creation events w.registry)
          (respond-total to_lower registered all unmarshal key_of retry creation events w.registry
            p.0) in
      let ih = run-Aborts (record w { registry = r; retries = 0 }) evs s (omega arith) p.1 in
      let to : runs w (responds creation events ∷ evs)
          ≡ runs (record w { registry = r; retries = 0 }) evs =
        run-running w (responds creation events) evs s
        ∙ ap (λ x. runs (changed to_lower registered unmarshal key_of retry w 0 x) evs) e in
      rw to (ground (arith, ih, l))
  run-Aborts w (fails ∷ evs) s l p = elim (Bool-cases (leb retry.retry_max w.retries)) [
    | inl e ↦
        let to : runs w (fails ∷ evs) ≡ runs (record w { state = aborted }) evs =
          run-running w fails evs s ∙ rw e refl in
        let end = run-ended (record w { state = aborted }) evs (λ q. cc) in
        rw to (λ h. ground (arith, e, longest-le (w.retries + 1) evs), λ h. end)
    | inr e ↦
        let to : runs w (fails ∷ evs) ≡ runs (record w { retries = w.retries + 1 }) evs =
          run-running w fails evs s ∙ rw e refl in
        rw to (run-Aborts (record w { retries = w.retries + 1 }) evs s (ground (arith, e)) p.1)
  ]
  run-Aborts w (cancels ∷ evs) s l p =
      let to : runs w (cancels ∷ evs) ≡ runs (record w { state = client_done }) evs =
        run-running w cancels evs s in
      let end = run-ended (record w { state = client_done }) evs (λ q. cc) in
      rw to (λ h. cc (end, h), λ h. absurd (omega arith))
  run-Aborts w (syncs answer ∷ evs) s l p =
      let (r, e, u) =
        Ensures-some AnyRegistry
          (try_resync to_lower registered unmarshal key_of retry answer w.registry)
          (try_resync-total to_lower registered all unmarshal key_of retry answer w.registry) in
      let ih = run-Aborts (record w { registry = r }) evs s l p.1 in
      let to : runs w (syncs answer ∷ evs) ≡ runs (record w { registry = r }) evs =
        run-running w (syncs answer) evs s
        ∙ ap (λ x. runs (changed to_lower registered unmarshal key_of retry w w.retries x) evs) e in
      rw to ih
