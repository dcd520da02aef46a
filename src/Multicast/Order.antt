-- ===== src/Multicast/Order.antt =====
-- The order of the handler's calls, over any events.
use nodehub.Base.{
  All-append, ◌≡◌, ◌≤◌, refl, sym, ap, subst, ◌∙◌, ℕ, zero, suc, String, none, some, List, [], ◌∷◌,
  ◌++◌, Bool, true, false, ◌==◌, nat_eq, string_eq, if◌then◌else◌, length, str_eq_iff, arith, All,
  Option-cases, Bool-cases, inl, inr,
}
use nodehub.Base.Map
use nodehub.Base.Map.{Map, IsMap, load-store}
use nodehub.Multicast.{
  Worker, Dispatcher, new_dispatcher, Event, hears, ticks, takes, drains, stops, retire_idle, drain,
  worker_of, hear, take_one, step, run,
}
use nodehub.Multicast.Fifo.{
  Quiet, keep_active-IsMap, of_stream, queued, InOrder, queued-store, queued-keep_active,
  taken_order, send-InOrder,
}

drain-none :
    {A : Type 0} (n : ℕ) (retired : List (String × List A))
    → All (λ r. r.1 ≡ []) retired
    → drain n retired ≡ none
unfolding drain
drain-none n [] h = refl
drain-none zero ((k, []) ∷ retired) h = refl
drain-none zero ((k, m ∷ queue) ∷ retired) h = cc h.0
drain-none (suc n) (r ∷ retired) h = rw (drain-none n retired h.1) refl

module _ {M : Type 0} (stream : M → String) (cap limit : ℕ) where
  queued-load :
      (workers : Map String (Worker M)) (k : String) (w : Worker M)
      → Map.load workers k ≡ some w
      → queued stream cap limit workers k ≡ w.queue
  unfolding worker_of
  queued-load workers k w l = ground (arith, l)

  -- The worker of a stream takes its first message.
  take_first-InOrder :
      (j : String) (d : Dispatcher M) (w : Worker M) (m : M) (rest : List M)
      → queued stream cap limit d.workers j ≡ m ∷ rest
      → InOrder stream cap limit d
      → InOrder stream cap limit (record d {
        workers = Map.store d.workers j (record w { queue = rest });
        started = d.started ++ (m ∷ []);
      })
  take_first-InOrder j d w m rest q o =
      let after = record w { queue = rest } in
      let all = subst (All (λ x. stream x ≡ j)) q (o.tagged j) in
      let short = subst (λ x. length x ≤ cap) q (o.capped j) in
      record {
        order = λ k. rw (queued-store stream cap limit d.workers j k after) (
            taken_order stream cap limit k j m d.received d.started
              (queued stream cap limit d.workers k) rest all.0
              (o.order k ∙ ap (λ x. of_stream stream cap limit k d.started ++ x) (first k)));
        tagged = λ k.
            rw (queued-store stream cap limit d.workers j k after) (elim (Bool-cases (j == k)) [
              | inl e ↦
                  rw e (subst (λ x. All (λ y. stream y ≡ x) rest) ((str_eq_iff j k).0 e) all.1)
              | inr e ↦ rw e (o.tagged k)
            ]);
        capped = λ k.
            rw (queued-store stream cap limit d.workers j k after)
              (ground (arith, short, o.capped k));
        drained = o.drained;
        distinct = Map.store-IsMap d.workers j after o.distinct;
      }
    where
      first :
          (k : String)
          → queued stream cap limit d.workers k
            ≡ (if j == k then m ∷ rest else queued stream cap limit d.workers k)
      first k = elim (Bool-cases (j == k)) [
        | inl e ↦ rw e (sym (ap (queued stream cap limit d.workers) ((str_eq_iff j k).0 e)) ∙ q)
        | inr e ↦ rw e refl
      ]

  take_one-InOrder :
      (k : String) (d : Dispatcher M) (a : ℕ) (queue : List M)
      → Map.load d.workers k ≡ some (record { queue = queue; active = a })
      → InOrder stream cap limit d
      → InOrder stream cap limit
          (take_one stream cap limit k d (record { queue = queue; active = a }))
  unfolding take_one
  take_one-InOrder k d a [] l o = o
  take_one-InOrder k d a (m ∷ rest) l o =
      take_first-InOrder k d (record { queue = m ∷ rest; active = a }) m rest
        (queued-load d.workers k (record { queue = m ∷ rest; active = a }) l) o

  -- When the ticker ticks, every worker that it retires has nothing left to take.
  abbrev pub QuietStep : Dispatcher M → Event M → Type 0
  QuietStep d (ticks now) = Quiet limit now d.workers
  QuietStep d _ = Unit

  unfoldable pub QuietRun : Dispatcher M → List (Event M) → Type 0
  QuietRun d [] = Unit
  QuietRun d (ev ∷ evs) = QuietStep d ev × QuietRun (step stream cap limit d ev) evs

  InOrder-if :
      (b : Bool) (x y : Dispatcher M)
      → InOrder stream cap limit x
      → InOrder stream cap limit y
      → InOrder stream cap limit (if b then x else y)
  InOrder-if true x y h k = h
  InOrder-if false x y h k = k

  step-InOrder :
      (d : Dispatcher M) (ev : Event M)
      → QuietStep d ev
      → InOrder stream cap limit d
      → InOrder stream cap limit (step stream cap limit d ev)
  unfolding step hear
  step-InOrder d (hears now accepts m) q o = InOrder-if d.stopped d _ o (
      InOrder-if (stream m == "") _ _
        (InOrder-if accepts _ d
          (record {
            order = o.order;
            tagged = o.tagged;
            capped = o.capped;
            drained = o.drained;
            distinct = o.distinct;
          })
          o)
        (send-InOrder stream cap limit now m d o))
  step-InOrder d (ticks now) q o = InOrder-if d.stopped d _ o (record {
    order = λ k. rw (queued-keep_active stream cap limit now d.workers k o.distinct q) (o.order k);
    tagged =
        λ k. rw (queued-keep_active stream cap limit now d.workers k o.distinct q) (o.tagged k);
    capped =
        λ k. rw (queued-keep_active stream cap limit now d.workers k o.distinct q) (o.capped k);
    drained = All-append _ (retire_idle limit now d.workers) d.retired q o.drained;
    distinct = keep_active-IsMap limit now d.workers o.distinct;
  })
  step-InOrder d (takes k) q o = elim (Option-cases (Map.load d.workers k)) [
    | inl e ↦ rw (e, step) o
    | inr (w, e) ↦ rw (e, step) (take_one-InOrder k d w.active w.queue e o)
  ]
  step-InOrder d (drains n) q o = rw (drain-none n d.retired o.drained, step) o
  step-InOrder d stops q o = record {
    order = o.order;
    tagged = o.tagged;
    capped = o.capped;
    drained = o.drained;
    distinct = o.distinct;
  }

  run_from-InOrder :
      (d : Dispatcher M) (evs : List (Event M))
      → QuietRun d evs
      → InOrder stream cap limit d
      → InOrder stream cap limit (run stream cap limit d evs)
  unfolding run QuietRun
  run_from-InOrder d [] q o = o
  run_from-InOrder d (ev ∷ evs) q o =
      run_from-InOrder (step stream cap limit d ev) evs q.1 (step-InOrder d ev q.0 o)

  -- Over any events, as long as the ticker only retires workers whose channels are empty: for each
  -- stream, the messages that were heard are those that the handler was called with, in the same
  -- order, and then those that wait in the channel, at most as many as it holds.
  pub run-InOrder :
      (evs : List (Event M))
      → QuietRun new_dispatcher evs
      → InOrder stream cap limit (run stream cap limit new_dispatcher evs)
  unfolding new_dispatcher worker_of of_stream Map.load
  run-InOrder evs q = run_from-InOrder new_dispatcher evs q (record {
    order = λ k. refl;
    tagged = λ k. tt;
    capped = λ k. omega arith;
    drained = tt;
    distinct = tt;
  })
