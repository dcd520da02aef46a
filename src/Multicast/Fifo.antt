-- ===== src/Multicast/Fifo.antt =====
-- The messages of a stream are handed to the handler in the order in which they were heard.
use nodehub.Base.{
  append_assoc, append_nil, All-append, ◌≡◌, ◌≤◌, refl, sym, ap, subst, ◌∙◌, ℕ, String, none, some,
  List, [], ◌∷◌, ◌++◌, true, ◌==◌, nat_eq, string_eq, if◌then◌else◌, ltb, length, length-append,
  str_eq_iff, arith, All, Option-cases, Bool-cases, inl, inr,
}
use nodehub.Base.Map
use nodehub.Base.Map.{Map, IsMap, load-store}
use nodehub.Multicast.{Worker, Dispatcher, is_idle, keep_active, retire_idle, worker_of, send}

load-keep_active :
    {M : Type 0} (limit now : ℕ) (workers : Map String (Worker M)) (k : String)
    → IsMap workers
    → Map.load (keep_active limit now workers) k ≡ (elim (Map.load workers k) [
      | none ↦ none
      | some w ↦ if is_idle limit now w then none else some w
    ])
unfolding keep_active Map.load
load-keep_active limit now [] k h = refl
load-keep_active limit now ((j, w) ∷ workers) k h =
    ground (arith, h, load-keep_active limit now workers k h.1, str_eq_iff j k)

pub keep_active-IsMap :
    {M : Type 0} (limit now : ℕ) (workers : Map String (Worker M))
    → IsMap workers
    → IsMap (keep_active limit now workers)
unfolding keep_active
keep_active-IsMap limit now [] h = tt
keep_active-IsMap limit now ((j, w) ∷ workers) h =
    ground (
      arith,
      h.0,
      load-keep_active limit now workers j h.1,
      keep_active-IsMap limit now workers h.1,
    )

-- The ticker retires only workers with nothing left to take.
abbrev pub Quiet : {M : Type 0} → ℕ → ℕ → Map String (Worker M) → Type 0
Quiet limit now workers = All (λ r. r.1 ≡ []) (retire_idle limit now workers)

queue-Quiet :
    {M : Type 0} (limit now : ℕ) (workers : Map String (Worker M)) (k : String) (w : Worker M)
    → Quiet limit now workers
    → Map.load workers k ≡ some w
    → is_idle limit now w ≡ true
    → w.queue ≡ []
unfolding retire_idle Map.load
queue-Quiet limit now [] k w q l i = cc
queue-Quiet limit now ((j, v) ∷ workers) k w q l i = elim (Bool-cases (is_idle limit now v)) [
  | inl e ↦ ground (arith, q, l, i, e, queue-Quiet limit now workers k w)
  | inr e ↦ ground (arith, q, l, i, e, queue-Quiet limit now workers k w)
]

module _ {M : Type 0} (stream : M → String) (cap limit : ℕ) where
  -- The messages of a stream among others.
  unfoldable pub of_stream : String → List M → List M
  of_stream k [] = []
  of_stream k (m ∷ ms) = let rest = of_stream k ms in if stream m == k then m ∷ rest else rest

  of_stream-append :
      (k : String) (xs ys : List M) → of_stream k (xs ++ ys) ≡ of_stream k xs ++ of_stream k ys
  unfolding of_stream
  of_stream-append k [] ys = refl
  of_stream-append k (x ∷ xs) ys = ground (arith, of_stream-append k xs ys)

  abbrev pub queued : Map String (Worker M) → String → List M
  queued workers k = (worker_of stream cap limit workers k).queue

  -- What a stream was sent, is what the handler was called with, and then what waits for it.
  pub record InOrder (d : Dispatcher M) : Type 0 where
    pub order : (k : String) → of_stream k d.received ≡ of_stream k d.started ++ queued d.workers k
    pub tagged : (k : String) → All (λ m. stream m ≡ k) (queued d.workers k)
    pub capped : (k : String) → length (queued d.workers k) ≤ cap
    pub drained : All (λ r. r.1 ≡ []) d.retired
    pub distinct : IsMap d.workers

  pub queued-store :
      (workers : Map String (Worker M)) (j k : String) (w : Worker M)
      → queued (Map.store workers j w) k ≡ (if j == k then w.queue else queued workers k)
  unfolding worker_of
  queued-store workers j k w = ground (arith, load-store workers j k w)

  pub queued-keep_active :
      (now : ℕ) (workers : Map String (Worker M)) (k : String)
      → IsMap workers
      → Quiet limit now workers
      → queued (keep_active limit now workers) k ≡ queued workers k
  unfolding worker_of
  queued-keep_active now workers k h q = elim (Option-cases (Map.load workers k)) [
    | inl e ↦ ground (arith, e, load-keep_active limit now workers k h)
    | inr (w, e) ↦ elim (Bool-cases (is_idle limit now w)) [
      | inl i ↦ ground (
        arith,
        e,
        i,
        load-keep_active limit now workers k h,
        queue-Quiet limit now workers k w q e i,
      )
      | inr i ↦ ground (arith, e, i, load-keep_active limit now workers k h)
    ]
  ]

  of_stream-one :
      (k : String) (m : M) → of_stream k (m ∷ []) ≡ (if stream m == k then m ∷ [] else [])
  unfolding of_stream
  of_stream-one k m = refl

  -- A message goes behind those of its stream, and leaves the other streams as they are.
  sent_order :
      (k : String) (m : M) (received started : List M) (queue : List M)
      → of_stream k received ≡ of_stream k started ++ queue
      → of_stream k (received ++ (m ∷ []))
        ≡ of_stream k started ++ (if stream m == k then queue ++ (m ∷ []) else queue)
  sent_order k m received started queue h =
      rw (of_stream-append k received (m ∷ []), h, of_stream-one k m)
        (elim (Bool-cases (stream m == k)) [
          | inl e ↦ rw e (append_assoc (of_stream k started) queue (m ∷ []))
          | inr e ↦ rw e (append_nil (of_stream k started ++ queue))
        ])

  -- What the handler takes was the first of its stream.
  pub taken_order :
      (k j : String) (m : M) (received started queue rest : List M)
      → stream m ≡ j
      → of_stream k received ≡ of_stream k started ++ (if j == k then m ∷ rest else queue)
      → of_stream k received ≡ of_stream k (started ++ (m ∷ [])) ++ (if j == k then rest else queue)
  taken_order k j m received started queue rest s h =
      rw (of_stream-append k started (m ∷ []), of_stream-one k m, s)
        (h ∙ elim (Bool-cases (j == k)) [
          | inl e ↦ rw e (sym (append_assoc (of_stream k started) (m ∷ []) rest))
          | inr e ↦ rw e (sym (ap (λ x. x ++ queue) (append_nil (of_stream k started))))
        ])

  pub queued_self :
      (workers : Map String (Worker M)) (j k : String)
      → (j == k) ≡ true
      → queued workers j ≡ queued workers k
  queued_self workers j k e = ap (queued workers) ((str_eq_iff j k).0 e)

  pub send-InOrder :
      (now : ℕ) (m : M) (d : Dispatcher M) → InOrder d → InOrder (send stream cap limit now m d)
  unfolding send
  send-InOrder now m d o = elim (Bool-cases (ltb (length (queued d.workers (stream m))) cap)) [
    | inr e ↦ rw (e, send) o
    | inl e ↦
        let w = worker_of stream cap limit d.workers (stream m) in
        let after = record w { queue = w.queue ++ (m ∷ []); active = now } in
        rw (e, send)
          (record {
            order = λ k. rw (queued-store d.workers (stream m) k after) (
                sent_order k m d.received d.started (queued d.workers k) (o.order k)
                ∙ ap (λ x. of_stream k d.started ++ x)
                    (elim (Bool-cases (stream m == k)) [
                      | inl s ↦
                          rw s
                            (ap (λ x. x ++ (m ∷ [])) (sym (queued_self d.workers (stream m) k s)))
                      | inr s ↦ rw s refl
                    ]));
            tagged = λ k.
                rw (queued-store d.workers (stream m) k after) (elim (Bool-cases (stream m == k)) [
                  | inl s ↦ rw s (
                      All-append _ w.queue (m ∷ [])
                        (subst (All (λ x. stream x ≡ k))
                          (sym (queued_self d.workers (stream m) k s)) (o.tagged k))
                        ((str_eq_iff (stream m) k).0 s, tt))
                  | inr s ↦ rw s (o.tagged k)
                ]);
            capped = λ k. ground (
              arith,
              e,
              o.capped k,
              queued-store d.workers (stream m) k after,
              length-append w.queue (m ∷ []),
            );
            drained = o.drained;
            distinct = Map.store-IsMap d.workers (stream m) after o.distinct;
          })
  ]
