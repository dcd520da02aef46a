-- ===== src/Multicast/Published.antt =====
-- What is published is what is heard.
use nodehub.Base.{
  ◌≡◌, ◌≢◌, ◌<◌, refl, sym, ◌∙◌, ℕ, String, Option, none, some, List, [], ◌∷◌, ◌++◌, Bool, true,
  false, not, ◌&&◌, ◌||◌, ◌==◌, string_eq, ltb, leb, length, str_eq_iff, arith, Option-cases,
  Bool-cases, inl, inr, ok,
}
use nodehub.Base.Int.{pos, int_eq, int_beq_iff}
use nodehub.Base.Map
use nodehub.Base.Map.{beq_self}
use nodehub.Multicast.Fifo.{queued-store}
use nodehub.Multicast.{
  Worker, Dispatcher, hears, worker_of, send, hear, step, Message, bus_capacity, bus_idle, stamped,
  enqueue, publish, hear_payload,
}

step-hears :
    {M : Type 0} (stream : M → String) (cap limit : ℕ) (now : ℕ) (accepts : Bool) (m : M)
    (d : Dispatcher M)
    → d.stopped ≡ false
    → stream m ≢ ""
    → length (worker_of stream cap limit d.workers (stream m)).queue < cap
    → let w = worker_of stream cap limit d.workers (stream m) in
      step stream cap limit d (hears now accepts m) ≡ record d {
        workers =
            Map.store d.workers (stream m) (record { queue = w.queue ++ (m ∷ []); active = now });
        received = d.received ++ (m ∷ []);
      }
unfolding step hear send
step-hears stream cap limit now accepts m d r s c =
    let e : (stream m == "") ≡ false = ground (arith, s, str_eq_iff (stream m) "") in
    let f : ltb (length (worker_of stream cap limit d.workers (stream m)).queue) cap ≡ true =
      ground (arith, c) in
    rw (r, e, f, step, hear, send) refl

module _ (marshal : Message → Option (List ℕ)) (enqueues : List ℕ → Bool) where
  stream-stamped : (now : ℕ) (m : Message) → (stamped now m).stream ≡ m.stream
  unfolding stamped
  stream-stamped now m = ground arith

  stamped-kept : (now : ℕ) (m : Message) (t : ℕ) → m.time ≡ some t → stamped now m ≡ m
  unfolding stamped
  stamped-kept now m t e = rw e refl

  stamped-new :
      (now : ℕ) (m : Message) → m.time ≡ none → stamped now m ≡ record m { time = some now }
  unfolding stamped
  stamped-new now m e = rw e refl

  enqueue-ok :
      (m : Message) (bytes : List ℕ)
      → enqueue marshal enqueues m ≡ ok bytes
      → marshal m ≡ some bytes
  unfolding enqueue
  enqueue-ok m bytes h = elim (Option-cases (marshal m)) [
    | inl e ↦ cc (rw (e, enqueue) at h)
    | inr (b, e) ↦ elim (Bool-cases (enqueues b)) [
      | inl f ↦ e ∙ cc (rw (e, f, enqueue) at h)
      | inr f ↦ cc (rw (e, f, enqueue) at h)
    ]
  ]

  publish-ok :
      (now : ℕ) (m : Message) (bytes : List ℕ)
      → publish marshal enqueues now m ≡ ok bytes
      → (enqueue marshal enqueues (stamped now m) ≡ ok bytes)
        × (m.service_code ≢ pos 0)
        × (m.code ≢ pos 0)
        × (m.receiver ≡ [] → m.to_everyone ≡ true)
  unfolding publish
  publish-ok now m bytes h = elim (Bool-cases (m.service_code == pos 0 || m.code == pos 0)) [
    | inl e ↦ cc (rw (e, publish) at h)
    | inr e ↦ elim (Bool-cases (leb (length m.receiver) 0 && not m.to_everyone)) [
      | inl f ↦ cc (rw (e, f, publish) at h)
      | inr f ↦ (
        rw (e, f, publish) at h,
        λ z. ground (arith, e, z, int_beq_iff m.service_code (pos 0)),
        λ z. ground (arith, e, z, int_beq_iff m.code (pos 0)),
        λ z. ground (arith, f, z),
      )
    ]
  ]

  -- A message of a stream that is published has its codes and a receiver. Where proto.Unmarshal
  -- reads back what proto.Marshal wrote, and the bus that hears the payload has not stopped, and
  -- the channel of the stream is not full: the message goes to the channel of its stream, behind
  -- those that wait there, as it was if it had a time, and otherwise with the time of its
  -- publication.
  pub publish-hear_payload :
      (unmarshal : List ℕ → Option Message) (now later : ℕ) (accepts : Bool) (m : Message)
      (bytes : List ℕ) (d : Dispatcher Message)
      → ((x : Message) (b : List ℕ) → marshal x ≡ some b → unmarshal b ≡ some x)
      → publish marshal enqueues now m ≡ ok bytes
      → m.stream ≢ ""
      → d.stopped ≡ false
      → length (worker_of (λ m. m.stream) bus_capacity bus_idle d.workers m.stream).queue
        < bus_capacity
      → (let w = worker_of (λ m. m.stream) bus_capacity bus_idle d.workers m.stream in
          let d' = hear_payload unmarshal later accepts bytes d in
          let w' = worker_of (λ m. m.stream) bus_capacity bus_idle d'.workers m.stream in
          (m' : Message) × (w'.queue ≡ w.queue ++ (m' ∷ []))
          × ((t : ℕ) → m.time ≡ some t → m' ≡ m)
          × (m.time ≡ none → m' ≡ record m { time = some now })
          × (d'.started ≡ d.started)
          × (m.service_code ≢ pos 0)
          × (m.code ≢ pos 0)
          × (m.receiver ≡ [] → m.to_everyone ≡ true))
  unfolding hear_payload
  publish-hear_payload unmarshal now later accepts m bytes d inv h s r c =
      let (e, sc, co, re) = publish-ok now m bytes h in
      let u = inv (stamped now m) bytes (enqueue-ok (stamped now m) bytes e) in
      let k = stream-stamped now m in
      let heard =
        step-hears (λ x. x.stream) bus_capacity bus_idle later accepts (stamped now m) d r
          (λ z. s (sym k ∙ z)) (rw k c) in
      let w = worker_of (λ x. x.stream) bus_capacity bus_idle d.workers m.stream in
      let after : Worker Message = record {
        queue = w.queue ++ (stamped now m ∷ []);
        active = later;
      } in
      let d' : hear_payload unmarshal later accepts bytes d ≡ record d {
        workers = Map.store d.workers m.stream after;
        received = d.received ++ (stamped now m ∷ []);
      } =
        rw (u, hear_payload) (heard ∙ rw k refl) in
      let self : (worker_of (λ x. x.stream) bus_capacity bus_idle
            (Map.store d.workers m.stream after) m.stream).queue
          ≡ after.queue =
        queued-store (λ x. x.stream) bus_capacity bus_idle d.workers m.stream m.stream after
        ∙ rw (beq_self m.stream) refl in
      rw d' (stamped now m, self, stamped-kept now m, stamped-new now m, refl, sc, co, re)
