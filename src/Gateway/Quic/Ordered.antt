-- ===== src/Gateway/Quic/Ordered.antt =====
-- What holds of a QUIC session however its goroutines interleave.
use nodehub.Base.{
  ℕ, ◌≤◌, ◌≡◌, refl, ap, sym, ◌∙◌, inl, inr, ◌⊎◌, Option, none, some, List, [], ◌∷◌, ◌++◌, length,
  nat_beq, nat_eq, Bool, Bool-cases, if-cases, arith, true, false, if◌then◌else◌,
}
use nodehub.Base.Map.{
  load, store, delete, load-store, load-delete, load-store_self, load-delete_self,
}
use nodehub.Gateway.Quic.{
  Worker, reading, offering, stopping, QuicSession, close, accept_stream, offer, take_offer,
  stop_worker, end_stream, check_last, remove_stream,
}
use nodehub.Gateway.Quic.Steps.{
  keys, keys-delete, keys-store_old, keys-store_new, of_stream, of_stream-own, of_stream-other,
  by_stream,
}

-- What a stream's worker still owes to Recv; a worker that has seen `done` drops its message.
abbrev pub Behind : Option Worker → Bool → List (List ℕ) → List (List ℕ) → Type 0
Behind none closed read taken =
    (read ≡ taken) ⊎ ((closed ≡ true) × (payload : List ℕ) × (read ≡ taken ++ payload ∷ []))
Behind (some stopping) closed read taken =
    (read ≡ taken) ⊎ ((closed ≡ true) × (payload : List ℕ) × (read ≡ taken ++ payload ∷ []))
Behind (some reading) closed read taken = read ≡ taken
Behind (some (offering payload)) closed read taken = read ≡ taken ++ payload ∷ []

Behind-closed :
    (w : Option Worker) (c : Bool) (r t : List (List ℕ)) → Behind w c r t → Behind w true r t
Behind-closed none c r t (inl e) = inl e
Behind-closed none c r t (inr (_, p, e)) = inr (refl, p, e)
Behind-closed (some stopping) c r t (inl e) = inl e
Behind-closed (some stopping) c r t (inr (_, p, e)) = inr (refl, p, e)
Behind-closed (some reading) c r t h = h
Behind-closed (some (offering p)) c r t h = h

-- A worker that offers a message leaves its loop only after the session is closed.
abbrev pub MayStop : Worker → Bool → Type 0
MayStop reading closed = Unit
MayStop stopping closed = Unit
MayStop (offering payload) closed = closed ≡ true

Behind-gone :
    (w : Worker) (c : Bool) (r t : List (List ℕ))
    → MayStop w c
    → Behind (some w) c r t
    → Behind none c r t
Behind-gone reading c r t o h = inl h
Behind-gone stopping c r t o h = h
Behind-gone (offering p) c r t e h = inr (e, p, h)

-- Every open stream has its worker; a number that no stream has yet has no messages; and Recv has
-- taken what the worker read, in order.
pub record Flows (qs : QuicSession) (read taken : List (ℕ × List ℕ)) : Type 0 where
  pub alive : qs.streams ≡ keys qs.workers
  pub fresh :
      (id : ℕ)
      → qs.next_stream ≤ id
      → (load qs.workers id ≡ none) × (of_stream id read ≡ []) × (of_stream id taken ≡ [])
  pub ordered :
      (id : ℕ) → Behind (load qs.workers id) qs.closed (of_stream id read) (of_stream id taken)

module _ {read taken : List (ℕ × List ℕ)} where
  pub close-Flows : (qs : QuicSession) → Flows qs read taken → Flows (close qs) read taken
  unfolding close
  close-Flows qs h =
      if-cases (λ q. Flows q read taken) qs.closed _ _ (λ _. h)
        (λ _. record {
          alive = h.alive;
          fresh = h.fresh;
          ordered = λ id. Behind-closed (load qs.workers id) qs.closed _ _ (h.ordered id);
        })

  pub accept_stream-Flows :
      (qs : QuicSession) → Flows qs read taken → Flows (accept_stream qs) read taken
  unfolding accept_stream
  accept_stream-Flows qs h =
      let (free, _, _) = h.fresh qs.next_stream (omega arith) in
      record {
        alive =
            ap (◌++ qs.next_stream ∷ []) h.alive
            ∙ sym (keys-store_new qs.workers qs.next_stream reading free);
        fresh = λ id l.
            let (a, b, c) = h.fresh id (omega (arith, l)) in
            (ground (arith, a, l, load-store qs.workers qs.next_stream id reading), b, c);
        ordered = λ id.
            accepted_behind id (h.ordered id) (h.fresh id)
              (load-store qs.workers qs.next_stream id reading);
      }
    where
      accepted_behind :
          (id : ℕ)
          → Behind (load qs.workers id) qs.closed (of_stream id read) (of_stream id taken)
          → (qs.next_stream ≤ id
              → (load qs.workers id ≡ none) × (of_stream id read ≡ []) × (of_stream id taken ≡ []))
          → (load (store qs.workers qs.next_stream reading) id
              ≡ (if nat_beq qs.next_stream id then some reading else load qs.workers id))
          → Behind
              (load (store qs.workers qs.next_stream reading) id)
              qs.closed
              (of_stream id read)
              (of_stream id taken)
      accepted_behind id o f l = elim (Bool-cases (nat_beq qs.next_stream id)) [
        | inl e ↦ let n : qs.next_stream ≤ id = ground (arith, e) in rw (l, e) (ground (arith, f n))
        | inr e ↦ rw (l, e) o
      ]

  pub offer-Flows :
      (qs : QuicSession) (now id : ℕ) (payload : List ℕ)
      → load qs.workers id ≡ some reading
      → Flows qs read taken
      → Flows (offer now id payload qs) (read ++ (id, payload) ∷ []) taken
  unfolding offer
  offer-Flows qs now id payload e h = record {
    alive = h.alive ∙ sym (keys-store_old qs.workers id reading (offering payload) e);
    fresh = λ j l.
        let (a, b, c) = h.fresh j l in
        let ne : nat_beq id j ≡ false = ground (arith, e, a) in
        (
          ground (arith, a, ne, load-store qs.workers id j (offering payload)),
          of_stream-other id j read payload ne ∙ b,
          c,
        );
    ordered = λ j.
        by_stream
          (λ k.
            Behind (load (store qs.workers id (offering payload)) k) qs.closed
              (of_stream k (read ++ (id, payload) ∷ [])) (of_stream k taken))
          id j
          (rw (load-store_self qs.workers id (offering payload), of_stream-own id read payload)
            (ap (◌++ payload ∷ []) (rw e at (h.ordered id))))
          (λ ne.
            rw
              (
                load-store qs.workers id j (offering payload),
                ne,
                of_stream-other id j read payload ne,
              )
              (h.ordered j));
  }

  pub take_offer-Flows :
      (qs : QuicSession) (id : ℕ) (payload : List ℕ)
      → load qs.workers id ≡ some (offering payload)
      → Flows qs read taken
      → Flows (take_offer id qs) read (taken ++ (id, payload) ∷ [])
  unfolding take_offer
  take_offer-Flows qs id payload e h = record {
    alive = h.alive ∙ sym (keys-store_old qs.workers id (offering payload) reading e);
    fresh = λ j l.
        let (a, b, c) = h.fresh j l in
        let ne : nat_beq id j ≡ false = ground (arith, e, a) in
        (
          ground (arith, a, ne, load-store qs.workers id j reading),
          b,
          of_stream-other id j taken payload ne ∙ c,
        );
    ordered = λ j.
        by_stream
          (λ k.
            Behind (load (store qs.workers id reading) k) qs.closed (of_stream k read)
              (of_stream k (taken ++ (id, payload) ∷ [])))
          id j
          (rw (load-store_self qs.workers id reading, of_stream-own id taken payload)
            (rw e at (h.ordered id)))
          (λ ne.
            rw (load-store qs.workers id j reading, ne, of_stream-other id j taken payload ne)
              (h.ordered j));
  }

  pub stop_worker-Flows :
      (qs : QuicSession) (id : ℕ) (w : Worker)
      → load qs.workers id ≡ some w
      → MayStop w qs.closed
      → Flows qs read taken
      → Flows (stop_worker id qs) read taken
  unfolding stop_worker
  stop_worker-Flows qs id w e o h = record {
    alive = h.alive ∙ sym (keys-store_old qs.workers id w stopping e);
    fresh = λ j l.
        let (a, b, c) = h.fresh j l in
        let ne : nat_beq id j ≡ false = ground (arith, e, a) in
        (ground (arith, a, ne, load-store qs.workers id j stopping), b, c);
    ordered = λ j.
        by_stream
          (λ k.
            Behind (load (store qs.workers id stopping) k) qs.closed (of_stream k read)
              (of_stream k taken))
          id j
          (rw (load-store_self qs.workers id stopping)
            (Behind-gone w qs.closed _ _ o (rw e at (h.ordered id))))
          (λ ne. rw (load-store qs.workers id j stopping, ne) (h.ordered j));
  }

  pub end_stream-Flows :
      (qs : QuicSession) (id : ℕ)
      → load qs.workers id ≡ some stopping
      → Flows qs read taken
      → Flows (end_stream id qs) read taken
  unfolding end_stream
  end_stream-Flows qs id e h = record {
    alive = ap (remove_stream id) h.alive ∙ sym (keys-delete qs.workers id);
    fresh = λ j l.
        let (a, b, c) = h.fresh j l in (ground (arith, a, load-delete qs.workers id j), b, c);
    ordered = λ j.
        by_stream
          (λ k.
            Behind (load (delete qs.workers id) k) qs.closed (of_stream k read) (of_stream k taken))
          id j (rw (load-delete_self qs.workers id) (rw e at (h.ordered id)))
          (λ ne. rw (load-delete qs.workers id j, ne) (h.ordered j));
  }

  pub check_last-Flows :
      (qs : QuicSession) (id : ℕ) → Flows qs read taken → Flows (check_last id qs) read taken
  unfolding check_last
  check_last-Flows qs id h =
      if-cases (λ q. Flows q read taken) (nat_beq (length qs.streams) 0) _ _
        (λ _. close-Flows _ left) (λ _. left)
    where
      left : Flows (record qs { ending = remove_stream id qs.ending }) read taken
      left = record { alive = h.alive; fresh = h.fresh; ordered = h.ordered }
