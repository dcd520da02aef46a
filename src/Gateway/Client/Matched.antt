-- ===== src/Gateway/Client/Matched.antt =====
-- A call is handed the reply to its own request.
use nodehub.Base.{
  ◌≡◌, refl, ℕ, Option, none, some, List, [], ◌∷◌, Bool, true, false, not, nat_eq, if◌then◌else◌,
  arith, All, Option-cases, inl, inr, ◌<◌,
}
use nodehub.Base.Map
use nodehub.Base.Map.{Map, load-store, load-delete}
use nodehub.Gateway.Proxy.{Request}
use nodehub.Gateway.Requests.{Reply}
use nodehub.Gateway.Client.{
  Client, new_client, next_id, new_request, send, store_await, deliver, hand, receive, unblock,
  finish_call, end_call, Event, sends, awaits, receives, ends_call, step, run,
}

-- A result that is a reply is one to the request of this identity.
abbrev pub Answers : ℕ × Option Reply → Type 0
Answers (id, none) = Unit
Answers (id, some r) = r.request_id ≡ id

-- What a channel holds is a reply to the request of its call, and so are the results; a call
-- is not registered under another identity.
pub record Matched (cli : Client) : Type 0 where
  pub held :
      (c : ℕ) (r : Reply)
      → Map.load cli.channels c ≡ some r
      → Map.load cli.pending c ≡ some r.request_id
  pub awaited : (i c : ℕ) → Map.load cli.await i ≡ some c → Map.load cli.pending c ≡ some i
  pub fresh : (c i : ℕ) → Map.load cli.pending c ≡ some i → c < cli.next_call
  pub answered : All Answers cli.results

Matched-if : (b : Bool) (x y : Client) → Matched x → Matched y → Matched (if b then x else y)
Matched-if true x y h k = h
Matched-if false x y h k = k

send-Matched :
    (req : Request) (accepts : Bool) (cli : Client) → Matched cli → Matched (send req accepts cli)
unfolding send
send-Matched req accepts cli m =
    Matched-if (not accepts) _ _
      (record { held = m.held; awaited = m.awaited; fresh = m.fresh; answered = m.answered })
      (Matched-if req.no_reply _ _
        (record { held = m.held; awaited = m.awaited; fresh = m.fresh; answered = m.answered })
        (record {
          held = λ c r h. ground (
            arith,
            h,
            m.held c r h,
            m.fresh c r.request_id (m.held c r h),
            load-store cli.pending cli.next_call c req.id,
          );
          awaited = λ i c h. ground (
            arith,
            h,
            m.awaited i c h,
            m.fresh c i (m.awaited i c h),
            load-store cli.pending cli.next_call c req.id,
          );
          fresh = λ c i h.
              ground (arith, h, m.fresh c i, load-store cli.pending cli.next_call c req.id);
          answered = m.answered;
        }))

store_await-Matched : (call : ℕ) (cli : Client) → Matched cli → Matched (store_await call cli)
unfolding store_await
store_await-Matched call cli m = elim (Option-cases (Map.load cli.pending call)) [
  | inl e ↦ rw (e, store_await) m
  | inr (id, e) ↦
      rw (e, store_await)
        (record {
          held = m.held;
          awaited = λ i c h. ground (arith, e, h, m.awaited i c, load-store cli.await id i call);
          fresh = m.fresh;
          answered = m.answered;
        })
]

deliver-Matched :
    (reply : Reply) (call : ℕ) (cli : Client)
    → Map.load cli.await reply.request_id ≡ some call
    → Matched cli
    → Matched (deliver reply call cli)
unfolding deliver
deliver-Matched reply call cli e m = elim (Option-cases (Map.load cli.channels call)) [
  | inr (r, f) ↦
      rw (f, deliver)
        (record { held = m.held; awaited = m.awaited; fresh = m.fresh; answered = m.answered })
  | inl f ↦
      rw (f, deliver)
        (record {
          held = λ c r h. ground (
            arith,
            h,
            m.held c r,
            m.awaited reply.request_id call e,
            load-store cli.channels call c reply,
          );
          awaited = m.awaited;
          fresh = m.fresh;
          answered = m.answered;
        })
]

hand-Matched :
    (reply : Reply) (call : Option ℕ) (cli : Client)
    → Map.load cli.await reply.request_id ≡ call
    → Matched cli
    → Matched (hand reply call cli)
unfolding hand
hand-Matched reply none cli e m = record {
  held = m.held;
  awaited = m.awaited;
  fresh = m.fresh;
  answered = m.answered;
}
hand-Matched reply (some call) cli e m = deliver-Matched reply call cli e m

receive-Matched : (reply : Reply) (cli : Client) → Matched cli → Matched (receive reply cli)
unfolding receive
receive-Matched reply cli m = by_blocked cli.blocked m
  where
    by_blocked :
        (b : Option ℕ)
        → Matched (record cli { blocked = b })
        → Matched (receive reply (record cli { blocked = b }))
    by_blocked none h =
        hand-Matched reply (Map.load cli.await reply.request_id) (record cli { blocked = none })
          refl h
    by_blocked (some c) h = h

-- The call leaves the maps; the other calls stay, unless the identity was given out again.
finish_call-Matched :
    (call id : ℕ) (reply : Option Reply) (cli : Client)
    → Map.load cli.pending call ≡ some id
    → Answers (id, reply)
    → Matched cli
    → Matched (finish_call call id reply cli)
unfolding finish_call
finish_call-Matched call id reply cli e a m = record {
  held = λ c r h.
      ground
        (arith, h, m.held c r, load-delete cli.channels call c, load-delete cli.pending call c);
  awaited = λ i c h.
      ground
        (arith, e, h, m.awaited i c, load-delete cli.await id i, load-delete cli.pending call c);
  fresh = λ c i h. ground (arith, h, m.fresh c i, load-delete cli.pending call c);
  answered = (a, m.answered);
}

end_call-Matched :
    (call : ℕ) (expired : Bool) (cli : Client) → Matched cli → Matched (end_call call expired cli)
unfolding end_call
end_call-Matched call expired cli m = elim (Option-cases (Map.load cli.pending call)) [
  | inl e ↦ rw (e, end_call) m
  | inr (id, e) ↦
      rw (e, end_call)
        (Matched-if expired _ _ (finish_call-Matched call id none cli e tt m)
          (elim (Option-cases (Map.load cli.channels call)) [
            | inl f ↦ rw f m
            | inr (r, f) ↦ rw f (
                finish_call-Matched call id (some r)
                  (record cli { blocked = unblock call cli.blocked }) e (cc (m.held call r f, e))
                  (record {
                    held = m.held;
                    awaited = m.awaited;
                    fresh = m.fresh;
                    answered = m.answered;
                  }))
          ]))
]

step-Matched : (cli : Client) (ev : Event) → Matched cli → Matched (step cli ev)
unfolding step
step-Matched cli (sends service_code method payload options accepts) m =
    send-Matched (new_request (next_id cli) service_code method payload options) accepts cli m
step-Matched cli (awaits call) m = store_await-Matched call cli m
step-Matched cli (receives reply) m = receive-Matched reply cli m
step-Matched cli (ends_call call expired) m = end_call-Matched call expired cli m

run_from-Matched : (cli : Client) (evs : List Event) → Matched cli → Matched (run cli evs)
unfolding run
run_from-Matched cli [] m = m
run_from-Matched cli (ev ∷ evs) m = run_from-Matched (step cli ev) evs (step-Matched cli ev m)

-- After any events on a new client, in any order, with any replies, and even where the numbers of
-- its requests come round: the reply that a call was handed has the identity of its request, and
-- so has what the channel of a waiting call holds.
pub run-Matched : (evs : List Event) → Matched (run new_client evs)
unfolding new_client Map.load
run-Matched evs =
    run_from-Matched new_client evs
      (record { held = λ c r h. cc; awaited = λ i c h. cc; fresh = λ c i h. cc; answered = tt })
