-- ===== src/Gateway/Requests/Replies.antt =====
-- The replies to a request.
use nodehub.Base.{
  ℕ, ◌≡◌, ◌≢◌, refl, subst, Option, none, some, List, [], ◌∷◌, Bool, true, false, not, nat_eq,
  string_eq, if◌then◌else◌, arith, Outcome, ok, err, panic, Option-cases, Bool-cases, inl, inr,
}
use nodehub.Base.Int.{pos, int_eq}
use nodehub.Cluster.Entry.{GrpcServiceDesc}
use nodehub.Cluster.Balancer.{Session}
use nodehub.Cluster.Resolver.Query.{get_desc}
use nodehub.Gateway.Proxy.{Proxy, Request, UpstreamError, get_upstream}
use nodehub.Gateway.Requests.{
  Status, RequestError, Reply, Served, Answers, Outside, unknown, redacted, from_error, error_reply,
  answered, new_empty_message, replied, invoke, forward, dispatch, screened, serve, handle_request,
}

module _ {E : Type 0} (o : Outside E) where
  -- A reply that the body of handleRequest comes to has the request's identity.
  abbrev IsAnswer : Request → Outcome (RequestError E) (Option Reply) → Type 0
  IsAnswer req (ok none) = req.no_reply ≡ true
  IsAnswer req (ok (some r)) =
      (r.request_id ≡ req.id) × (r.service_code ≡ req.service_code) × (req.no_reply ≡ false)
  IsAnswer req (err e) = Unit
  IsAnswer req panic = Unit

  replied-IsAnswer : (req : Request) (r : Outcome E Reply) → IsAnswer req (replied o req r)
  unfolding replied
  replied-IsAnswer req (err e) = tt
  replied-IsAnswer req panic = tt
  replied-IsAnswer req (ok output) = elim (Bool-cases req.no_reply) [
    | inl e ↦ rw e refl
    | inr e ↦ rw e (refl, refl, refl)
  ]

  invoke-IsAnswer :
      (sess : Session) (req : Request) (desc : GrpcServiceDesc) (a : Answers E) (p : Proxy)
      (conn : ℕ) (input : Outcome E (List ℕ))
      → IsAnswer req (invoke o sess req desc a p conn input).result
  unfolding invoke
  invoke-IsAnswer sess req desc a p conn (ok input) = replied-IsAnswer req a.output
  invoke-IsAnswer sess req desc a p conn (err x) = tt
  invoke-IsAnswer sess req desc a p conn panic = tt

  forward-IsAnswer :
      (sess : Session) (req : Request) (desc : GrpcServiceDesc) (a : Answers E)
      (u : Proxy × Outcome UpstreamError ℕ)
      → IsAnswer req (forward o sess req desc a u).result
  unfolding forward
  forward-IsAnswer sess req desc a (p, ok conn) =
      invoke-IsAnswer sess req desc a p conn (new_empty_message o req.payload)
  forward-IsAnswer sess req desc a (p, err x) = tt
  forward-IsAnswer sess req desc a (p, panic) = tt

  IsAnswer-if :
      (req : Request) (b : Bool) (x y : Served E)
      → IsAnswer req x.result
      → IsAnswer req y.result
      → IsAnswer req (if not b then x else y).result
  IsAnswer-if req true x y h k = k
  IsAnswer-if req false x y h k = h

  dispatch-IsAnswer :
      (p : Proxy) (sess : Session) (req : Request) (a : Answers E) (d : Option GrpcServiceDesc)
      → IsAnswer req (dispatch o p sess req a d).result
  unfolding dispatch
  dispatch-IsAnswer p sess req a none = tt
  dispatch-IsAnswer p sess req a (some desc) =
      let u = get_upstream o.sum64 o.addr_bytes o.parse_id o.can_dial p sess req desc a.draw in
      IsAnswer-if req desc.public _ (forward o sess req desc a u) tt
        (forward-IsAnswer sess req desc a u)

  screened-IsAnswer :
      (p : Proxy) (sess : Session) (req : Request) (a : Answers E) (r : Outcome E Bool)
      → IsAnswer req (screened o p sess req a r).result
  unfolding screened
  screened-IsAnswer p sess req a (err x) = tt
  screened-IsAnswer p sess req a panic = tt
  screened-IsAnswer p sess req a (ok pass) =
      let d = get_desc p.grpc_resolver req.service_code in
      IsAnswer-if req pass _ (dispatch o p sess req a d) tt (dispatch-IsAnswer p sess req a d)

  -- What is sent for a request: a reply with its identity; nothing, for a request that wants no
  -- reply, or for an error without a status; or the error's status with its own text, except that
  -- the text of a status whose code is Unknown is "unknown error".
  pub data Sent (req : Request)
      : Outcome (RequestError E) (Option Reply) → List Reply → Type 0 where
    one :
        (r : Reply)
        → r.request_id ≡ req.id
        → r.service_code ≡ req.service_code
        → req.no_reply ≡ false
        → Sent req (ok (some r)) (r ∷ [])
    silent : req.no_reply ≡ true → Sent req (ok none) []
    unanswered : (e : RequestError E) → from_error o e ≡ none → Sent req (err e) []
    status_sent :
        (e : RequestError E) (s t : Status) (r : Reply)
        → from_error o e ≡ some s
        → t.code ≡ s.code
        → (s.code ≡ unknown → t.message ≡ "unknown error")
        → (s.code ≢ unknown → t.message ≡ s.message)
        → r.request_id ≡ req.id
        → o.marshal
            (record { request_service = req.service_code; request_method = req.method; status = t })
          ≡ some r.payload
        → Sent req (err e) (r ∷ [])

  error_reply-Sent :
      (req : Request) (e : RequestError E) (s : Status) (replies : List Reply)
      → from_error o e ≡ some s
      → error_reply o req s ≡ ok replies
      → Sent req (err e) replies
  unfolding error_reply redacted
  error_reply-Sent req e s replies h k =
      elim (Option-cases (
        o.marshal (record {
          request_service = req.service_code;
          request_method = req.method;
          status = redacted o s;
        }))) [
          | inl n ↦ cc (rw (n, error_reply) at k)
          | inr (bytes, n) ↦
              let r : Reply = record {
                request_id = req.id;
                service_code = pos 0;
                code = pos 1;
                payload = bytes;
              } in
              subst (Sent req (err e)) (cc (rw (n, error_reply) at k)) (
                status_sent e s (redacted o s) r h (ground arith) (ground arith) (ground arith) refl
                  n)
        ]

  answered-Sent :
      (req : Request) (r : Outcome (RequestError E) (Option Reply)) (replies : List Reply)
      → IsAnswer req r
      → answered o req r ≡ ok replies
      → Sent req r replies
  unfolding answered
  answered-Sent req (ok none) replies h k = subst (Sent req (ok none)) (cc k) (silent h)
  answered-Sent req (ok (some r)) replies h k =
      subst (Sent req (ok (some r))) (cc k) (one r h.0 h.1 h.2)
  answered-Sent req (err e) replies h k = elim (Option-cases (from_error o e)) [
    | inl n ↦ subst (Sent req (err e)) (cc (rw (n, answered) at k)) (unanswered e n)
    | inr (s, n) ↦ error_reply-Sent req e s replies n (rw (n, answered) at k)
  ]
  answered-Sent req panic replies h k = cc

  -- Where handling a request does not panic, what is sent for it is one reply with the request's
  -- identity; or nothing, if the request wants no reply or its error has no status; or the error's
  -- status, marshalled, under the request's identity, with its own code, and with its own text
  -- unless the code is Unknown, for which the text is "unknown error".
  pub handle_request-Sent :
      (p : Proxy) (sess : Session) (req : Request) (a : Answers E) (replies : List Reply)
      → (handle_request o p sess req a).1 ≡ ok replies
      → Sent req (handle_request o p sess req a).0.result replies
  unfolding handle_request serve
  handle_request-Sent p sess req a replies h =
      answered-Sent req (serve o p sess req a).result replies
        (screened-IsAnswer p sess req a a.pass) h
