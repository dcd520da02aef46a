-- ===== src/Gateway/Client/Errors.antt =====
-- The error of a request, from the gateway to the caller.
use nodehub.Base.{
  ◌≡◌, ◌≢◌, ◌==◌, if◌then◌else◌, refl, subst, ℕ, some, List, [], ◌∷◌, nat_eq, arith, Option-cases,
  inl, inr, Outcome, ok, err,
}
use nodehub.Base.Int.{pos, int_eq}
use nodehub.Cluster.Balancer.{Session}
use nodehub.Gateway.Proxy.{Proxy, Request}
use nodehub.Gateway.Requests.{
  Status, RequestError, Reply, RpcError, Answers, Outside, redacted, from_error, error_reply,
  answered, handle_request,
}
use nodehub.Gateway.Client.{rpc_status, status_error, decoded_error, call_result}

module _ {E F M : Type 0} (o : Outside E) (unmarshal_error : List ℕ → Outcome F RpcError)
    (unmarshal : List ℕ → Outcome F M) where
  status_error-redacted :
      (s : Status)
      → s.code ≢ 0
      → status_error unmarshal_error unmarshal (redacted o s) ≡ err (rpc_status (redacted o s))
  unfolding status_error redacted
  status_error-redacted s c = ground (arith, c)

  head_ok :
      (r x : Reply)
      → ◌≡◌ {A = Outcome (RequestError E) (List Reply)} (ok (r ∷ [])) (ok (x ∷ []))
      → r ≡ x
  head_ok r x h = cc h

  error_reply-call_result :
      (req : Request) (s : Status) (reply : Reply)
      → ((e : RpcError) (bytes : List ℕ) → o.marshal e ≡ some bytes → unmarshal_error bytes ≡ ok e)
      → s.code ≢ 0
      → error_reply o req s ≡ ok (reply ∷ [])
      → (reply.request_id ≡ req.id)
        × (call_result unmarshal_error unmarshal reply ≡ err (rpc_status (redacted o s)))
  unfolding error_reply call_result decoded_error status_error redacted
  error_reply-call_result req s reply inv c h =
      let e : RpcError = record {
        request_service = req.service_code;
        request_method = req.method;
        status = redacted o s;
      } in
      elim (Option-cases (o.marshal e)) [
        | inl n ↦ cc (rw (n, error_reply) at h)
        | inr (bytes, n) ↦
            let r : Reply = record {
              request_id = req.id;
              service_code = pos 0;
              code = pos 1;
              payload = bytes;
            } in
            subst
              (λ x.
                (x.request_id ≡ req.id)
                × (call_result unmarshal_error unmarshal x ≡ err (rpc_status (redacted o s))))
              (head_ok r reply (rw (n, error_reply) at h))
              (refl, rw (inv e bytes n, decoded_error) (status_error-redacted s c))
      ]

  -- An error of a request that is a status, other than the code 0, reaches the caller: where
  -- handling the request sends a reply, and proto.Unmarshal reads back what proto.Marshal wrote, the
  -- reply has the request's identity, and Call returns the status, code and text, but for the code
  -- Unknown, 2, for which the text is "unknown error".
  pub handle_request-call_result :
      (p : Proxy) (sess : Session) (req : Request) (a : Answers E) (e : RequestError E) (s : Status)
      (reply : Reply)
      → ((x : RpcError) (bytes : List ℕ) → o.marshal x ≡ some bytes → unmarshal_error bytes ≡ ok x)
      → (handle_request o p sess req a).0.result ≡ err e
      → from_error o e ≡ some s
      → s.code ≢ 0
      → (handle_request o p sess req a).1 ≡ ok (reply ∷ [])
      → (reply.request_id ≡ req.id)
        × (call_result unmarshal_error unmarshal reply
            ≡ err (
                rpc_status
                  (if s.code == 2 then record { code = 2; message = "unknown error" } else s)))
  unfolding handle_request answered redacted
  handle_request-call_result p sess req a e s reply inv r f c h =
      error_reply-call_result req s reply inv c (rw (r, answered, f) at h)
