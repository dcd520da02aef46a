-- ===== src/Gateway/Requests.antt =====
-- component/gateway/proxy.go: handleRequest, one request of a session from the interceptor to the
-- reply.
pub mod Guarded
pub mod Replies
pub mod Tests
use nodehub.Base.{
  ℕ, String, Option, none, some, List, [], ◌∷◌, Bool, true, false, not, ◌==◌, nat_eq, string_eq,
  if◌then◌else◌, Outcome, ok, err, panic,
}
use nodehub.Base.Int.{ℤ, pos, int_eq}
use nodehub.Base.Map
use nodehub.Base.Map.{Map}
use nodehub.Cluster.Entry.{GrpcServiceDesc}
use nodehub.Cluster.Balancer.{Session}
use nodehub.Cluster.Resolver.Query.{get_desc}
use nodehub.Gateway.Lifecycle.{Metadata}
use nodehub.Gateway.Proxy.{
  Proxy, Request, UpstreamError, pick_failed, invalid_node_id, no_node_allocated, conn_failed,
  get_upstream,
}

-- google.golang.org/grpc/codes
abbrev pub unknown : ℕ
unknown = 2

abbrev pub invalid_argument : ℕ
invalid_argument = 3

abbrev pub permission_denied : ℕ
permission_denied = 7

abbrev pub aborted : ℕ
aborted = 10

abbrev pub unimplemented : ℕ
unimplemented = 12

pub record Status : Type 0 where
  pub code : ℕ
  pub message : String

-- The errors of other code are of the type `E`.
pub data RequestError (E : Type 0) : Type 0 where
  interceptor_failed : E → RequestError E
  interceptor_denied : RequestError E
  unknown_service : ℤ → RequestError E
  private_service : RequestError E
  upstream_failed : UpstreamError → RequestError E
  unmarshal_failed : E → RequestError E
  invoke_failed : E → RequestError E

pub record Reply : Type 0 where
  pub request_id : ℕ
  pub service_code : ℤ
  pub code : ℤ
  pub payload : List ℕ

pub record RpcError : Type 0 where
  pub request_service : ℤ
  pub request_method : String
  pub status : Status

-- A call of `conn.Invoke`: the metadata go with the context.
pub record Call : Type 0 where
  pub conn : ℕ
  pub method : String
  pub metadata : Metadata
  pub input : List ℕ

abbrev pub md_transaction_id : String
md_transaction_id = "x-trans"

abbrev pub md_sess_id : String
md_sess_id = "x-sess"

abbrev pub md_gateway : String
md_gateway = "x-gw"

-- What the body of the function comes to: the state, the calls that were made, and the reply to
-- send, which is none if the request asks for none.
pub record Served (E : Type 0) : Type 0 where
  pub proxy : Proxy
  pub calls : List Call
  pub result : Outcome (RequestError E) (Option Reply)

-- What other code answers in the course of the request: the interceptor, the draw of the
-- balancer, the session's metadata, the identity of the transaction, and the upstream.
pub record Answers (E : Type 0) : Type 0 where
  pub pass : Outcome E Bool
  pub draw : ℕ
  pub metadata : Metadata
  pub transaction_id : String
  pub output : Outcome E Reply

unfoldable pub upstream_code : UpstreamError → ℕ
upstream_code (pick_failed e) = aborted
upstream_code invalid_node_id = invalid_argument
upstream_code no_node_allocated = aborted
upstream_code (conn_failed e) = aborted

-- The code that is not the repository's, and the gateway's identity: the parameters of
-- getUpstream; the texts of the errors; `status.FromError` on an error of other code, as it is
-- wrapped; `path.Join`; `proto.Unmarshal` into an Empty, which keeps what it reads as unknown
-- fields; `proto.Marshal` of an RPCError.
pub record Outside (E : Type 0) : Type 0 where
  pub sum64 : String → ℕ
  pub addr_bytes : String → Option (List ℕ)
  pub parse_id : String → Option ℕ
  pub can_dial : String → Bool
  pub text : RequestError E → String
  pub status_of : RequestError E → Option Status
  pub join : String → String → String
  pub unmarshal : List ℕ → Outcome E (List ℕ)
  pub marshal : RpcError → Option (List ℕ)
  pub node_id : String

module _ {E : Type 0} (o : Outside E) where
  -- `status.FromError`: the errors made by package status are their status.
  unfoldable pub from_error : RequestError E → Option Status
  from_error (unknown_service code) =
      some (record { code = unimplemented; message = o.text (unknown_service code) })
  from_error private_service =
      some (record { code = permission_denied; message = o.text private_service })
  from_error (upstream_failed e) =
      some (record { code = upstream_code e; message = o.text (upstream_failed e) })
  from_error e = o.status_of e

  unfoldable pub new_empty_message : List ℕ → Outcome E (List ℕ)
  new_empty_message [] = ok []
  new_empty_message (b ∷ bytes) = o.unmarshal (b ∷ bytes)

  unfoldable pub outgoing : Session → Answers E → Metadata
  outgoing sess a =
      Map.store
        (Map.store (Map.store a.metadata md_transaction_id (a.transaction_id ∷ [])) md_sess_id
          (sess.id ∷ []))
        md_gateway (o.node_id ∷ [])

  unfoldable pub replied : Request → Outcome E Reply → Outcome (RequestError E) (Option Reply)
  replied req (err e) = err (invoke_failed e)
  replied req panic = panic
  replied req (ok output) =
      if req.no_reply
      then ok none
      else ok (some (record output { request_id = req.id; service_code = req.service_code }))

  unfoldable pub invoke :
      Session → Request → GrpcServiceDesc → Answers E → Proxy → ℕ → Outcome E (List ℕ) → Served E
  invoke sess req desc a p conn (ok input) = record {
    proxy = p;
    calls =
        record {
          conn = conn;
          method = o.join desc.path req.method;
          metadata = outgoing sess a;
          input = input;
        }
        ∷ [];
    result = replied req a.output;
  }
  invoke sess req desc a p conn (err e) = record {
    proxy = p;
    calls = [];
    result = err (unmarshal_failed e);
  }
  invoke sess req desc a p conn panic = record { proxy = p; calls = []; result = panic }

  unfoldable pub forward :
      Session → Request → GrpcServiceDesc → Answers E → Proxy × Outcome UpstreamError ℕ → Served E
  forward sess req desc a (p, ok conn) =
      invoke sess req desc a p conn (new_empty_message req.payload)
  forward sess req desc a (p, err e) = record {
    proxy = p;
    calls = [];
    result = err (upstream_failed e);
  }
  forward sess req desc a (p, panic) = record { proxy = p; calls = []; result = panic }

  -- From GetGRPCDesc on.
  unfoldable pub dispatch :
      Proxy → Session → Request → Answers E → Option GrpcServiceDesc → Served E
  dispatch p sess req a none = record {
    proxy = p;
    calls = [];
    result = err (unknown_service req.service_code);
  }
  dispatch p sess req a (some desc) =
      if not desc.public
      then record { proxy = p; calls = []; result = err private_service }
      else forward sess req desc a
          (get_upstream o.sum64 o.addr_bytes o.parse_id o.can_dial p sess req desc a.draw)

  -- From the answer of the interceptor on.
  unfoldable pub screened : Proxy → Session → Request → Answers E → Outcome E Bool → Served E
  screened p sess req a (err e) = record {
    proxy = p;
    calls = [];
    result = err (interceptor_failed e);
  }
  screened p sess req a panic = record { proxy = p; calls = []; result = panic }
  screened p sess req a (ok pass) =
      if not pass
      then record { proxy = p; calls = []; result = err interceptor_denied }
      else dispatch p sess req a (get_desc p.grpc_resolver req.service_code)

  unfoldable pub serve : Proxy → Session → Request → Answers E → Served E
  serve p sess req a = screened p sess req a a.pass

  unfoldable pub redacted : Status → Status
  redacted s = if s.code == unknown then record { code = unknown; message = "unknown error" } else s

  -- The deferred function, on an error. NewReply answers nil for what cannot be marshalled, and
  -- SetRequestId panics on it.
  unfoldable pub error_reply : Request → Status → Outcome (RequestError E) (List Reply)
  error_reply req s =
      elim (o.marshal (record {
        request_service = req.service_code;
        request_method = req.method;
        status = redacted s;
      })) [
        | some bytes ↦ ok (
            record { request_id = req.id; service_code = pos 0; code = pos 1; payload = bytes }
            ∷ [])
        | none ↦ panic
      ]

  -- The replies that are sent.
  unfoldable pub answered :
      Request → Outcome (RequestError E) (Option Reply) → Outcome (RequestError E) (List Reply)
  answered req (ok none) = ok []
  answered req (ok (some reply)) = ok (reply ∷ [])
  answered req (err e) = elim (from_error e) [ none ↦ ok [] | some s ↦ error_reply req s ]
  answered req panic = panic

  unfoldable pub handle_request :
      Proxy → Session → Request → Answers E → Served E × Outcome (RequestError E) (List Reply)
  handle_request p sess req a =
      let served = serve p sess req a in (served, answered req served.result)
