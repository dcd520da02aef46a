-- ===== src/Gateway/Requests/Tests.antt =====
-- A request that is forwarded, and one that is refused.
use nodehub.Base.{ℕ, ◌≡◌, refl, none, some, [], ◌∷◌, true, string_eq, ok}
use nodehub.Base.Int.{pos}
use nodehub.Base.Map
use nodehub.Cluster.Balancer.Pick.{pick}
use nodehub.Cluster.Resolver.Query.{get_desc, alloc_node, get_conn, get_endpoint_conn}
use nodehub.Cluster.Tests.{alice, sum64, addr_bytes}
use nodehub.Gateway.StateTable.{find, store}
use nodehub.Gateway.Proxy.{
  Request, allocated, alloc, routed, choose, finished, finish, get_upstream,
}
use nodehub.Gateway.Proxy.Tests.{before, asks, parse_id, can_dial}
use nodehub.Gateway.Requests.{
  Reply, Call, Answers, Outside, outgoing, new_empty_message, invoke, forward, dispatch, screened,
  serve, redacted, from_error, error_reply, answered, handle_request,
}
use nodehub.Gateway.Requests.Guarded.{Guarded, handle_request-Guarded}
use nodehub.Gateway.Requests.Replies.{Sent, handle_request-Sent}

abbrev pub outside : Outside ℕ
outside = record {
  sum64 = sum64;
  addr_bytes = addr_bytes;
  parse_id = parse_id;
  can_dial = can_dial;
  text = λ e. "text";
  status_of = λ e. none;
  join = λ dir name. name;
  unmarshal = λ bytes. ok bytes;
  marshal = λ e. some (e.status.code ∷ []);
  node_id = "g1";
}

-- The session's metadata claim another identity.
abbrev pub answers : Answers ℕ
answers = record {
  pass = ok true;
  draw = 3;
  metadata = ("x-sess", "mallory" ∷ []) ∷ [];
  transaction_id = "t1";
  output = ok (record { request_id = 0; service_code = pos 0; code = pos 9; payload = [] });
}

abbrev pub chat_call : Call
chat_call = record {
  conn = 0;
  method = "Say";
  metadata = ("x-sess", "alice" ∷ []) ∷ ("x-trans", "t1" ∷ []) ∷ ("x-gw", "g1" ∷ []) ∷ [];
  input = [];
}

pub calls-asks : (handle_request outside before alice asks answers).0.calls ≡ chat_call ∷ []
unfolding handle_request serve screened dispatch forward invoke new_empty_message outgoing get_desc
    get_upstream choose routed alloc allocated finish finished find store alloc_node get_conn
    get_endpoint_conn pick Map.load Map.store
calls-asks = refl

handle_request-Guarded_example : Guarded outside before alice asks answers chat_call []
handle_request-Guarded_example =
    handle_request-Guarded outside before alice asks answers chat_call [] calls-asks

abbrev pub lost : Request
lost = record asks { service_code = pos 4 }

abbrev lost_reply : Reply
lost_reply = record { request_id = 7; service_code = pos 0; code = pos 1; payload = 12 ∷ [] }

handle_request-lost : (handle_request outside before alice lost answers).1 ≡ ok (lost_reply ∷ [])
unfolding handle_request serve screened dispatch answered error_reply redacted from_error get_desc
    Map.load
handle_request-lost = refl

handle_request-Sent_example :
    Sent outside lost (handle_request outside before alice lost answers).0.result (lost_reply ∷ [])
handle_request-Sent_example =
    handle_request-Sent outside before alice lost answers (lost_reply ∷ []) handle_request-lost
