-- ===== src/Gateway/Client.antt =====
-- component/gateway/client/client.go: the calls of a client, and the replies that they wait for.
pub mod Matched
pub mod Errors
pub mod Dial
pub mod Wire
pub mod Tests
use nodehub.Base.{
  ◌≡◌, ℕ, ◌+◌, ◌%◌, ◌^◌, String, Option, none, some, List, [], ◌∷◌, ◌++◌, Bool, true, false, not,
  ◌&&◌, ◌==◌, nat_eq, if◌then◌else◌, Outcome, ok, err, panic,
}
use nodehub.Base.Int.{ℤ, pos, int_eq}
use nodehub.Base.Map
use nodehub.Base.Map.{Map}
use nodehub.Gateway.Proxy.{Request}
use nodehub.Gateway.Requests.{Reply, RpcError, Status}

abbrev pub CallOption : Type 0
CallOption = Request → Request

unfoldable pub with_node : String → CallOption
with_node node_id req = record req { node_id = node_id }

unfoldable pub with_no_reply : CallOption
with_no_reply req = record req { no_reply = true }

unfoldable pub with_stream : String → CallOption
with_stream stream req = record req { stream = stream }

unfoldable pub apply_options : List CallOption → CallOption
apply_options [] req = req
apply_options (opt ∷ options) req = apply_options options (opt req)

-- A call is a number; `pending` has the identity of its request from `send` on, `await` is the
-- map of the client, and `channels` what the channel of a call holds, which has room for one reply.
-- `blocked` is the call whose full channel receiveLoop waits for.
-- `sent`, `observed` and `results` list what was given to the connection, to the subscribers, and
-- to the callers with the identities of their requests, the last first.
pub record Client : Type 0 where
  pub seq : ℕ
  pub next_call : ℕ
  pub pending : Map ℕ ℕ
  pub await : Map ℕ ℕ
  pub channels : Map ℕ Reply
  pub sent : List Request
  pub blocked : Option ℕ
  pub observed : List Reply
  pub results : List (ℕ × Option Reply)

unfoldable pub new_client : Client
new_client = record {
  seq = 0;
  next_call = 0;
  pending = [];
  await = [];
  channels = [];
  sent = [];
  blocked = none;
  observed = [];
  results = [];
}

-- `seq.Add(1)`, on 32 bits.
abbrev pub next_id : Client → ℕ
next_id cli = (cli.seq + 1) % 2 ^ 32

unfoldable pub new_request : ℕ → ℤ → String → List ℕ → List CallOption → Request
new_request id service_code method payload options = apply_options options (record {
  id = id;
  service_code = service_code;
  method = method;
  payload = payload;
  node_id = "";
  no_reply = false;
  stream = "";
})

-- `accepts` is whether the request is marshalled and the connection takes it: Call returns an error
-- if not. A request without a reply ends the call, too. An input that cannot be marshalled changes
-- nothing.
unfoldable pub send : Request → Bool → Client → Client
send req accepts cli =
    let numbered = record cli { seq = next_id cli } in
    if not accepts
    then numbered
    else if req.no_reply
    then record numbered { sent = req ∷ cli.sent }
    else record numbered {
      sent = req ∷ cli.sent;
      pending = Map.store cli.pending cli.next_call req.id;
      next_call = cli.next_call + 1;
    }

-- `await.Store`, after the request was sent.
unfoldable pub store_await : ℕ → Client → Client
store_await call cli = elim (Map.load cli.pending call) [
  | some id ↦ record cli { await = Map.store cli.await id call }
  | none ↦ cli
]

-- From the channel of the call on.
unfoldable pub deliver : Reply → ℕ → Client → Client
deliver reply call cli = elim (Map.load cli.channels call) [
  | none ↦ record cli { channels = Map.store cli.channels call reply }
  | some _ ↦ record cli { blocked = some call }
]

-- From the map of the awaited replies on.
unfoldable pub hand : Reply → Option ℕ → Client → Client
hand reply none cli = record cli { observed = reply ∷ cli.observed }
hand reply (some call) cli = deliver reply call cli

-- A round of receiveLoop; while its send waits for a full channel, nothing is received.
unfoldable pub receive : Reply → Client → Client
receive reply cli = elim cli.blocked [
  | some _ ↦ cli
  | none ↦ hand reply (Map.load cli.await reply.request_id) cli
]

unfoldable pub finish_call : ℕ → ℕ → Option Reply → Client → Client
finish_call call id reply cli = record cli {
  pending = Map.delete cli.pending call;
  await = Map.delete cli.await id;
  channels = Map.delete cli.channels call;
  results = (id, reply) ∷ cli.results;
}

-- Once a reply is taken from the channel, the send that waited for it ends.
unfoldable pub unblock : ℕ → Option ℕ → Option ℕ
unblock call none = none
unblock call (some c) = if c == call then none else some c

-- The select of Call, with the deferred Delete: `expired` is whether it takes the context's end.
unfoldable pub end_call : ℕ → Bool → Client → Client
end_call call expired cli = elim (Map.load cli.pending call) [
  | none ↦ cli
  | some id ↦ if expired then finish_call call id none cli else elim (Map.load cli.channels call) [
    | none ↦ cli
    | some reply ↦
        finish_call call id (some reply) (record cli { blocked = unblock call cli.blocked })
  ]
]

-- What happens to a client, in any order.
pub data Event : Type 0 where
  sends : ℤ → String → List ℕ → List CallOption → Bool → Event
  awaits : ℕ → Event
  receives : Reply → Event
  ends_call : ℕ → Bool → Event

unfoldable pub step : Client → Event → Client
step cli (sends service_code method payload options accepts) =
    send (new_request (next_id cli) service_code method payload options) accepts cli
step cli (awaits call) = store_await call cli
step cli (receives reply) = receive reply cli
step cli (ends_call call expired) = end_call call expired cli

unfoldable pub run : Client → List Event → Client
run cli [] = cli
run cli (ev ∷ evs) = run (step cli ev) evs

-- The replies that a subscriber of this service and code is handed.
unfoldable pub subscribed : ℤ → ℤ → List Reply → List Reply
subscribed service_code code [] = []
subscribed service_code code (reply ∷ replies) =
    let rest = subscribed service_code code replies in
    if reply.service_code == service_code && reply.code == code then reply ∷ rest else rest

pub data CallError (E : Type 0) : Type 0 where
  error_not_decoded reply_not_decoded : E → CallError E
  rpc_status : Status → CallError E

-- Parameters: `proto.Unmarshal` into an RPCError and into the output.
module _ {E : Type 0} {M : Type 0} (unmarshal_error : List ℕ → Outcome E RpcError)
    (unmarshal : List ℕ → Outcome E M) where
  -- `status.FromProto(…).Err()` is no error for the code 0; the output is left as it was then.
  unfoldable pub status_error : Status → Outcome (CallError E) (Option M)
  status_error s = if s.code == 0 then ok none else err (rpc_status s)

  unfoldable pub decoded_error : Outcome E RpcError → Outcome (CallError E) (Option M)
  decoded_error (ok e) = status_error e.status
  decoded_error (err e) = err (error_not_decoded e)
  decoded_error panic = panic

  unfoldable pub decoded : Outcome E M → Outcome (CallError E) (Option M)
  decoded (ok m) = ok (some m)
  decoded (err e) = err (reply_not_decoded e)
  decoded panic = panic

  -- What Call makes of a reply.
  unfoldable pub call_result : Reply → Outcome (CallError E) (Option M)
  call_result reply =
      if reply.service_code == pos 0 && reply.code == pos 1
      then decoded_error (unmarshal_error reply.payload)
      else decoded (unmarshal reply.payload)
